-- ===== src/Client/Phases.antt =====
-- What connecting and publishing do to a request: whether it has ended or is pending.
use Prim.Native.String.{String}
use text.Mathlib.TextPositions.{eq_refl}
use nestjs_jetstream.Prelude.{
  ◌≤◌, ◌≡◌, refl, true, false, Option, none, some, List, ◌++◌, map, arith, Bool-cases, inl, inr,
}
use nestjs_jetstream.Maps.{lookup}
use nestjs_jetstream.Event.Actions.{Thrown, error, HeaderCall}
use nestjs_jetstream.Inbox.{Inbox, discard}
use nestjs_jetstream.Inbox.Counts.{count, count-found, count-not_found}
use nestjs_jetstream.Client.Emit.{PublishStatus, success, errored}
use nestjs_jetstream.Client.Request.{
  Request, Call, of_own_discard, finished, Published, acknowledged, refused, report_published,
  report_completed, if_discarded, errors, on_error, no_inbox, publish_pending, if_pending,
  on_connected, on_published,
}
use nestjs_jetstream.Client.Ended.{ended, ended-append, ended-of_own_discard, total}

module _ {K D B : Type 0} (q : Request K B) where
  ended-reports :
      (u v : PublishStatus) (t : List (Call K D B))
      → ended q.id (report_published q u ++ (report_completed q v ++ t)) ≡ ended q.id t
  ended-reports u v t = elim (Bool-cases q.wants_published) [
    | inl e ↦ elim (Bool-cases q.wants_completed) [
      | inl f ↦ rw (e, f) refl
      | inr f ↦ rw (e, f) refl
    ]
    | inr e ↦ elim (Bool-cases q.wants_completed) [
      | inl f ↦ rw (e, f) refl
      | inr f ↦ rw (e, f) refl
    ]
  ]

  if_discarded-total :
      (o : Option K) (after : List (Call K D B)) (s : Inbox K)
      → lookup q.id s.pending ≡ o
      → count q.id s.pending ≤ 1
      → ended q.id after ≡ 1
      → total q.id (if_discarded q o after (discard q.id s)) ≡ count q.id s.pending
  unfolding discard
  if_discarded-total none after s e h a = omega (
    arith,
    ended-of_own_discard B q.id (discard {D = D} q.id s).1,
    count-not_found q.id q.id s.pending e,
  )
  if_discarded-total (some k) after s e h a = ground (
    arith,
    ended-of_own_discard B q.id (discard {D = D} q.id s).1,
    ended-append q.id (map of_own_discard (discard {D = D} q.id s).1) after,
    count-found q.id q.id k s.pending e h,
    eq_refl q.id,
  )

module _ {K B : Type 0} (D : Type 0) (q : Request K B) where
  on_error-total :
      (e : Thrown) (s : Inbox K)
      → count q.id s.pending ≤ 1
      → total {D = D} q.id (on_error q e s) ≡ count q.id s.pending
  unfolding on_error
  on_error-total e s h =
      if_discarded-total q (lookup q.id s.pending) (errors q e) s refl h
        (ended-reports q errored errored _)

  publish_pending-total :
      (k : K) (a : Option String) (hs : List HeaderCall) (s : Inbox K)
      → lookup q.id s.pending ≡ some k
      → count q.id s.pending ≤ 1
      → total {D = D} q.id (publish_pending q a hs s) ≡ count q.id s.pending
  publish_pending-total k (some a) hs s e h = omega arith
  publish_pending-total k none hs s e h =
      if_discarded-total q (some k) (no_inbox q) s e h (ended-reports q errored errored _)

  if_pending-total :
      (o : Option K) (hs : List HeaderCall) (s : Inbox K)
      → lookup q.id s.pending ≡ o
      → count q.id s.pending ≤ 1
      → total {D = D} q.id (if_pending q o hs s) ≡ count q.id s.pending
  if_pending-total none hs s e h = omega arith
  if_pending-total (some k) hs s e h = publish_pending-total k s.address hs s e h

  pub on_connected-total :
      (o : Option Thrown) (hs : List HeaderCall) (s : Inbox K)
      → count q.id s.pending ≤ 1
      → total {D = D} q.id (on_connected q o hs s) ≡ count q.id s.pending
  unfolding on_connected
  on_connected-total (some e) hs s h = on_error-total e s h
  on_connected-total none hs s h = if_pending-total (lookup q.id s.pending) hs s refl h

  report-total :
      (s : Inbox K)
      → total {D = D} q.id (record { phase = finished; inbox = s }, report_published q success)
        ≡ count q.id s.pending
  report-total s = elim (Bool-cases q.wants_published) [
    | inl e ↦ rw e (omega arith)
    | inr e ↦ rw e (omega arith)
  ]

  pub on_published-total :
      (o : Published) (s : Inbox K)
      → count q.id s.pending ≤ 1
      → total {D = D} q.id (on_published q o s) ≡ count q.id s.pending
  unfolding on_published
  on_published-total (acknowledged false) s h = report-total s
  on_published-total (acknowledged true) s h = on_error-total (error "Duplicate RPC publish") s h
  on_published-total (refused e) s h = on_error-total e s h
