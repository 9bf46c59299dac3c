-- ===== src/Client/Deadline.antt =====
-- The deadline of a request: src/client/jetstream.client.ts with src/client/rpc-reply-inbox.ts.
use Prim.Native.String.{String}
use text.Mathlib.Text.{◌==◌ as str_eq}
use text.Mathlib.TextPositions.{eq_refl}
use nestjs_jetstream.Prelude.{
  ℕ, ◌≡◌, refl, Bool, true, false, Option, none, some, List, [], ◌∷◌, ◌++◌, append-nil, map, arith,
  if◌then◌else◌, Bool-cases, inl, inr,
}
use nestjs_jetstream.Maps.{lookup}
use nestjs_jetstream.Event.Actions.{Thrown, HeaderCall}
use nestjs_jetstream.Inbox.{
  Reply, Inbox, Call as InboxCall, arms, register, arm_timeout, discard, setup, clear_calls,
}
use nestjs_jetstream.Inbox.Counts.{count, count-set}
use nestjs_jetstream.Inbox.Watched.{Watched, discard-Watched, perform-Watched}
use nestjs_jetstream.Client.{Client}
use nestjs_jetstream.Client.Request.{
  Request, Call, of_inbox, of_own_discard, Phase, connecting, publishing, finished, Event, happens,
  sets_up, connected, published, Published, acknowledged, refused, State, or_default, no_inbox,
  if_discarded, errors, on_error, publish_pending, if_pending, on_connected, on_published, armed,
  request_headers, then_continue, start, step, run,
}
use nestjs_jetstream.Client.Ended.{registrations, registrations-cons}

-- The deadlines that are armed for an id.
abbrev pub deadlines : {K D B : Type 0} → String → List (Call K D B) → List ℕ
deadlines c [] = []
deadlines c (of_inbox (arms id t ms) ∷ calls) =
    let rest = deadlines c calls in if str_eq id c then ms ∷ rest else rest
deadlines c (_ ∷ calls) = deadlines c calls

module _ {K B : Type 0} (D : Type 0) (q : Request K B) where
  deadlines-append :
      (s t : List (Call K D B)) → deadlines q.id (s ++ t) ≡ deadlines q.id s ++ deadlines q.id t
  deadlines-append [] t = refl
  deadlines-append (of_inbox (arms id n ms) ∷ s) t = ground (arith, deadlines-append s t)
  deadlines-append (_ ∷ s) t = deadlines-append s t

  deadlines-of_own_discard :
      (t : List (InboxCall K D)) → deadlines {B = B} q.id (map of_own_discard t) ≡ []
  deadlines-of_own_discard [] = refl
  deadlines-of_own_discard (x ∷ t) = deadlines-of_own_discard t

  deadlines-no_inbox : deadlines {D = D} q.id (no_inbox q) ≡ []
  deadlines-no_inbox = elim (Bool-cases q.wants_published) [
    | inl e ↦ elim (Bool-cases q.wants_completed) [
      | inl f ↦ rw (e, f) refl
      | inr f ↦ rw (e, f) refl
    ]
    | inr e ↦ elim (Bool-cases q.wants_completed) [
      | inl f ↦ rw (e, f) refl
      | inr f ↦ rw (e, f) refl
    ]
  ]

  -- a request whose connection is there arms nothing more
  if_pending-deadlines :
      (o : Option K) (hs : List HeaderCall) (s : Inbox K)
      → deadlines {D = D} q.id (if_pending q o hs s).1 ≡ []
  if_pending-deadlines none hs s = refl
  if_pending-deadlines (some k) hs s =
      elim s.address as (λ a. deadlines {D = D} q.id (publish_pending q a hs s).1 ≡ []) [
        | some a ↦ refl
        | none ↦
            rw (deadlines-append, deadlines-of_own_discard (discard {D = D} q.id s).1)
              deadlines-no_inbox
      ]

  if_discarded-Watched :
      (o : Option K) (after : List (Call K D B)) (s : Inbox K)
      → Watched q.id s
      → Watched q.id (if_discarded q o after (discard q.id s)).0.inbox
  if_discarded-Watched none after s h = discard-Watched D q.id q.id s h
  if_discarded-Watched (some k) after s h = discard-Watched D q.id q.id s h

  if_pending-Watched :
      (o : Option K) (hs : List HeaderCall) (s : Inbox K)
      → Watched q.id s
      → Watched q.id (if_pending {D = D} q o hs s).0.inbox
  if_pending-Watched none hs s h = h
  if_pending-Watched (some k) hs s h =
      elim s.address as (λ a. Watched q.id (publish_pending {D = D} q a hs s).0.inbox) [
        | some a ↦ h
        | none ↦ discard-Watched D q.id q.id s h
      ]

  on_connected-Watched :
      (o : Option Thrown) (hs : List HeaderCall) (s : Inbox K)
      → Watched q.id s
      → Watched q.id (on_connected {D = D} q o hs s).0.inbox
  unfolding on_connected on_error
  on_connected-Watched (some e) hs s h =
      if_discarded-Watched (lookup q.id s.pending) (errors q e) s h
  on_connected-Watched none hs s h = if_pending-Watched (lookup q.id s.pending) hs s h

  on_published-Watched :
      (o : Published) (s : Inbox K)
      → Watched q.id s
      → Watched q.id (on_published {D = D} q o s).0.inbox
  unfolding on_published on_error
  on_published-Watched (acknowledged false) s h = h
  on_published-Watched (acknowledged true) s h = if_discarded-Watched (lookup q.id s.pending) _ s h
  on_published-Watched (refused e) s h =
      if_discarded-Watched (lookup q.id s.pending) (errors q e) s h

  -- The deadline that a request should get: its own or the default one, unless its encoding throws.
  abbrev pub due : Client → Option Thrown → List ℕ
  due c none = or_default q.timeout c.default_rpc_timeout ∷ []
  due c (some e) = []

  armed_deadlines :
      (o : Option ℕ) (t ms : ℕ)
      → deadlines {K = K} {D = D} {B = B} q.id (map of_inbox (clear_calls o ++ arms q.id t ms ∷ []))
        ≡ ms ∷ []
  armed_deadlines none t ms = rw (eq_refl q.id) refl
  armed_deadlines (some n) t ms = rw (eq_refl q.id) refl

  armed-deadlines :
      (c : Client) (s : Inbox K)
      → deadlines {D = D} {B = B} q.id (map of_inbox (armed {D = D} q c s).1) ≡ due c none
  unfolding arm_timeout register
  armed-deadlines c s =
      armed_deadlines (lookup q.id s.timeouts) s.next_timer
        (or_default q.timeout c.default_rpc_timeout)

  armed-Watched :
      (c : Client) (s : Inbox K) → count q.id s.pending ≡ 0 → Watched q.id (armed {D = D} q c s).0
  unfolding arm_timeout register
  armed-Watched c s z = ground (
    arith,
    count-set q.id q.id q.callback s.pending,
    count-set q.id q.id s.next_timer s.timeouts,
    eq_refl q.id,
  )

  then_continue-deadlines :
      (ready : Bool) (c : Client) (hs : List HeaderCall) (r : Inbox K × List (InboxCall K D))
      → deadlines q.id (then_continue q c ready hs r).1 ≡ deadlines {B = B} q.id (map of_inbox r.1)
  unfolding on_connected
  then_continue-deadlines false c hs (s, t) = refl
  then_continue-deadlines true c hs (s, t) =
      rw
        (
          deadlines-append (map of_inbox t) (if_pending q (lookup q.id s.pending) hs s).1,
          if_pending-deadlines (lookup q.id s.pending) hs s,
        )
        (append-nil _)

  then_continue-Watched :
      (ready : Bool) (c : Client) (hs : List HeaderCall) (r : Inbox K × List (InboxCall K D))
      → Watched q.id r.0
      → Watched q.id (then_continue q c ready hs r).0.inbox
  then_continue-Watched false c hs (s, t) h = h
  then_continue-Watched true c hs (s, t) h = on_connected-Watched none hs s h

  -- the start arms the deadline
  pub start-deadlines :
      (c : Client) (ready : Bool) (e : Option Thrown) (s : Inbox K)
      → deadlines {D = D} q.id (start q c ready e s).1 ≡ due c e
  unfolding start
  start-deadlines c ready (some e) s = refl
  start-deadlines c ready none s =
      rw (then_continue-deadlines ready c (request_headers q c s) (armed q c s))
        (armed-deadlines c s)

  pub start-Watched :
      (c : Client) (ready : Bool) (e : Option Thrown) (s : Inbox K)
      → count q.id s.pending ≡ 0
      → Watched q.id (start {D = D} q c ready e s).0.inbox
  unfolding start
  start-Watched c ready (some e) s z = omega arith
  start-Watched c ready none s z =
      then_continue-Watched ready c (request_headers q c s) (armed q c s) (armed-Watched c s z)

module _ {K D B : Type 0} (q : Request K B) (fails : K → Reply D → Option Thrown) where
  step-Watched :
      (e : Event K D) (p : Phase) (s : Inbox K)
      → registrations q.id (e ∷ []) ≡ 0
      → Watched q.id s
      → Watched q.id (step q fails e p s).0.inbox
  unfolding step setup
  step-Watched (happens op) p s z h = perform-Watched fails q.id op s (omega arith) h
  step-Watched (sets_up a) p s z h = h
  step-Watched (connected o) (connecting hs) s z h = on_connected-Watched D q o hs s h
  step-Watched (connected o) publishing s z h = h
  step-Watched (connected o) finished s z h = h
  step-Watched (published o) publishing s z h = on_published-Watched D q o s h
  step-Watched (published o) (connecting hs) s z h = h
  step-Watched (published o) finished s z h = h

  pub run-Watched :
      (es : List (Event K D)) (s : State K)
      → registrations q.id es ≡ 0
      → Watched q.id s.inbox
      → Watched q.id (run q fails es s).0.inbox
  run-Watched [] s z h = h
  run-Watched (e ∷ es) s z h =
      let cons = registrations-cons q.id e es in
      run-Watched es (step q fails e s.phase s.inbox).0 (omega (arith, cons))
        (step-Watched e s.phase s.inbox (omega (arith, cons)) h)
