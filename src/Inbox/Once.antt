-- ===== src/Inbox/Once.antt =====
-- How a registered request is settled: answered, failed, expired or discarded.
use Prim.Native.String.{String}
use text.Mathlib.Text.{◌==◌ as str_eq}
use nestjs_jetstream.Prelude.{
  ℕ, suc, ◌+◌, ◌≤◌, ◌≡◌, refl, Bool, true, false, Option, none, some, List, [], ◌∷◌, ◌++◌,
  if◌then◌else◌, arith, Bool-cases, inl, inr,
}
use nestjs_jetstream.Event.Actions.{Thrown}
use nestjs_jetstream.Maps.{lookup}
use nestjs_jetstream.Inbox.{
  new, arms, unsubscribes, Reply, Inbox, Call, Msg, register, arm_timeout, on_timer, discard_calls,
  discard, reject_calls, clear_all, reject_all, arms, unsubscribes, invoke_calls, route_to,
  route_id, route,
}
use nestjs_jetstream.Inbox.Counts.{
  count, settled, Kept, count-set, settled-append, settled-clear_all, settled-reject_calls,
  settled-clear_calls, settled-invoke_calls, count-found, expire-Kept, discard-Kept,
}

-- What happens to an inbox.
pub data Op (K D : Type 0) : Type 0 where
  registers : String → K → Op K D
  arms_timeout : String → ℕ → Op K D
  fires : String → Op K D
  discarded : String → Op K D
  rejects : Thrown → Op K D
  receives : Msg D → Op K D

module _ {K D : Type 0} (callback_fails : K → Reply D → Option Thrown) where
  abbrev pub perform : Op K D → Inbox K → Inbox K × List (Call K D)
  perform (registers id k) s = (register id k s, [])
  perform (arms_timeout id ms) s = arm_timeout id ms s
  perform (fires id) s = on_timer id s
  perform (discarded id) s = discard id s
  perform (rejects e) s = reject_all e s
  perform (receives msg) s = route callback_fails msg s

  abbrev pub run : List (Op K D) → Inbox K → Inbox K × List (Call K D)
  run [] s = (s, [])
  run (op ∷ ops) s = let one = perform op s in let rest = run ops one.0 in (rest.0, one.1 ++ rest.1)

-- how often a request is registered under the id
abbrev pub registered : {K D : Type 0} → String → List (Op K D) → ℕ
registered c [] = 0
registered c (registers id k ∷ ops) =
    let rest = registered c ops in if str_eq id c then suc rest else rest
registered c (_ ∷ ops) = registered c ops

module _ {K D : Type 0} (fails : K → Reply D → Option Thrown)
    (quiet : (k : K) (r : Reply D) → fails k r ≡ none) (c : String) where
  route_to-Kept :
      (o : Option K) (id : String) (msg : Msg D) (s : Inbox K)
      → lookup id s.pending ≡ o
      → count c s.pending ≤ 1
      → Kept c s (route_to fails msg id o s)
  unfolding route_to
  route_to-Kept none id msg s e h = omega arith
  route_to-Kept (some k) id msg s e h = ground (
    arith,
    count-found c id k s.pending e h,
    settled-invoke_calls fails quiet c id k msg,
    settled-clear_calls c (lookup id s.timeouts) (invoke_calls fails id k msg),
  )

  route_id-Kept :
      (o : Option String) (msg : Msg D) (s : Inbox K)
      → count c s.pending ≤ 1
      → Kept c s (route_id fails msg o s)
  unfolding route_id
  route_id-Kept none msg s h = omega arith
  route_id-Kept (some id) msg s h = elim (Bool-cases (str_eq id "")) [
    | inl e ↦ rw (e, route_id) (omega arith)
    | inr e ↦ rw (e, route_id) (route_to-Kept (lookup id s.pending) id msg s refl h)
  ]

  abbrev last_calls : Bool → List (Call K D)
  last_calls b = if b then unsubscribes ∷ [] else []

  settled-unsubscribes :
      (b : Bool) → settled {K = K} {D = D} c (if b then unsubscribes ∷ [] else []) ≡ 0
  settled-unsubscribes true = refl
  settled-unsubscribes false = refl

  reject_all-Kept : (e : Thrown) (s : Inbox K) → Kept {D = D} c s (reject_all e s)
  unfolding reject_all
  reject_all-Kept e s =
      let last = last_calls s.active in
      ground (
        arith,
        settled-reject_calls D c e s.pending,
        settled-clear_all K D c s.timeouts,
        settled-append c (reject_calls e s.pending) (clear_all s.timeouts ++ last),
        settled-append c (clear_all s.timeouts) last,
        settled-unsubscribes s.active,
      )

  -- one operation
  pub perform-Kept :
      (op : Op K D) (s : Inbox K)
      → count c s.pending + registered c (op ∷ []) ≤ 1
      → settled c (perform fails op s).1 + count c (perform fails op s).0.pending
        ≡ count c s.pending + registered c (op ∷ [])
  unfolding register arm_timeout on_timer discard route
  perform-Kept (registers id k) s h = ground (arith, count-set c id k s.pending)
  perform-Kept (arms_timeout id ms) s h =
      ground (arith, settled-clear_calls c (lookup id s.timeouts) (arms id s.next_timer ms ∷ []))
  perform-Kept (fires id) s h =
      omega (arith, expire-Kept D c (lookup id s.pending) id s refl (omega arith))
  perform-Kept (discarded id) s h = ground (
    arith,
    settled-clear_calls c (lookup id s.timeouts) (discard_calls (lookup id s.pending) id),
    discard-Kept D c (lookup id s.pending) id s refl (omega arith),
  )
  perform-Kept (rejects e) s h = omega (arith, reject_all-Kept e s)
  perform-Kept (receives msg) s h =
      omega (arith, route_id-Kept msg.correlation_id msg s (omega arith))

  pub registered-cons :
      (op : Op K D) (ops : List (Op K D))
      → registered c (op ∷ ops) ≡ registered c (op ∷ []) + registered c ops
  registered-cons (registers id k) ops = ground arith
  registered-cons (arms_timeout id ms) ops = omega arith
  registered-cons (fires id) ops = omega arith
  registered-cons (discarded id) ops = omega arith
  registered-cons (rejects e) ops = omega arith
  registered-cons (receives msg) ops = omega arith

  run-Kept :
      (ops : List (Op K D)) (s : Inbox K)
      → count c s.pending + registered c ops ≤ 1
      → settled c (run fails ops s).1 + count c (run fails ops s).0.pending
        ≡ count c s.pending + registered c ops
  run-Kept [] s h = omega arith
  run-Kept (op ∷ ops) s h =
      let cons = registered-cons op ops in
      let one = perform-Kept op s (omega (arith, cons)) in
      let rest = run-Kept ops (perform fails op s).0 (omega (arith, one, cons)) in
      omega (
        arith,
        one,
        cons,
        rest,
        settled-append c (perform fails op s).1 (run fails ops (perform fails op s).0).1,
      )

-- Whatever happens to a new inbox whose callbacks do not throw, in whatever order, a request that is
-- registered once under its id is either settled exactly once (its callback is called, its deadline
-- expires or it is discarded) and pending no more, or not settled yet and pending exactly once.
pub registered_once_settled_once :
    {K D : Type 0} (fails : K → Reply D → Option Thrown)
    → ((k : K) (r : Reply D) → fails k r ≡ none)
    → (c : String) (ops : List (Op K D)) → registered c ops ≡ 1
    → settled c (run fails ops new).1 + count c (run fails ops new).0.pending ≡ 1
unfolding new
registered_once_settled_once fails quiet c ops h =
    omega (arith, run-Kept fails quiet c ops new (omega arith))
