-- ===== src/Client/Once.antt =====
-- How a request ends: src/client/jetstream.client.ts with src/client/rpc-reply-inbox.ts.
use text.Mathlib.TextPositions.{eq_refl}
use nestjs_jetstream.Prelude.{
  ◌+◌, ◌≤◌, ◌≡◌, refl, Bool, true, false, Option, none, some, List, [], ◌∷◌, ◌++◌, map, arith,
}
use nestjs_jetstream.Maps.{lookup}
use nestjs_jetstream.Event.Actions.{Thrown, HeaderCall}
use nestjs_jetstream.Inbox.{
  Reply, Inbox, Call as InboxCall, register, arm_timeout, expire, on_timer, setup,
}
use nestjs_jetstream.Inbox.Counts.{
  count, settled, count-set, count-delete, count-lookup-none, settled-clear_calls,
}
use nestjs_jetstream.Inbox.Once.{fires, perform, perform-Kept}
use nestjs_jetstream.Client.{Client}
use nestjs_jetstream.Client.Request.{
  Request, of_inbox, Phase, connecting, publishing, finished, Event, happens, sets_up, connected,
  published, State, on_connected, armed, request_headers, then_continue, start, in_phase, step, run,
}
use nestjs_jetstream.Client.Ended.{
  ended, ended-append, ended-of_inbox, registrations, registrations-cons, total,
}
use nestjs_jetstream.Client.Deadline.{deadlines, due, start-deadlines, start-Watched, run-Watched}
use nestjs_jetstream.Client.Phases.{on_connected-total, on_published-total}

module _ {K D B : Type 0} (q : Request K B) (fails : K → Reply D → Option Thrown)
    (quiet : (k : K) (r : Reply D) → fails k r ≡ none) where
  in_phase-total :
      (p : Phase) (r : Inbox K × List (InboxCall K D))
      → total {B = B} q.id (in_phase q fails p r) ≡ settled q.id r.1 + count q.id r.0.pending
  in_phase-total p (s, t) = omega (arith, ended-of_inbox B q.id t)

  -- one event that does not register the request again
  step-total :
      (e : Event K D) (p : Phase) (s : Inbox K)
      → count q.id s.pending ≤ 1
      → registrations q.id (e ∷ []) ≡ 0
      → total q.id (step q fails e p s) ≡ count q.id s.pending
  unfolding step setup
  step-total (happens op) p s h z = omega (
    arith,
    in_phase-total p (perform fails op s),
    perform-Kept fails quiet q.id op s (omega arith),
  )
  step-total (sets_up a) p s h z = omega (arith, in_phase-total p (setup {D = D} a s))
  step-total (connected o) (connecting hs) s h z = on_connected-total D q o hs s h
  step-total (connected o) publishing s h z = omega arith
  step-total (connected o) finished s h z = omega arith
  step-total (published o) publishing s h z = on_published-total D q o s h
  step-total (published o) (connecting hs) s h z = omega arith
  step-total (published o) finished s h z = omega arith

  run-total :
      (es : List (Event K D)) (s : State K)
      → count q.id s.inbox.pending ≤ 1
      → registrations q.id es ≡ 0
      → total q.id (run q fails es s) ≡ count q.id s.inbox.pending
  run-total [] s h z = omega arith
  run-total (e ∷ es) s h z =
      let cons = registrations-cons q.id e es in
      let one = step-total e s.phase s.inbox h (omega (arith, cons)) in
      let next = (step q fails e s.phase s.inbox).0 in
      let rest = run-total es next (omega (arith, one)) (omega (arith, cons)) in
      omega (
        arith,
        one,
        rest,
        ended-append q.id (step q fails e s.phase s.inbox).1 (run q fails es next).1,
      )

  then_continue-total :
      (ready : Bool) (c : Client) (hs : List HeaderCall) (r : Inbox K × List (InboxCall K D))
      → settled q.id r.1 ≡ 0
      → count q.id r.0.pending ≤ 1
      → total q.id (then_continue q c ready hs r) ≡ count q.id r.0.pending
  then_continue-total false c hs (s, t) z h = omega (arith, ended-of_inbox B q.id t)
  then_continue-total true c hs (s, t) z h = omega (
    arith,
    ended-of_inbox B q.id t,
    ended-append q.id (map of_inbox t) (on_connected {D = D} q none hs s).1,
    on_connected-total D q none hs s h,
  )

  armed-settled : (c : Client) (s : Inbox K) → settled q.id (armed {D = D} q c s).1 ≡ 0
  unfolding arm_timeout register
  armed-settled c s = settled-clear_calls q.id (lookup q.id s.timeouts) _

  armed-count :
      (c : Client) (s : Inbox K)
      → count q.id s.pending ≡ 0
      → count q.id (armed {D = D} q c s).0.pending ≡ 1
  unfolding arm_timeout register
  armed-count c s z = ground (arith, count-set q.id q.id q.callback s.pending, eq_refl q.id)

  start-total :
      (c : Client) (ready : Bool) (e : Option Thrown) (s : Inbox K)
      → count q.id s.pending ≡ 0
      → total {D = D} q.id (start q c ready e s) ≡ 1
  unfolding start
  start-total c ready (some e) s z = omega arith
  start-total c ready none s z = omega (
    arith,
    then_continue-total ready c (request_headers q c s) (armed q c s) (armed-settled c s)
        (omega (arith, armed-count c s z)),
    armed-count c s z,
  )

  -- a deadline that has passed
  expire-gone :
      (o : Option K) (s : Inbox K)
      → lookup q.id s.pending ≡ o
      → count q.id (expire {D = D} o q.id s).0.pending ≡ 0
  unfolding expire
  expire-gone none s e = count-lookup-none q.id s.pending e
  expire-gone (some k) s e = ground (arith, count-delete q.id q.id s.pending, eq_refl q.id)

  step-gone :
      (p : Phase) (s : Inbox K)
      → count q.id (step q fails (happens (fires q.id)) p s).0.inbox.pending ≡ 0
  unfolding step on_timer
  step-gone p s = expire-gone (lookup q.id s.pending) s refl

-- A request under a fresh id, whatever happens to its inbox, its connection and its publishing, and in
-- whatever order, if callbacks do not throw. Its start arms exactly one deadline for it, of the
-- request's timeout or else the default one, and none if its encoding throws. At every time later it
-- either is pending, or has called its caller back exactly once or was unsubscribed by it; while it is
-- pending, the inbox still holds a deadline timer for it; and once its deadline fires it is not pending, so
-- that it has called its caller back exactly once or was unsubscribed by it.
pub request_ends_once :
    {K D B : Type 0} (q : Request K B) (fails : K → Reply D → Option Thrown)
    → ((k : K) (r : Reply D) → fails k r ≡ none)
    → (c : Client) (ready : Bool) (e : Option Thrown) (s : Inbox K) (es : List (Event K D))
    → count q.id s.pending ≡ 0
    → registrations q.id es ≡ 0
    → let started = start q c ready e s in
      let ran = run q fails es started.0 in
      let last = step q fails (happens (fires q.id)) ran.0.phase ran.0.inbox in
      (deadlines q.id started.1 ≡ due D q c e)
      × (ended q.id (started.1 ++ ran.1) + count q.id ran.0.inbox.pending ≡ 1)
      × (count q.id ran.0.inbox.pending ≤ count q.id ran.0.inbox.timeouts)
      × (ended q.id (started.1 ++ (ran.1 ++ last.1)) ≡ 1)
request_ends_once {K = K} {D = D} q fails quiet c ready e s es z r =
    let started = start {D = D} q c ready e s in
    let ran = run q fails es started.0 in
    let last = step q fails (happens (fires q.id)) ran.0.phase ran.0.inbox in
    let first = start-total q fails quiet c ready e s z in
    let kept = run-total q fails quiet es started.0 (omega (arith, first)) r in
    let one =
      step-total q fails quiet (happens (fires q.id)) ran.0.phase ran.0.inbox
        (omega (arith, first, kept)) refl in
    (
      start-deadlines D q c ready e s,
      omega (arith, first, kept, ended-append q.id started.1 ran.1),
      run-Watched q fails es started.0 r (start-Watched D q c ready e s z),
      omega (
        arith,
        first,
        kept,
        one,
        step-gone q fails quiet ran.0.phase ran.0.inbox,
        ended-append q.id started.1 (ran.1 ++ last.1),
        ended-append q.id ran.1 last.1,
      ),
    )
