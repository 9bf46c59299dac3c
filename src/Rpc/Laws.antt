-- ===== src/Rpc/Laws.antt =====
-- The fate of a command: its settlement, its answer and its report.
use Prim.Native.String
use Prim.Native.String.{String}
use nestjs_jetstream.Prelude.{
  ◌≡◌, refl, ap, true, false, Option, none, some, List, [], ◌∷◌, ◌++◌, if◌then◌else◌, arith,
  append-nil,
}
use nestjs_jetstream.Event.Actions.{
  Thrown, Settle, ack, term, HandlerStatus, success, failed, terminated, Call, emits_completed,
  runs_handler, arms_deadline, emits_routed, clears_deadline, replies, replies_error, Act, ◌>>◌,
  call,
}
use nestjs_jetstream.Event.Capture.{settle_quietly}
use nestjs_jetstream.Event.Capture.Verdict.{settlements, settlements-append}
use nestjs_jetstream.Rpc.{
  Pending, Outcome, returned, threw, promised, Command, RouterContext, Event, deadline, fulfilled,
  rejected, command, stop_extension, start_extension, publish_error_reply, publish_reply,
  report_handler_error, resolve_command, succeed, fail, on_event, step, run, start_handler,
  handle_safe,
}

-- What the caller receives: a value or an error.
pub data Answer (D : Type 0) : Type 0 where
  value : D → Answer D
  failure : Thrown → Answer D

module _ {D : Type 0} where
  abbrev pub answers : List (Call D) → List (Answer D)
  answers [] = []
  answers (replies d ∷ t) = value d ∷ answers t
  answers (replies_error e ∷ t) = failure e ∷ answers t
  answers (_ ∷ t) = answers t

  abbrev pub reports : List (Call D) → List HandlerStatus
  reports [] = []
  reports (emits_completed st ∷ t) = st ∷ reports t
  reports (_ ∷ t) = reports t

  -- What the calls of a completed command come to.
  pub record Comes (t : List (Call D)) (s : List Settle) (a : List (Answer D))
      (r : List HandlerStatus) : Type 0 where
    pub settlement : settlements t ≡ s
    pub answer : answers t ≡ a
    pub report : reports t ≡ r

  answers-append : (s t : List (Call D)) → answers (s ++ t) ≡ answers s ++ answers t
  answers-append [] t = refl
  answers-append (replies d ∷ s) t = ap (λ r. value d ∷ r) (answers-append s t)
  answers-append (replies_error e ∷ s) t = ap (λ r. failure e ∷ r) (answers-append s t)
  answers-append (_ ∷ s) t = answers-append s t

  reports-append : (s t : List (Call D)) → reports (s ++ t) ≡ reports s ++ reports t
  reports-append [] t = refl
  reports-append (emits_completed st ∷ s) t = ap (λ r. st ∷ r) (reports-append s t)
  reports-append (_ ∷ s) t = reports-append s t

module _ {D : Type 0} (rctx : RouterContext) (m : Command D) where
  -- the error reply that the caller gets, if it can be sent
  abbrev pub error_answer : Thrown → List (Answer D)
  error_answer e = elim (m.error_reply_fails e) [ none ↦ failure e ∷ [] | some x ↦ [] ]

  -- the result, or else the error that sending it met
  abbrev pub result_answer : D → List (Answer D)
  result_answer d = elim (m.reply_fails d) [ none ↦ value d ∷ [] | some x ↦ error_answer x ]

  abbrev pub reported : HandlerStatus → List HandlerStatus
  reported st = if rctx.has_hook then st ∷ [] else []

  succeed-Comes :
      (d : D) → Comes (succeed rctx m d).calls (ack ∷ []) (result_answer d) (reported success)
  unfolding succeed publish_reply publish_error_reply settle_quietly
  succeed-Comes d = record {
    settlement = ground arith;
    answer = ground arith;
    report = ground arith;
  }

  fail-Comes :
      (e : Thrown)
      → Comes
          (fail rctx m e).calls
          (term (some (String.◌++◌ "Handler error: " m.subject)) ∷ [])
          (error_answer e)
          (reported failed)
  unfolding fail report_handler_error publish_error_reply settle_quietly
  fail-Comes e = record { settlement = ground arith; answer = ground arith; report = ground arith }

  -- The settlement that ends a command whose handler left a promise.
  abbrev pub event_settlement : Event D → Settle
  event_settlement deadline = term (some "Handler timeout")
  event_settlement (fulfilled d) = ack
  event_settlement (rejected e) = term (some (String.◌++◌ "Handler error: " m.subject))

  abbrev pub event_answer : Event D → List (Answer D)
  event_answer deadline = []
  event_answer (fulfilled d) = result_answer d
  event_answer (rejected e) = error_answer e

  abbrev pub event_status : Event D → HandlerStatus
  event_status deadline = terminated
  event_status (fulfilled d) = success
  event_status (rejected e) = failed

  -- acts that settle, answer and report nothing before another
  record Silent (a : Act D) : Type 0 where
    normal : a.failure ≡ none
    settlement : settlements a.calls ≡ []
    answer : answers a.calls ≡ []
    report : reports a.calls ≡ []

  after-Silent :
      (a b : Act D) {s : List Settle} {x : List (Answer D)} {r : List HandlerStatus}
      → Silent a
      → Comes b.calls s x r
      → Comes (a >> b).calls s x r
  after-Silent a b q h = rw q.normal (record {
    settlement = rw (settlements-append, q.settlement) h.settlement;
    answer = rw (answers-append, q.answer) h.answer;
    report = rw (reports-append, q.report) h.report;
  })

  stop-Silent : Silent (stop_extension rctx m)
  stop-Silent = ground arith

  start-Silent : Silent (start_extension rctx m)
  start-Silent = ground arith

  cleared-Silent : Silent (call clears_deadline >> stop_extension rctx m)
  cleared-Silent = ground arith

  on_event-Comes :
      (e : Event D)
      → Comes
          (on_event rctx m e).calls
          (event_settlement e ∷ [])
          (event_answer e)
          (reported (event_status e))
  unfolding on_event settle_quietly
  on_event-Comes deadline = record {
    settlement = ground arith;
    answer = ground arith;
    report = ground arith;
  }
  on_event-Comes (fulfilled d) =
      after-Silent (call clears_deadline >> stop_extension rctx m) _ cleared-Silent
        (succeed-Comes d)
  on_event-Comes (rejected e) =
      after-Silent (call clears_deadline >> stop_extension rctx m) _ cleared-Silent (fail-Comes e)

  run_step : (p : Pending D) (e : Event D) → p.settled ≡ true → step rctx m p e ≡ p
  unfolding step
  run_step p e h = ground arith

  -- Once settled, no event changes anything.
  run_settled : (p : Pending D) (es : List (Event D)) → p.settled ≡ true → run rctx m p es ≡ p
  unfolding run
  run_settled p [] h = refl
  run_settled p (e ∷ es) h = rw (run_step p e h) (run_settled p es h)

  -- What the whole life of a command comes to, by what its handler gave and the first event.
  abbrev pub first_event : List (Event D) → Option (Event D)
  first_event [] = none
  first_event (e ∷ es) = some e

  abbrev pub Fate : Outcome D → List (Event D) → List (Call D) → Type 0
  Fate (returned d) es t = Comes t (ack ∷ []) (result_answer d) (reported success)
  Fate (threw e) es t =
      Comes t (term (some (String.◌++◌ "Handler error: " m.subject)) ∷ []) (error_answer e)
        (reported failed)
  Fate promised [] t = Comes t [] [] []
  Fate promised (e ∷ es) t =
      Comes t (event_settlement e ∷ []) (event_answer e) (reported (event_status e))

  started-Silent : (d : D) → Silent (start_extension rctx m >> call (runs_handler d))
  started-Silent d = ground arith

  -- the calls up to the return, and what the events add
  routed-Comes :
      (t : List (Call D)) {s : List Settle} {x : List (Answer D)} {r : List HandlerStatus}
      → Comes t s x r
      → Comes (emits_routed m.subject ∷ (t ++ [])) s x r
  routed-Comes t h =
      simp append-nil (record { settlement = h.settlement; answer = h.answer; report = h.report })

  waiting-Silent :
      (d : D)
      → Silent
          (start_extension rctx m >> call (runs_handler d) >> call (arms_deadline rctx.timeout))
  waiting-Silent d = ground arith

  waited-Comes :
      (a : Act D) (t : List (Call D)) {s : List Settle} {x : List (Answer D)}
      {r : List HandlerStatus}
      → Silent a
      → Comes t s x r
      → Comes (emits_routed m.subject ∷ (a.calls ++ t)) s x r
  waited-Comes a t q h = record {
    settlement = rw (settlements-append, q.settlement) h.settlement;
    answer = rw (answers-append, q.answer) h.answer;
    report = rw (reports-append, q.report) h.report;
  }

  -- the first event settles; the others find the command settled
  run_first :
      (e : Event D) (es : List (Event D))
      → (run rctx m (record { settled = false; calls = [] }) (e ∷ es)).calls
        ≡ (on_event rctx m e).calls
  unfolding run step
  run_first e es = ap (λ (p : Pending D). p.calls) (run_settled _ es refl)

  Fate-by :
      (oc : Outcome D) (d : D) (es : List (Event D))
      → Fate oc es (
          emits_routed m.subject
          ∷ ((start_handler rctx m oc d).1.calls
              ++ (if (start_handler rctx m oc d).0
                  then (run rctx m (record { settled = false; calls = [] }) es).calls
                  else [])))
  unfolding start_handler run
  Fate-by (returned r) d es = routed-Comes _ (
      after-Silent (start_extension rctx m >> call (runs_handler d)) _ (started-Silent d)
        (after-Silent (stop_extension rctx m) _ stop-Silent (succeed-Comes r)))
  Fate-by (threw e) d es = routed-Comes _ (
      after-Silent (start_extension rctx m >> call (runs_handler d)) _ (started-Silent d)
        (after-Silent (stop_extension rctx m) _ stop-Silent (fail-Comes e)))
  Fate-by promised d [] =
      waited-Comes
        (start_extension rctx m >> call (runs_handler d) >> call (arms_deadline rctx.timeout)) []
        (waiting-Silent d) (record { settlement = refl; answer = refl; report = refl })
  Fate-by promised d (e ∷ es) = rw (run_first e es) (
      waited-Comes
        (start_extension rctx m >> call (runs_handler d) >> call (arms_deadline rctx.timeout)) _
        (waiting-Silent d) (on_event-Comes e))

  -- A command that reaches its handler is settled once, and reported once if someone listens. A
  -- result is acknowledged even if it cannot be sent back, and the caller then gets the error that
  -- sending met, if that can be sent; an error is sent back and the command terminated. If the
  -- handler left a promise, the first of its fulfilment, its rejection and the deadline decides,
  -- and whatever comes later, in any number and order, adds nothing; a passed deadline answers
  -- nothing. Before the first of them nothing is settled.
  pub handle_safe-Fate :
      (d : D) (es : List (Event D))
      → resolve_command rctx m ≡ command d
      → Fate m.outcome es (handle_safe rctx m es)
  unfolding handle_safe
  handle_safe-Fate d es h = rw (h, handle_safe) (Fate-by m.outcome d es)
