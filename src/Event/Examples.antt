-- ===== src/Event/Examples.antt =====
-- Deliveries at work: a service with a dead-letter stream and a callback, three deliveries at most.
use nestjs_jetstream.Prelude.{
  ℕ, ◌≤◌, ◌<◌, ◌≡◌, refl, true, false, ◌⊎◌, ◌++◌, Option, none, some, List, [], ◌∷◌, length, keep,
  All,
}
use nestjs_jetstream.Event.Actions.{
  Thrown, error, nak, term, HeaderCall, append, set, DeadLetterInfo, emits_dead_letter, Call,
  emits_routed, runs_handler,
}
use nestjs_jetstream.Event.Retry.{
  ms, not_finite, curve, resolve_retry_delays, retry_delay_for, entry_for, retry_delay_for-resolve,
}
use nestjs_jetstream.Event.Headers.{
  is_control, key, build_dlq_headers, diagnostic_headers, dlq_headers-not_control,
}
use nestjs_jetstream.Event.Capture.{
  limited, JsMsg, dlq_unset, Options, Capture, Oracle, capture, is_dlq_enabled, is_final_delivery,
}
use nestjs_jetstream.Event.Capture.Verdict.{captured, settlements, succeeds, Ends}
use nestjs_jetstream.Event.Capture.Laws.{capture-Ends, capture_refused}
use nestjs_jetstream.Event.Settlement.{escalation}
use nestjs_jetstream.Event.Pipeline.{
  decoded, rejected, Delivery, RoutePipelineContext, start_extension, stop_extension,
  workqueue_route, ordered_route,
}
use nestjs_jetstream.Event.Pipeline.Verdict.{verdict}
use nestjs_jetstream.Event.Pipeline.Laws.{workqueue_settles_once, workqueue_settled_at_most_once}
use nestjs_jetstream.Event.Pipeline.Shape.{handled, workqueue_extension_last, ordered_never_settles}

abbrev orders : Options
orders = record { name = "orders"; dlq = dlq_unset; manual = false }

abbrev dead_letters : Capture
dead_letters = record {
  max_deliver = λ _. some (limited 3);
  on_dead_letter = true;
  connected = true;
  options = some orders;
  named = none;
  conventional = λ _. "orders__microservice_dlq-stream";
}

abbrev service : RoutePipelineContext
service = record {
  handles = λ _. true;
  has_hook = true;
  ack_extension_interval = some 5000;
  retry_delays = 2000 ∷ 10000 ∷ [];
  capture = some dead_letters;
}

-- Every call succeeds.
abbrev calm : Oracle
calm = record {
  settle_fails = λ _. none;
  publish_fails = λ _. none;
  header_fails = λ _. none;
  callback_fails = none;
  failed_at = "2026-01-01T00:00:00.000Z";
  count_text = "3";
}

abbrev refuse_reason : HeaderCall → Option Thrown
refuse_reason (append k v) = none
refuse_reason (set k v) = some (error "invalid header value")

-- The client refuses every value that is set.
abbrev strict : Oracle
strict = record calm { header_fails = refuse_reason }

abbrev message : ℕ → JsMsg
message n = record {
  subject = "orders__microservice.ev.created";
  headers = some (("Nats-Msg-Id", "1" ∷ []) ∷ ("x-tenant", "a" ∷ []) ∷ []);
  delivery_count = n;
  stream = "orders__microservice_ev-stream";
}

abbrev failing : ℕ → Delivery ℕ
failing n = record {
  msg = message n;
  payload = decoded 42;
  outcome = rejected (error "out of stock");
  ctx = record {
    jetstream = true;
    should_retry = false;
    retry_delay = none;
    should_terminate = false;
    terminate_reason = none;
  };
  oracle = calm;
}

second_attempt : verdict service (failing 2) ≡ nak (some 10000)
unfolding escalation is_final_delivery retry_delay_for
second_attempt = refl

last_attempt : verdict service (failing 3) ≡ term (some "Moved to DLQ stream")
unfolding escalation is_final_delivery is_dlq_enabled
last_attempt = refl

workqueue_settles_once_example :
    (settlements (workqueue_route service (failing 3)).act.calls ≡ verdict service (failing 3) ∷ [])
    × ((workqueue_route service (failing 3)).act.failure ≡ none)
workqueue_settles_once_example = workqueue_settles_once service (failing 3) refl (λ _. refl)

workqueue_settled_at_most_once_example :
    length (
      keep
        (λ s. succeeds (calm.settle_fails s))
        (settlements (workqueue_route service (failing 3)).act.calls))
    ≤ 1
workqueue_settled_at_most_once_example = workqueue_settled_at_most_once service (failing 3)

workqueue_extension_last_example :
    (mid : List (Call ℕ)) × ((workqueue_route service (failing 3)).act.calls
      ≡ (emits_routed "orders__microservice.ev.created"
          ∷ (start_extension service ++ runs_handler 42 ∷ []))
        ++ (mid ++ stop_extension service))
    × (settlements mid ≡ settlements (workqueue_route service (failing 3)).act.calls)
workqueue_extension_last_example = workqueue_extension_last service (failing 3) 42 refl refl

ordered_never_settles_example :
    let a = (ordered_route service (failing 3)).act in
    (settlements a.calls ≡ []) × (a.failure ≡ none) × (handled service a.calls ≡ 42 ∷ [])
ordered_never_settles_example = ordered_never_settles service (failing 3)

capture-Ends_example :
    Ends {D = ℕ} calm
      (capture dead_letters calm (message 3) (some 42) (error "out of stock"))
      (captured dead_letters calm)
capture-Ends_example = capture-Ends dead_letters calm (message 3) (some 42) (error "out of stock")

abbrev two_lines : Thrown
two_lines = error "first line\nsecond line"

capture_refused_example :
    let a = capture {D = ℕ} dead_letters strict (message 3) (some 42) two_lines in
    ((i : DeadLetterInfo ℕ) × (a.calls ≡ emits_dead_letter i ∷ []))
    × ((y : Thrown) × (a.failure ≡ some y))
unfolding is_dlq_enabled
capture_refused_example =
    capture_refused dead_letters strict orders (message 3) (some 42) two_lines
      (error "invalid header value") refl refl refl refl refl

dlq_headers-not_control_example :
    All
      (λ h. is_control (key h) ≡ false)
      (build_dlq_headers (message 3).headers ++ diagnostic_headers two_lines "s" "t" "u" "3")
dlq_headers-not_control_example =
    dlq_headers-not_control (message 3).headers two_lines "s" "t" "u" "3"

copied_headers : build_dlq_headers (message 3).headers ≡ append "x-tenant" "a" ∷ []
unfolding build_dlq_headers is_control
copied_headers = refl

retry_delay_for-resolve_example :
    let ds = resolve_retry_delays (curve (ms 5 ∷ not_finite ∷ ms 7 ∷ [])) in
    ((ds ≡ []) × (retry_delay_for ds 9 ≡ none))
    ⊎ ((d : ℕ) × (retry_delay_for ds 9 ≡ some d) × (0 < d) × (entry_for ds 8 ≡ some d))
retry_delay_for-resolve_example = retry_delay_for-resolve (curve (ms 5 ∷ not_finite ∷ ms 7 ∷ [])) 9
