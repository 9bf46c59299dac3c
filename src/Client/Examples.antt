-- ===== src/Client/Examples.antt =====
-- Tests of the client, and its theorems at concrete services.
use nestjs_jetstream.Event.Actions.{error}
use nestjs_jetstream.Prelude.{
  ◌≤◌, ℕ, ◌+◌, ◌≡◌, refl, true, false, none, some, List, [], ◌∷◌, ◌++◌, map, keep, All, arith, inr,
  Option,
}
use nestjs_jetstream.Maps.{set, lookup, delete}
use nestjs_jetstream.Names.{
  ordered, Options, rpc_jetstream, convention_schedule_subject_base, after_dot,
}
use nestjs_jetstream.Registry.{get_handler, resolve_declared}
use nestjs_jetstream.Registry.Examples.{names, ordered_created, handlers, service, registered}
use nestjs_jetstream.Event.Headers.{is_control, key}
use nestjs_jetstream.Event.Pipeline.{decoded}
use nestjs_jetstream.Inbox.{
  answered, failed, new as new_inbox, register, arm_timeout, discard, setup, route_to, route_id,
  route, invoke_calls,
}
use nestjs_jetstream.Inbox.Counts.{count}
use nestjs_jetstream.Inbox.Once.{fires, receives, discarded}
use nestjs_jetstream.Record.{builder, build}
use nestjs_jetstream.Record.Laws.{run as run_builder}
use nestjs_jetstream.Record.Examples.{calls}
use nestjs_jetstream.Client.{
  Client, client_of, new, detect_event_kind, declared_event_pattern, build_event_subject,
  build_schedule_subject, build_headers, set_present, PacketData, of_record, extract_record_data,
}
use nestjs_jetstream.Client.Emit.{World, encoded, dispatch_event, send, dispatch_ready}
use nestjs_jetstream.Client.Published.{publications, Emitted, dispatch_event-Emitted}
use nestjs_jetstream.Client.Reserved.{named, build_headers-run}
use nestjs_jetstream.Client.Subjects.{get_handler-build_event_subject}
use nestjs_jetstream.Client.Request.{
  Request, Event, happens, sets_up, connected, published, acknowledged, start, step, run,
  on_connected, on_published,
}
use nestjs_jetstream.Client.Core as Core
use nestjs_jetstream.Client.Answer.{answers, effective, Answered, publish_core_rpc-Answered}
use nestjs_jetstream.Client.Ended.{ended}
use nestjs_jetstream.Client.Deadline.{deadlines}
use nestjs_jetstream.Client.Once.{request_ends_once}

-- A shop that talks to the service of orders.
abbrev options : Options
options = record {
  name = "shop";
  events = none;
  broadcasts = none;
  ordereds = none;
  rpc = rpc_jetstream (record { custom_prefix = none; stream = none; durable = none });
}

abbrev client : Client
client = client_of options "orders" none none

client_made : new options "orders" none none ≡ some client
unfolding new
client_made = refl

ordered_subject :
    build_event_subject client "ordered:created" ≡ "orders__microservice.ordered.created"
unfolding build_event_subject
ordered_subject = refl

schedule_subject :
    build_schedule_subject client "X1" "orders__microservice.ev.created"
    ≡ some "orders__microservice._sch.created.X1"
unfolding build_schedule_subject convention_schedule_subject_base after_dot
schedule_subject = refl

get_handler-build_event_subject_example :
    (get_handler service (build_event_subject client "ordered:created") ≡ some 2)
    × (resolve_declared service (build_event_subject client "ordered:created")
        ≡ some ("created", ordered))
unfolding declared_event_pattern detect_event_kind
get_handler-build_event_subject_example =
    get_handler-build_event_subject options "orders" none none names client handlers service
      "ordered:created" "created" ordered_created (inr (refl, (refl, (refl, (refl, refl)))))
      client_made registered refl refl refl

build_headers-run_example :
    let sent =
      build_headers client
        (build (run_builder calls (builder (some 1)))).headers
        "s"
        (some "id-1")
        (some "inbox") in
    (keep (named "x-correlation-id") sent ≡ set_present "x-correlation-id" (some "id-1"))
    × ((keep (named "x-reply-to") sent ≡ set_present "x-reply-to" (some "inbox"))
        × All (λ h. is_control (key h) ≡ false) sent)
build_headers-run_example =
    build_headers-run 100 (some 1) calls client "s" (some "id-1") (some "inbox")
      (omega arith, (omega arith, tt))

-- A world that connects at once and publishes.
abbrev world : World ℕ ℕ
world = record {
  ready = false;
  connecting = none;
  refusing = none;
  codec = λ d. encoded 7;
  publishing = λ p. none;
  fresh_id = "N1";
  fresh_suffix = "N2";
  has_hook = true;
}

abbrev packet : PacketData ℕ
packet = of_record (record {
  data_of = some 1;
  headers = [];
  timeout = none;
  message_id = none;
  schedule = some 500;
  ttl_duration = none;
})

scheduled_once :
    map (λ p. p.subject) (publications (dispatch_event client world "created" packet).0)
    ≡ "orders__microservice._sch.created.N2" ∷ []
unfolding dispatch_event dispatch_ready send build_event_subject detect_event_kind
    build_schedule_subject convention_schedule_subject_base after_dot
scheduled_once = refl

dispatch_event-Emitted_example :
    let t = dispatch_event client world "created" packet in
    Emitted client "N2" "created"
      (extract_record_data packet)
      world.publishing
      (publications t.0)
      t.1
dispatch_event-Emitted_example = dispatch_event-Emitted client world "created" packet

abbrev request : Request ℕ ℕ
request = record {
  id = "r1";
  callback = 5;
  timeout = some 1000;
  subject = "orders__microservice.cmd.get";
  headers = [];
  message_id = none;
  fresh_id = "N3";
  payload = 7;
  wants_published = true;
  wants_completed = false;
}

-- Connected, published, answered twice, and the caller unsubscribes too late.
abbrev happenings : List (Event ℕ ℕ)
happenings =
    sets_up "inbox"
    ∷ connected none
    ∷ published (acknowledged false)
    ∷ happens
        (receives (record { correlation_id = some "r1"; is_error = false; payload = decoded 7 }))
    ∷ happens
        (receives (record { correlation_id = some "r1"; is_error = false; payload = decoded 8 }))
    ∷ happens (discarded "r1")
    ∷ []

answered_once :
    let started = start {D = ℕ} request client false none new_inbox in
    ended {D = ℕ} "r1" (run request (λ k r. none) happenings started.0).1 ≡ 1
unfolding start register arm_timeout set lookup delete new_inbox step on_connected on_published
    setup route route_id route_to invoke_calls discard build_headers
answered_once = refl

request_ends_once_example :
    let started = start {D = ℕ} request client false none new_inbox in
    let ran = run request (λ k r. none) happenings started.0 in
    let last = step request (λ k r. none) (happens (fires "r1")) ran.0.phase ran.0.inbox in
    (deadlines "r1" started.1 ≡ 1000 ∷ [])
    × (ended "r1" (started.1 ++ ran.1) + count "r1" ran.0.inbox.pending ≡ 1)
    × (count "r1" ran.0.inbox.pending ≤ count "r1" ran.0.inbox.timeouts)
    × (ended "r1" (started.1 ++ (ran.1 ++ last.1)) ≡ 1)
unfolding new_inbox
request_ends_once_example =
    request_ends_once request (λ k r. none) (λ k r. refl) client false none new_inbox happenings
      refl refl

abbrev core_request : Core.Request ℕ
core_request = record {
  subject = "orders__microservice.cmd.get";
  payload = 7;
  headers = [];
  timeout = none;
}

-- The server answers 9, and the callback may throw.
abbrev core_world : Option Core.Failure → Core.World ℕ
core_world throws = record {
  ready = false;
  preparing = none;
  connecting = none;
  response = Core.replied false (Core.decoded 9);
  callback_fails = λ r. throws;
  wants_published = true;
  wants_completed = true;
}

publish_core_rpc-Answered_example :
    Answered none true
      (effective false none (Core.replied false (Core.decoded 9)))
      (Core.publish_core_rpc client (core_world none) core_request)
publish_core_rpc-Answered_example =
    publish_core_rpc-Answered client (core_world none) core_request (λ r. refl)

-- A callback that throws is called with the answer, with what it threw, and with an internal error.
core_callback_throws :
    answers
      (Core.publish_core_rpc client (core_world (some (Core.thrown (error "mine")))) core_request)
    ≡ answered 9 ∷ failed (error "mine") ∷ failed (error "Internal transport error") ∷ []
unfolding Core.publish_core_rpc Core.attempt Core.on_response Core.on_failure
core_callback_throws = refl
