-- ===== src/Record/Examples.antt =====
-- Tests of the record builder, and its theorems at concrete calls.
use nestjs_jetstream.Prelude.{ℕ, ◌≡◌, refl, none, some, List, [], ◌∷◌, arith}
use nestjs_jetstream.Maps.{set}
use nestjs_jetstream.Event.Headers.{is_control}
use nestjs_jetstream.Record.{
  seconds, nanoseconds, hours, nanos_to_go_duration, reserved_header, control_header, is_reserved,
  validate_header_key, time, nanos, infinite_or_negative, builder, set_header, set_headers,
  schedule_at, ttl, build,
}
use nestjs_jetstream.Record.Laws.{
  BuilderCall, sets_data, sets_header, sets_headers, schedules, sets_ttl, Sound, run, build-Sound,
}

ninety_seconds : nanos_to_go_duration 90000000000 ≡ record { amount = 90; unit = seconds }
unfolding nanos_to_go_duration
ninety_seconds = refl

two_hours : nanos_to_go_duration 7200000000000 ≡ record { amount = 2; unit = hours }
unfolding nanos_to_go_duration
two_hours = refl

odd_nanos : nanos_to_go_duration 1500 ≡ record { amount = 1500; unit = nanoseconds }
unfolding nanos_to_go_duration
odd_nanos = refl

reserved_in_any_case : validate_header_key "X-Reply-To" ≡ some (reserved_header "X-Reply-To")
unfolding validate_header_key is_control is_reserved
reserved_in_any_case = refl

control_in_any_case : validate_header_key "NATS-Rollup" ≡ some (control_header "NATS-Rollup")
unfolding validate_header_key is_control is_reserved
control_in_any_case = refl

-- Headers and a schedule, some of which are refused.
abbrev pub calls : List (BuilderCall ℕ)
calls =
    sets_data 7
    ∷ sets_header "x-tenant" "acme"
    ∷ sets_header "X-Correlation-ID" "mine"
    ∷ sets_headers (("x-a", "1") ∷ ("Nats-TTL", "1h") ∷ ("x-b", "2") ∷ [])
    ∷ schedules 100 (time 90)
    ∷ schedules 110 (time 500)
    ∷ sets_ttl infinite_or_negative
    ∷ sets_ttl (nanos 90000000000)
    ∷ []

calls_built : (build (run calls (builder none))).headers ≡ ("x-tenant", "acme") ∷ ("x-a", "1") ∷ []
unfolding builder set_header set_headers validate_header_key is_control is_reserved set schedule_at
    ttl
calls_built = refl

build-Sound_example : Sound 100 (build (run calls (builder none)))
build-Sound_example = build-Sound 100 none calls (omega arith, (omega arith, tt))
