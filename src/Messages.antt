-- ===== src/Messages.antt =====
-- src/server/infrastructure/message.provider.ts: the flow of a consumer, which starts again whenever it
-- ends, and the promise that an ordered consumer is connected. Logging is left out.
pub mod Laws
pub mod Examples
use Prim.Native.Nat.{◌^◌}
use Prim.Native.String.{String}
use nestjs_jetstream.Prelude.{
  ℕ, suc, ◌*◌, min, Bool, true, false, Option, none, some, List, [], ◌∷◌, ◌++◌, if◌then◌else◌, ltb,
}
use nestjs_jetstream.Event.Actions.{Thrown, error, describe}

-- One iteration: getting the consumer or beginning to consume fails; or it consumes, until the
-- iterator is closed or breaks.
pub data Round : Type 0 where
  fails : Thrown → Round
  consumes : Option Thrown → Round

-- `waiting`: the promise of an ordered consumer has its two callbacks still; `first_error`: so has the
-- flow its callback for the first error.
pub record Flow : Type 0 where
  pub failures : ℕ
  pub first_error : Bool
  pub waiting : Bool

pub data Call : Type 0 where
  emits_recovered restarts_in : ℕ → Call
  emits_error : String → Call
  resolves_ready : Call
  rejects_ready : Thrown → Call

abbrev pub start_ordered : Flow
start_ordered = record { failures = 0; first_error = true; waiting = true }

-- The flow of a durable consumer.
abbrev pub start : Flow
start = record { failures = 0; first_error = false; waiting = false }

abbrev pub and_then : Flow × List Call → (Flow → Flow × List Call) → Flow × List Call
and_then (f, t) g = let rest = g f in (rest.0, t ++ rest.1)

unfoldable pub on_connected : Flow → Flow × List Call
on_connected f =
    (record f { failures = 0 }, if ltb 0 f.failures then emits_recovered f.failures ∷ [] else [])

-- `orderedReadyResolve`, once the consumer consumes.
unfoldable pub resolve_ready : Flow → Flow × List Call
resolve_ready f = if f.waiting then (record f { waiting = false }, resolves_ready ∷ []) else (f, [])

abbrev pub reject_ready : Thrown → Flow → Flow × List Call
reject_ready e f =
    if f.waiting then (record f { waiting = false }, rejects_ready e ∷ []) else (f, [])

unfoldable pub on_first_error : Thrown → Flow → Flow × List Call
on_first_error e f =
    if f.first_error then reject_ready e (record f { first_error = false }) else (f, [])

unfoldable pub on_error : Thrown → Flow → Flow × List Call
unfolding on_first_error
on_error e f =
    and_then (record f { failures = suc f.failures }, emits_error (describe e) ∷ [])
      (on_first_error e)

abbrev pub restart_delay : ℕ → ℕ
restart_delay failures = min (100 * 2 ^ failures) 30000

abbrev pub restart : Flow → Flow × List Call
restart f = (f, restarts_in (restart_delay f.failures) ∷ [])

abbrev pub on_closed : Option Thrown → Flow → Flow × List Call
on_closed none f = (f, [])
on_closed (some e) f = on_error e f

-- One iteration and the delay after it.
unfoldable pub heal : Round → Flow → Flow × List Call
unfolding on_connected resolve_ready on_error
heal (fails e) f = and_then (on_error e f) restart
heal (consumes o) f =
    and_then (and_then (and_then (resolve_ready f) on_connected) (on_closed o)) restart

abbrev pub run : List Round → Flow → Flow × List Call
run [] f = (f, [])
run (r ∷ rs) f = and_then (heal r f) (run rs)

-- `destroy`, for a promise that still waits.
abbrev pub destroy : Flow → Flow × List Call
destroy f = reject_ready (error "Destroyed before ordered consumer connected") f
