-- ===== src/Rpc.antt =====
-- src/server/routing/rpc.router.ts: one RPC command in JetStream mode.
--
-- Acts and calls are those of event routing. A reply is recorded where it was encoded and
-- published; that one of these throws is an oracle. Spans are left out, but for the abort.
pub mod Laws
pub mod Refusal
pub mod Naks
pub mod Examples
use Prim.Native.String
use Prim.Native.String.{String}
use text.Mathlib.Text.{◌==◌ as str_eq}
use nestjs_jetstream.Prelude.{
  ℕ, Bool, true, false, ◌||◌, Option, none, some, List, [], ◌∷◌, ◌++◌, if◌then◌else◌, ltb,
}
use nestjs_jetstream.Event.Actions.{
  Thrown, Settle, ack, term, HandlerStatus, success, failed, terminated, Call, logs, emits_routed,
  emits_error, emits_completed, runs_handler, starts_extension, stops_extension, replies,
  replies_error, emits_timeout, arms_deadline, clears_deadline, aborts_span, Act, nothing, call,
  raise, ◌>>◌, catch, when,
}
use nestjs_jetstream.Event.Capture.{Oracle, try_settle, settle_quietly}
use nestjs_jetstream.Event.Pipeline.{Decoded, decoded, undecodable}

-- What the handler gives at once: a value, a throw, or a promise.
pub data Outcome (D : Type 0) : Type 0 where
  returned : D → Outcome D
  threw : Thrown → Outcome D
  promised : Outcome D

-- One command with its surroundings. `reply_fails` and `error_reply_fails` say what encoding or
-- publishing the reply, or the error reply, throws.
pub record Command (D : Type 0) : Type 0 where
  pub subject : String
  pub reply_to : Option String
  pub correlation_id : Option String
  pub payload : Decoded D
  pub outcome : Outcome D
  pub oracle : Oracle
  pub reply_fails : D → Option Thrown
  pub error_reply_fails : Thrown → Option Thrown

pub record RouterContext : Type 0 where
  pub handles : String → Bool
  pub has_hook : Bool
  pub ack_extension_interval : Option ℕ
  pub timeout : ℕ

-- What happens to a command whose handler left a promise: the deadline passes, or the promise is
-- fulfilled or rejected.
pub data Event (D : Type 0) : Type 0 where
  deadline : Event D
  fulfilled : D → Event D
  rejected : Thrown → Event D

pub data Resolved (D : Type 0) : Type 0 where
  command : D → Resolved D
  settled : Act D → Resolved D

-- `!value` of an optional text: missing or empty
abbrev pub is_missing : Option String → Bool
is_missing none = true
is_missing (some s) = str_eq s ""

-- The pending command: whether it is settled, and the calls made since the handler was run.
pub record Pending (D : Type 0) : Type 0 where
  pub settled : Bool
  pub calls : List (Call D)

module _ {D : Type 0} (rctx : RouterContext) (m : Command D) where
  abbrev pub report : HandlerStatus → Act D
  report status = when rctx.has_hook (call (emits_completed status))

  abbrev pub stop_extension : Act D
  stop_extension = elim rctx.ack_extension_interval [
    | none ↦ nothing
    | some n ↦ when (ltb 0 n) (call stops_extension)
  ]

  abbrev pub start_extension : Act D
  start_extension = elim rctx.ack_extension_interval [
    | none ↦ nothing
    | some n ↦ when (ltb 0 n) (call (starts_extension n))
  ]

  abbrev attempt : Option Thrown → Call D → Act D
  attempt none c = call c
  attempt (some e) c = raise e

  unfoldable pub publish_error_reply : Thrown → Act D
  publish_error_reply e = catch (attempt (m.error_reply_fails e) (replies_error e)) (λ _. call logs)

  unfoldable pub publish_reply : D → Act D
  publish_reply d =
      catch (attempt (m.reply_fails d) (replies d)) (λ e. call logs >> publish_error_reply e)

  unfoldable pub report_handler_error : Thrown → Act D
  report_handler_error e =
      call (emits_error e)
      >> publish_error_reply e
      >> settle_quietly m.oracle (term (some (String.◌++◌ "Handler error: " m.subject)))

  -- A message that is terminated unhandled; the outer `catch` terminates it once more if that throws.
  pub refuse : String → Resolved D
  refuse reason = settled (
      catch (try_settle m.oracle (term (some reason)) >> call logs) (λ _.
        call logs
        >> catch (try_settle m.oracle (term (some "Unexpected router error"))) (λ _. call logs)))

  unfoldable pub resolve_command : Resolved D
  unfolding refuse
  resolve_command =
      if rctx.handles m.subject
      then if is_missing m.reply_to || is_missing m.correlation_id
        then refuse "Missing required headers (reply-to or correlation-id)"
        else elim m.payload [ decoded d ↦ command d | undecodable e ↦ refuse "Decode error" ]
      else refuse (String.◌++◌ "No handler for RPC: " m.subject)

  -- The handler completed: the acknowledgement does not wait for the reply.
  unfoldable pub succeed : D → Act D
  succeed d = settle_quietly m.oracle ack >> publish_reply d >> report success

  unfoldable pub fail : Thrown → Act D
  fail e = report_handler_error e >> report failed

  -- The timer's callback and the promise's two callbacks, each under `if (settled) return`.
  unfoldable pub on_event : Event D → Act D
  on_event deadline =
      stop_extension
      >> call aborts_span
      >> call emits_timeout
      >> settle_quietly m.oracle (term (some "Handler timeout"))
      >> report terminated
  on_event (fulfilled d) = call clears_deadline >> stop_extension >> succeed d
  on_event (rejected e) = call clears_deadline >> stop_extension >> fail e

  unfoldable pub step : Pending D → Event D → Pending D
  step p e =
      if p.settled then p else record { settled = true; calls = p.calls ++ (on_event e).calls }

  unfoldable pub run : Pending D → List (Event D) → Pending D
  run p [] = p
  run p (e ∷ es) = run (step p e) es

  -- `handleSafe` up to its return, for a command that reached its handler: the calls, and whether a
  -- promise was returned.
  unfoldable pub start_handler : Outcome D → D → Bool × Act D
  start_handler (threw e) d =
      (false, start_extension >> call (runs_handler d) >> (stop_extension >> fail e))
  start_handler (returned r) d =
      (false, start_extension >> call (runs_handler d) >> (stop_extension >> succeed r))
  start_handler promised d =
      (true, start_extension >> call (runs_handler d) >> call (arms_deadline rctx.timeout))

  -- The whole life of a command: the events are those of its promise and its deadline, in order.
  unfoldable pub handle_safe : List (Event D) → List (Call D)
  handle_safe events = elim resolve_command [
    | settled a ↦ a.calls
    | command d ↦
        let (promise, a) = start_handler m.outcome d in
        let later = run (record { settled = false; calls = [] }) events in
        emits_routed m.subject ∷ (a.calls ++ (if promise then later.calls else []))
  ]
