-- ===== src/Event/Pipeline.antt =====
-- src/server/routing/event-pipeline.ts: the routes of workqueue, broadcast and ordered streams.
pub mod Verdict
pub mod Laws
pub mod Shape
use Prim.Native.String
use Prim.Native.String.{String}
use nestjs_jetstream.Prelude.{
  ℕ, Bool, true, false, ◌||◌, Option, none, some, List, [], ◌∷◌, ◌++◌, if◌then◌else◌, ltb,
}
use nestjs_jetstream.Event.Actions.{
  Thrown, error, describe, Settle, term, HandlerStatus, success, failed, Call, settles, logs,
  emits_routed, emits_error, emits_completed, runs_handler, publishes, calls_on_dead_letter,
  starts_extension, stops_extension, Act, nothing, call, ◌>>◌, catch, finally, when,
}
use nestjs_jetstream.Event.Context.{RpcContext, status_for_context}
use nestjs_jetstream.Event.Capture.{Capture, Oracle, JsMsg, try_settle, capture}
use nestjs_jetstream.Event.Settlement.{Settled, settle_success, settle_failure}

-- What the codec makes of the payload.
pub data Decoded (D : Type 0) : Type 0 where
  decoded : D → Decoded D
  undecodable : Thrown → Decoded D

-- What the handler does: it returns or throws, or its promise is fulfilled or rejected.
pub data Outcome : Type 0 where
  returned : Outcome
  threw : Thrown → Outcome
  resolved : Outcome
  rejected : Thrown → Outcome

-- One message with its surroundings: its decoding, what its handler does and wishes.
pub record Delivery (D : Type 0) : Type 0 where
  pub msg : JsMsg
  pub payload : Decoded D
  pub outcome : Outcome
  pub ctx : RpcContext
  pub oracle : Oracle

-- The routing context. `handles`: the registry has a handler for the subject; `has_hook`: someone
-- listens to handler completions.
pub record RoutePipelineContext : Type 0 where
  pub handles : String → Bool
  pub has_hook : Bool
  pub ack_extension_interval : Option ℕ
  pub retry_delays : List ℕ
  pub capture : Option Capture

-- What the route did, and whether it returned a promise; the act's failure is the promise's
-- rejection, or a throw.
pub record Route (D : Type 0) : Type 0 where
  pub promise : Bool
  pub act : Act D

pub data Resolution (D : Type 0) : Type 0 where
  event : D → Resolution D
  capturing : Act D → Resolution D
  settled : Act D → Resolution D

module _ {D : Type 0} (rctx : RoutePipelineContext) where
  abbrev pub report : HandlerStatus → Act D
  report status = when rctx.has_hook (call (emits_completed status))

  abbrev pub payload_of : Decoded D → Option D
  payload_of (decoded d) = some d
  payload_of (undecodable e) = none

  unfoldable pub capture_unroutable : Capture → Delivery D → Thrown → Act D
  capture_unroutable c v e =
      catch (capture c v.oracle v.msg (payload_of v.payload) e) (λ _. call logs)

  -- the resolver's outer `catch`
  unfoldable pub guarded : Oracle → Act D → Act D
  guarded o a = catch a (λ _.
      call logs >> catch (try_settle o (term (some "Unexpected router error"))) (λ _. call logs))

  -- a message that no redelivery can fix
  unroutable_by : Option Capture → Delivery D → Thrown → String → Resolution D
  unroutable_by (some c) v e reason = capturing (call logs >> capture_unroutable c v e)
  unroutable_by none v e reason =
      settled (guarded v.oracle (call logs >> try_settle v.oracle (term (some reason))))

  unroutable : Delivery D → Thrown → String → Resolution D
  unfolding unroutable_by
  unroutable = unroutable_by rctx.capture

  unfoldable pub resolve_event : Delivery D → Resolution D
  unfolding unroutable
  resolve_event v =
      let missing = String.◌++◌ "No handler for event: " v.msg.subject in
      if rctx.handles v.msg.subject
      then elim v.payload [
        | decoded d ↦ event d
        | undecodable e ↦
            unroutable v (error (String.◌++◌ "Decode error: " (describe e))) "Decode error"
      ]
      else unroutable v (error missing) missing

  abbrev pub start_extension : List (Call D)
  start_extension = elim rctx.ack_extension_interval [
    | none ↦ []
    | some n ↦ if ltb 0 n then starts_extension n ∷ [] else []
  ]

  abbrev pub stop_extension : List (Call D)
  stop_extension = elim rctx.ack_extension_interval [
    | none ↦ []
    | some n ↦ if ltb 0 n then stops_extension ∷ [] else []
  ]

  -- A report made by the caller while the act is suspended: the act runs up to the first call that
  -- it awaits, a publish or the callback.
  abbrev pub weave : List (Call D) → List (Call D) → List (Call D)
  weave r [] = r
  weave r (publishes s h n ∷ t) = publishes s h n ∷ (r ++ t)
  weave r (calls_on_dead_letter i ∷ t) = calls_on_dead_letter i ∷ (r ++ t)
  weave r (c ∷ t) = c ∷ weave r t

  -- The handler threw, or its promise was rejected: `settleFailure`, then the extension stops.
  fail : Delivery D → D → Thrown → Act D
  fail v d e =
      call (emits_error e)
      >> report failed
      >> finally (settle_failure v.oracle rctx.capture rctx.retry_delays v.msg d e) stop_extension

  -- A synchronous handler returned.
  finish : Delivery D → Settled D → Route D
  finish v s = record {
    promise = s.promise;
    act =
        finally
          (if s.promise
            then record {
              calls = weave (report (status_for_context v.ctx)).calls s.act.calls;
              failure = s.act.failure;
            }
            else (s.act >> report (status_for_context v.ctx)))
          stop_extension;
  }

  -- From the end of the handler on.
  unfoldable pub conclude : Delivery D → D → Outcome → Route D
  unfolding fail finish
  conclude v d returned =
      finish v (settle_success v.oracle rctx.capture rctx.retry_delays v.msg v.ctx d)
  conclude v d (threw e) = record { promise = true; act = fail v d e }
  conclude v d resolved = record {
    promise = true;
    act =
        finally
          ((settle_success v.oracle rctx.capture rctx.retry_delays v.msg v.ctx d).act
            >> report (status_for_context v.ctx))
          stop_extension;
  }
  conclude v d (rejected e) = record { promise = true; act = fail v d e }

  abbrev pub before : Delivery D → D → List (Call D)
  before v d = emits_routed v.msg.subject ∷ (start_extension ++ runs_handler d ∷ [])

  -- the route of a resolved message
  follow : Delivery D → Resolution D → Route D
  follow v (settled a) = record { promise = false; act = a }
  follow v (capturing a) = record { promise = true; act = a }
  follow v (event d) =
      let r = conclude v d v.outcome in
      record {
        promise = r.promise;
        act = record { calls = before v d ++ r.act.calls; failure = r.act.failure };
      }

  unfoldable pub workqueue_route : Delivery D → Route D
  unfolding follow
  workqueue_route v = follow v (resolve_event v)

  warn_if_settlement_attempted : RpcContext → Act D
  warn_if_settlement_attempted ctx = when (ctx.should_retry || ctx.should_terminate) (call logs)

  -- From the end of an ordered handler on: no settlement, no capture.
  ordered_conclude : RpcContext → Outcome → Route D
  unfolding warn_if_settlement_attempted
  ordered_conclude ctx returned = record {
    promise = false;
    act = warn_if_settlement_attempted ctx >> report success;
  }
  ordered_conclude ctx (threw e) = record { promise = false; act = call logs >> report failed }
  ordered_conclude ctx resolved = record {
    promise = true;
    act = warn_if_settlement_attempted ctx >> report success;
  }
  ordered_conclude ctx (rejected e) = record { promise = true; act = call logs >> report failed }

  unfoldable pub ordered_route : Delivery D → Route D
  unfolding ordered_conclude
  ordered_route v =
      let dropped : Route D = record { promise = false; act = call logs } in
      if rctx.handles v.msg.subject
      then elim v.payload [
        | undecodable e ↦ dropped
        | decoded d ↦
            let r = ordered_conclude v.ctx v.outcome in
            record {
              promise = r.promise;
              act = call (emits_routed v.msg.subject) >> call (runs_handler d) >> r.act;
            }
      ]
      else dropped
