-- ===== src/Event/Settlement.antt =====
-- src/server/routing/settlement.ts: ack, nak, term, or dead-letter escalation.
use nestjs_jetstream.Prelude.{ℕ, Bool, true, false, Option, none, some, List, if◌then◌else◌}
use nestjs_jetstream.Event.Actions.{Thrown, error, ack, nak, term, Act}
use nestjs_jetstream.Event.Context.{RpcContext}
use nestjs_jetstream.Event.Retry.{retry_delay_for}
use nestjs_jetstream.Event.Capture.{
  Capture, Oracle, JsMsg, is_final_delivery, settle_quietly, capture,
}

-- The capture, if there is one and this is the last delivery: `capture?.isFinalDelivery(msg)`.
unfoldable pub escalation : Option Capture → JsMsg → Option Capture
escalation none msg = none
escalation (some c) msg = if is_final_delivery c msg then some c else none

abbrev pub or_delay : Option ℕ → Option ℕ → Option ℕ
or_delay none d = d
or_delay (some d) _ = some d

-- What `settleSuccess` does, and whether it returned a promise.
pub record Settled (D : Type 0) : Type 0 where
  pub promise : Bool
  pub act : Act D

module _ {D : Type 0} (o : Oracle) (c : Option Capture) (retry_delays : List ℕ) where
  unfoldable pub settle_success : JsMsg → RpcContext → D → Settled D
  settle_success msg ctx payload =
      if ctx.should_terminate
      then record { promise = false; act = settle_quietly o (term ctx.terminate_reason) }
      else if ctx.should_retry
      then elim (escalation c msg) [
        | some k ↦ record {
          promise = true;
          act =
              capture k o msg (some payload)
                (error "Retry requested on the final delivery attempt");
        }
        | none ↦ record {
          promise = false;
          act =
              settle_quietly o
                (nak (or_delay ctx.retry_delay (retry_delay_for retry_delays msg.delivery_count)));
        }
      ]
      else record { promise = false; act = settle_quietly o ack }

  unfoldable pub settle_failure : JsMsg → D → Thrown → Act D
  settle_failure msg payload e = elim (escalation c msg) [
    | some k ↦ capture k o msg (some payload) e
    | none ↦ settle_quietly o (nak (retry_delay_for retry_delays msg.delivery_count))
  ]
