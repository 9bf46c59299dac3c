-- ===== src/Event/Context.antt =====
-- src/context/rpc.context.ts: the settlement wish of a handler.
use Prim.Native.String.{String}
use nestjs_jetstream.Prelude.{
  ℕ, ◌≡◌, refl, Bool, true, false, Option, none, some, List, [], ◌∷◌, arith, if◌then◌else◌, not,
  ◌&&◌, ◌||◌,
}
use nestjs_jetstream.Event.Actions.{HandlerStatus, success, retried, terminated}

-- `jetstream`: the message can be settled (`'ack' in args[0]`).
pub record RpcContext : Type 0 where
  pub jetstream : Bool
  pub should_retry : Bool
  pub retry_delay : Option ℕ
  pub should_terminate : Bool
  pub terminate_reason : Option String

unfoldable pub new : Bool → RpcContext
new jetstream = record {
  jetstream = jetstream;
  should_retry = false;
  retry_delay = none;
  should_terminate = false;
  terminate_reason = none;
}

-- A method that throws leaves the context as it is: `none`.
unfoldable pub retry : Option ℕ → RpcContext → Option RpcContext
retry delay_ms ctx =
    if not ctx.jetstream
    then none
    else if ctx.should_terminate
    then none
    else some (record ctx { should_retry = true; retry_delay = delay_ms })

unfoldable pub terminate : Option String → RpcContext → Option RpcContext
terminate reason ctx =
    if not ctx.jetstream
    then none
    else if ctx.should_retry
    then none
    else some (record ctx { should_terminate = true; terminate_reason = reason })

-- What a handler may do with its context, in any order; a call that throws changes nothing.
pub data Wish : Type 0 where
  wants_retry : Option ℕ → Wish
  wants_termination : Option String → Wish

or_keep : RpcContext → Option RpcContext → RpcContext
or_keep ctx none = ctx
or_keep ctx (some ctx') = ctx'

unfoldable pub apply : RpcContext → List Wish → RpcContext
unfolding or_keep
apply ctx [] = ctx
apply ctx (wants_retry d ∷ ws) = apply (or_keep ctx (retry d ctx)) ws
apply ctx (wants_termination r ∷ ws) = apply (or_keep ctx (terminate r ctx)) ws

-- src/server/routing/settlement.ts
unfoldable pub status_for_context : RpcContext → HandlerStatus
status_for_context ctx =
    if ctx.should_terminate then terminated else if ctx.should_retry then retried else success

apply-exclusive :
    (ctx : RpcContext) (ws : List Wish)
    → (ctx.should_retry && ctx.should_terminate) ≡ false
    → ((apply ctx ws).should_retry && (apply ctx ws).should_terminate) ≡ false
unfolding apply retry terminate
apply-exclusive ctx [] h = h
apply-exclusive ctx (wants_retry d ∷ ws) h =
    apply-exclusive (or_keep ctx (retry d ctx)) ws (ground arith)
apply-exclusive ctx (wants_termination r ∷ ws) h =
    apply-exclusive (or_keep ctx (terminate r ctx)) ws (ground arith)

refused :
    (ctx : RpcContext) (d : Option ℕ) (r : Option String)
    → ctx.jetstream ≡ false
    → (or_keep ctx (retry d ctx) ≡ ctx) × (or_keep ctx (terminate r ctx) ≡ ctx)
unfolding retry terminate or_keep
refused ctx d r h = ground arith

apply_core : (ctx : RpcContext) (ws : List Wish) → ctx.jetstream ≡ false → apply ctx ws ≡ ctx
unfolding apply
apply_core ctx [] h = refl
apply_core ctx (wants_retry d ∷ ws) h = rw (refused ctx d none h).0 (apply_core ctx ws h)
apply_core ctx (wants_termination r ∷ ws) h = rw (refused ctx none r h).1 (apply_core ctx ws h)

-- Whatever a handler asks of its context, and however often, a retry and a termination are never
-- wished for at once, and on a message that cannot be settled neither is.
pub apply-new :
    (jetstream : Bool) (ws : List Wish)
    → let ctx = apply (new jetstream) ws in
      ((ctx.should_retry && ctx.should_terminate) ≡ false)
      × (((ctx.should_retry || ctx.should_terminate) && not jetstream) ≡ false)
unfolding new
apply-new true ws = (apply-exclusive (new true) ws refl, ground arith)
apply-new false ws = (apply-exclusive (new false) ws refl, rw (apply_core (new false) ws refl) refl)
