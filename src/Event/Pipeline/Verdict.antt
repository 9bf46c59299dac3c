-- ===== src/Event/Pipeline/Verdict.antt =====
-- How the route of a workqueue or broadcast message settles it.
use Prim.Native.String
use Prim.Native.String.{String}
use nestjs_jetstream.Prelude.{
  ◌≡◌, refl, ◌∙◌, append-nil, ap, true, false, inl, inr, Option, none, some, List, [], ◌∷◌, arith,
  if◌then◌else◌, Bool-cases,
}
use nestjs_jetstream.Event.Actions.{
  Thrown, error, Settle, ack, nak, term, HandlerStatus, failed, Call, settles, emits_error,
  publishes, calls_on_dead_letter, Act, ◌>>◌, finally, call,
}
use nestjs_jetstream.Event.Context.{RpcContext, status_for_context}
use nestjs_jetstream.Event.Retry.{retry_delay_for}
use nestjs_jetstream.Event.Capture.{Capture, Oracle, JsMsg, capture, settle_quietly}
use nestjs_jetstream.Event.Capture.Verdict.{
  captured, settlements, settlements-append, Settles, Ends, settle_quietly-Settles, >>-Settles,
  >>-Throws, >>-Throws_left,
}
use nestjs_jetstream.Event.Capture.Laws.{capture-Ends}
use nestjs_jetstream.Event.Settlement.{
  escalation, or_delay, Settled, settle_success, settle_failure,
}
use nestjs_jetstream.Event.Pipeline.{
  decoded, undecodable, Outcome, returned, threw, resolved, rejected, Delivery,
  RoutePipelineContext, report, stop_extension, weave, fail, finish, conclude,
}

-- A dead letter on the last delivery, if there is a capture; otherwise the given settlement.
abbrev pub escalated : RoutePipelineContext → JsMsg → Oracle → Settle → Settle
escalated rctx msg o otherwise = elim (escalation rctx.capture msg) [
  | some c ↦ captured c o
  | none ↦ otherwise
]

-- The settlement after the handler failed.
abbrev pub failure_verdict : RoutePipelineContext → JsMsg → Oracle → Settle
failure_verdict rctx msg o =
    escalated rctx msg o (nak (retry_delay_for rctx.retry_delays msg.delivery_count))

-- The settlement after the handler completed: its wish, and an acknowledgement without one.
abbrev pub success_verdict : RoutePipelineContext → JsMsg → Oracle → RpcContext → Settle
success_verdict rctx msg o ctx =
    if ctx.should_terminate
    then term ctx.terminate_reason
    else if ctx.should_retry
    then escalated rctx msg o
        (nak (or_delay ctx.retry_delay (retry_delay_for rctx.retry_delays msg.delivery_count)))
    else ack

abbrev pub handled_verdict : RoutePipelineContext → JsMsg → Oracle → RpcContext → Outcome → Settle
handled_verdict rctx msg o ctx returned = success_verdict rctx msg o ctx
handled_verdict rctx msg o ctx (threw e) = failure_verdict rctx msg o
handled_verdict rctx msg o ctx resolved = success_verdict rctx msg o ctx
handled_verdict rctx msg o ctx (rejected e) = failure_verdict rctx msg o

-- A message that cannot be handled is captured at once, or dropped if there is no capture.
abbrev pub unroutable_verdict : RoutePipelineContext → Oracle → String → Settle
unroutable_verdict rctx o reason = elim rctx.capture [
  | none ↦ term (some reason)
  | some c ↦ captured c o
]

-- The settlement that a delivery deserves.
abbrev pub verdict : {D : Type 0} → RoutePipelineContext → Delivery D → Settle
verdict rctx v =
    if rctx.handles v.msg.subject
    then elim v.payload [
      | decoded d ↦ handled_verdict rctx v.msg v.oracle v.ctx v.outcome
      | undecodable e ↦ unroutable_verdict rctx v.oracle "Decode error"
    ]
    else unroutable_verdict rctx v.oracle (String.◌++◌ "No handler for event: " v.msg.subject)

pub stop-settlements :
    (D : Type 0) (rctx : RoutePipelineContext) → settlements (stop_extension {D = D} rctx) ≡ []
stop-settlements D rctx = ground arith

module _ {D : Type 0} (rctx : RoutePipelineContext) where
  escalate-Ends :
      (msg : JsMsg) (o : Oracle) (x : Option D) (e : Thrown) (s : Settle) (c : Option Capture)
      → Ends {D = D} o
          (elim c [ some k ↦ capture k o msg x e | none ↦ settle_quietly o s ])
          (elim c [ some k ↦ captured k o | none ↦ s ])
  escalate-Ends msg o x e s none = inl (settle_quietly-Settles o s)
  escalate-Ends msg o x e s (some c) = capture-Ends c o msg x e

  settle_failure-Ends :
      (v : Delivery D) (d : D) (e : Thrown)
      → Ends v.oracle
          (settle_failure v.oracle rctx.capture rctx.retry_delays v.msg d e)
          (failure_verdict rctx v.msg v.oracle)
  unfolding settle_failure
  settle_failure-Ends v d e =
      escalate-Ends v.msg v.oracle (some d) e _ (escalation rctx.capture v.msg)

  -- what `settleSuccess` does, its promise aside
  retry-Ends :
      (v : Delivery D) (d : D) (s : Settle) (c : Option Capture)
      → let r : Settled D = elim c [
        | some k ↦ record {
          promise = true;
          act =
              capture k v.oracle v.msg
                (some d)
                (error "Retry requested on the final delivery attempt");
        }
        | none ↦ record { promise = false; act = settle_quietly v.oracle s }
      ] in
        Ends v.oracle r.act (elim c [ some k ↦ captured k v.oracle | none ↦ s ])
  retry-Ends v d s none = inl (settle_quietly-Settles v.oracle s)
  retry-Ends v d s (some c) = capture-Ends c v.oracle v.msg (some d) _

  settle_success-Ends :
      (v : Delivery D) (d : D)
      → Ends v.oracle
          (settle_success v.oracle rctx.capture rctx.retry_delays v.msg v.ctx d).act
          (success_verdict rctx v.msg v.oracle v.ctx)
  unfolding settle_success
  settle_success-Ends v d = elim (Bool-cases v.ctx.should_terminate) [
    | inl t ↦ rw t (inl (settle_quietly-Settles v.oracle (term v.ctx.terminate_reason)))
    | inr t ↦ elim (Bool-cases v.ctx.should_retry) [
      | inl r ↦ rw (t, r) (retry-Ends v d _ (escalation rctx.capture v.msg))
      | inr r ↦ rw (t, r) (inl (settle_quietly-Settles v.oracle ack))
    ]
  ]

  report-Settles : (st : HandlerStatus) → Settles {D = D} (report rctx st) []
  report-Settles st = ground arith

  prefix-Ends :
      (o : Oracle) (p a : Act D) (s : Settle) → Settles p [] → Ends o a s → Ends o (p >> a) s
  prefix-Ends o p a s q (inl h) = inl (>>-Settles p a q h)
  prefix-Ends o p a s q (inr (h, r)) = inr (>>-Throws p a q h, r)

  suffix-Ends :
      (o : Oracle) (a p : Act D) (s : Settle) → Settles p [] → Ends o a s → Ends o (a >> p) s
  suffix-Ends o a p s q (inl h) = inl (>>-Settles a p h q)
  suffix-Ends o a p s q (inr (h, r)) = inr (>>-Throws_left a p h, r)

  -- Calls that settle nothing, put after or into an act's calls.
  extend-Ends :
      (o : Oracle) (a b : Act D) (s : Settle)
      → settlements b.calls ≡ settlements a.calls
      → b.failure ≡ a.failure
      → Ends o a s
      → Ends o b s
  extend-Ends o a b s e f (inl h) = inl (record { made = e ∙ h.made; normal = f ∙ h.normal })
  extend-Ends o a b s e f (inr (h, r)) =
      inr (record { made = e ∙ h.made; thrown = (h.thrown.0, f ∙ h.thrown.1) }, r)

  finally-Ends :
      (o : Oracle) (a : Act D) (s : Settle)
      → Ends o a s
      → Ends o (finally a (stop_extension rctx)) s
  finally-Ends o a s h =
      extend-Ends o a (finally a (stop_extension rctx)) s
        (simp (settlements-append, stop-settlements D rctx, append-nil)) refl h

  settlements-weave :
      (r t : List (Call D)) → settlements r ≡ [] → settlements (weave rctx r t) ≡ settlements t
  settlements-weave r [] h = h
  settlements-weave r (publishes s hs n ∷ t) h = simp (settlements-append, h)
  settlements-weave r (calls_on_dead_letter i ∷ t) h = simp (settlements-append, h)
  settlements-weave r (settles s ∷ t) h = ap (λ l. s ∷ l) (settlements-weave r t h)
  settlements-weave r (_ ∷ t) h = settlements-weave r t h

  fail-Ends :
      (v : Delivery D) (d : D) (e : Thrown)
      → Ends v.oracle (fail rctx v d e) (failure_verdict rctx v.msg v.oracle)
  unfolding fail
  fail-Ends v d e =
      prefix-Ends v.oracle (call (emits_error e) >> report rctx failed) _ _
        (>>-Settles (call (emits_error e)) (report rctx failed)
          (record { made = refl; normal = refl }) (report-Settles failed))
        (finally-Ends v.oracle _ _ (settle_failure-Ends v d e))

  finish-Ends :
      (v : Delivery D) (x : Settled D) (s : Settle)
      → Ends v.oracle x.act s
      → Ends v.oracle (finish rctx v x).act s
  unfolding finish
  finish-Ends v x s h = finally-Ends v.oracle _ s (elim (Bool-cases x.promise) [
    | inl p ↦ rw p (
        extend-Ends v.oracle x.act _ s
          (settlements-weave _ x.act.calls (report-Settles (status_for_context v.ctx)).made) refl h)
    | inr p ↦ rw p (suffix-Ends v.oracle x.act _ s (report-Settles (status_for_context v.ctx)) h)
  ])

  pub conclude-Ends :
      (v : Delivery D) (d : D) (oc : Outcome)
      → Ends v.oracle (conclude rctx v d oc).act (handled_verdict rctx v.msg v.oracle v.ctx oc)
  unfolding conclude
  conclude-Ends v d returned = finish-Ends v _ _ (settle_success-Ends v d)
  conclude-Ends v d (threw e) = fail-Ends v d e
  conclude-Ends v d resolved = finally-Ends v.oracle _ _ (
      suffix-Ends v.oracle _ _ _ (report-Settles (status_for_context v.ctx))
        (settle_success-Ends v d))
  conclude-Ends v d (rejected e) = fail-Ends v d e
