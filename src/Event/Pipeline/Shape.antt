-- ===== src/Event/Pipeline/Shape.antt =====
-- The order of a route's calls, and what the ordered pipeline leaves alone.
use nestjs_jetstream.Prelude.{
  ◌≡◌, refl, ap, sym, ◌∙◌, append_assoc, append-nil, true, none, List, [], ◌∷◌, ◌++◌, arith,
  if◌then◌else◌,
}
use nestjs_jetstream.Event.Actions.{
  Call, emits_routed, runs_handler, HandlerStatus, Act, ◌>>◌, call, emits_error, failed,
}
use nestjs_jetstream.Event.Capture.Verdict.{settlements, settlements-append}
use nestjs_jetstream.Event.Pipeline.Verdict.{stop-settlements}
use nestjs_jetstream.Event.Pipeline.{
  decoded, undecodable, Outcome, returned, threw, resolved, rejected, Delivery,
  RoutePipelineContext, event, report, start_extension, stop_extension, conclude, before, follow,
  fail, finish, resolve_event, workqueue_route, ordered_route, ordered_conclude,
  warn_if_settlement_attempted,
}

module _ {D : Type 0} (rctx : RoutePipelineContext) where
  -- The act makes these calls, after some others.
  abbrev EndsWith : List (Call D) → List (Call D) → Type 0
  EndsWith t last = (mid : List (Call D)) × (t ≡ mid ++ last)

  EndsWith-prefix : (p t last : List (Call D)) → EndsWith t last → EndsWith (p ++ t) last
  EndsWith-prefix p t last (mid, e) = (p ++ mid, ap (λ x. p ++ x) e ∙ sym (append_assoc p mid last))

  >>-EndsWith :
      (a b : Act D) (last : List (Call D))
      → a.failure ≡ none
      → EndsWith b.calls last
      → EndsWith (a >> b).calls last
  >>-EndsWith a b last n e = rw n (EndsWith-prefix a.calls b.calls last e)

  report_normal : (c : Call D) (st : HandlerStatus) → (call c >> report rctx st).failure ≡ none
  report_normal c st = ground arith

  conclude-EndsWith :
      (v : Delivery D) (d : D) (oc : Outcome)
      → EndsWith (conclude rctx v d oc).act.calls (stop_extension rctx)
  unfolding conclude fail finish
  conclude-EndsWith v d returned = (_, refl)
  conclude-EndsWith v d resolved = (_, refl)
  conclude-EndsWith v d (threw e) =
      >>-EndsWith (call (emits_error e) >> report rctx failed) _ _
        (report_normal (emits_error e) failed) (_, refl)
  conclude-EndsWith v d (rejected e) =
      >>-EndsWith (call (emits_error e) >> report rctx failed) _ _
        (report_normal (emits_error e) failed) (_, refl)

  resolve_event-event :
      (v : Delivery D) (d : D)
      → rctx.handles v.msg.subject ≡ true
      → v.payload ≡ decoded d
      → resolve_event rctx v ≡ event d
  unfolding resolve_event
  resolve_event-event v d known readable = ground arith

  before-settlements : (v : Delivery D) (d : D) → settlements (before rctx v d) ≡ []
  before-settlements v d = ground arith

  past_before :
      (v : Delivery D) (d : D) (t : List (Call D))
      → settlements (before rctx v d ++ t) ≡ settlements t
  past_before v d t = rw (settlements-append, before-settlements v d)

  -- A message that reaches its handler: the route announces it, starts the ack extension if one is
  -- configured and runs the handler, in this order; then come all the settlement calls; and the stop
  -- of the extension, if it was started, is the last call of all, whatever the handler does and
  -- whichever calls fail.
  pub workqueue_extension_last :
      (v : Delivery D) (d : D)
      → rctx.handles v.msg.subject ≡ true
      → v.payload ≡ decoded d
      → (mid : List (Call D)) × ((workqueue_route rctx v).act.calls
          ≡ (emits_routed v.msg.subject ∷ (start_extension rctx ++ runs_handler d ∷ []))
            ++ (mid ++ stop_extension rctx))
        × (settlements mid ≡ settlements (workqueue_route rctx v).act.calls)
  unfolding workqueue_route follow
  workqueue_extension_last v d known readable =
      let (mid, e) = conclude-EndsWith v d v.outcome in
      rw (resolve_event-event v d known readable) (
        mid,
        ap (λ t. before rctx v d ++ t) e,
        sym (
            past_before v d (conclude rctx v d v.outcome).act.calls
            ∙ ap settlements e
            ∙ silent mid),
      )
    where
      silent : (mid : List (Call D)) → settlements (mid ++ stop_extension rctx) ≡ settlements mid
      silent mid = simp (settlements-append, stop-settlements D rctx, append-nil)

  -- The payloads that the handler is run on.
  abbrev pub handled : List (Call D) → List D
  handled [] = []
  handled (runs_handler d ∷ t) = d ∷ handled t
  handled (_ ∷ t) = handled t

  -- The payload for the handler, if there is a handler and the payload can be decoded.
  abbrev pub for_handler : Delivery D → List D
  for_handler v =
      if rctx.handles v.msg.subject
      then elim v.payload [ decoded d ↦ d ∷ [] | undecodable e ↦ [] ]
      else []

  -- An ordered message is never settled, and its route never fails, whatever the handler wishes or
  -- throws; the handler runs, once, if and only if there is one and the payload can be decoded.
  pub ordered_never_settles :
      (v : Delivery D)
      → let a = (ordered_route rctx v).act in
        (settlements a.calls ≡ []) × (a.failure ≡ none) × (handled a.calls ≡ for_handler v)
  unfolding ordered_route ordered_conclude warn_if_settlement_attempted
  ordered_never_settles v = ground arith
