-- ===== src/Event/Pipeline/Laws.antt =====
-- How the routes settle their messages.
use Prim.Native.String
use Prim.Native.String.{String}
use nestjs_jetstream.Prelude.{
  ◌≤◌, ◌≡◌, refl, ap, ◌⊎◌, inl, inr, Option, none, some, [], ◌∷◌, arith, Bool-cases, Option-cases,
  length, keep,
}
use nestjs_jetstream.Event.Actions.{
  Thrown, error, describe, Settle, term, HeaderCall, logs, Act, ◌>>◌, catch, call,
}
use nestjs_jetstream.Event.Capture.{Capture, Oracle, try_settle, settle_quietly}
use nestjs_jetstream.Event.Capture.Verdict.{
  succeeds, captured, settlements, settlements-append, Settles, Refused, Ends,
  settle_quietly-Settles, catch-Settles, catch-Throws,
}
use nestjs_jetstream.Event.Capture.Laws.{capture-Ends}
use nestjs_jetstream.Event.Pipeline.{
  Decoded, decoded, undecodable, Delivery, RoutePipelineContext, event, before, capture_unroutable,
  guarded, unroutable, unroutable_by, payload_of, follow, resolve_event, workqueue_route,
}
use nestjs_jetstream.Event.Pipeline.Verdict.{
  verdict, unroutable_verdict, handled_verdict, conclude-Ends,
}

-- The settlement calls of a route whose message deserves `s`: that one; or none, if a header was
-- refused; or a second attempt after the server refused `s`.
abbrev pub Outcomes : {D : Type 0} → Oracle → Act D → Settle → Type 0
Outcomes o a s =
    ((settlements a.calls ≡ s ∷ []) × (a.failure ≡ none))
    ⊎ (((settlements a.calls ≡ []) × Refused o)
        ⊎ ((x : Settle) × (e : Thrown) × (settlements a.calls ≡ s ∷ x ∷ [])
            × (o.settle_fails s ≡ some e)))

dropped :
    (D : Type 0) (rctx : RoutePipelineContext) (o : Oracle) (s : Settle)
    → Outcomes {D = D} o (guarded rctx o (call logs >> try_settle o s)) s
unfolding guarded
dropped D rctx o s = elim (Option-cases (o.settle_fails s)) [
  | inl fine ↦ inl (rw fine (refl, refl))
  | inr (e, bad) ↦ inr (
      inr (
        term (some "Unexpected router error"),
        e,
        rw bad (ap (λ l. s ∷ l) (unexpected o).made),
        bad,
      ))
]
  where
    unexpected :
        (o : Oracle)
        → Settles {D = D}
            (catch (try_settle o (term (some "Unexpected router error"))) (λ _. call logs))
            (term (some "Unexpected router error") ∷ [])
    unexpected o = unfold settle_quietly in settle_quietly-Settles o _

module _ {D : Type 0} (rctx : RoutePipelineContext) where
  Ends-Outcomes : (o : Oracle) (a : Act D) (s : Settle) → Ends o a s → Outcomes o a s
  Ends-Outcomes o a s (inl h) = inl (h.made, h.normal)
  Ends-Outcomes o a s (inr (h, r)) = inr (inl (h.made, r))

  -- a message that is captured at once: a refused header is caught and logged
  captured_at_once :
      (c : Capture) (v : Delivery D) (e : Thrown)
      → Outcomes v.oracle (call logs >> capture_unroutable rctx c v e) (captured c v.oracle)
  unfolding capture_unroutable
  captured_at_once c v e = elim (capture-Ends c v.oracle v.msg (payload_of rctx v.payload) e) [
    | inl h ↦ let s = catch-Settles _ (λ _. call logs) h in inl (s.made, s.normal)
    | inr (h, r) ↦
        let s = catch-Throws _ (λ _. call logs) h (λ x. record { made = refl; normal = refl }) in
        inr (inl (s.made, r))
  ]

  unroutable-Outcomes :
      (c : Option Capture) (v : Delivery D) (e : Thrown) (reason : String)
      → Outcomes v.oracle
          (follow rctx v (unroutable_by rctx c v e reason)).act
          (elim c [ none ↦ term (some reason) | some k ↦ captured k v.oracle ])
  unfolding unroutable_by follow
  unroutable-Outcomes none v e reason = dropped D rctx v.oracle (term (some reason))
  unroutable-Outcomes (some c) v e reason = captured_at_once c v e

  before-settlements : (v : Delivery D) (d : D) → settlements (before rctx v d) ≡ []
  before-settlements v d = ground arith

  event-Outcomes :
      (v : Delivery D) (d : D)
      → Outcomes v.oracle
          (follow rctx v (event d)).act
          (handled_verdict rctx v.msg v.oracle v.ctx v.outcome)
  unfolding follow
  event-Outcomes v d = elim (conclude-Ends rctx v d v.outcome) [
    | inl h ↦ inl (rw (settlements-append, before-settlements v d) h.made, h.normal)
    | inr (h, r) ↦ inr (inl (rw (settlements-append, before-settlements v d) h.made, r))
  ]

  payload-Outcomes :
      (v : Delivery D) (p : Decoded D)
      → Outcomes v.oracle
          (follow rctx v (elim p [
            | decoded d ↦ event d
            | undecodable e ↦
                unroutable rctx v (error (String.◌++◌ "Decode error: " (describe e))) "Decode error"
          ])).act
          (elim p [
            | decoded d ↦ handled_verdict rctx v.msg v.oracle v.ctx v.outcome
            | undecodable e ↦ unroutable_verdict rctx v.oracle "Decode error"
          ])
  unfolding unroutable
  payload-Outcomes v (decoded d) = event-Outcomes v d
  payload-Outcomes v (undecodable e) = unroutable-Outcomes rctx.capture v _ _

  pub workqueue_route-Outcomes :
      (v : Delivery D) → Outcomes v.oracle (workqueue_route rctx v).act (verdict rctx v)
  unfolding workqueue_route resolve_event unroutable
  workqueue_route-Outcomes v = elim (Bool-cases (rctx.handles v.msg.subject)) [
    | inl known ↦ rw known (payload-Outcomes v v.payload)
    | inr unknown ↦ rw unknown (unroutable-Outcomes rctx.capture v _ _)
  ]

  -- A workqueue or broadcast message is settled once, by the settlement that its delivery deserves,
  -- on every path: no handler, an undecodable payload, a handler that returns, throws, is fulfilled
  -- or is rejected, a wish for a retry or a termination, and a capture that succeeds or falls back.
  -- The route then ends with no error. The conditions: the server accepts that settlement, and the
  -- client refuses no header.
  pub workqueue_settles_once :
      (v : Delivery D)
      → v.oracle.settle_fails (verdict rctx v) ≡ none
      → ((h : HeaderCall) → v.oracle.header_fails h ≡ none)
      → (settlements (workqueue_route rctx v).act.calls ≡ verdict rctx v ∷ [])
        × ((workqueue_route rctx v).act.failure ≡ none)
  workqueue_settles_once v fine accepts = elim (workqueue_route-Outcomes v) [
    | inl h ↦ h
    | inr (inl (h, (x, e, bad))) ↦ absurd (cc (accepts x))
    | inr (inr (x, e, h, bad)) ↦ absurd (cc)
  ]

  -- Whatever fails, at most one settlement call of a message succeeds.
  pub workqueue_settled_at_most_once :
      (v : Delivery D)
      → length (
          keep
            (λ s. succeeds (v.oracle.settle_fails s))
            (settlements (workqueue_route rctx v).act.calls))
        ≤ 1
  workqueue_settled_at_most_once v = elim (workqueue_route-Outcomes v) [
    | inl (h, n) ↦ rw h (ground arith)
    | inr (inl (h, r)) ↦ rw h (omega arith)
    | inr (inr (x, e, h, bad)) ↦ rw (h, bad) (ground arith)
  ]
