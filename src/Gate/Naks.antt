-- ===== src/Gate/Naks.antt =====
-- The naks of src/server/routing/concurrency-gate.ts.
use nestjs_jetstream.Prelude.{
  ℕ, ◌≡◌, refl, ap, Bool, List, [], ◌∷◌, ◌++◌, arith, Bool-cases, inl, inr,
}
use nestjs_jetstream.Gate.{
  Gate, Config, Call, Routed, QueuedMessage, naks, has_slot, occupied, drain_loop, drain_backlog,
  push, enqueue, route_calls, stop_calls, failure_calls, on_async_done, dispose,
}
use nestjs_jetstream.Gate.World.{
  World, arrives, completes, Reach, here, next, start, arrive, complete, routed, naked,
}
use nestjs_jetstream.Gate.Invariant.{Inv, Reach-Inv, push_free, push_full}
use nestjs_jetstream.Gate.Laws.{dispose_calls-facts}

module _ {M : Type 0} where
  naked-append : (s t : List (Call M)) → naked (s ++ t) ≡ naked s ++ naked t
  naked-append [] t = refl
  naked-append (naks m ∷ s) t = ap (λ r. m ∷ r) (naked-append s t)
  naked-append (_ ∷ s) t = naked-append s t

  naked-route : (m : M) (o : Routed) → naked (route_calls m o) ≡ []
  naked-route m o = ground arith

  naked-stop : (q : QueuedMessage M) → naked (stop_calls q) ≡ []
  naked-stop q = ground arith

  naked-failure : (m : M) (b : Bool) → naked (failure_calls m b) ≡ []
  naked-failure m b = ground arith

module _ {M : Type 0} (c : Config M) where
  enqueue-naked : (m : M) (g : Gate M) → naked (enqueue c m g).1 ≡ []
  unfolding enqueue
  enqueue-naked m g = ground arith

  naked-drain_loop :
      (active : ℕ) (backlog : List (QueuedMessage M)) → naked (drain_loop c active backlog).2 ≡ []
  unfolding drain_loop
  naked-drain_loop active [] = refl
  naked-drain_loop active (q ∷ rest) = elim (Bool-cases (has_slot c.max_active active)) [
    | inl free ↦
        let o = c.route q.msg in
        let rest_naks = naked-drain_loop (occupied active o) rest in
        rw free (simp (naked-append, naked-stop, naked-route, rest_naks) refl)
    | inr full ↦ rw full refl
  ]

  naked-push : (m : M) (w : World M) → Inv c w → naked (push c m w.gate).1 ≡ []
  naked-push m w v = elim (Bool-cases (has_slot c.max_active w.gate.active)) [
    | inl free ↦ rw (push_free c m w.gate free (ground (arith, v.busy))) (naked-route m (c.route m))
    | inr full ↦ rw (push_full c m w.gate full) (enqueue-naked m w.gate)
  ]

  Reach-not_naked : {w : World M} → Reach c w → naked w.trace ≡ []
  unfolding start arrive complete on_async_done drain_backlog
  Reach-not_naked here = refl
  Reach-not_naked (next r (arrives w m)) =
      rw (naked-append, Reach-not_naked r) (naked-push m w (Reach-Inv c r))
  Reach-not_naked (next r (completes w before after m rejected e)) =
      rw (naked-append, Reach-not_naked r, naked-append, naked-failure)
        (naked-drain_loop _ w.gate.backlog)

  -- before its disposal a gate naks nothing, and at its disposal what it never routed
  pub naks_unrouted :
      {w : World M}
      → Reach c w
      → (naked w.trace ≡ []) × (routed w.trace ++ naked (dispose w.gate).1 ≡ w.arrived)
  unfolding dispose
  naks_unrouted {w} r =
      let f = dispose_calls-facts c w.gate.backlog in
      (Reach-not_naked r, rw f.1 (Reach-Inv c r).fifo)
