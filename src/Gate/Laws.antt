-- ===== src/Gate/Laws.antt =====
-- What the gate promises of its messages when it is idle and when it is disposed.
use nestjs_jetstream.Prelude.{
  ◌≡◌, refl, ◌∙◌, ap, true, List, [], ◌∷◌, ◌++◌, append-nil, arith, length,
}
use nestjs_jetstream.Gate.{Config, QueuedMessage, has_slot, dispose, dispose_calls}
use nestjs_jetstream.Gate.World.{World, Reach, routed, started, stopped, naked, timed, msgs}
use nestjs_jetstream.Gate.Invariant.{Inv, Reach-Inv}
use nestjs_jetstream.Gate.Invariant.Drain.{routed-append, started-append, stopped-append}

module _ {M : Type 0} (c : Config M) where
  -- With room for at least one message, no reachable state strands a message: once no promise is
  -- pending, the backlog is empty, and what was routed is what arrived, in order.
  pub idle_all_routed :
      (w : World M)
      → Reach c w
      → has_slot c.max_active 0 ≡ true
      → w.in_flight ≡ []
      → (w.gate.backlog ≡ []) × (routed w.trace ≡ w.arrived)
  idle_all_routed w r room idle = (empty, all)
    where
      v : Inv c w
      v = Reach-Inv c r

      none_active : w.gate.active ≡ 0
      none_active = v.counted ∙ ap length idle

      empty : w.gate.backlog ≡ []
      empty = ground (arith, v.busy, none_active)

      all : routed w.trace ≡ w.arrived
      all = rw (empty, append-nil) at v.fifo

  pub dispose_calls-facts :
      (xs : List (QueuedMessage M))
      → (routed (dispose_calls xs) ≡ [])
        × (naked (dispose_calls xs) ≡ msgs xs)
        × (started (dispose_calls xs) ≡ [])
        × (stopped (dispose_calls xs) ≡ timed xs)
  unfolding dispose_calls
  dispose_calls-facts [] = (refl, refl, refl, refl)
  dispose_calls-facts (q ∷ xs) = ground (arith, dispose_calls-facts xs)

  -- Disposal in any reachable state: every message that arrived was either routed or is handed back
  -- by one nak, in the order of arrival; each park timer that was started has been stopped, once;
  -- nothing waits any more, and the running messages keep their slots.
  pub dispose_accounts :
      (w : World M)
      → Reach c w
      → let (g, calls) = dispose w.gate in
        (routed (w.trace ++ calls) ++ naked calls ≡ w.arrived)
        × (started (w.trace ++ calls) ≡ stopped (w.trace ++ calls))
        × (g.backlog ≡ [])
        × (g.active ≡ length w.in_flight)
  unfolding dispose
  dispose_accounts w r =
      let v = Reach-Inv c r in
      let f = dispose_calls-facts w.gate.backlog in
      (
        simp (routed-append, f.0, f.1, append-nil) v.fifo,
        simp (started-append, stopped-append, f.2, f.3, append-nil) v.timers,
        refl,
        v.counted,
      )
