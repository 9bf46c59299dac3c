-- ===== src/Gate/Examples.antt =====
-- The gate at work: one slot, every handler asynchronous, every parked message timed.
use nestjs_jetstream.Prelude.{ℕ, ◌+◌, ◌≤◌, ◌⊎◌, length, ◌≡◌, refl, true, false, some, [], ◌∷◌, ◌++◌}
use nestjs_jetstream.Gate.{
  Config, pending, drain_loop, drain_backlog, push, enqueue, park, on_async_done, dispose, new,
}
use nestjs_jetstream.Gate.World.{
  World, Reach, here, next, arrives, completes, start, arrive, complete, routed, started, stopped,
  naked,
}
use nestjs_jetstream.Gate.Invariant.{Inv, Reach-Inv}
use nestjs_jetstream.Gate.Laws.{idle_all_routed, dispose_accounts}
use nestjs_jetstream.Gate.Progress.{done, settles, work, settling_ends}

abbrev ordered : Config ℕ
ordered = record { max_active = some 1; route = λ _. pending; park_timer = some (λ _. true) }

abbrev busy : World ℕ
busy = arrive ordered 8 (arrive ordered 7 start)

abbrev settled : World ℕ
settled = complete ordered 8 true [] (complete ordered 7 false [] busy)

busy-Reach : Reach ordered busy
busy-Reach = next (next here (arrives start 7)) (arrives _ 8)

settled-Reach : Reach ordered settled
unfolding start arrive push enqueue new complete on_async_done drain_backlog drain_loop
settled-Reach =
    next (next busy-Reach (completes busy [] [] 7 false refl)) (completes _ [] [] 8 true refl)

Reach-Inv_example : Inv ordered settled
Reach-Inv_example = Reach-Inv ordered settled-Reach

idle_all_routed_example : (settled.gate.backlog ≡ []) × (routed settled.trace ≡ settled.arrived)
unfolding start arrive push enqueue new complete on_async_done drain_backlog drain_loop
idle_all_routed_example = idle_all_routed ordered settled settled-Reach refl refl

settled_routed : routed settled.trace ≡ 7 ∷ 8 ∷ []
unfolding start arrive push enqueue new complete on_async_done drain_backlog drain_loop park
settled_routed = refl

settling_ends_example :
    (1 + work ordered (complete ordered 7 false [] busy) ≤ work ordered busy)
    × ((routed (complete ordered 7 false [] busy).trace ≡ busy.arrived)
        ⊎ ((1 ≤ length (complete ordered 7 false [] busy).in_flight)
            × (length (routed busy.trace) + 1
                ≤ length (routed (complete ordered 7 false [] busy).trace))))
unfolding start arrive push enqueue new
settling_ends_example =
    settling_ends ordered 1 busy (complete ordered 7 false [] busy) busy-Reach refl
      (settles busy [] [] 7 false refl (done _))

dispose_accounts_example :
    let (g, calls) = dispose busy.gate in
    (routed (busy.trace ++ calls) ++ naked calls ≡ busy.arrived)
    × (started (busy.trace ++ calls) ≡ stopped (busy.trace ++ calls))
    × (g.backlog ≡ [])
    × (g.active ≡ 1)
unfolding start arrive push enqueue new
dispose_accounts_example = dispose_accounts ordered busy busy-Reach
