-- ===== src/AckPool/Examples.antt =====
-- A pool at work: two messages, a tick that extends the first and drops the second.
use nestjs_jetstream.Prelude.{◌<◌, ◌+◌, arith, ◌*◌, ◌≤◌, ◌≡◌, refl, ◌⊎◌, some, List, [], ◌∷◌}
use nestjs_jetstream.AckPool.{
  resolve_ack_extension_interval, new, tick, start_ack_extension_timer, schedule,
  min_ack_extension_interval,
}
use nestjs_jetstream.AckPool.Invariant.{
  Inv, Op, starts, cancels, ticks, step, run, new-Inv, run-Inv,
}
use nestjs_jetstream.AckPool.Tick.{Walked, worked, tick-Walked, resolve_auto_bounds}

abbrev two : List Op
two = starts 0 (some 500) 300000 ∷ starts 10 (some 700) 400 ∷ []

run-Inv_example : Inv (run new (starts 0 (some 500) 300000 ∷ ticks 600 ∷ cancels 0 ∷ []))
run-Inv_example = run-Inv new (starts 0 (some 500) 300000 ∷ ticks 600 ∷ cancels 0 ∷ []) new-Inv

tick-Walked_example :
    let (p, calls) = tick 600 (run new two) in Walked 600 (run new two).entries p.entries calls
tick-Walked_example = tick-Walked 600 (run new two) (run-Inv new two new-Inv)

extends_first : worked (tick 600 (run new two)).1 ≡ 0 ∷ []
unfolding run step start_ack_extension_timer schedule new tick
extends_first = refl

resolve_auto_bounds_example :
    (min_ack_extension_interval ≤ 5000)
    × (((2 * 5000 * 1000000 ≤ 10000000000) × (10000000000 < 2 * (5000 + 1) * 1000000))
        ⊎ ((5000 ≡ min_ack_extension_interval)
            × (10000000000 < 2 * min_ack_extension_interval * 1000000)))
unfolding resolve_ack_extension_interval
resolve_auto_bounds_example = resolve_auto_bounds 10000000000 5000 (omega arith) refl
