-- ===== src/Messages/Examples.antt =====
-- A flow at concrete rounds.
use nestjs_jetstream.Prelude.{◌≤◌, ◌≡◌, refl, none, some, List, [], ◌∷◌, ◌++◌, All}
use nestjs_jetstream.Event.Actions.{error}
use nestjs_jetstream.Messages.{
  Round, fails, consumes, emits_recovered, emits_error, restarts_in, rejects_ready, start_ordered,
  on_connected, resolve_ready, on_first_error, on_error, heal, run, destroy,
}
use nestjs_jetstream.Messages.Laws.{settlements, delays, expected, verdict, run_ordered}

-- Two failures, a connection that breaks, and one that ends.
abbrev rounds : List Round
rounds = fails (error "a") ∷ fails (error "b") ∷ consumes (some (error "c")) ∷ consumes none ∷ []

run-rounds :
    (run rounds start_ordered).1
    ≡ emits_error "a"
      ∷ rejects_ready (error "a")
      ∷ restarts_in 200
      ∷ emits_error "b"
      ∷ restarts_in 400
      ∷ emits_recovered 2
      ∷ emits_error "c"
      ∷ restarts_in 200
      ∷ emits_recovered 1
      ∷ restarts_in 100
      ∷ []
unfolding heal on_connected resolve_ready on_error on_first_error
run-rounds = refl

run_ordered_example :
    let ran = run rounds start_ordered in
    (settlements (ran.1 ++ (destroy ran.0).1) ≡ verdict rounds ∷ [])
    × ((delays ran.1 ≡ expected [] rounds) × All (λ d. (100 ≤ d) × (d ≤ 30000)) (delays ran.1))
run_ordered_example = run_ordered rounds
