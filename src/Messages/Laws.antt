-- ===== src/Messages/Laws.antt =====
-- The promise of a self-healing flow, and its delays.
use Prim.Native.Nat.{◌^◌}
use nestjs_jetstream.Prelude.{
  ℕ, zero, suc, ◌≤◌, ◌≡◌, refl, ap, ◌∙◌, false, Option, none, some, List, [], ◌∷◌, ◌++◌, ltb, arith,
  All, Bool-cases, inl, inr,
}
use nestjs_jetstream.Event.Actions.{Thrown, error, describe}
use nestjs_jetstream.Messages.{
  Round, fails, consumes, Flow, Call, emits_recovered, restarts_in, emits_error, resolves_ready,
  rejects_ready, start_ordered, and_then, on_connected, resolve_ready, on_first_error, on_error,
  restart_delay, restart, on_closed, heal, run, destroy,
}

-- The calls that settle the promise, and the delays.
abbrev pub settlements : List Call → List Call
settlements [] = []
settlements (resolves_ready ∷ t) = resolves_ready ∷ settlements t
settlements (rejects_ready e ∷ t) = rejects_ready e ∷ settlements t
settlements (_ ∷ t) = settlements t

abbrev pub delays : List Call → List ℕ
delays [] = []
delays (restarts_in n ∷ t) = n ∷ delays t
delays (_ ∷ t) = delays t

-- How many of the last rounds failed, from the last backwards, since the consumer was connected.
abbrev pub streak : List Round → ℕ
streak [] = 0
streak (fails e ∷ h) = suc (streak h)
streak (consumes none ∷ h) = 0
streak (consumes (some e) ∷ h) = 1

-- The delay after each round, given the rounds before, the last first.
abbrev pub expected : List Round → List Round → List ℕ
expected h [] = []
expected h (r ∷ rs) = restart_delay (streak (r ∷ h)) ∷ expected (r ∷ h) rs

-- The fate of the promise: the first round decides, or the destruction before any round.
abbrev pub verdict : List Round → Call
verdict [] = rejects_ready (error "Destroyed before ordered consumer connected")
verdict (fails e ∷ rs) = rejects_ready e
verdict (consumes o ∷ rs) = resolves_ready

settlements-append : (s t : List Call) → settlements (s ++ t) ≡ settlements s ++ settlements t
settlements-append [] t = refl
settlements-append (resolves_ready ∷ s) t = ap (λ x. resolves_ready ∷ x) (settlements-append s t)
settlements-append (rejects_ready e ∷ s) t = ap (λ x. rejects_ready e ∷ x) (settlements-append s t)
settlements-append (restarts_in n ∷ s) t = settlements-append s t
settlements-append (emits_recovered n ∷ s) t = settlements-append s t
settlements-append (emits_error e ∷ s) t = settlements-append s t

delays-append : (s t : List Call) → delays (s ++ t) ≡ delays s ++ delays t
delays-append [] t = refl
delays-append (restarts_in n ∷ s) t = ap (λ x. n ∷ x) (delays-append s t)
delays-append (resolves_ready ∷ s) t = delays-append s t
delays-append (rejects_ready e ∷ s) t = delays-append s t
delays-append (emits_recovered n ∷ s) t = delays-append s t
delays-append (emits_error e ∷ s) t = delays-append s t

-- A piece of the flow that ends in a state of a kind, and adds nothing to a measure of the calls.
abbrev AddsNone : {A : Type 0} → (List Call → List A) → (Flow → Type 0) → Flow × List Call → Type 0
AddsNone m P (f, t) = P f × (m t ≡ [])

then_none :
    {A : Type 0} (m : List Call → List A)
    → ((s t : List Call) → m (s ++ t) ≡ m s ++ m t)
    → (P Q : Flow → Type 0) (a : Flow × List Call) (g : Flow → Flow × List Call) → AddsNone m P a
    → ((f : Flow) → P f → AddsNone m Q (g f))
    → AddsNone m Q (and_then a g)
then_none m append P Q (f, t) g (e, d) h =
    let (e', d') = h f e in (e', append t (g f).1 ∙ ap (λ x. x ++ m (g f).1) d ∙ d')

abbrev Failed : ℕ → Flow → Type 0
Failed n f = f.failures ≡ n

resolve-Failed : (n : ℕ) (f : Flow) → Failed n f → AddsNone delays (Failed n) (resolve_ready f)
unfolding resolve_ready
resolve-Failed n f e = elim (Bool-cases f.waiting) [
  | inl w ↦ rw w (e, refl)
  | inr w ↦ rw w (e, refl)
]

connected-Failed : (f : Flow) → AddsNone delays (Failed 0) (on_connected f)
unfolding on_connected
connected-Failed f = elim (Bool-cases (ltb 0 f.failures)) [
  | inl w ↦ (refl, rw w refl)
  | inr w ↦ (refl, rw w refl)
]

first-Failed :
    (n : ℕ) (e : Thrown) (f : Flow) → Failed n f → AddsNone delays (Failed n) (on_first_error e f)
unfolding on_first_error
first-Failed n e f h = elim (Bool-cases f.first_error) [
  | inl w ↦ elim (Bool-cases f.waiting) [
    | inl u ↦ rw (w, u) (h, refl)
    | inr u ↦ rw (w, u) (h, refl)
  ]
  | inr w ↦ rw w (h, refl)
]

error-Failed :
    (n : ℕ) (e : Thrown) (f : Flow) → Failed n f → AddsNone delays (Failed (suc n)) (on_error e f)
unfolding on_error
error-Failed n e f h =
    then_none delays delays-append (Failed (suc n)) (Failed (suc n))
      (record f { failures = suc f.failures }, emits_error (describe e) ∷ []) (on_first_error e)
      (ap suc h, refl) (first-Failed (suc n) e)

-- a round's failures and its delay
abbrev Delayed : ℕ → Flow × List Call → Type 0
Delayed n (f, t) = Failed n f × (delays t ≡ restart_delay n ∷ [])

then_restart :
    (n : ℕ) (a : Flow × List Call) → AddsNone delays (Failed n) a → Delayed n (and_then a restart)
then_restart n (f, t) (e, d) = (
  e,
  delays-append t _
      ∙ ap (λ x. x ++ restart_delay f.failures ∷ []) d
      ∙ ap (λ k. restart_delay k ∷ []) e,
)

connected_first :
    (n : ℕ) (f : Flow)
    → Failed n f
    → AddsNone delays (Failed 0) (and_then (resolve_ready f) on_connected)
connected_first n f h =
    then_none delays delays-append (Failed n) (Failed 0) (resolve_ready f) on_connected
      (resolve-Failed n f h) (λ g e. connected-Failed g)

heal-Delayed :
    (h : List Round) (r : Round) (f : Flow)
    → Failed (streak h) f
    → Delayed (streak (r ∷ h)) (heal r f)
unfolding heal
heal-Delayed h (fails e) f k =
    then_restart (suc (streak h)) (on_error e f) (error-Failed (streak h) e f k)
heal-Delayed h (consumes none) f k =
    then_restart 0 (and_then (and_then (resolve_ready f) on_connected) (on_closed none)) (
      then_none delays delays-append (Failed 0) (Failed 0) (and_then (resolve_ready f) on_connected)
        (on_closed none) (connected_first (streak h) f k) (λ g e. (e, refl)))
heal-Delayed h (consumes (some x)) f k =
    then_restart 1 (and_then (and_then (resolve_ready f) on_connected) (on_closed (some x))) (
      then_none delays delays-append (Failed 0) (Failed 1) (and_then (resolve_ready f) on_connected)
        (on_closed (some x)) (connected_first (streak h) f k) (λ g e. error-Failed 0 x g e))

run-delays :
    (h rs : List Round) (f : Flow) → Failed (streak h) f → delays (run rs f).1 ≡ expected h rs
run-delays h [] f k = refl
run-delays h (r ∷ rs) f k =
    let (e, d) = heal-Delayed h r f k in
    delays-append (heal r f).1 (run rs (heal r f).0).1
    ∙ ap (λ x. x ++ delays (run rs (heal r f).0).1) d
    ∙ ap (λ x. restart_delay (streak (r ∷ h)) ∷ x) (run-delays (r ∷ h) rs (heal r f).0 e)

-- A promise that does not wait is not settled again.
abbrev Over : Flow → Type 0
Over f = f.waiting ≡ false

resolve-Over : (f : Flow) → Over f → AddsNone settlements Over (resolve_ready f)
unfolding resolve_ready
resolve-Over f h = rw h (refl, refl)

connected-Over : (f : Flow) → Over f → AddsNone settlements Over (on_connected f)
unfolding on_connected
connected-Over f h = elim (Bool-cases (ltb 0 f.failures)) [
  | inl w ↦ (h, rw w refl)
  | inr w ↦ (h, rw w refl)
]

error-Over : (e : Thrown) (f : Flow) → Over f → AddsNone settlements Over (on_error e f)
unfolding on_error on_first_error
error-Over e f h = elim (Bool-cases f.first_error) [
  | inl w ↦ rw (w, h) (refl, refl)
  | inr w ↦ rw w (h, refl)
]

closed-Over : (o : Option Thrown) (f : Flow) → Over f → AddsNone settlements Over (on_closed o f)
closed-Over none f h = (h, refl)
closed-Over (some e) f h = error-Over e f h

heal-Over : (r : Round) (f : Flow) → Over f → AddsNone settlements Over (heal r f)
unfolding heal
heal-Over (fails e) f h =
    then_none settlements settlements-append Over Over (on_error e f) restart (error-Over e f h)
      (λ g k. (k, refl))
heal-Over (consumes o) f h =
    then_none settlements settlements-append Over Over
      (and_then (and_then (resolve_ready f) on_connected) (on_closed o)) restart
      (then_none settlements settlements-append Over Over (and_then (resolve_ready f) on_connected)
        (on_closed o)
        (then_none settlements settlements-append Over Over (resolve_ready f) on_connected
          (resolve-Over f h) connected-Over)
        (closed-Over o))
      (λ g k. (k, refl))

run-Over : (rs : List Round) (f : Flow) → Over f → AddsNone settlements Over (run rs f)
run-Over [] f h = (h, refl)
run-Over (r ∷ rs) f h =
    then_none settlements settlements-append Over Over (heal r f) (run rs) (heal-Over r f h)
      (run-Over rs)

destroy-Over : (f : Flow) → Over f → settlements (destroy f).1 ≡ []
destroy-Over f h = rw h refl

-- the first round of an ordered consumer
heal-first :
    (r : Round) (rs : List Round)
    → Over (heal r start_ordered).0 × (settlements (heal r start_ordered).1 ≡ verdict (r ∷ rs) ∷ [])
unfolding heal resolve_ready on_connected on_error on_first_error
heal-first (fails e) rs = (refl, refl)
heal-first (consumes none) rs = (refl, refl)
heal-first (consumes (some e)) rs = (refl, refl)

settled_once :
    (rs : List Round)
    → let ran = run rs start_ordered in settlements (ran.1 ++ (destroy ran.0).1) ≡ verdict rs ∷ []
settled_once [] = refl
settled_once (r ∷ rs) =
    let one = heal r start_ordered in
    let (over, first) = heal-first r rs in
    let (over', none_more) = run-Over rs one.0 over in
    let ran = run rs one.0 in
    settlements-append (one.1 ++ ran.1) (destroy ran.0).1
    ∙ rw (settlements-append one.1 ran.1, first, none_more, destroy-Over ran.0 over') refl

pow_pos : (n : ℕ) → 1 ≤ 2 ^ n
pow_pos zero = omega arith
pow_pos (suc n) = omega (arith, pow_pos n)

delay_bounds : (n : ℕ) → (100 ≤ restart_delay n) × (restart_delay n ≤ 30000)
delay_bounds n = (omega (arith, pow_pos n), omega arith)

expected_bounds : (h rs : List Round) → All (λ d. (100 ≤ d) × (d ≤ 30000)) (expected h rs)
expected_bounds h [] = tt
expected_bounds h (r ∷ rs) = (delay_bounds (streak (r ∷ h)), expected_bounds (r ∷ h) rs)

-- An ordered consumer, through any rounds and then a destruction: the promise that it is connected is
-- settled exactly once, by the first round (resolved if the consumer consumes, rejected with the error
-- if it does not) or, before any, by the destruction; and it starts again after every round, with a
-- delay that doubles with each failure since it was last connected, of 100 ms to 30 s.
pub run_ordered :
    (rs : List Round)
    → let ran = run rs start_ordered in
      (settlements (ran.1 ++ (destroy ran.0).1) ≡ verdict rs ∷ [])
      × ((delays ran.1 ≡ expected [] rs) × All (λ d. (100 ≤ d) × (d ≤ 30000)) (delays ran.1))
run_ordered rs =
    let d = run-delays [] rs start_ordered refl in
    (settled_once rs, (d, rw d (expected_bounds [] rs)))
