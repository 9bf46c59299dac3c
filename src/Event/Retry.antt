-- ===== src/Event/Retry.antt =====
-- src/utils/retry-delay.ts
use native.Mathlib.Decide.{dec_lt}
use nestjs_jetstream.Prelude.{
  ℕ, zero, suc, ◌-◌, ◌<◌, ◌≡◌, refl, sym, ◌∙◌, Option, none, some, List, [], ◌∷◌, arith, ltb,
  if◌then◌else◌, lt→ltb, le→ltb, length, get_elem?, All, ◌⊎◌, inl, inr, min,
}

-- A configured delay: a positive number of ms, 0 or less, or not finite.
pub data Delay : Type 0 where
  ms : ℕ → Delay
  not_positive : Delay
  not_finite : Delay

-- `false`, `undefined`, or an array
pub data RetryConfig : Type 0 where
  off : RetryConfig
  unset : RetryConfig
  curve : List Delay → RetryConfig

abbrev pub default_retry_delays_ms : List ℕ
default_retry_delays_ms = 2000 ∷ 10000 ∷ []

-- `config.filter((ms) => Number.isFinite(ms) && ms > 0)`
positive : List Delay → List ℕ
positive [] = []
positive (ms n ∷ rest) = let more = positive rest in if ltb 0 n then n ∷ more else more
positive (not_positive ∷ rest) = positive rest
positive (not_finite ∷ rest) = positive rest

unfoldable pub resolve_retry_delays : RetryConfig → List ℕ
unfolding positive
resolve_retry_delays off = []
resolve_retry_delays unset = default_retry_delays_ms
resolve_retry_delays (curve delays) = positive delays

-- `Math.max(0, deliveryCount - 1)`, then `delays[Math.min(index, delays.length - 1)]`
unfoldable pub retry_delay_for : List ℕ → ℕ → Option ℕ
retry_delay_for [] delivery_count = none
retry_delay_for (d ∷ ds) delivery_count =
    let index = delivery_count - 1 in get_elem? (d ∷ ds) (min index (length (d ∷ ds) - 1))

positive-All : (ds : List Delay) → All (λ n. 0 < n) (positive ds)
unfolding positive
positive-All [] = tt
positive-All (ms n ∷ rest) = ground (arith, positive-All rest)
positive-All (not_positive ∷ rest) = positive-All rest
positive-All (not_finite ∷ rest) = positive-All rest

resolve-All : (c : RetryConfig) → All (λ n. 0 < n) (resolve_retry_delays c)
unfolding resolve_retry_delays
resolve-All off = tt
resolve-All unset = omega arith
resolve-All (curve ds) = positive-All ds

get_elem?-positive :
    (ds : List ℕ) (i : ℕ)
    → All (λ n. 0 < n) ds
    → i < length ds
    → (d : ℕ) × (get_elem? ds i ≡ some d) × (0 < d)
get_elem?-positive [] i h k = absurd (omega arith)
get_elem?-positive (d ∷ ds) zero h k = (d, refl, h.0)
get_elem?-positive (d ∷ ds) (suc i) h k = get_elem?-positive ds i h.1 (omega arith)

-- the last entry of a list
abbrev pub final : List ℕ → Option ℕ
final [] = none
final (d ∷ []) = some d
final (d ∷ e ∷ ds) = final (e ∷ ds)

get_elem?-final : (d : ℕ) (ds : List ℕ) → get_elem? (d ∷ ds) (length ds) ≡ final (d ∷ ds)
get_elem?-final d [] = refl
get_elem?-final d (e ∷ ds) = get_elem?-final e ds

-- The entry of a curve for an attempt: the one at the attempt, and the last one past the end.
abbrev pub entry_for : List ℕ → ℕ → Option ℕ
entry_for ds i = if ltb i (length ds) then get_elem? ds i else final ds

entry :
    (d : ℕ) (ds : List ℕ) (i : ℕ)
    → All (λ n. 0 < n) (d ∷ ds)
    → (e : ℕ) × (get_elem? (d ∷ ds) (min i (length ds)) ≡ some e)
      × (0 < e)
      × (entry_for (d ∷ ds) i ≡ some e)
entry d ds i h = elim (dec_lt i (length (d ∷ ds))) [
  | yes inside ↦
      let (e, at, pos) = get_elem?-positive (d ∷ ds) i h inside in
      let here : min i (length ds) ≡ i = omega arith in
      (e, rw here at, pos, rw (lt→ltb i (length (d ∷ ds)) inside) at)
  | no outside ↦
      let (e, at, pos) = get_elem?-positive (d ∷ ds) (length ds) h (omega arith) in
      let here : min i (length ds) ≡ length ds = omega arith in
      (
        e,
        rw here at,
        pos,
        rw (le→ltb i (length (d ∷ ds)) (omega arith)) (sym (get_elem?-final d ds) ∙ at),
      )
]

-- Whatever the configuration: if the resolved curve is empty, redelivery is immediate; if not, it
-- is delayed at every attempt, by a positive time, which is the curve's entry for the attempt, and
-- the last entry once the attempts have passed the end of the curve.
pub retry_delay_for-resolve :
    (c : RetryConfig) (n : ℕ)
    → let ds = resolve_retry_delays c in
      ((ds ≡ []) × (retry_delay_for ds n ≡ none))
      ⊎ ((d : ℕ) × (retry_delay_for ds n ≡ some d) × (0 < d) × (entry_for ds (n - 1) ≡ some d))
retry_delay_for-resolve c n = go (resolve_retry_delays c) (resolve-All c)
  where
    go :
        (ds : List ℕ)
        → All (λ k. 0 < k) ds
        → ((ds ≡ []) × (retry_delay_for ds n ≡ none))
          ⊎ ((d : ℕ) × (retry_delay_for ds n ≡ some d) × (0 < d) × (entry_for ds (n - 1) ≡ some d))
    go [] h = inl (refl, unfold retry_delay_for in refl)
    go (d ∷ ds) h =
        let (e, at, pos, is) = entry d ds (n - 1) h in
        let same : length (d ∷ ds) - 1 ≡ length ds = omega arith in
        inr (e, unfold retry_delay_for in rw same at, pos, is)
