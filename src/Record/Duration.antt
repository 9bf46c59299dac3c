-- ===== src/Record/Duration.antt =====
-- The duration of a time to live, and what it is worth.
use nestjs_jetstream.Prelude.{
  ℕ, ◌*◌, ◌%◌, ◌≤◌, ◌≡◌, ◌≢◌, true, false, arith, Bool-cases, ◌⊎◌, inl, inr,
}
use nestjs_jetstream.Record.{
  DurationUnit, hours, minutes, seconds, milliseconds, nanoseconds, GoDuration, fits,
  nanos_to_go_duration,
}

-- The nanoseconds of a unit, as a parser of Go durations counts them.
abbrev pub unit_nanos : DurationUnit → ℕ
unit_nanos hours = 3600000000000
unit_nanos minutes = 60000000000
unit_nanos seconds = 1000000000
unit_nanos milliseconds = 1000000
unit_nanos nanoseconds = 1

abbrev pub go_duration_nanos : GoDuration → ℕ
go_duration_nanos d = d.amount * unit_nanos d.unit

-- a unit that does not fit a positive number does not divide it
no_fit : (u : DurationUnit) (n : ℕ) → 1 ≤ n → fits (unit_nanos u) n ≡ false → n % unit_nanos u ≢ 0
no_fit hours n p e = ground arith
no_fit minutes n p e = ground arith
no_fit seconds n p e = ground arith
no_fit milliseconds n p e = ground arith
no_fit nanoseconds n p e = ground arith

-- one that fits is at most the one chosen
chosen :
    (u : DurationUnit) (n : ℕ)
    → fits (unit_nanos u) n ≡ true
    → unit_nanos u ≤ unit_nanos (nanos_to_go_duration n).unit
unfolding nanos_to_go_duration
chosen hours n e = ground arith
chosen minutes n e = ground arith
chosen seconds n e = ground arith
chosen milliseconds n e = ground arith
chosen nanoseconds n e = ground arith

worth : (n : ℕ) → go_duration_nanos (nanos_to_go_duration n) ≡ n
unfolding nanos_to_go_duration
worth n = ground arith

-- The duration that is written for a positive number of nanoseconds is worth that number, and no
-- larger unit says it in a whole number: a unit that divides the number is at most the one chosen.
pub go_duration_nanos-nanos_to_go_duration :
    (n : ℕ) (u : DurationUnit)
    → 1 ≤ n
    → (go_duration_nanos (nanos_to_go_duration n) ≡ n)
      × ((n % unit_nanos u ≢ 0) ⊎ (unit_nanos u ≤ unit_nanos (nanos_to_go_duration n).unit))
go_duration_nanos-nanos_to_go_duration n u p = (
  worth n,
  elim (Bool-cases (fits (unit_nanos u) n)) [
    | inl e ↦ inr (chosen u n e)
    | inr e ↦ inl (no_fit u n p e)
  ],
)
