-- ===== src/AckPool/Tick.antt =====
-- What one timer tick does, and the interval that a message is registered with.
use nestjs_jetstream.Prelude.{
  ◌+◌, ℕ, suc, ◌*◌, ◌≤◌, ◌<◌, ◌≡◌, refl, ap, ◌⊎◌, inl, inr, Bool, ◌&&◌, not, Option, none, some,
  List, [], ◌∷◌, ◌++◌, leb, keep, All, arith, Bool-cases, append-nil,
}
use nestjs_jetstream.AckPool.{
  AckEntry, AckExtensionPool, Call, works, due_at, ensure_wake, walk, wake, tick, auto,
  resolve_ack_extension_interval, min_ack_extension_interval,
}
use nestjs_jetstream.AckPool.Invariant.{Inv, WellKept}

abbrev pub worked : List Call → List ℕ
worked [] = []
worked (works i ∷ t) = i ∷ worked t
worked (_ ∷ t) = worked t

abbrev pub ids : List AckEntry → List ℕ
ids [] = []
ids (e ∷ es) = e.id ∷ ids es

abbrev pub alive : ℕ → AckEntry → Bool
alive now e = not (leb e.expires_at now)

abbrev pub overdue : ℕ → AckEntry → Bool
overdue now e = alive now e && leb e.next_fire_at now

pub record Walked (now : ℕ) (es left : List AckEntry) (calls : List Call) : Type 0 where
  pub stay : ids left ≡ ids (keep (alive now) es)
  pub extended : worked calls ≡ ids (keep (overdue now) es)
  pub ahead : All (λ e. now < due_at e) left

walk-Walked :
    (now low high : ℕ) (es : List AckEntry)
    → WellKept low high es
    → let (left, earliest, calls) = walk now es in Walked now es left calls
unfolding walk
walk-Walked now low high [] h = record { stay = refl; extended = refl; ahead = tt }
walk-Walked now low high (e ∷ es) h =
    let r = walk-Walked now (suc e.id) high es h.2 in
    elim (Bool-cases (leb e.expires_at now)) [
      | inl expired ↦ rw expired (record {
        stay = ground (arith, r.stay);
        extended = ground (arith, r.extended);
        ahead = r.ahead;
      })
      | inr living ↦ elim (Bool-cases (leb e.next_fire_at now)) [
        | inl due ↦
            rw (living, due)
              (record {
                stay = ground (arith, r.stay);
                extended = ground (arith, r.extended);
                ahead = (ground arith, r.ahead);
              })
        | inr early ↦
            rw (living, early)
              (record {
                stay = ground (arith, r.stay);
                extended = ground (arith, r.extended);
                ahead = (ground arith, r.ahead);
              })
      ]
    ]

worked-append : (s t : List Call) → worked (s ++ t) ≡ worked s ++ worked t
worked-append [] t = refl
worked-append (works i ∷ s) t = ap (λ r. i ∷ r) (worked-append s t)
worked-append (_ ∷ s) t = worked-append s t

wake_silent : (now : ℕ) (t : Option ℕ) → worked (wake now t).1 ≡ []
unfolding wake ensure_wake
wake_silent now none = refl
wake_silent now (some t) = refl

-- A tick of a pool in order keeps the entries that have not expired, in their order; it extends
-- exactly the messages that are due and have not expired, each once, so none at or past its expiry;
-- and afterwards every entry's next extension and its expiry lie ahead.
pub tick-Walked :
    (now : ℕ) (p : AckExtensionPool)
    → Inv p
    → let (p', calls) = tick now p in Walked now p.entries p'.entries calls
unfolding tick
tick-Walked now p v =
    let r = walk-Walked now 0 p.fresh p.entries v.kept in
    record {
      stay = r.stay;
      extended = simp (worked-append, wake_silent, append-nil) r.extended;
      ahead = r.ahead;
    }

-- The automatic interval for a consumer with an acknowledgement deadline is half of the deadline,
-- rounded down to whole milliseconds, or, if the deadline is so short that its half is below the
-- minimum, the minimum (which may then exceed the deadline). It is never below the minimum.
pub resolve_auto_bounds :
    (nanos n : ℕ)
    → 0 < nanos
    → resolve_ack_extension_interval auto (some nanos) ≡ some n
    → (min_ack_extension_interval ≤ n)
      × (((2 * n * 1000000 ≤ nanos) × (nanos < 2 * (n + 1) * 1000000))
          ⊎ ((n ≡ min_ack_extension_interval) × (nanos < 2 * min_ack_extension_interval * 1000000)))
unfolding resolve_ack_extension_interval
resolve_auto_bounds nanos n pos h = ground arith
