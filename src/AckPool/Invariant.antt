-- ===== src/AckPool/Invariant.antt =====
-- The timer and the entries of a pool, through any operations.
use nestjs_jetstream.Prelude.{
  ℕ, suc, ◌≤◌, ◌<◌, ◌≡◌, ◌≢◌, refl, inl, inr, Option, none, some, List, [], ◌∷◌, ◌++◌, leb, ◌==◌,
  any, All, All-append, arith, Bool-cases,
}
use nestjs_jetstream.AckPool.{
  AckEntry, AckExtensionPool, new, due_at, ensure_wake, schedule, delete, disarm, cancel, earlier,
  walk, wake, tick, start_ack_extension_timer,
}

-- A timer is armed if and only if there is an entry, and fires no later than any deadline.
abbrev pub Armed : Option ℕ → List AckEntry → Type 0
Armed none es = es ≡ []
Armed (some at) es = (es ≢ []) × All (λ e. at ≤ due_at e) es

-- Identifiers rise along the list and stay under the bound; every interval is positive.
abbrev pub WellKept : ℕ → ℕ → List AckEntry → Type 0
WellKept low high [] = low ≤ high
WellKept low high (e ∷ es) = (low ≤ e.id) × (0 < e.interval) × WellKept (suc e.id) high es

pub record Inv (p : AckExtensionPool) : Type 0 where
  pub armed : Armed p.handle p.entries
  pub kept : WellKept 0 p.fresh p.entries

not-nil : (es : List AckEntry) (e : AckEntry) → es ++ e ∷ [] ≢ []
not-nil [] e h = cc
not-nil (x ∷ es) e h = cc

All-mono :
    {s t : ℕ} (es : List AckEntry) → s ≤ t → All (λ e. t ≤ due_at e) es → All (λ e. s ≤ due_at e) es
All-mono [] h a = tt
All-mono (e ∷ es) h a = (omega arith, All-mono es h a.1)

All-append_one :
    (t : ℕ) (es : List AckEntry) (e : AckEntry)
    → All (λ x. t ≤ due_at x) es
    → t ≤ due_at e
    → All (λ x. t ≤ due_at x) (es ++ e ∷ [])
All-append_one t es e h k = All-append (λ x. t ≤ due_at x) es (e ∷ []) h (k, tt)

WellKept-append :
    (low high : ℕ) (es : List AckEntry) (e : AckEntry)
    → WellKept low high es
    → e.id ≡ high
    → 0 < e.interval
    → WellKept low (suc high) (es ++ e ∷ [])
WellKept-append low high [] e h i k = (omega arith, k, omega arith)
WellKept-append low high (x ∷ es) e h i k = (h.0, h.1, WellKept-append (suc x.id) high es e h.2 i k)

ensure_wake-Armed :
    (now : ℕ) (handle : Option ℕ) (es : List AckEntry) (e : AckEntry)
    → Armed handle es
    → Armed (ensure_wake now (due_at e) handle).0 (es ++ e ∷ [])
unfolding ensure_wake
ensure_wake-Armed now none es e h =
    (not-nil es _, All-append_one (due_at e) es e (rw h tt) (omega arith))
ensure_wake-Armed now (some at) es e h = elim (Bool-cases (leb at (due_at e))) [
  | inl soon ↦ rw soon (not-nil es _, All-append_one at es e h.1 (ground arith))
  | inr late ↦
      rw late (
        not-nil es _,
        All-append_one (due_at e) es e (All-mono es (ground arith) h.1) (omega arith),
      )
]

schedule-Inv :
    (now interval max_total : ℕ) (p : AckExtensionPool)
    → 0 < interval
    → Inv p
    → Inv (schedule now interval max_total p).0
unfolding schedule
schedule-Inv now interval max_total p pos v = record {
  armed = ensure_wake-Armed now p.handle p.entries _ v.armed;
  kept = WellKept-append 0 p.fresh p.entries _ v.kept refl pos;
}

WellKept-mono :
    (a b high : ℕ) (es : List AckEntry) → a ≤ b → WellKept b high es → WellKept a high es
WellKept-mono a b high [] h k = omega arith
WellKept-mono a b high (e ∷ es) h k = (omega arith, k.1, k.2)

delete-WellKept :
    (i low high : ℕ) (es : List AckEntry) → WellKept low high es → WellKept low high (delete i es)
unfolding delete
delete-WellKept i low high [] h = h
delete-WellKept i low high (e ∷ es) h = elim (Bool-cases (e.id == i)) [
  | inl here ↦ rw here (WellKept-mono low (suc e.id) high es (omega arith) h.2)
  | inr there ↦ rw there (h.0, h.1, delete-WellKept i (suc e.id) high es h.2)
]

delete-All :
    (i t : ℕ) (es : List AckEntry)
    → All (λ e. t ≤ due_at e) es
    → All (λ e. t ≤ due_at e) (delete i es)
unfolding delete
delete-All i t [] h = tt
delete-All i t (e ∷ es) h = ground (arith, delete-All i t es h.1)

disarm-Armed :
    (at : ℕ) (left : List AckEntry)
    → All (λ e. at ≤ due_at e) left
    → Armed (disarm left (some at)).0 left
unfolding disarm
disarm-Armed at [] h = refl
disarm-Armed at (e ∷ es) h = ((λ q. cc), h)

cancel-Armed :
    (i : ℕ) (handle : Option ℕ) (es : List AckEntry)
    → Armed handle es
    → Armed (disarm (delete i es) handle).0 (delete i es)
cancel-Armed i none es h = rw h (unfold delete disarm in refl)
cancel-Armed i (some at) es h = disarm-Armed at (delete i es) (delete-All i at es h.1)

cancel-Inv : (i : ℕ) (p : AckExtensionPool) → Inv p → Inv (cancel i p).0
unfolding cancel
cancel-Inv i p v = elim (Bool-cases (any (λ e. e.id == i) p.entries)) [
  | inl known ↦ rw known (record {
    armed = cancel-Armed i p.handle p.entries v.armed;
    kept = delete-WellKept i 0 p.fresh p.entries v.kept;
  })
  | inr unknown ↦ rw unknown v
]

-- The walk's earliest deadline is one that every entry that stays meets.
walk-Armed :
    (now : ℕ) (es : List AckEntry)
    → let (left, earliest, calls) = walk now es in Armed earliest left
unfolding walk
walk-Armed now [] = refl
walk-Armed now (e ∷ es) = elim (Bool-cases (leb e.expires_at now)) [
  | inl expired ↦ rw expired (walk-Armed now es)
  | inr alive ↦ elim (Bool-cases (leb e.next_fire_at now)) [
    | inl due ↦
        rw (alive, due) (earlier-Armed _ (walk now es).1 (walk now es).0 (walk-Armed now es))
    | inr early ↦
        rw (alive, early) (earlier-Armed e (walk now es).1 (walk now es).0 (walk-Armed now es))
  ]
]
  where
    earlier-Armed :
        (e : AckEntry) (t : Option ℕ) (left : List AckEntry)
        → Armed t left
        → Armed (some (earlier (due_at e) t)) (e ∷ left)
    earlier-Armed e none left h = ((λ q. cc), (omega arith, rw h tt))
    earlier-Armed e (some t) left h = ((λ q. cc), (omega arith, All-mono left (omega arith) h.1))

walk-WellKept :
    (now low high : ℕ) (es : List AckEntry)
    → WellKept low high es
    → WellKept low high (walk now es).0
unfolding walk
walk-WellKept now low high [] h = h
walk-WellKept now low high (e ∷ es) h =
    let rest = walk-WellKept now (suc e.id) high es h.2 in
    elim (Bool-cases (leb e.expires_at now)) [
      | inl expired ↦
          rw expired (WellKept-mono low (suc e.id) high (walk now es).0 (omega arith) rest)
      | inr alive ↦ elim (Bool-cases (leb e.next_fire_at now)) [
        | inl due ↦ rw (alive, due) (h.0, h.1, rest)
        | inr early ↦ rw (alive, early) (h.0, h.1, rest)
      ]
    ]

wake-Armed :
    (now : ℕ) (t : Option ℕ) (left : List AckEntry) → Armed t left → Armed (wake now t).0 left
unfolding wake
wake-Armed now none left h = h
wake-Armed now (some t) left h = h

tick-Inv : (now : ℕ) (p : AckExtensionPool) → Inv p → Inv (tick now p).0
unfolding tick
tick-Inv now p v = record {
  armed = wake-Armed now _ _ (walk-Armed now p.entries);
  kept = walk-WellKept now 0 p.fresh p.entries v.kept;
}

pub new-Inv : Inv new
unfolding new
new-Inv = record { armed = refl; kept = omega arith }

-- What is done with the pool, at the times given.
pub data Op : Type 0 where
  starts : ℕ → Option ℕ → ℕ → Op
  cancels : ℕ → Op
  ticks : ℕ → Op

unfoldable pub step : AckExtensionPool → Op → AckExtensionPool
step p (starts now interval max_total) = (start_ack_extension_timer now interval max_total p).0
step p (cancels i) = (cancel i p).0
step p (ticks now) = (tick now p).0

unfoldable pub run : AckExtensionPool → List Op → AckExtensionPool
run p [] = p
run p (o ∷ os) = run (step p o) os

start-Inv :
    (now : ℕ) (interval : Option ℕ) (max_total : ℕ) (p : AckExtensionPool)
    → Inv p
    → Inv (start_ack_extension_timer now interval max_total p).0
unfolding start_ack_extension_timer
start-Inv now none max_total p v = v
start-Inv now (some n) max_total p v = elim (Bool-cases (leb n 0)) [
  | inl zero_ms ↦ rw zero_ms v
  | inr positive ↦ rw positive (schedule-Inv now n max_total p (ground arith) v)
]

pub step-Inv : (p : AckExtensionPool) (o : Op) → Inv p → Inv (step p o)
unfolding step
step-Inv p (starts now interval max_total) v = start-Inv now interval max_total p v
step-Inv p (cancels i) v = cancel-Inv i p v
step-Inv p (ticks now) v = tick-Inv now p v

-- From a pool in order, such as a new one, however registrations, cancellations and timer ticks are
-- mixed, and whatever the clock shows at each of them: a timer is armed exactly while the pool has an entry; it is meant for a time no
-- later than the next extension and the expiry of every entry; every interval is positive; and no
-- two entries share an identifier.
pub run-Inv : (p : AckExtensionPool) (os : List Op) → Inv p → Inv (run p os)
unfolding run
run-Inv p [] v = v
run-Inv p (o ∷ os) v = run-Inv (step p o) os (step-Inv p o v)
