-- ===== src/StreamConfig/Shared.antt =====
-- src/server/infrastructure/stream.provider.ts, `handleExistingStream`: the subjects of a stream that
-- several services share.
use Prim.Native.String.{String}
use text.Mathlib.Text.{◌==◌ as str_eq}
use text.Mathlib.TextEquality.{eq_iff}
use text.Mathlib.TextPositions.{eq_refl}
use nestjs_jetstream.Prelude.{
  ◌≡◌, refl, sym, ap, ◌∙◌, Bool, true, false, not, ◌||◌, List, [], ◌∷◌, ◌++◌, any, keep, All, arith,
  Bool-cases, ◌⊎◌, inl, inr,
}
use nestjs_jetstream.Subject.{split, subject_covers}
use nestjs_jetstream.Subject.Laws.{Matches, IsPattern, subject_covers_sound}
use nestjs_jetstream.Subject.Order.{subject_covers_trans}

-- `[...new Set(xs)]`
unfoldable pub distinct : List String → List String
distinct [] = []
distinct (x ∷ xs) = x ∷ keep (λ y. not (str_eq y x)) (distinct xs)

-- `merged.some((other) => subjectCovers(other, s))`
abbrev pub is_covered : List String → String → Bool
is_covered merged s = any (λ other. subject_covers other s) merged

-- The subjects that the service wants, and those that the stream has.
unfoldable pub merge_subjects : List String → List String → List String
unfolding distinct
merge_subjects desired current =
    let merged = distinct (desired ++ current) in keep (λ s. not (is_covered merged s)) merged

abbrev pub has : String → List String → Bool
has s xs = any (λ x. str_eq x s) xs

abbrev pub Pattern : String → Type 0
Pattern s = IsPattern (split s)

has-keep :
    (p : String → Bool) (s : String) (xs : List String)
    → has s xs ≡ true
    → p s ≡ true
    → has s (keep p xs) ≡ true
has-keep p s [] h k = cc
has-keep p s (x ∷ xs) h k = elim (Bool-cases (str_eq x s)) [
  | inl e ↦ rw ((eq_iff x s).0 e, k, eq_refl s) refl
  | inr e ↦
      let later = has-keep p s xs (by_tail (str_eq x s) (has s xs) e h) k in
      elim (Bool-cases (p x)) [ inl f ↦ rw (f, e) later | inr f ↦ rw f later ]
]
  where
    by_tail : (a b : Bool) → a ≡ false → (a || b) ≡ true → b ≡ true
    by_tail a b e h = ground arith

has-distinct : (s : String) (xs : List String) → has s xs ≡ true → has s (distinct xs) ≡ true
unfolding distinct
has-distinct s [] h = cc
has-distinct s (x ∷ xs) h = elim (Bool-cases (str_eq x s)) [
  | inl e ↦ rw e refl
  | inr e ↦
      let in_tail = has-distinct s xs (ground arith) in
      let kept =
        has-keep (λ y. not (str_eq y x)) s (distinct xs) in_tail
          (ground (arith, eq_iff s x, eq_iff x s)) in
      rw e kept
]

All-keep :
    (P : String → Type 0) (p : String → Bool) (xs : List String) → All P xs → All P (keep p xs)
All-keep P p [] a = tt
All-keep P p (x ∷ xs) a = elim (Bool-cases (p x)) [
  | inl e ↦ rw e (a.0, All-keep P p xs a.1)
  | inr e ↦ rw e (All-keep P p xs a.1)
]

All-distinct : (P : String → Type 0) (xs : List String) → All P xs → All P (distinct xs)
unfolding distinct
All-distinct P [] a = tt
All-distinct P (x ∷ xs) a = (a.0, All-keep P _ (distinct xs) (All-distinct P xs a.1))

-- What nothing covers is not covered by way of what it covers.
is_covered-step :
    (m u : String) (xs : List String)
    → Pattern m
    → All Pattern xs
    → subject_covers m u ≡ true
    → is_covered xs u ≡ false
    → is_covered xs m ≡ false
is_covered-step m u [] v a h k = refl
is_covered-step m u (x ∷ xs) v a h k = elim (Bool-cases (subject_covers x m)) [
  | inl c ↦ absurd (ground (arith, subject_covers_trans x m u a.0 v c h))
  | inr c ↦ rw c (is_covered-step m u xs v a.1 h (ground arith))
]

-- A coverer of `t`, or `t` itself, which nothing in the list covers.
abbrev Widest : String → List String → String → Type 0
Widest t xs u =
    ((u ≡ t) ⊎ ((has u xs ≡ true) × (subject_covers u t ≡ true)))
    × (Pattern u × (is_covered xs u ≡ false))

irreflexive : (m : String) → subject_covers m m ≡ false
unfolding subject_covers
irreflexive m = rw (eq_refl m) refl

wider :
    (t m u : String) (xs : List String)
    → Pattern m
    → Pattern t
    → All Pattern xs
    → Widest t xs u
    → subject_covers m u ≡ true
    → Widest t (m ∷ xs) m
wider t m u xs v vt a (h, (vu, n)) c = (inr (rw (eq_refl m) refl, over h), (v, none_over))
  where
    over : (u ≡ t) ⊎ ((has u xs ≡ true) × (subject_covers u t ≡ true)) → subject_covers m t ≡ true
    over (inl e) = ap (subject_covers m) (sym e) ∙ c
    over (inr (x, d)) = subject_covers_trans m u t v vu c d

    none_over : is_covered (m ∷ xs) m ≡ false
    none_over = rw (irreflexive m) (is_covered-step m u xs v a c n)

same_width :
    (t m u : String) (xs : List String)
    → Widest t xs u
    → subject_covers m u ≡ false
    → Widest t (m ∷ xs) u
same_width t m u xs (inl e, (vu, n)) c = (inl e, (vu, rw c n))
same_width t m u xs (inr (x, d), (vu, n)) c = (inr (ground (arith, x), d), (vu, rw c n))

widest : (t : String) (xs : List String) → Pattern t → All Pattern xs → (u : String) × Widest t xs u
widest t [] v a = (t, (inl refl, (v, refl)))
widest t (m ∷ xs) v a =
    let (u, w) = widest t xs v a.1 in
    elim (Bool-cases (subject_covers m u)) [
      | inl c ↦ (m, wider t m u xs a.0 v a.1 w c)
      | inr c ↦ (u, same_width t m u xs w c)
    ]

-- The subjects of a shared stream, as a service updates them, lose nothing: for patterns with `>` only
-- at their end, whatever a subject matches that the service wants or that the stream has had, one of
-- the merged subjects matches too.
pub merge_subjects-keeps :
    (desired current : List String) (s : String) (tokens : List String)
    → All Pattern (desired ++ current)
    → has s (desired ++ current) ≡ true
    → Pattern s
    → Matches (split s) tokens
    → (u : String) × ((has u (merge_subjects desired current) ≡ true) × Matches (split u) tokens)
unfolding merge_subjects
merge_subjects-keeps desired current s tokens a h v m =
    let merged = distinct (desired ++ current) in
    let here = has-distinct s (desired ++ current) h in
    let (u, w) = widest s merged v (All-distinct _ (desired ++ current) a) in
    (
      u,
      (
        has-keep (λ x. not (is_covered merged x)) u merged (in_list u merged here w.0)
            (rw w.1.1 refl),
        matches u w.1.0 w.0,
      ),
    )
  where
    in_list :
        (u : String) (xs : List String)
        → has s xs ≡ true
        → (u ≡ s) ⊎ ((has u xs ≡ true) × (subject_covers u s ≡ true))
        → has u xs ≡ true
    in_list u xs k (inl e) = ap (λ x. has x xs) e ∙ k
    in_list u xs k (inr (x, d)) = x

    matches :
        (u : String)
        → Pattern u
        → (u ≡ s) ⊎ ((has u (distinct (desired ++ current)) ≡ true) × (subject_covers u s ≡ true))
        → Matches (split u) tokens
    matches u vu (inl e) = rw e m
    matches u vu (inr (x, d)) = subject_covers_sound u s tokens vu d m
