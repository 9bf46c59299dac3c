-- ===== src/Subject/Split.antt =====
-- How texts that are joined by dots are split, and what a prefix with `>` covers.
use Prim.Native.Char.{code}
use Prim.Native.String
use Prim.Native.String.{String}
use text.Mathlib.Text.{◌==◌ as str_eq}
use text.Mathlib.TextPositions.{eq_refl}
use text.Mathlib.TextLemmas.{append_assoc as text_assoc, cons-append, nil-append}
use nestjs_jetstream.Prelude.{
  ◌≡◌, refl, ap, ◌∙◌, Bool, true, false, not, ◌&&◌, arith, List, [], ◌∷◌, ◌++◌, if◌then◌else◌, ◌==◌,
  Bool-cases, inl, inr,
}
use nestjs_jetstream.Subject.{
  push, split_from, split, covers_loop, subject_covers, covers_or_equals,
}

abbrev join : String → String → String
join s t = String.◌++◌ s t

split_from-if :
    (b : Bool) (cur : String) (xs ys zs : List String)
    → (if b then cur ∷ (xs ++ zs) else ys ++ zs) ≡ (if b then cur ∷ xs else ys) ++ zs
split_from-if true cur xs ys zs = refl
split_from-if false cur xs ys zs = refl

-- A dot closes a token.
split_from-dot :
    (cur s t : String) → split_from cur (join s (join "." t)) ≡ split_from cur s ++ split t
unfolding split_from split
split_from-dot cur String.[] t =
    ap (split_from cur)
      (nil-append (join "." t) ∙ cons-append "." "" t ∙ ap (λ x. String.◌∷◌ "." x) (nil-append t))
split_from-dot cur (String.◌∷◌ c s) t =
    ap (split_from cur) (cons-append c s (join "." t))
    ∙ rw (split_from-dot "" s t, split_from-dot (push cur c) s t)
        (split_from-if (code c == b'.') cur (split_from "" s) (split_from (push cur c) s) (split t))

-- There is at least one token.
pub split_from-cons :
    (cur t : String) → (x : String) × (xs : List String) × (split_from cur t ≡ x ∷ xs)
unfolding split_from
split_from-cons cur String.[] = (cur, [], refl)
split_from-cons cur (String.◌∷◌ c t) =
    let (x, xs, e) = split_from-cons (push cur c) t in
    elim (Bool-cases (code c == b'.')) [
      | inl d ↦ (cur, split_from "" t, rw d refl)
      | inr d ↦ (x, xs, rw d e)
    ]

-- A round of the test whose tokens are equal.
same_round :
    (t : String) (rest : Bool)
    → rest ≡ true
    → (if str_eq t ">"
        then true
        else if str_eq t ">"
        then false
        else if not (str_eq t "*") && not (str_eq t t)
        then false
        else rest)
      ≡ true
same_round t rest h = ground (arith, eq_refl t)

covers_loop-prefix :
    (ts : List String) (x : String) (xs : List String)
    → covers_loop (ts ++ ">" ∷ []) (ts ++ x ∷ xs) ≡ true
unfolding covers_loop
covers_loop-prefix [] x xs = refl
covers_loop-prefix (t ∷ ts) x xs =
    same_round t (covers_loop (ts ++ ">" ∷ []) (ts ++ x ∷ xs)) (covers_loop-prefix ts x xs)

-- A prefix that ends in a dot, with `>` after it, covers all that begins with the prefix.
pub covers_or_equals-prefix :
    (t p : String) → covers_or_equals (join (join t ".") ">") (join (join t ".") p) ≡ true
unfolding covers_or_equals subject_covers split
covers_or_equals-prefix t p =
    elim (Bool-cases (str_eq (join (join t ".") ">") (join (join t ".") p))) [
      | inl e ↦ rw e refl
      | inr e ↦
          let (x, xs, c) = split_from-cons "" p in
          rw
            (
              e,
              text_assoc t "." ">",
              text_assoc t "." p,
              split_from-dot "" t ">",
              split_from-dot "" t p,
              c,
            )
            (covers_loop-prefix (split_from "" t) x xs)
    ]
