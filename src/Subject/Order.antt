-- ===== src/Subject/Order.antt =====
-- Coverage as an order on patterns.
use Prim.Native.Char.{Char, code}
use Prim.Native.String
use Prim.Native.String.{String}
use text.Mathlib.Text.{◌==◌ as str_eq}
use text.Mathlib.TextEquality.{eq_iff, Char-path}
use text.Mathlib.TextLemmas.{append_assoc as text_assoc, append-nil, cons-append, nil-append}
use nestjs_jetstream.Prelude.{
  ◌≡◌, ◌≢◌, refl, sym, ap, ◌∙◌, true, false, List, [], ◌∷◌, ◌==◌, arith, Bool-cases, ◌⊎◌, inl, inr,
}
use nestjs_jetstream.Subject.{push, split_from, split, covers_loop, subject_covers}
use nestjs_jetstream.Subject.Laws.{IsPattern}
use nestjs_jetstream.Subject.Split.{split_from-cons}

-- The tokens with dots between them.
glue : List String → String
glue [] = ""
glue (x ∷ []) = x
glue (x ∷ y ∷ r) = let rest = glue (y ∷ r) in String.◌++◌ x (String.◌++◌ "." rest)

glue-cons :
    (cur : String) (ts : List String)
    → (x : String) × (xs : List String) × (ts ≡ x ∷ xs)
    → glue (cur ∷ ts) ≡ String.◌++◌ cur (String.◌++◌ "." (glue ts))
unfolding glue
glue-cons cur ts (x, xs, e) = rw e refl

dot-append : (c : Char) (s : String) → (code c == b'.') ≡ true → String.◌++◌ "." s ≡ String.◌∷◌ c s
dot-append c s d =
    cons-append "." "" s
    ∙ ap (λ t. String.◌∷◌ "." t) (nil-append s)
    ∙ ap (λ x. String.◌∷◌ x s) (Char-path "." c (ground arith))

glue-split_from : (cur s : String) → glue (split_from cur s) ≡ String.◌++◌ cur s
unfolding split_from glue
glue-split_from cur String.[] = sym (append-nil cur)
glue-split_from cur (String.◌∷◌ c s) = elim (Bool-cases (code c == b'.')) [
  | inl d ↦ rw d (
      glue-cons cur (split_from "" s) (split_from-cons "" s)
      ∙ ap (λ t. String.◌++◌ cur (String.◌++◌ "." t)) (glue-split_from "" s ∙ nil-append s)
      ∙ ap (String.◌++◌ cur) (dot-append c s d))
  | inr d ↦ rw d (
      glue-split_from (push cur c) s
      ∙ text_assoc cur (String.◌∷◌ c "") s
      ∙ ap (String.◌++◌ cur) (cons-append c "" s ∙ ap (λ t. String.◌∷◌ c t) (nil-append s)))
]

-- A round that goes on: the tokens agree.
round :
    (p q : String) (b n : List String)
    → covers_loop (p ∷ b) (q ∷ n) ≡ true
    → (str_eq p ">" ≡ true)
      ⊎ ((str_eq p ">" ≡ false)
          × ((str_eq q ">" ≡ false)
              × (((str_eq p "*" ≡ true) ⊎ (str_eq p q ≡ true)) × (covers_loop b n ≡ true))))
unfolding covers_loop
round p q b n h = ground arith

covers_loop_trans :
    (a b c : List String) → covers_loop a b ≡ true → covers_loop b c ≡ true → covers_loop a c ≡ true
unfolding covers_loop
covers_loop_trans [] [] c h k = k
covers_loop_trans [] (q ∷ b) c h k = cc
covers_loop_trans (p ∷ a) [] c h k = ground arith
covers_loop_trans (p ∷ a) (q ∷ b) [] h k = ground arith
covers_loop_trans (p ∷ a) (q ∷ b) (r ∷ c) h k = elim (round p q a b h) [
  | inl w ↦ ground arith
  | inr (x, (y, (z, u))) ↦ elim (round q r b c k) [
    | inl w ↦ ground arith
    | inr (x', (y', (z', u'))) ↦
        ground (arith, covers_loop_trans a b c u u', eq_iff p q, eq_iff q r, eq_iff p r)
  ]
]

last_only : (p : String) (a : List String) → (p ≢ ">") ⊎ (a ≡ []) → str_eq p ">" ≡ true → a ≡ []
last_only p a (inl n) h = absurd (n ((eq_iff p ">").0 h))
last_only p a (inr e) h = e

both_last :
    (p q : String) (a b : List String)
    → IsPattern (p ∷ a)
    → IsPattern (q ∷ b)
    → str_eq p ">" ≡ true
    → str_eq q ">" ≡ true
    → p ∷ a ≡ q ∷ b
both_last p q a b v w x y =
    rw ((eq_iff p ">").0 x, (eq_iff q ">").0 y, last_only p a v.0 x, last_only q b w.0 y) refl

same_token :
    (p q : String)
    → (str_eq p "*" ≡ true) ⊎ (str_eq p q ≡ true)
    → (str_eq q "*" ≡ true) ⊎ (str_eq q p ≡ true)
    → p ≡ q
same_token p q (inr e) z = (eq_iff p q).0 e
same_token p q (inl e) (inr f) = sym ((eq_iff q p).0 f)
same_token p q (inl e) (inl f) = (eq_iff p "*").0 e ∙ sym ((eq_iff q "*").0 f)

-- what a coverage says
differ :
    (a b : String)
    → subject_covers a b ≡ true
    → (covers_loop (split a) (split b) ≡ true) × (str_eq a b ≡ false)
unfolding subject_covers
differ a b h = ground arith

apart_if : (a b : String) → subject_covers a b ≡ true → a ≡ b → ⊥
apart_if a b h e = absurd (ground (arith, differ a b h, (eq_iff a b).1 e))

covers_loop-antisym :
    (a b : List String)
    → IsPattern a
    → IsPattern b
    → covers_loop a b ≡ true
    → covers_loop b a ≡ true
    → a ≡ b
unfolding covers_loop
covers_loop-antisym [] [] v w h k = refl
covers_loop-antisym [] (q ∷ b) v w h k = cc
covers_loop-antisym (p ∷ a) [] v w h k = cc
covers_loop-antisym (p ∷ a) (q ∷ b) v w h k = elim (round p q a b h) [
  | inl x ↦ elim (round q p b a k) [
    | inl y ↦ both_last p q a b v w x y
    | inr (y, z) ↦ absurd (ground (arith))
  ]
  | inr (x, (y, (z, u))) ↦ elim (round q p b a k) [
    | inl y' ↦ absurd (ground arith)
    | inr (x', (y', (z', u'))) ↦
        let e = same_token p q z z' in
        let t = covers_loop-antisym a b v.1 w.1 u u' in rw (e, t) refl
  ]
]

split-injective : (s t : String) → split s ≡ split t → s ≡ t
unfolding split
split-injective s t e =
    sym (nil-append s)
    ∙ sym (glue-split_from "" s)
    ∙ ap glue e
    ∙ glue-split_from "" t
    ∙ nil-append t

-- Coverage of one pattern by another, and of that by a third.
pub subject_covers_trans :
    (a b c : String)
    → IsPattern (split a)
    → IsPattern (split b)
    → subject_covers a b ≡ true
    → subject_covers b c ≡ true
    → subject_covers a c ≡ true
unfolding subject_covers
subject_covers_trans a b c v w h k = elim (Bool-cases (str_eq a c)) [
  | inl e ↦
      let back = differ b c k in
      absurd (
        apart_if a b h (
          split-injective a b (
            covers_loop-antisym (split a) (split b) v w (differ a b h).0
              (rw ((eq_iff a c).0 e) back.0))))
  | inr e ↦ rw e (covers_loop_trans (split a) (split b) (split c) (differ a b h).0 (differ b c k).0)
]
