-- ===== src/Subject/Laws.antt =====
-- The coverage test against the meaning of wildcards.
use Prim.Native.String.{String}
use text.Mathlib.Text.{◌==◌ as str_eq}
use text.Mathlib.TextEquality.{eq_iff}
use nestjs_jetstream.Prelude.{
  ◌≡◌, ◌≢◌, refl, ◌∙◌, ◌↔◌, ◌⊎◌, inl, inr, true, false, List, [], ◌∷◌, arith, Bool-cases, All,
}
use nestjs_jetstream.Subject.{split, covers_loop, subject_covers, covers_or_equals}

-- A pattern matches a subject token by token: `*` stands for one token, and a last `>` for one
-- token or more.
pub data Matches : List String → List String → Type 0 where
  all : Matches [] []
  rest : {p t : String} {ts : List String} → p ≡ ">" → Matches (p ∷ []) (t ∷ ts)
  one :
      {p t : String} {ps ts : List String}
      → (p ≡ "*") ⊎ (p ≡ t)
      → Matches ps ts
      → Matches (p ∷ ps) (t ∷ ts)

-- `>` stands only at the end of a pattern.
abbrev pub IsPattern : List String → Type 0
IsPattern [] = Unit
IsPattern (p ∷ ps) = ((p ≢ ">") ⊎ (ps ≡ [])) × IsPattern ps

-- A subject that messages are published on: no wildcards.
abbrev pub IsConcrete : List String → Type 0
IsConcrete s = All (λ t. (t ≢ ">") × (t ≢ "*")) s

-- What a round that goes on has found.
covers_round :
    (p q : String) (b n : List String)
    → covers_loop (p ∷ b) (q ∷ n) ≡ true
    → str_eq p ">" ≡ false
    → (str_eq q ">" ≡ false)
      × ((str_eq p "*" ≡ true) ⊎ (str_eq p q ≡ true))
      × (covers_loop b n ≡ true)
unfolding covers_loop
covers_round p q b n h w = ground arith

-- one token of the broad pattern against one of the narrow pattern
covers_one :
    (p q t : String) (b n s : List String)
    → str_eq q ">" ≡ false
    → (str_eq p "*" ≡ true) ⊎ (str_eq p q ≡ true)
    → (Matches n s → Matches b s)
    → Matches (q ∷ n) (t ∷ s)
    → Matches (p ∷ b) (t ∷ s)
covers_one p q t b n s w e ih (rest k) = absurd (ground (arith, eq_iff q ">"))
covers_one p q t b n s w (inl star) ih (one k m) = one (inl ((eq_iff p "*").0 star)) (ih m)
covers_one p q t b n s w (inr same) ih (one (inl k) m) = one (inl ((eq_iff p q).0 same ∙ k)) (ih m)
covers_one p q t b n s w (inr same) ih (one (inr k) m) = one (inr ((eq_iff p q).0 same ∙ k)) (ih m)

last_wildcard : (p t : String) (b s : List String) → p ≡ ">" → b ≡ [] → Matches (p ∷ b) (t ∷ s)
last_wildcard p t b s w e = rw e (rest w)

covers_loop_sound :
    (b n s : List String) → IsPattern b → covers_loop b n ≡ true → Matches n s → Matches b s
unfolding covers_loop
covers_loop_sound [] [] s v h m = m
covers_loop_sound [] (q ∷ n) s v h m = cc
covers_loop_sound (p ∷ b) [] s v h m = absurd (ground arith)
covers_loop_sound (p ∷ b) (q ∷ n) [] v h m = elim m [ ]
covers_loop_sound (p ∷ b) (q ∷ n) (t ∷ s) v h m = elim (Bool-cases (str_eq p ">")) [
  | inl w ↦
      let is : p ≡ ">" = (eq_iff p ">").0 w in
      last_wildcard p t b s is (elim v.0 [ inl not_wild ↦ absurd (not_wild is) | inr e ↦ e ])
  | inr w ↦
      let (q_plain, e, later) = covers_round p q b n h w in
      covers_one p q t b n s q_plain e (covers_loop_sound b n s v.1 later) m
]

-- Every subject that the narrow pattern matches, the broad one matches too, if the test says that
-- it covers it and `>` stands only at the end of the broad pattern.
pub subject_covers_sound :
    (broad narrow : String) (s : List String)
    → IsPattern (split broad)
    → subject_covers broad narrow ≡ true
    → Matches (split narrow) s
    → Matches (split broad) s
unfolding subject_covers
subject_covers_sound broad narrow s v h m =
    covers_loop_sound (split broad) (split narrow) s v (ground arith) m

covers_loop_complete : (b s : List String) → IsConcrete s → Matches b s → covers_loop b s ≡ true
unfolding covers_loop
covers_loop_complete b s c all = refl
covers_loop_complete b s c (rest {p} {t} {ts} e) = ground (arith, eq_iff p ">")
covers_loop_complete b s c (one {p} {t} {ps} {ts} e m) = ground (
  arith,
  covers_loop_complete ps ts c.1 m,
  c.0.0,
  eq_iff p ">",
  eq_iff p "*",
  eq_iff p t,
  eq_iff t ">",
)

Matches-self : (s : List String) → Matches s s
Matches-self [] = all
Matches-self (t ∷ s) = one (inr refl) (Matches-self s)

-- For a pattern with `>` only at its end and a subject without wildcards, the test says that the
-- pattern covers the subject if and only if the pattern matches it.
pub covers_or_equals_iff :
    (broad subject : String)
    → IsPattern (split broad)
    → IsConcrete (split subject)
    → (covers_or_equals broad subject ≡ true) ↔ Matches (split broad) (split subject)
unfolding covers_or_equals
covers_or_equals_iff broad subject v c = (to, from)
  where
    to : covers_or_equals broad subject ≡ true → Matches (split broad) (split subject)
    to h = elim (Bool-cases (str_eq broad subject)) [
      | inl same ↦ rw ((eq_iff broad subject).0 same) (Matches-self (split subject))
      | inr differ ↦
          covers_loop_sound (split broad) (split subject) (split subject) v (ground arith)
            (Matches-self (split subject))
    ]

    from : Matches (split broad) (split subject) → covers_or_equals broad subject ≡ true
    from m = ground (arith, covers_loop_complete (split broad) (split subject) c m)
