-- ===== src/Consumer/Filters.antt =====
-- The filters of a configured consumer, against the subjects of the registered handlers.
use Prim.Native.String.{String}
use text.Mathlib.TextPositions.{eq_refl}
use nestjs_jetstream.Prelude.{
  ◌⊎◌, ◌≡◌, refl, ap, true, none, some, List, [], ◌∷◌, if◌then◌else◌, any, All, map, Bool-cases,
  inl, inr,
}
use mathlib.Core.Path.{subst, subst⁻¹}
use nestjs_jetstream.Subject.{covers_or_equals}
use nestjs_jetstream.Subject.Split.{covers_or_equals-prefix}
use nestjs_jetstream.Names.{
  StreamKind, event, command, broadcast, ordered, KindNames, subject, filter_subject, ◌<>◌,
}
use nestjs_jetstream.Registry.{PatternsByKind}
use nestjs_jetstream.Registry.Laws.{patterns_of}
use nestjs_jetstream.Migration.Steps.{or_true}
use nestjs_jetstream.Jsm.{Result, ok, err, ConsumerSpec}
use nestjs_jetstream.Binder.{by_filter, filter_covers_subject}
use nestjs_jetstream.Consumer.{
  subjects_of, Base, with_subjects, plain_config, broadcast_config, build_config,
}

abbrev from_ok : {A : Type 0} → A → Result A → A
from_ok d (ok a) = a
from_ok d (err e) = d

All-mono :
    {A : Type 0} {P Q : A → Type 0} (xs : List A) → ((x : A) → P x → Q x) → All P xs → All Q xs
All-mono [] f h = tt
All-mono (x ∷ xs) f (h, hs) = (f x h, All-mono xs f hs)

All-of : {A : Type 0} {P : A → Type 0} (xs : List A) → ((x : A) → P x) → All P xs
All-of [] f = tt
All-of (x ∷ xs) f = (f x, All-of xs f)

covers_or_equals_refl : (s : String) → covers_or_equals s s ≡ true
unfolding covers_or_equals
covers_or_equals_refl s = rw (eq_refl s) refl

any-covers :
    {A : Type 0} (f : A → String) (ps : List A)
    → All (λ p. any (λ s. covers_or_equals s (f p)) (map f ps) ≡ true) ps
any-covers f [] = tt
any-covers f (q ∷ ps) = (
  rw (covers_or_equals_refl (f q)) refl,
  All-mono ps (λ p h. rw h (or_true (covers_or_equals (f q) (f p)))) (any-covers f ps),
)

module _ (names : StreamKind → KindNames) (patterns : PatternsByKind)
    (base : StreamKind → Base) where
  with_subjects-covers :
      (kind : StreamKind) (ps : List String)
      → (base kind).filter_subject ≡ none
      → All
          (λ p.
            filter_covers_subject
              (with_subjects names patterns base kind (map (subject names kind) ps))
              (subject names kind p)
            ≡ true)
          ps
  with_subjects-covers kind [] n = tt
  with_subjects-covers kind (p ∷ []) n = (covers_or_equals_refl (subject names kind p), tt)
  with_subjects-covers kind (p ∷ q ∷ ps) n =
      let ss = map (subject names kind) (p ∷ q ∷ ps) in
      subst⁻¹ (λ f. All (λ p'. by_filter f (some ss) (subject names kind p') ≡ true) (p ∷ q ∷ ps)) n
        (any-covers (subject names kind) (p ∷ q ∷ ps))

  plain_config-covers :
      (kind : StreamKind) (t : String)
      → (names kind).prefix ≡ t <> "."
      → (base kind).filter_subject ≡ none
      → All
          (λ p.
            filter_covers_subject (plain_config names patterns base kind) (subject names kind p)
            ≡ true)
          (patterns_of kind patterns)
  plain_config-covers kind t e n = elim (Bool-cases (names kind).custom) [
    | inl c ↦
        subst⁻¹
          (λ b.
            All
              (λ p.
                filter_covers_subject
                  (if b
                    then with_subjects names patterns base kind
                        (map (subject names kind) (patterns_of kind patterns))
                    else with_subjects names patterns base kind (filter_subject names kind ∷ []))
                  (subject names kind p)
                ≡ true)
              (patterns_of kind patterns))
          c (with_subjects-covers kind (patterns_of kind patterns) n)
    | inr c ↦
        subst⁻¹
          (λ b.
            All
              (λ p.
                filter_covers_subject
                  (if b
                    then with_subjects names patterns base kind
                        (map (subject names kind) (patterns_of kind patterns))
                    else with_subjects names patterns base kind (filter_subject names kind ∷ []))
                  (subject names kind p)
                ≡ true)
              (patterns_of kind patterns))
          c (All-of (patterns_of kind patterns) (λ p. rw e (covers_or_equals-prefix t p)))
  ]

  moved :
      (kind : StreamKind) (c d : ConsumerSpec)
      → ok d ≡ ok c
      → All (λ p. filter_covers_subject d (subject names kind p) ≡ true) (patterns_of kind patterns)
      → All (λ p. filter_covers_subject c (subject names kind p) ≡ true) (patterns_of kind patterns)
  moved kind c d e h =
      subst
        (λ x.
          All (λ p. filter_covers_subject x (subject names kind p) ≡ true)
            (patterns_of kind patterns))
        (ap (from_ok d) e) h

  broadcast-covers :
      (ps : List String) (c : ConsumerSpec)
      → (base broadcast).filter_subject ≡ none
      → broadcast_config names patterns base (map (subject names broadcast) ps) ≡ ok c
      → All (λ p. filter_covers_subject c (subject names broadcast p) ≡ true) ps
  broadcast-covers [] c n b = tt
  broadcast-covers (p ∷ ps) c n b =
      subst (λ x. All (λ q. filter_covers_subject x (subject names broadcast q) ≡ true) (p ∷ ps))
        (ap (from_ok c) b) (with_subjects-covers broadcast (p ∷ ps) n)

  -- not both filter fields
  abbrev OneFilter : ConsumerSpec → Type 0
  OneFilter c = (c.filter_subject ≡ none) ⊎ (c.filter_subjects ≡ none)

  with_subjects-OneFilter :
      (kind : StreamKind) (ss : List String)
      → (base kind).filter_subject ≡ none
      → (base kind).filter_subjects ≡ none
      → OneFilter (with_subjects names patterns base kind ss)
  with_subjects-OneFilter kind [] n ns = inl n
  with_subjects-OneFilter kind (s ∷ []) n ns = inr ns
  with_subjects-OneFilter kind (s ∷ t ∷ ss) n ns = inl n

  plain_config-OneFilter :
      (kind : StreamKind)
      → (base kind).filter_subject ≡ none
      → (base kind).filter_subjects ≡ none
      → OneFilter (plain_config names patterns base kind)
  plain_config-OneFilter kind n ns =
      let listed = with_subjects-OneFilter kind (subjects_of names patterns base kind) n ns in
      let single = with_subjects-OneFilter kind (filter_subject names kind ∷ []) n ns in
      elim (Bool-cases (names kind).custom) [ inl c ↦ rw c listed | inr c ↦ rw c single ]

  broadcast-OneFilter :
      (ss : List String) (c : ConsumerSpec)
      → (base broadcast).filter_subject ≡ none
      → (base broadcast).filter_subjects ≡ none
      → broadcast_config names patterns base ss ≡ ok c
      → OneFilter c
  broadcast-OneFilter [] c n ns b = cc
  broadcast-OneFilter (s ∷ ss) c n ns b =
      subst OneFilter (ap (from_ok c) b) (with_subjects-OneFilter broadcast (s ∷ ss) n ns)

  build_config-OneFilter :
      (kind : StreamKind) (c : ConsumerSpec)
      → (base kind).filter_subject ≡ none
      → (base kind).filter_subjects ≡ none
      → build_config names patterns base kind ≡ ok c
      → OneFilter c
  unfolding build_config
  build_config-OneFilter event c n ns b =
      subst OneFilter (ap (from_ok c) b) (plain_config-OneFilter event n ns)
  build_config-OneFilter command c n ns b =
      subst OneFilter (ap (from_ok c) b) (plain_config-OneFilter command n ns)
  build_config-OneFilter broadcast c n ns b =
      broadcast-OneFilter (subjects_of names patterns base broadcast) c n ns b
  build_config-OneFilter ordered c n ns b = cc

  config_covers :
      (kind : StreamKind) (t : String) (c : ConsumerSpec)
      → (names kind).prefix ≡ t <> "."
      → (base kind).filter_subject ≡ none
      → build_config names patterns base kind ≡ ok c
      → All (λ p. filter_covers_subject c (subject names kind p) ≡ true) (patterns_of kind patterns)
  unfolding build_config
  config_covers event t c e n b =
      moved event c (plain_config names patterns base event) b (plain_config-covers event t e n)
  config_covers command t c e n b =
      moved command c (plain_config names patterns base command) b
        (plain_config-covers command t e n)
  config_covers broadcast t c e n b = broadcast-covers patterns.broadcasts c n b
  config_covers ordered t c e n b = cc

  -- A durable consumer that can be configured, for events, commands or broadcasts, takes the subject
  -- of every handler that is registered for its kind, and not by two filter fields at once; if the
  -- kind's prefix ends in a dot and neither the defaults nor the user's overrides set a filter field
  -- of their own.
  pub build_config-covers :
      (kind : StreamKind) (t : String) (c : ConsumerSpec)
      → (names kind).prefix ≡ t <> "."
      → (base kind).filter_subject ≡ none
      → (base kind).filter_subjects ≡ none
      → build_config names patterns base kind ≡ ok c
      → All (λ p. filter_covers_subject c (subject names kind p) ≡ true) (patterns_of kind patterns)
        × ((c.filter_subject ≡ none) ⊎ (c.filter_subjects ≡ none))
  build_config-covers kind t c e n ns b =
      (config_covers kind t c e n b, build_config-OneFilter kind c n ns b)
