-- ===== src/StreamConfig/Laws.antt =====
-- What an update asks the server to change.
use Prim.Native.String.{String}
use text.Mathlib.Text.{◌==◌ as str_eq}
use text.Mathlib.TextEquality.{eq_iff}
use text.Mathlib.TextPositions.{eq_refl}
use nestjs_jetstream.Prelude.{
  ◌≡◌, refl, sym, ap, ◌∙◌, Bool, true, false, not, ◌&&◌, ◌||◌, List, [], ◌∷◌, if◌then◌else◌, any,
  all, arith, ◌⊎◌, inl, inr,
}
use nestjs_jetstream.StreamConfig.{
  Value, undefined, null, boolean, json, Config, Change, is_equal, classify_mutability, value_of,
  changes_of, is_immutable, is_transport, compare_stream_config, replace, hold_back, non_mutable,
  non_mutable_keys, build_mutable_only_config, Plan, updates, keeps, conflict, refuses_shared,
  migrates, plan,
}

and_right : (a : Bool) {b : Bool} → (a && b) ≡ true → b ≡ true
and_right true h = h
and_right false h = cc

and_fst : (a b : Bool) → (a && b) ≡ true → a ≡ true
and_fst true b h = refl
and_fst false b h = h

safe_cases : (e n : Bool) → (not (not e && n) || false) ≡ true → (e ≡ true) ⊎ (n ≡ false)
safe_cases true n h = inl refl
safe_cases false false h = inr refl
safe_cases false true h = cc

keys_step :
    (e n : Bool) (x : Change) (cs : List Change)
    → non_mutable x.mutability ≡ n
    → non_mutable_keys (if e then cs else x ∷ cs)
      ≡ (if not e && n then x.property ∷ non_mutable_keys cs else non_mutable_keys cs)
keys_step true n x cs h = refl
keys_step false n x cs h = rw h refl

any_step :
    (e : Bool) (x : Change) (cs : List Change)
    → (e ≡ true) ⊎ (non_mutable x.mutability ≡ false)
    → any (λ y. non_mutable y.mutability) cs ≡ false
    → any (λ y. non_mutable y.mutability) (if e then cs else x ∷ cs) ≡ false
any_step true x cs h r = r
any_step false x cs (inl h) r = cc
any_step false x cs (inr h) r = rw h r

is_equal_refl : (v : Value) → is_equal v v ≡ true
unfolding is_equal
is_equal_refl undefined = refl
is_equal_refl null = refl
is_equal_refl (boolean true) = refl
is_equal_refl (boolean false) = refl
is_equal_refl (json s) = eq_refl s

module _ (current : Config) where
  -- an entry that asks for a change that the server cannot make
  abbrev risky : String → Value → Bool
  risky key v =
      not (is_equal (value_of key current) v)
      && non_mutable (classify_mutability key (value_of key current) v)

  abbrev change : String → Value → Change
  change key v = record {
    property = key;
    current = value_of key current;
    desired = v;
    mutability = classify_mutability key (value_of key current) v;
  }

  abbrev safe : List String → String × Value → Bool
  safe keys (key, v) = not (risky key v) || any (λ k. str_eq key k) keys

  risky-current : (key : String) → risky key (value_of key current) ≡ false
  risky-current key = rw (is_equal_refl (value_of key current)) refl

  all-safe-replace :
      (key : String) (keys : List String) (c : Config)
      → all (safe (key ∷ keys)) c ≡ true
      → all (safe keys) (replace key (value_of key current) c) ≡ true
  unfolding replace
  all-safe-replace key keys [] h = refl
  all-safe-replace key keys ((j, v) ∷ c) h =
      ground (arith, all-safe-replace key keys c, eq_iff j key, risky-current key)

  all-safe-hold_back :
      (keys : List String) (c : Config)
      → all (safe keys) c ≡ true
      → all (safe []) (hold_back current keys c) ≡ true
  unfolding hold_back
  all-safe-hold_back [] c h = h
  all-safe-hold_back (key ∷ keys) c h =
      all-safe-hold_back keys (replace key (value_of key current) c) (all-safe-replace key keys c h)

  all-safe-cons :
      (key : String) (keys : List String) (c : Config)
      → all (safe keys) c ≡ true
      → all (safe (key ∷ keys)) c ≡ true
  all-safe-cons key keys [] h = refl
  all-safe-cons key keys ((j, v) ∷ c) h = ground (arith, all-safe-cons key keys c)

  all-safe-keys :
      (b : Bool) (j : String) (v : Value) (c : Config) (keys : List String)
      → risky j v ≡ b
      → all (safe keys) c ≡ true
      → all (safe (if b then j ∷ keys else keys)) ((j, v) ∷ c) ≡ true
  all-safe-keys true j v c keys r h = rw (r, eq_refl j) (all-safe-cons j keys c h)
  all-safe-keys false j v c keys r h = rw r h

  all-safe-changes : (c : Config) → all (safe (non_mutable_keys (changes_of current c))) c ≡ true
  unfolding changes_of
  all-safe-changes [] = refl
  all-safe-changes ((j, v) ∷ c) =
      let cs = changes_of current c in
      ap (λ keys. all (safe keys) ((j, v) ∷ c))
        (keys_step (is_equal (value_of j current) v)
          (non_mutable (classify_mutability j (value_of j current) v)) (change j v) cs refl)
      ∙ all-safe-keys (risky j v) j v c (non_mutable_keys cs) refl (all-safe-changes c)

  any_changes-safe :
      (c : Config)
      → all (safe []) c ≡ true
      → any (λ x. non_mutable x.mutability) (changes_of current c) ≡ false
  unfolding changes_of
  any_changes-safe [] h = refl
  any_changes-safe ((j, v) ∷ c) h =
      let e = is_equal (value_of j current) v in
      let n = non_mutable (classify_mutability j (value_of j current) v) in
      any_step e (change j v) (changes_of current c)
        (safe_cases e n (and_fst (safe [] (j, v)) (all (safe []) c) h))
        (any_changes-safe c (and_right (safe [] (j, v)) h))

any-non_mutable :
    (cs : List Change)
    → any (λ x. non_mutable x.mutability) cs ≡ false
    → (any (λ x. is_immutable x.mutability) cs ≡ false)
      × (any (λ x. is_transport x.mutability) cs ≡ false)
any-non_mutable [] h = (refl, refl)
any-non_mutable (c ∷ cs) h = ground (arith, any-non_mutable cs)

-- What stays of a difference once the changes that cannot be made are held back.
build_mutable_only_config-safe :
    (current desired : Config)
    → let diff =
        compare_stream_config current
          (build_mutable_only_config desired current (compare_stream_config current desired)) in
      (diff.has_immutable_changes ≡ false) × (diff.has_transport_conflicts ≡ false)
unfolding compare_stream_config build_mutable_only_config
build_mutable_only_config-safe current desired =
    let keys = non_mutable_keys (changes_of current desired) in
    let held = hold_back current keys desired in
    any-non_mutable (changes_of current held) (
      any_changes-safe current held
        (all-safe-hold_back current keys desired (all-safe-changes current desired)))

abbrev sent_by : Config → Plan → Config
sent_by d (updates c) = c
sent_by d _ = d

-- When an update is sent, and which.
update_cases :
    (changes transport immutables allow mutables shared : Bool) (desired held sent : Config)
    → (if not changes
        then keeps
        else if transport
        then conflict
        else if not immutables
        then updates desired
        else if not allow
        then (if mutables then updates held else keeps)
        else if shared
        then refuses_shared
        else migrates)
      ≡ updates sent
    → ((transport ≡ false) × (immutables ≡ false) × (desired ≡ sent)) ⊎ (held ≡ sent)
update_cases false t i a m s d h c e = cc
update_cases true true i a m s d h c e = cc
update_cases true false false a m s d h c e = inl (refl, refl, ap (sent_by d) e)
update_cases true false true false true s d h c e = inr (ap (sent_by d) e)
update_cases true false true false false s d h c e = cc
update_cases true false true true m true d h c e = cc
update_cases true false true true m false d h c e = cc

-- Whatever the current and the desired configuration, whether destructive migration is allowed and
-- whether the stream is shared: a configuration that is sent as an update differs from the current
-- one in no immutable and in no transport-controlled property.
pub plan_update-safe :
    (allow_destructive shared : Bool) (current desired sent : Config)
    → plan allow_destructive shared current desired ≡ updates sent
    → ((compare_stream_config current sent).has_immutable_changes ≡ false)
      × ((compare_stream_config current sent).has_transport_conflicts ≡ false)
unfolding plan
plan_update-safe allow_destructive shared current desired sent e =
    let diff = compare_stream_config current desired in
    let held = build_mutable_only_config desired current diff in
    elim (update_cases diff.has_changes diff.has_transport_conflicts diff.has_immutable_changes
      allow_destructive diff.has_mutable_changes shared desired held sent e) [
        | inl (t, i, d) ↦ (
          sym (ap (λ c. (compare_stream_config current c).has_immutable_changes) d) ∙ i,
          sym (ap (λ c. (compare_stream_config current c).has_transport_conflicts) d) ∙ t,
        )
        | inr d ↦
            let (i, t) = build_mutable_only_config-safe current desired in
            (
              sym (ap (λ c. (compare_stream_config current c).has_immutable_changes) d) ∙ i,
              sym (ap (λ c. (compare_stream_config current c).has_transport_conflicts) d) ∙ t,
            )
      ]
