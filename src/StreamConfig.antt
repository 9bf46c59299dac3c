-- ===== src/StreamConfig.antt =====
-- src/server/infrastructure/stream-config-diff.ts: the changes of a stream's configuration, and what
-- src/server/infrastructure/stream.provider.ts does about them.
--
-- A configuration is the list of its entries. A value other than undefined, null and a Boolean is
-- its JSON text, by which the code compares such values.
pub mod Laws
pub mod Shared
pub mod Examples
use Prim.Native.String.{String}
use text.Mathlib.Text.{◌==◌ as str_eq}
use nestjs_jetstream.Prelude.{
  ℕ, Bool, true, false, not, ◌&&◌, ◌||◌, Option, none, some, List, [], ◌∷◌, if◌then◌else◌, any,
  keep, map, length, ltb,
}
use nestjs_jetstream.Maps.{lookup}

pub data Value : Type 0 where
  undefined null : Value
  boolean : Bool → Value
  json : String → Value

abbrev pub Config : Type 0
Config = List (String × Value)

pub data Mutability : Type 0 where
  mutable enable_only immutable transport_controlled : Mutability

pub record Change : Type 0 where
  pub property : String
  pub current : Value
  pub desired : Value
  pub mutability : Mutability

pub record Diff : Type 0 where
  pub has_changes : Bool
  pub has_mutable_changes : Bool
  pub has_immutable_changes : Bool
  pub has_transport_conflicts : Bool
  pub changes : List Change

abbrev same_bool : Bool → Bool → Bool
same_bool true b = b
same_bool false b = not b

unfoldable pub is_equal : Value → Value → Bool
is_equal undefined undefined = true
is_equal undefined null = true
is_equal null undefined = true
is_equal null null = true
is_equal (boolean a) (boolean b) = same_bool a b
is_equal (json a) (json b) = str_eq a b
is_equal _ _ = false

abbrev enable_only_properties : List String
enable_only_properties = "allow_msg_schedules" ∷ "allow_msg_ttl" ∷ "deny_delete" ∷ "deny_purge" ∷ []

abbrev disables : Value → Value → Bool
disables (boolean true) (boolean false) = true
disables _ _ = false

unfoldable pub classify_mutability : String → Value → Value → Mutability
classify_mutability key current desired =
    if str_eq key "retention"
    then transport_controlled
    else if str_eq key "storage"
    then immutable
    else if any (λ p. str_eq key p) enable_only_properties
    then (if disables current desired then immutable else enable_only)
    else mutable

-- `current[key]`
abbrev pub value_or : Option Value → Value
value_or none = undefined
value_or (some v) = v

unfoldable pub value_of : String → Config → Value
unfolding lookup
value_of key c = value_or (lookup key c)

-- The loop of `compareStreamConfig`.
unfoldable pub changes_of : Config → Config → List Change
changes_of current [] = []
changes_of current ((key, desired) ∷ rest) =
    let later = changes_of current rest in
    let c = value_of key current in
    if is_equal c desired
    then later
    else record {
      property = key;
      current = c;
      desired = desired;
      mutability = classify_mutability key c desired;
    }
      ∷ later

abbrev pub is_immutable : Mutability → Bool
is_immutable immutable = true
is_immutable _ = false

abbrev pub is_transport : Mutability → Bool
is_transport transport_controlled = true
is_transport _ = false

abbrev pub is_mutable : Mutability → Bool
is_mutable mutable = true
is_mutable enable_only = true
is_mutable _ = false

unfoldable pub compare_stream_config : Config → Config → Diff
unfolding changes_of
compare_stream_config current desired =
    let cs = changes_of current desired in
    record {
      has_changes = ltb 0 (length cs);
      has_mutable_changes = any (λ c. is_mutable c.mutability) cs;
      has_immutable_changes = any (λ c. is_immutable c.mutability) cs;
      has_transport_conflicts = any (λ c. is_transport c.mutability) cs;
      changes = cs;
    }

-- `filtered[key] = value`, for a key that is there
unfoldable pub replace : String → Value → Config → Config
replace key v [] = []
replace key v ((j, w) ∷ c) =
    let rest = replace key v c in if str_eq j key then (key, v) ∷ rest else (j, w) ∷ rest

unfoldable pub hold_back : Config → List String → Config → Config
unfolding replace
hold_back current [] filtered = filtered
hold_back current (key ∷ keys) filtered =
    hold_back current keys (replace key (value_of key current) filtered)

abbrev pub non_mutable : Mutability → Bool
non_mutable m = is_immutable m || is_transport m

-- The set of the code has each key once; holding one back twice changes nothing.
abbrev pub non_mutable_keys : List Change → List String
non_mutable_keys [] = []
non_mutable_keys (c ∷ cs) =
    let rest = non_mutable_keys cs in if non_mutable c.mutability then c.property ∷ rest else rest

unfoldable pub build_mutable_only_config : Config → Config → Diff → Config
unfolding hold_back
build_mutable_only_config desired current diff =
    hold_back current (non_mutable_keys diff.changes) desired

-- What is done about an existing stream, once the desired configuration is known.
pub data Plan : Type 0 where
  keeps conflict refuses_shared migrates : Plan
  updates : Config → Plan

unfoldable pub plan : Bool → Bool → Config → Config → Plan
unfolding compare_stream_config build_mutable_only_config
plan allow_destructive shared current desired =
    let diff = compare_stream_config current desired in
    if not diff.has_changes
    then keeps
    else if diff.has_transport_conflicts
    then conflict
    else if not diff.has_immutable_changes
    then updates desired
    else if not allow_destructive
    then (if diff.has_mutable_changes
        then updates (build_mutable_only_config desired current diff)
        else keeps)
    else if shared
    then refuses_shared
    else migrates
