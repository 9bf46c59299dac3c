-- ===== src/Subject.antt =====
-- src/server/infrastructure/subject-utils.ts: wildcard subjects of NATS.
pub mod Laws
pub mod Split
pub mod Order
pub mod Examples
use Prim.Native.Char.{Char, code}
use Prim.Native.String
use Prim.Native.String.{String}
use text.Mathlib.Text.{◌==◌ as str_eq}
use nestjs_jetstream.Prelude.{
  ℕ, Bool, true, false, not, ◌&&◌, ◌||◌, List, [], ◌∷◌, if◌then◌else◌, ◌==◌,
}

abbrev pub push : String → Char → String
push s c = String.◌++◌ s (String.◌∷◌ c String.[])

-- `split('.')`: `cur` is the token that is being read
unfoldable pub split_from : String → String → List String
split_from cur String.[] = cur ∷ []
split_from cur (String.◌∷◌ c s) =
    let closed = cur ∷ split_from "" s in
    let longer = split_from (push cur c) s in if code c == b'.' then closed else longer

unfoldable pub split : String → List String
unfolding split_from
split s = split_from "" s

abbrev is_empty : List String → Bool
is_empty [] = true
is_empty (_ ∷ _) = false

-- The loop over the broad tokens, with the narrow tokens from the same index on.
unfoldable pub covers_loop : List String → List String → Bool
covers_loop [] narrow = is_empty narrow
covers_loop (b ∷ bs) [] = if str_eq b ">" then false else false
covers_loop (b ∷ bs) (n ∷ ns) =
    let rest = covers_loop bs ns in
    if str_eq b ">"
    then true
    else if str_eq n ">"
    then false
    else if not (str_eq b "*") && not (str_eq b n)
    then false
    else rest

unfoldable pub subject_covers : String → String → Bool
subject_covers broad narrow =
    if str_eq broad narrow then false else covers_loop (split broad) (split narrow)

unfoldable pub covers_or_equals : String → String → Bool
unfolding subject_covers
covers_or_equals broad subject = str_eq broad subject || subject_covers broad subject
