-- ===== src/Maps.antt =====
-- A `Map` from strings as an association list; `set` keeps the place of a key that it has.
use Prim.Native.String.{String}
use text.Mathlib.Text.{◌==◌ as str_eq}
use nestjs_jetstream.Prelude.{Option, none, some, List, [], ◌∷◌, if◌then◌else◌}

module _ {ℓ} {V : Type ℓ} where
  unfoldable pub lookup : String → List (String × V) → Option V
  lookup k [] = none
  lookup k ((j, v) ∷ m) = if str_eq j k then some v else lookup k m

  unfoldable pub set : String → V → List (String × V) → List (String × V)
  set k v [] = (k, v) ∷ []
  set k v ((j, w) ∷ m) = if str_eq j k then (j, v) ∷ m else (j, w) ∷ set k v m

  unfoldable pub delete : String → List (String × V) → List (String × V)
  delete k [] = []
  delete k ((j, w) ∷ m) = let rest = delete k m in if str_eq j k then rest else (j, w) ∷ rest
