-- ===== src/Jsm.antt =====
-- The manager of streams and consumers that the server's client library gives (`jsm`), as the code of
-- src/server/infrastructure uses it: a parameter, of which nothing is assumed.
--
-- An asynchronous function takes the world to its result, the calls that it made of the manager with
-- their answers, and the world after. A call may answer anything.
pub mod Rules
pub mod Toy
use Prim.Native.String.{String}
use nestjs_jetstream.Prelude.{
  ℕ, Bool, true, false, Option, none, some, List, [], ◌∷◌, ◌++◌, if◌then◌else◌, ◌==◌,
}
use nestjs_jetstream.StreamConfig.{Config}

-- What is thrown: an error of the server with its code, one that the code makes, or another.
pub data Error : Type 0 where
  api_error : ℕ → Error
  provisioning_error : ℕ → Error
  plain_error : String → Error

pub data Result {ℓ} (A : Type ℓ) : Type ℓ where
  ok : A → Result A
  err : Error → Result A

-- `metadata[MIGRATION_STARTED_AT_KEY]`, as `Date.parse` reads it.
pub data StartedAt : Type 0 where
  missing unparsable : StartedAt
  at : ℕ → StartedAt

-- `rest` has the entries of a configuration that do not stand in a field of their own.
pub record StreamSpec : Type 0 where
  pub name : String
  pub subjects : List String
  pub sources : List String
  pub started_at : StartedAt
  pub rest : Config

-- The state of a source: `active` is none if it is negative.
pub record SourceInfo : Type 0 where
  pub name : String
  pub active : Option ℕ
  pub lag : ℕ

pub record StreamInfo : Type 0 where
  pub config : StreamSpec
  pub messages : ℕ
  pub sources : List SourceInfo

-- `filter_subject` and `filter_subjects`, the name, and the other entries.
pub record ConsumerSpec : Type 0 where
  pub durable_name : String
  pub filter_subject : Option String
  pub filter_subjects : Option (List String)
  pub rest : Config

pub record ConsumerInfo : Type 0 where
  pub stream_name : String
  pub name : String
  pub config : ConsumerSpec

-- A call of the manager, with its answer.
pub data Event : Type 0 where
  stream_info : String → Result StreamInfo → Event
  stream_update : String → StreamSpec → Result StreamInfo → Event
  stream_add : StreamSpec → Result StreamInfo → Event
  stream_delete : String → Result (Unit {0}) → Event
  consumer_info : String → String → Result ConsumerInfo → Event
  consumer_update : String → String → ConsumerSpec → Result ConsumerInfo → Event
  consumer_add : String → ConsumerSpec → Result ConsumerInfo → Event

-- How a world answers. `polls`: how many rounds a waiting loop that starts now has until its deadline.
pub record Manager (W : Type 0) : Type 0 where
  pub info : String → W → Result StreamInfo × W
  pub update : String → StreamSpec → W → Result StreamInfo × W
  pub add : StreamSpec → W → Result StreamInfo × W
  pub remove : String → W → Result (Unit {0}) × W
  pub info_consumer : String → String → W → Result ConsumerInfo × W
  pub update_consumer : String → String → ConsumerSpec → W → Result ConsumerInfo × W
  pub add_consumer : String → ConsumerSpec → W → Result ConsumerInfo × W
  pub polls : W → ℕ

abbrev pub Exec : Type 0 → Type 0 → Type 0
Exec W A = W → Result A × List Event × W

module _ {W A : Type 0} where
  abbrev pub pure : A → Exec W A
  pure a w = (ok a, [], w)

  abbrev pub raise : Error → Exec W A
  raise e w = (err e, [], w)

  -- one call
  abbrev pub call : (Result A → Event) → (W → Result A × W) → Exec W A
  call event f w = let (r, w') = f w in (r, event r ∷ [], w')

module _ {W A B : Type 0} where
  abbrev pub continue : Result A → (A → Exec W B) → Exec W B
  continue (ok a) f = f a
  continue (err e) f = raise e

  infixl 10 ◌>>=◌ ◌>>◌
  unfoldable pub ◌>>=◌ : Exec W A → (A → Exec W B) → Exec W B
  ◌>>=◌ m f w =
      let (r, es, w') = m w in let (r', es', w'') = continue r f w' in (r', es ++ es', w'')

  abbrev pub ◌>>◌ : Exec W A → Exec W B → Exec W B
  m >> n = m >>= λ _. n

module _ {W A : Type 0} where
  abbrev pub recover : Result A → (Error → Exec W A) → Exec W A
  recover (ok a) h = pure a
  recover (err e) h = h e

  -- `try { m } catch (e) { h }`
  unfoldable pub catch : Exec W A → (Error → Exec W A) → Exec W A
  catch m h w = let (r, es, w') = m w in let (r', es', w'') = recover r h w' in (r', es ++ es', w'')

module _ {W : Type 0} (jsm : Manager W) where
  abbrev pub info : String → Exec W StreamInfo
  info name = call (stream_info name) (jsm.info name)

  abbrev pub update : String → StreamSpec → Exec W StreamInfo
  update name config = call (stream_update name config) (jsm.update name config)

  abbrev pub add : StreamSpec → Exec W StreamInfo
  add config = call (stream_add config) (jsm.add config)

  abbrev pub delete : String → Exec W (Unit {0})
  delete name = call (stream_delete name) (jsm.remove name)

  abbrev pub info_consumer : String → String → Exec W ConsumerInfo
  info_consumer stream name = call (consumer_info stream name) (jsm.info_consumer stream name)

  abbrev pub update_consumer : String → String → ConsumerSpec → Exec W ConsumerInfo
  update_consumer stream name config =
      call (consumer_update stream name config) (jsm.update_consumer stream name config)

  abbrev pub add_consumer : String → ConsumerSpec → Exec W ConsumerInfo
  add_consumer stream config = call (consumer_add stream config) (jsm.add_consumer stream config)

-- src/server/infrastructure/nats-error-codes.ts
abbrev pub consumer_not_found : ℕ
consumer_not_found = 10014

abbrev pub consumer_already_exists : ℕ
consumer_already_exists = 10148

abbrev pub stream_not_found : ℕ
stream_not_found = 10059

abbrev pub has_code : ℕ → Error → Bool
has_code code (api_error n) = n == code
has_code code _ = false
