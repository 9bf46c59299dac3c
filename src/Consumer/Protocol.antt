-- ===== src/Consumer/Protocol.antt =====
-- What the server's answers have shown of a consumer, and which calls this allows.
use Prim.Native.String.{String}
use text.Mathlib.Text.{◌==◌ as str_eq}
use text.Mathlib.TextPositions.{eq_refl}
use nestjs_jetstream.Prelude.{◌≡◌, refl, ◌∙◌, Bool, true, false, not, ◌&&◌, ◌||◌}
use nestjs_jetstream.Jsm.{
  Error, Result, ok, err, Event, stream_info, consumer_info, consumer_update, consumer_add,
  ConsumerSpec, ConsumerInfo, Manager, Exec, raise, catch, info_consumer, has_code,
  stream_not_found, consumer_not_found, consumer_already_exists,
}
use nestjs_jetstream.Jsm.Rules.{
  Runs, Runs-pure, Runs-raise, Runs-call, Runs-if, Runs-bind, Runs-catch,
}
use nestjs_jetstream.Migration.{backup_of}
use nestjs_jetstream.Consumer.{create_consumer, assert_no_migration, or_create}

-- `exists`: an answer has shown the consumer. `missing`: the last answer was that it is not found.
-- `no_backup`: the last answer was that the stream has no migration backup.
pub record Knowledge : Type 0 where
  pub exists : Bool
  pub missing : Bool
  pub no_backup : Bool

abbrev pub unknown : Knowledge
unknown = record { exists = false; missing = false; no_backup = false }

abbrev is_not_found : {A : Type 0} → Result A → Bool
is_not_found (ok a) = false
is_not_found (err e) = has_code stream_not_found e

abbrev pub observe : Event → Knowledge → Knowledge
observe (stream_info name r) k = record k { no_backup = is_not_found r }
observe (consumer_info stream name (ok i)) k = record k { exists = true; missing = false }
observe (consumer_info stream name (err e)) k = record k {
  exists = false;
  missing = has_code consumer_not_found e;
}
observe (consumer_update stream name c (ok i)) k = record k { exists = true }
observe (consumer_add stream c (ok i)) k = record k { exists = true; missing = false }
observe _ k = k

-- At the start an existing consumer is updated, and one that is not found is created. A recovery
-- updates nothing, and creates only when no migration has left its backup. Streams are only read.
abbrev pub permits : Bool → String → Event → Knowledge → Bool
permits recovering stream (stream_info name r) k = str_eq name (backup_of stream)
permits recovering stream (consumer_info s name r) k = str_eq s stream
permits recovering stream (consumer_update s name c r) k =
    str_eq s stream && (k.exists && not recovering)
permits recovering stream (consumer_add s c r) k =
    str_eq s stream && (k.missing && (k.no_backup || not recovering))
permits recovering stream _ k = false

-- If something is returned, the consumer was shown to be there.
abbrev pub Shown : {A : Type 0} → Result A → Knowledge → Type 0
Shown (ok i) k = k.exists ≡ true
Shown (err e) k = Unit

abbrev pub Here : {W : Type 0} → Bool → String → Knowledge → Exec W ConsumerInfo → Type 0
Here recovering stream k m = Runs observe (permits recovering stream) k m Shown

module _ {W : Type 0} (jsm : Manager W) (recovering : Bool) (stream : String) where
  -- reading the consumer
  abbrev pub Read : {A : Type 0} → Knowledge → Result A → Knowledge → Type 0
  Read k (ok i) k' = (k'.exists ≡ true) × (k'.no_backup ≡ k.no_backup)
  Read k (err e) k' = (k'.missing ≡ has_code consumer_not_found e) × (k'.no_backup ≡ k.no_backup)

  pub info_consumer-Read :
      (k : Knowledge) (name : String)
      → Runs observe (permits recovering stream) k (info_consumer jsm stream name) (Read k)
  info_consumer-Read k name =
      Runs-call k (consumer_info stream name) (jsm.info_consumer stream name) (λ r. eq_refl stream)
        read
    where
      read : (r : Result ConsumerInfo) → Read k r (observe (consumer_info stream name r) k)
      read (ok i) = (refl, refl)
      read (err e) = (refl, refl)

  pub info_consumer-Shown :
      (k : Knowledge) (name : String) → Here recovering stream k (info_consumer jsm stream name)
  info_consumer-Shown k name =
      Runs-call k (consumer_info stream name) (jsm.info_consumer stream name) (λ r. eq_refl stream)
        shown
    where
      shown : (r : Result ConsumerInfo) → Shown r (observe (consumer_info stream name r) k)
      shown (ok i) = refl
      shown (err e) = tt

  create-Shown :
      (k : Knowledge) (c : ConsumerSpec)
      → k.missing ≡ true
      → (k.no_backup || not recovering) ≡ true
      → Here recovering stream k (create_consumer jsm stream c)
  unfolding create_consumer
  create-Shown k c m b =
      Runs-catch {P = Shown} k _ _
        (Runs-call k (consumer_add stream c) (jsm.add_consumer stream c)
          (λ r. rw (eq_refl stream, m, b) refl) shown)
        (λ i k' h. h)
        (λ e k' h.
          Runs-if k' (has_code consumer_already_exists e) _ _
            (λ _. info_consumer-Shown k' c.durable_name) (λ _. Runs-raise k' _ tt))
    where
      shown : (r : Result ConsumerInfo) → Shown r (observe (consumer_add stream c r) k)
      shown (ok i) = refl
      shown (err e) = tt

  -- what is found, or an error; if it is that the consumer is not found, then it is missing
  abbrev pub Found : Result ConsumerInfo → Knowledge → Type 0
  Found (ok i) k = k.exists ≡ true
  Found (err e) k =
      (has_code consumer_not_found e ≡ true → k.missing ≡ true)
      × ((k.no_backup || not recovering) ≡ true)

  pub or_create-Shown :
      (k : Knowledge) (c : ConsumerSpec) (found : Exec W ConsumerInfo)
      → Runs observe (permits recovering stream) k found Found
      → Here recovering stream k (or_create jsm stream c found)
  or_create-Shown k c found f =
      Runs-catch {P = Found} k _ _ f (λ i k' h. h)
        (λ e k' (m, b).
          Runs-if k' (has_code consumer_not_found e) _ _ (λ t. create-Shown k' c (m t) b)
            (λ _. Runs-raise k' e tt))

  -- no backup, if it returns
  abbrev pub Clear : Result (Unit {0}) → Knowledge → Type 0
  Clear (ok u) k = k.no_backup ≡ true
  Clear (err e) k = Unit

  -- an error that says that there is no backup is one of the server
  abbrev Answered : Result (Unit {0}) → Knowledge → Type 0
  Answered (ok u) k = k.no_backup ≡ true
  Answered (err e) k = has_code stream_not_found e ≡ true → k.no_backup ≡ true

  pub assert-Clear :
      (k : Knowledge)
      → Runs observe (permits recovering stream) k (assert_no_migration jsm stream) Clear
  unfolding assert_no_migration
  assert-Clear k =
      Runs-catch {P = Answered} k _ _
        (Runs-bind {P = λ r k'. k'.no_backup ≡ is_not_found r} k _ _
          (Runs-call k (stream_info (backup_of stream)) (jsm.info (backup_of stream))
            (λ r. eq_refl (backup_of stream)) (λ r. refl))
          (λ i k' h. Runs-raise k' _ (λ t. cc)) (λ e k' h t. h ∙ t))
        (λ u k' h. h)
        (λ e k' h.
          Runs-if k' (has_code stream_not_found e) _ _ (λ t. Runs-pure k' tt (h t))
            (λ _. Runs-raise k' e tt))

  pub fetched :
      (k : Knowledge) (name : String) (h : Error → Error)
      → Here recovering stream k (catch (info_consumer jsm stream name) (λ e. raise (h e)))
  fetched k name h =
      Runs-catch {P = Shown} k _ _ (info_consumer-Shown k name) (λ i k' s. s)
        (λ e k' _. Runs-raise k' (h e) tt)
