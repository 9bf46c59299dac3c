-- ===== src/Consumer.antt =====
-- src/server/infrastructure/consumer.provider.ts: the durable consumers, made at the start and made
-- again when they are lost. Spans and logging are left out.
--
-- What the defaults and the user's overrides come to is a parameter (`base`). The provider sets the
-- names and one of the two filter fields over it; the other field stays what the overrides made it.
pub mod Filters
pub mod Protocol
pub mod Laws
pub mod Examples
use Prim.Native.String.{String}
use nestjs_jetstream.Prelude.{
  Bool, true, false, Option, none, some, List, [], ◌∷◌, if◌then◌else◌, map,
}
use nestjs_jetstream.StreamConfig.{Config}
use nestjs_jetstream.Names.{
  StreamKind, event, command, broadcast, ordered, KindNames, subject, filter_subject,
}
use nestjs_jetstream.Registry.{PatternsByKind}
use nestjs_jetstream.Registry.Laws.{patterns_of}
use nestjs_jetstream.Management.{Settings, kind_of, consumer, resolve_management_mode, is_manual}
use nestjs_jetstream.Binder.{bind_consumer}
use nestjs_jetstream.Jsm.{
  Error, api_error, provisioning_error, plain_error, Result, ok, err, ConsumerSpec, ConsumerInfo,
  Manager, Exec, pure, raise, ◌>>=◌, ◌>>◌, catch, info, info_consumer, update_consumer,
  add_consumer, has_code, stream_not_found, consumer_not_found, consumer_already_exists,
}
use nestjs_jetstream.Migration.{backup_of}

-- `{ ...defaults, ...overrides }`.
pub record Base : Type 0 where
  pub filter_subject : Option String
  pub filter_subjects : Option (List String)
  pub rest : Config

module _ (names : StreamKind → KindNames) (patterns : PatternsByKind)
    (base : StreamKind → Base) where
  -- Exactly one subject is a `filter_subject`, any other number `filter_subjects`.
  abbrev pub with_subjects : StreamKind → List String → ConsumerSpec
  with_subjects kind (s ∷ []) = record {
    durable_name = (names kind).consumer;
    filter_subject = some s;
    filter_subjects = (base kind).filter_subjects;
    rest = (base kind).rest;
  }
  with_subjects kind ss = record {
    durable_name = (names kind).consumer;
    filter_subject = (base kind).filter_subject;
    filter_subjects = some ss;
    rest = (base kind).rest;
  }

  abbrev pub subjects_of : StreamKind → List String
  subjects_of kind = map (subject names kind) (patterns_of kind patterns)

  abbrev pub broadcast_config : List String → Result ConsumerSpec
  broadcast_config [] =
      err (plain_error "Broadcast consumer requested but no broadcast patterns are registered")
  broadcast_config (s ∷ ss) = ok (with_subjects broadcast (s ∷ ss))

  abbrev pub plain_config : StreamKind → ConsumerSpec
  plain_config kind =
      if (names kind).custom
      then with_subjects kind (subjects_of kind)
      else with_subjects kind (filter_subject names kind ∷ [])

  -- For an ordered consumer the lookup of the defaults throws.
  unfoldable pub build_config : StreamKind → Result ConsumerSpec
  build_config broadcast = broadcast_config (subjects_of broadcast)
  build_config event = ok (plain_config event)
  build_config command = ok (plain_config command)
  build_config ordered =
      err (plain_error "Ordered consumers are ephemeral and should not use durable config")

-- An error of the server is wrapped.
abbrev pub map_provisioning_error : Error → Error
map_provisioning_error (api_error n) = provisioning_error n
map_provisioning_error e = e

module _ {W : Type 0} (jsm : Manager W) where
  unfoldable pub run_consumer_op : Exec W ConsumerInfo → Exec W ConsumerInfo
  run_consumer_op op = catch op (λ e. raise (map_provisioning_error e))

  unfoldable pub create_consumer : String → ConsumerSpec → Exec W ConsumerInfo
  create_consumer stream config = catch (add_consumer jsm stream config) (λ e.
      if has_code consumer_already_exists e
      then info_consumer jsm stream config.durable_name
      else raise (map_provisioning_error e))

  -- Returns if there is no backup: the error that it throws itself has no code.
  unfoldable pub assert_no_migration : String → Exec W (Unit {0})
  assert_no_migration stream =
      catch (info jsm (backup_of stream) >>= λ _. raise (plain_error "is being migrated"))
        (λ e. if has_code stream_not_found e then pure tt else raise e)

  -- `try { found } catch { create }`, for a consumer that is not found.
  abbrev pub or_create : String → ConsumerSpec → Exec W ConsumerInfo → Exec W ConsumerInfo
  or_create stream config found =
      catch found
        (λ e. if has_code consumer_not_found e then create_consumer stream config else raise e)

  abbrev pub absent : Error → Error
  absent e =
      if has_code consumer_not_found e
      then plain_error "is externally managed and currently absent"
      else e

  module _ (names : StreamKind → KindNames) (patterns : PatternsByKind) (base : StreamKind → Base)
      (settings : Settings) where
    abbrev pub with_config :
        {A : Type 0} → Result ConsumerSpec → (ConsumerSpec → Exec W A) → Exec W A
    with_config (ok c) f = f c
    with_config (err e) f = raise e

    unfoldable pub ensure_consumer : StreamKind → Exec W ConsumerInfo
    ensure_consumer kind =
        let stream = (names kind).stream in
        with_config (build_config names patterns base kind) λ c.
          if is_manual (resolve_management_mode settings (kind_of kind) consumer)
          then bind_consumer names patterns settings jsm kind
          else or_create stream c (
              info_consumer jsm stream c.durable_name >>= λ _.
              run_consumer_op (update_consumer jsm stream c.durable_name c))

    unfoldable pub recover_consumer : StreamKind → Exec W ConsumerInfo
    recover_consumer kind =
        let stream = (names kind).stream in
        with_config (build_config names patterns base kind) λ c.
          if is_manual (resolve_management_mode settings (kind_of kind) consumer)
          then catch (info_consumer jsm stream c.durable_name) (λ e. raise (absent e))
          else assert_no_migration stream >>= λ _.
              or_create stream c (info_consumer jsm stream c.durable_name)
