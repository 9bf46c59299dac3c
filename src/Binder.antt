-- ===== src/Binder.antt =====
-- src/server/infrastructure/infrastructure-binder.ts: streams and consumers that others provision are
-- read and checked. What is only logged is left out.
use Prim.Native.String.{String}
use nestjs_jetstream.Prelude.{
  Bool, true, false, not, Option, none, some, List, [], ◌∷◌, if◌then◌else◌, any, keep, map,
}
use nestjs_jetstream.Subject.{covers_or_equals}
use nestjs_jetstream.Names.{StreamKind, KindNames, subject, ◌<>◌}
use nestjs_jetstream.Registry.{PatternsByKind}
use nestjs_jetstream.Registry.Laws.{patterns_of}
use nestjs_jetstream.Management.{Settings}
use nestjs_jetstream.Jsm.{
  plain_error, provisioning_error, StreamInfo, ConsumerSpec, ConsumerInfo, Manager, Exec, pure,
  raise, ◌>>=◌, ◌>>◌, catch, info, info_consumer, has_code, stream_not_found, consumer_not_found,
}
use nestjs_jetstream.Migration.{backup_of}

-- The filter of a consumer against a subject: with no filter it takes all.
abbrev by_list : Option (List String) → String → Bool
by_list none s = true
by_list (some fs) s = any (λ f. covers_or_equals f s) fs

abbrev pub by_filter : Option String → Option (List String) → String → Bool
by_filter none fs s = by_list fs s
by_filter (some f) fs s = covers_or_equals f s

abbrev pub filter_covers_subject : ConsumerSpec → String → Bool
filter_covers_subject c s = by_filter c.filter_subject c.filter_subjects s

abbrev or_single : Option (List String) → Option String → List String
or_single (some fs) f = fs
or_single none (some f) = f ∷ []
or_single none none = []

-- `filter_subjects ?? (filter_subject !== undefined ? [filter_subject] : [])`
abbrev pub filters : ConsumerSpec → List String
filters c = or_single c.filter_subjects c.filter_subject

abbrev pub is_nil : List String → Bool
is_nil [] = true
is_nil (_ ∷ _) = false

module _ (names : StreamKind → KindNames) (patterns : PatternsByKind) (settings : Settings) where
  abbrev pub resolve_handler_subjects : StreamKind → List String
  resolve_handler_subjects kind = map (subject names kind) (patterns_of kind patterns)

  abbrev schedule_wildcard : StreamKind → String
  schedule_wildcard kind = (names kind).schedule_prefix <> ">"

  -- `assertHandlersCovered`, then `assertScheduleHoldersNotConsumed`.
  abbrev pub handlers_covered : StreamKind → ConsumerSpec → Bool
  handlers_covered kind c =
      is_nil (keep (λ s. not (filter_covers_subject c s)) (resolve_handler_subjects kind))

  abbrev pub swallows_schedules : StreamKind → ConsumerSpec → Bool
  swallows_schedules kind c =
      if settings.schedules kind
      then (if is_nil (filters c)
          then true
          else not (is_nil (keep (λ f. covers_or_equals f (schedule_wildcard kind)) (filters c))))
      else false

  abbrev pub schedules_covered : StreamKind → List String → Bool
  schedules_covered kind subjects = any (λ s. covers_or_equals s (schedule_wildcard kind)) subjects

  module _ {W : Type 0} (jsm : Manager W) where
    unfoldable pub fetch_stream : String → Exec W StreamInfo
    fetch_stream name = catch (info jsm name) (λ e.
        if has_code stream_not_found e
        then raise (provisioning_error stream_not_found)
        else raise e)

    -- The backup is only looked for.
    warn_on_orphaned_backup : String → Exec W (Unit {0})
    warn_on_orphaned_backup name = catch (info jsm (backup_of name) >>= λ _. pure tt) (λ _. pure tt)

    unfoldable pub bind_stream : StreamKind → Exec W StreamInfo
    unfolding warn_on_orphaned_backup
    bind_stream kind = do
      i ← fetch_stream (names kind).stream
      warn_on_orphaned_backup (names kind).stream
      (if settings.schedules kind
          then (if schedules_covered kind i.config.subjects
              then pure i
              else raise (plain_error "does not cover the schedule prefix"))
          else pure i)

    unfoldable pub bind_dlq_stream : String → Exec W StreamInfo
    unfolding warn_on_orphaned_backup
    bind_dlq_stream name = do
      i ← fetch_stream name
      warn_on_orphaned_backup name
      (if any (λ s. covers_or_equals s name) i.config.subjects
          then pure i
          else raise (plain_error "subjects do not cover the dead letters"))

    unfoldable pub fetch_consumer : StreamKind → Exec W ConsumerInfo
    fetch_consumer kind = catch (info_consumer jsm (names kind).stream (names kind).consumer) (λ e.
        if has_code consumer_not_found e
        then raise (provisioning_error consumer_not_found)
        else raise e)

    unfoldable pub bind_consumer : StreamKind → Exec W ConsumerInfo
    bind_consumer kind = do
      i ← fetch_consumer kind
      (if handlers_covered kind i.config
          then (if swallows_schedules kind i.config
              then raise (plain_error "also matches the schedule namespace")
              else pure i)
          else raise (plain_error "does not cover the registered handler subjects"))
