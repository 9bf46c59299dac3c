-- ===== src/Migration.antt =====
-- src/server/infrastructure/stream-migration.ts: the recreation of a stream with a new configuration.
--
-- A waiting loop runs once for each round that the world gives it before the deadline (`polls`). The
-- clock is read once, and given as `now`. Logging is left out.
pub mod Ledger
pub mod Steps
pub mod Restore
pub mod Copy
pub mod Laws
pub mod Recovery
pub mod Examples
use Prim.Native.String
use Prim.Native.String.{String}
use text.Mathlib.Text.{◌==◌ as str_eq}
use nestjs_jetstream.Prelude.{
  ℕ, zero, suc, ◌-◌, Bool, true, false, not, ◌&&◌, Option, none, some, List, [], ◌∷◌, if◌then◌else◌,
  ltb, leb, ◌==◌, any,
}
use nestjs_jetstream.StreamConfig.{Config, compare_stream_config}
use nestjs_jetstream.Jsm.{
  Error, api_error, plain_error, Result, ok, err, StartedAt, missing, unparsable, at, StreamSpec,
  SourceInfo, StreamInfo, Manager, Exec, pure, raise, ◌>>=◌, ◌>>◌, catch, info, update, add, delete,
  has_code, stream_not_found,
}

abbrev pub backup_of : String → String
backup_of stream = String.◌++◌ stream "__migration_backup"

abbrev pub active_migration_grace_ms : ℕ
active_migration_grace_ms = 90000

-- `(info.sources ?? []).find((s) => s.name === name)`
abbrev pub find_source : String → List SourceInfo → Option SourceInfo
find_source name [] = none
find_source name (s ∷ ss) = if str_eq s.name name then some s else find_source name ss

abbrev pub is_synced : Option ℕ → Bool
is_synced none = false
is_synced (some _) = true

abbrev pub source_drained : Option SourceInfo → Bool
source_drained none = false
source_drained (some s) = is_synced s.active && (s.lag == 0)

-- The test of `waitForSourceDrained`.
abbrev pub is_drained : String → ℕ → StreamInfo → Bool
is_drained source minimum i =
    source_drained (find_source source i.sources) && leb minimum i.messages

abbrev pub is_peer_migration_active : ℕ → StartedAt → Bool
is_peer_migration_active now (at t) = ltb (now - t) active_migration_grace_ms
is_peer_migration_active now _ = false

abbrev pub has_source : String → List String → Bool
has_source name ss = any (λ s. str_eq s name) ss

abbrev pub is_gone : Option StreamInfo → Bool
is_gone none = true
is_gone (some _) = false

abbrev pub is_empty : List String → Bool
is_empty [] = true
is_empty (_ ∷ _) = false

module _ {W : Type 0} (jsm : Manager W) where
  unfoldable pub try_info : String → Exec W (Option StreamInfo)
  try_info name =
      catch (info jsm name >>= λ i. pure (some i))
        (λ e. if has_code stream_not_found e then pure none else raise e)

  -- The loop, with the rounds that are left.
  unfoldable pub drain_rounds : ℕ → String → String → ℕ → Exec W (Unit {0})
  drain_rounds zero stream source minimum = raise (plain_error "Stream sourcing timeout")
  drain_rounds (suc n) stream source minimum = info jsm stream >>= λ i.
      if is_drained source minimum i then pure tt else drain_rounds n stream source minimum

  unfoldable pub wait_for_source_drained : String → String → ℕ → Exec W (Unit {0})
  wait_for_source_drained stream source minimum w =
      drain_rounds (jsm.polls w) stream source minimum w

  unfoldable pub peer_rounds : ℕ → String → Exec W Bool
  peer_rounds zero backup = raise (plain_error "Migration backup did not clear")
  peer_rounds (suc n) backup =
      try_info backup >>= λ i. if is_gone i then pure true else peer_rounds n backup

  unfoldable pub wait_out_peer_migration : String → Exec W Bool
  wait_out_peer_migration backup = try_info backup >>= λ i.
      if is_gone i then pure false else λ w. peer_rounds (jsm.polls w) backup w

  unfoldable pub restore_from_backup : String → StreamSpec → String → Exec W (Unit {0})
  restore_from_backup stream config backup = do
    b ← info jsm backup
    (if is_empty b.config.sources
        then pure tt
        else update jsm backup (record b.config { sources = [] }) >> pure tt)
    update jsm stream (record config { sources = backup ∷ [] })
    wait_for_source_drained stream backup b.messages
    delete jsm backup
    update jsm stream (record config { sources = [] })
    pure tt

  abbrev pub drop_backup : String → Option StreamInfo → Exec W (Unit {0})
  drop_backup backup none = pure tt
  drop_backup backup (some _) = delete jsm backup

  -- An error on the way is logged and swallowed.
  unfoldable pub rollback_before_delete : String → StreamSpec → String → Exec W (Unit {0})
  rollback_before_delete stream original backup =
      catch (do update jsm stream original; b ← try_info backup; drop_backup backup b)
        (λ _. pure tt)

  -- Phases 1 to 3, to the deletion of the original. The result is the number of messages.
  unfoldable pub up_to_delete : ℕ → String → StreamSpec → String → Exec W ℕ
  up_to_delete now stream current backup = do
    update jsm stream (record current { subjects = [] })
    i ← info jsm stream
    (if ltb 0 i.messages
        then (do
          add jsm (record current {
            name = backup;
            subjects = [];
            sources = stream ∷ [];
            started_at = at now;
          })
          wait_for_source_drained backup stream i.messages)
        else pure tt)
    delete jsm stream
    pure i.messages

  -- The rest of phase 3, and phase 4.
  unfoldable pub from_delete : String → StreamSpec → String → ℕ → Exec W (Unit {0})
  from_delete stream new_config backup drained =
      add jsm new_config
      >> (if ltb 0 drained then restore_from_backup stream new_config backup else pure tt)

  unfoldable pub migrate : ℕ → String → StreamSpec → Exec W (Unit {0})
  migrate now stream new_config = do
    let backup = backup_of stream
    peer_finished ← wait_out_peer_migration backup
    current ← info jsm stream
    if peer_finished
          && not (compare_stream_config current.config.rest new_config.rest).has_immutable_changes
        then update jsm stream new_config >> pure tt
        else (do
          drained ←
              catch (up_to_delete now stream current.config backup)
                (λ e. rollback_before_delete stream current.config backup >> raise e)
          from_delete stream new_config backup drained)

  -- A stale backup, once it is known how the stream stands.
  unfoldable pub resume :
      String → StreamSpec → String → StreamInfo → Option StreamInfo → Exec W Bool
  resume stream desired backup b none = do
    add jsm desired
    (if ltb 0 b.messages then restore_from_backup stream desired backup else delete jsm backup)
    pure true
  resume stream desired backup b (some s) =
      if has_source backup s.config.sources
      then (do
        wait_for_source_drained stream backup b.messages
        delete jsm backup
        update jsm stream (record s.config { sources = [] })
        pure true)
      else if b.messages == 0
      then (do delete jsm backup; pure true)
      else (do restore_from_backup stream (record s.config { name = stream }) backup; pure true)

  abbrev pub with_backup : ℕ → String → StreamSpec → Option StreamInfo → Exec W Bool
  with_backup now stream desired none = pure false
  with_backup now stream desired (some b) =
      if is_peer_migration_active now b.config.started_at
      then pure false
      else (do s ← try_info stream; resume stream desired (backup_of stream) b s)

  unfoldable pub recover_interrupted : ℕ → String → StreamSpec → Exec W Bool
  recover_interrupted now stream desired = do
    b ← try_info (backup_of stream)
    with_backup now stream desired b
