-- ===== src/Migration/Restore.antt =====
-- The restoring of a backup, against the ledger.
use Prim.Native.String.{String}
use text.Mathlib.Text.{◌==◌ as str_eq}
use nestjs_jetstream.Prelude.{ℕ, zero, suc, ◌≡◌, refl, true, false, not, ◌&&◌, ◌||◌, some, []}
use nestjs_jetstream.Jsm.{Result, ok, StreamSpec, Manager, pure, ◌>>=◌, update, delete}
use nestjs_jetstream.Jsm.Rules.{Runs-pure, Runs-raise, Runs-if, Runs-bind}
use nestjs_jetstream.Migration.{
  is_drained, is_empty, drain_rounds, wait_for_source_drained, restore_from_backup,
}
use nestjs_jetstream.Migration.Ledger.{Ledger, is_zero, see_stream, see_backup}
use nestjs_jetstream.Migration.Steps.{
  WhenOk, or_true, Keeps, on_info_stream, on_info_backup, on_update_backup, on_delete_backup,
  on_update_new,
}

-- the original is gone, and if nothing was thrown its messages are restored
abbrev pub Finished : {A : Type 0} → Result A → Ledger → Type 0
Finished r l = (l.gone ≡ true) × WhenOk r (λ _. l.restored ≡ true)

module _ {W : Type 0} (jsm : Manager W) (stream backup : String)
    (apart : str_eq backup stream ≡ false) where
  -- Once the original is gone and the backup's messages are known.
  abbrev Restored : ℕ → Result (Unit {0}) → Ledger → Type 0
  Restored h r l = (l.gone ≡ true) × (l.held ≡ some h) × WhenOk r (λ _. l.restored ≡ true)

  drain_rounds-Restored :
      (n : ℕ) (l : Ledger) (h : ℕ)
      → l.gone ≡ true
      → l.held ≡ some h
      → Keeps stream backup l (drain_rounds jsm n stream backup h) (Restored h)
  unfolding drain_rounds
  drain_rounds-Restored zero l h g k = Runs-raise l _ (g, k, tt)
  drain_rounds-Restored (suc n) l h g k =
      on_info_stream jsm stream backup apart l _
        (λ i.
          let l' = see_stream stream backup i l in
          Runs-if l' (is_drained backup h i) (pure tt) (drain_rounds jsm n stream backup h)
            (λ d. Runs-pure l' tt (g, k, rw (g, k, d) (or_true l.restored)))
            (λ d. drain_rounds-Restored n l' h g k))
        (λ x. (g, k, tt))

  wait-Restored :
      (l : Ledger) (h : ℕ)
      → l.gone ≡ true
      → l.held ≡ some h
      → Keeps stream backup l (wait_for_source_drained jsm stream backup h) (Restored h)
  unfolding wait_for_source_drained
  wait-Restored l h g k = record {
    permitted = λ w. (drain_rounds-Restored (jsm.polls w) l h g k).permitted w;
    ends = λ w. (drain_rounds-Restored (jsm.polls w) l h g k).ends w;
  }

  -- the messages are known to be held by the backup
  abbrev Held : ℕ → Result (Unit {0}) → Ledger → Type 0
  Held h r l = (l.gone ≡ true) × (l.held ≡ some h)

  pub allowed-restored :
      (l : Ledger)
      → l.restored ≡ true
      → ((not l.gone && not l.doubtful) || (l.restored || is_zero l.held)) ≡ true
  allowed-restored l h = rw h (or_true (not l.gone && not l.doubtful))

  -- the drained wait, the deletion of the backup and the last update, with which a restore ends
  module _ {A : Type 0} (c : StreamSpec) (a : A) (h : ℕ) where
    pub finish_restore :
        (l : Ledger)
        → Held h (ok tt) l
        → Keeps stream backup l
            (wait_for_source_drained jsm stream backup h >>= λ _.
              delete jsm backup >>= λ _. update jsm stream c >>= λ _. pure a)
            Finished
    finish_restore l (g, k) =
        Runs-bind l (wait_for_source_drained jsm stream backup h) _ (wait-Restored l h g k)
          (λ _ l' (g', k', r').
            on_delete_backup jsm stream backup apart l' _ (allowed-restored l' r')
              (on_update_new jsm stream backup apart l' c _ g' (λ i. Runs-pure l' a (g', r'))
                (λ e. (g', tt)))
              (λ e. (g', tt)))
          (λ e l' (g', k', _). (g', tt))

  pub restore-Finished :
      (l : Ledger) (c : StreamSpec)
      → l.gone ≡ true
      → Keeps stream backup l (restore_from_backup jsm stream c backup) Finished
  unfolding restore_from_backup
  restore-Finished l c g =
      on_info_backup jsm stream backup apart l _
        (λ b.
          let l' = see_backup stream backup b l in
          Runs-bind {P = Held b.messages} l' _ _
            (Runs-if l' (is_empty b.config.sources) _ _ (λ _. Runs-pure l' tt (g, refl))
              (λ _.
                on_update_backup jsm stream backup apart l' _ _ (λ i. Runs-pure l' tt (g, refl))
                  (λ e. (g, refl))))
            (λ _ l'' (g', k').
              on_update_new jsm stream backup apart l'' _ _ g'
                (λ i. finish_restore (record c { sources = [] }) tt b.messages l'' (g', k'))
                (λ e. (g', tt)))
            (λ e l'' (g', k'). (g', tt)))
        (λ e. (g, tt))
