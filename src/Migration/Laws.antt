-- ===== src/Migration/Laws.antt =====
-- A whole migration, against the ledger.
use Prim.Native.String.{String, len}
use text.Mathlib.Text.{◌==◌ as str_eq}
use text.Mathlib.TextEquality.{eq_iff}
use text.Mathlib.TextPositions.{eq_refl, len-append}
use nestjs_jetstream.Prelude.{
  ℕ, zero, suc, ◌≡◌, refl, ap, Bool, true, false, not, ◌&&◌, ◌||◌, Option, none, some, ltb, ◌==◌,
  arith, inl, inr, Bool-cases,
}
use nestjs_jetstream.Jsm.{
  Result, ok, err, StreamSpec, StreamInfo, Manager, stream_delete, pure, ◌>>◌, update,
}
use nestjs_jetstream.Jsm.Rules.{
  after, accepted, Runs-call, Runs-pure, Runs-raise, Runs-if, Runs-bind, Runs-catch, Runs-weaken,
}
use nestjs_jetstream.StreamConfig.{compare_stream_config}
use nestjs_jetstream.Migration.{
  backup_of, drop_backup, is_empty, peer_rounds, wait_out_peer_migration, rollback_before_delete,
  from_delete, migrate,
}
use nestjs_jetstream.Migration.Ledger.{
  Ledger, live, is_zero, see_stream, see_backup, set_stream, observe, permits,
}
use nestjs_jetstream.Migration.Restore.{Finished, restore-Finished}
use nestjs_jetstream.Migration.Copy.{Present, Deleted, up_to_delete-Deleted}
use nestjs_jetstream.Migration.Steps.{
  moved, WhenOk, or_true, Keeps, on_info_stream, on_update_stream, on_add, on_try_backup,
}

-- The messages are in the original, or restored from the backup, or there were none.
abbrev pub is_safe : Ledger → Bool
is_safe l = not l.gone || (l.restored || is_zero l.count)

abbrev pub Safe : {A : Type 0} → Result A → Ledger → Type 0
Safe r l = WhenOk r (λ _. is_safe l ≡ true)

pub is_zero_by : (n : ℕ) → ltb 0 n ≡ false → (n == 0) ≡ true
is_zero_by n z = ground arith

Finished-Safe : {A : Type 0} (r : Result A) (l : Ledger) → Finished r l → Safe r l
Finished-Safe (ok a) l (g, h) = rw h (or_true (not l.gone))
Finished-Safe (err e) l f = tt

safe_empty : (l : Ledger) (n : ℕ) → l.count ≡ some n → ltb 0 n ≡ false → is_safe l ≡ true
safe_empty l n m z = rw (m, is_zero_by n z, or_true l.restored) (or_true (not l.gone))

module _ {W : Type 0} (jsm : Manager W) (stream backup : String)
    (apart : str_eq backup stream ≡ false) where
  deleted :
      (l : Ledger)
      → l.gone ≡ false
      → (r : Result Unit) → (observe stream backup (stream_delete backup r) l).gone ≡ false
  deleted l g (ok u) = rw apart g
  deleted l g (err e) = rw apart g

  drop :
      (l : Ledger)
      → Present l
      → (o : Option StreamInfo)
      → Keeps stream backup l (drop_backup jsm backup o) (λ r l'. l'.gone ≡ false)
  drop l (g, d) none = Runs-pure l tt g
  drop l (g, d) (some i) =
      Runs-call l (stream_delete backup) (jsm.remove backup)
        (λ r. rw (apart, eq_refl backup, g, d) refl) (deleted l g)

  rollback-gone :
      (l : Ledger) (original : StreamSpec)
      → l.gone ≡ false
      → Keeps stream backup l
          (rollback_before_delete jsm stream original backup)
          (λ r l'. l'.gone ≡ false)
  unfolding rollback_before_delete
  rollback-gone l original g =
      Runs-catch {P = λ r l'. l'.gone ≡ false} l _ _
        (on_update_stream jsm stream backup apart l _ _
          (λ _. moved jsm stream backup apart {l = open_again} (rw g refl) (
            on_try_backup jsm stream backup apart open_again _
              (λ i. drop (see_backup stream backup i open_again) (g, refl) (some i))
              (drop open_again (g, refl) none) (λ e. g)))
          (λ e. g))
        (λ u l' h. h) (λ e l' h. Runs-pure l' tt h)
    where
      open_again : Ledger
      open_again = record l {
        closed = is_empty original.subjects;
        count = none;
        copied = false;
        doubtful = false;
      }

  from_delete-Safe :
      (l : Ledger) (c : StreamSpec) (n : ℕ)
      → Deleted (ok n) l
      → Keeps stream backup l (from_delete jsm stream c backup n) Safe
  unfolding from_delete
  from_delete-Safe l c n (g, m) =
      on_add jsm stream backup apart l _ _
        (λ _.
          Runs-if l (ltb 0 n) _ _
            (λ _. Runs-weaken l _ (restore-Finished jsm stream backup apart l c g) Finished-Safe)
            (λ z. Runs-pure l tt (safe_empty l n m z)))
        (λ e. tt)

  peer_rounds-Present :
      (n : ℕ) (l : Ledger)
      → Present l
      → Keeps stream backup l (peer_rounds jsm n backup) (λ r l'. Present l')
  unfolding peer_rounds
  peer_rounds-Present zero l p = Runs-raise l _ p
  peer_rounds-Present (suc n) l p =
      on_try_backup jsm stream backup apart l _
        (λ i. peer_rounds-Present n (see_backup stream backup i l) p) (Runs-pure l true p) (λ e. p)

  wait_out-Present :
      (l : Ledger)
      → Present l
      → Keeps stream backup l (wait_out_peer_migration jsm backup) (λ r l'. Present l')
  unfolding wait_out_peer_migration
  wait_out-Present l p =
      on_try_backup jsm stream backup apart l _
        (λ i. record {
          permitted =
              λ w. (peer_rounds-Present (jsm.polls w) (see_backup stream backup i l) p).permitted w;
          ends = λ w. (peer_rounds-Present (jsm.polls w) (see_backup stream backup i l) p).ends w;
        })
        (Runs-pure l false p) (λ e. p)

-- the backup has another name
pub apart_by_length : (s : String) → str_eq (backup_of s) s ≡ false
apart_by_length s = elim (Bool-cases (str_eq (backup_of s) s)) [
  | inl t ↦
      let no : ⊥ =
        omega (arith, ap len ((eq_iff (backup_of s) s).0 t), len-append s "__migration_backup") in
      elim no [ ]
  | inr f ↦ f
]

module _ {W : Type 0} (jsm : Manager W) (stream : String) where
  abbrev apart : str_eq (backup_of stream) stream ≡ false
  apart = apart_by_length stream

  migrate-Safe :
      (now : ℕ) (c : StreamSpec) (l : Ledger)
      → Present l
      → Keeps stream (backup_of stream) l (migrate jsm now stream c) Safe
  unfolding migrate
  migrate-Safe now c l p =
      let backup = backup_of stream in
      Runs-bind {P = λ r l'. Present l'} l _ _ (wait_out-Present jsm stream backup apart l p)
        (λ peer l1 (g, d).
          on_info_stream jsm stream backup apart l1 _
            (λ i.
              Runs-if (see_stream stream backup i l1)
                (peer && not (compare_stream_config i.config.rest c.rest).has_immutable_changes)
                (update jsm stream c >> pure tt) _
                (λ _.
                  on_update_stream jsm stream backup apart (see_stream stream backup i l1) _ _
                    (λ u.
                      Runs-pure (set_stream stream backup c (see_stream stream backup i l1)) tt
                        (rw g refl))
                    (λ e. tt))
                (λ _.
                  Runs-bind {P = Deleted} (see_stream stream backup i l1) _ _
                    (Runs-catch {P = Deleted} (see_stream stream backup i l1) _ _
                      (up_to_delete-Deleted jsm stream backup apart now i.config
                        (see_stream stream backup i l1) (g, d))
                      (λ n l2 h. h)
                      (λ e l2 h.
                        Runs-bind {P = λ r l'. l'.gone ≡ false} l2 _ _
                          (rollback-gone jsm stream backup apart l2 i.config h)
                          (λ u l3 h'. Runs-raise l3 e h') (λ e' l3 h'. h')))
                    (λ n l2 h. from_delete-Safe jsm stream backup apart l2 c n h) (λ e l2 h. tt)))
            (λ e. tt))
        (λ e l1 h. tt)

  -- Whatever the server answers, and wherever the migration fails: it deletes the original only after
  -- it was closed to publishes and then found empty, or copied whole to the backup, and the backup
  -- only while the original is there for certain, or when its messages are in the new stream, or if
  -- it has none; it deletes and updates no other stream; and if it returns, the messages are in the
  -- original or restored, or there were none.
  pub migrate_loses_nothing :
      (now : ℕ) (c : StreamSpec) (w : W)
      → let (r, es, w') = migrate jsm now stream c w in
        (accepted (observe stream (backup_of stream)) (permits stream (backup_of stream)) live es
          ≡ true)
        × Safe r
            (after (observe stream (backup_of stream)) (permits stream (backup_of stream)) live es)
  migrate_loses_nothing now c w = (
    (migrate-Safe now c live (refl, refl)).permitted w,
    (migrate-Safe now c live (refl, refl)).ends w,
  )
