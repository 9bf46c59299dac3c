-- ===== src/Migration/Recovery.antt =====
-- The recovery of an interrupted migration, against the ledger.
use Prim.Native.String.{String}
use text.Mathlib.Text.{◌==◌ as str_eq}
use text.Mathlib.TextPositions.{eq_refl}
use nestjs_jetstream.Prelude.{
  ℕ, ◌≡◌, refl, Bool, true, false, not, ◌&&◌, ◌||◌, Option, none, some, [], ltb, ◌==◌,
}
use nestjs_jetstream.Jsm.{Result, ok, err, StreamSpec, StreamInfo, Manager, stream_delete}
use nestjs_jetstream.Jsm.Rules.{
  after, accepted, Runs-call, Runs-pure, Runs-if, Runs-bind, Runs-weaken,
}
use nestjs_jetstream.Migration.{
  is_peer_migration_active, backup_of, has_source, resume, recover_interrupted,
}
use nestjs_jetstream.Migration.Ledger.{
  Ledger, lost, is_zero, see_stream, see_backup, observe, permits,
}
use nestjs_jetstream.Migration.Restore.{Finished, restore-Finished, finish_restore}
use nestjs_jetstream.Migration.Steps.{
  WhenOk, or_true, Keeps, on_add, on_delete_backup, on_try_stream, on_try_backup,
}
use nestjs_jetstream.Migration.Laws.{is_zero_by, apart_by_length}

-- If the recovery says that it did something: restored, or the backup had nothing.
abbrev pub Recovered : Result Bool → Ledger → Type 0
Recovered r l = WhenOk r (λ b. (not b || (l.restored || is_zero l.held)) ≡ true)

module _ {W : Type 0} (jsm : Manager W) (stream : String) where
  abbrev apart : str_eq (backup_of stream) stream ≡ false
  apart = apart_by_length stream

  Finished-Recovered :
      (r : Result Unit) (l : Ledger)
      → Finished r l
      → WhenOk r (λ _. (l.restored || is_zero l.held) ≡ true)
  Finished-Recovered (ok u) l (g, h) = rw h refl
  Finished-Recovered (err e) l f = tt

  Finished-true : (r : Result Bool) (l : Ledger) → Finished r l → Recovered r l
  Finished-true (ok b) l (g, h) = rw h (or_true (not b))
  Finished-true (err e) l f = tt

  held_zero : (l : Ledger) (n : ℕ) → l.held ≡ some n → (n == 0) ≡ true → is_zero l.held ≡ true
  held_zero l n h z = rw h z

  allowed_empty :
      (l : Ledger)
      → is_zero l.held ≡ true
      → ((not l.gone && not l.doubtful) || (l.restored || is_zero l.held)) ≡ true
  allowed_empty l z = rw (z, or_true l.restored) (or_true (not l.gone && not l.doubtful))

  deleted_empty :
      (l : Ledger) (n : ℕ)
      → l.held ≡ some n
      → (n == 0) ≡ true
      → (r : Result Unit)
      → let l' = observe stream (backup_of stream) (stream_delete (backup_of stream) r) l in
        WhenOk r (λ _. (l'.restored || is_zero l'.held) ≡ true)
  deleted_empty l n h z (ok u) = rw (apart, h, z) (or_true l.restored)
  deleted_empty l n h z (err e) = tt

  resume-Recovered :
      (desired : StreamSpec) (b : StreamInfo) (o : Option StreamInfo) (l : Ledger)
      → l.gone ≡ true
      → l.held ≡ some b.messages
      → Keeps stream
          (backup_of stream)
          l
          (resume jsm stream desired (backup_of stream) b o)
          Recovered
  unfolding resume
  resume-Recovered desired b none l g h =
      let backup = backup_of stream in
      on_add jsm stream backup apart l _ _
        (λ _.
          Runs-bind {P = λ r l'. WhenOk r (λ _. (l'.restored || is_zero l'.held) ≡ true)} l _ _
            (Runs-if l (ltb 0 b.messages) _ _
              (λ _.
                Runs-weaken l _ (restore-Finished jsm stream backup apart l desired g)
                  Finished-Recovered)
              (λ z.
                Runs-call l (stream_delete backup) (jsm.remove backup)
                  (λ r.
                    rw (apart, eq_refl backup)
                      (allowed_empty l (held_zero l b.messages h (is_zero_by b.messages z))))
                  (deleted_empty l b.messages h (is_zero_by b.messages z))))
            (λ u l' q. Runs-pure l' true q) (λ e l' q. tt))
        (λ e. tt)
  resume-Recovered desired b (some s) l g h =
      let backup = backup_of stream in
      Runs-if l (has_source backup s.config.sources) _ _
        (λ _.
          Runs-weaken l _
            (finish_restore jsm stream backup apart (record s.config { sources = [] }) true
              b.messages l (g, h))
            Finished-true)
        (λ _.
          Runs-if l (b.messages == 0) _ _
            (λ z.
              on_delete_backup jsm stream backup apart l _
                (allowed_empty l (held_zero l b.messages h z))
                (Runs-pure l true (rw (held_zero l b.messages h z) (or_true l.restored))) (λ e. tt))
            (λ _.
              Runs-bind {P = Finished} l _ _
                (restore-Finished jsm stream backup apart l (record s.config { name = stream }) g)
                (λ u l' (g', r'). Runs-pure l' true (rw r' refl)) (λ e l' q. tt)))

  recover-Recovered :
      (now : ℕ) (desired : StreamSpec) (l : Ledger)
      → l.gone ≡ true
      → Keeps stream (backup_of stream) l (recover_interrupted jsm now stream desired) Recovered
  unfolding recover_interrupted
  recover-Recovered now desired l g =
      let backup = backup_of stream in
      on_try_backup jsm stream backup apart l _
        (λ b.
          let l1 = see_backup stream backup b l in
          Runs-if l1 (is_peer_migration_active now b.config.started_at) _ _
            (λ _. Runs-pure l1 false refl)
            (λ _.
              on_try_stream jsm stream backup apart l1 _
                (λ s. resume-Recovered desired b (some s) (see_stream stream backup s l1) g refl)
                (resume-Recovered desired b none l1 g refl) (λ e. tt)))
        (Runs-pure l false refl) (λ e. tt)

  -- The recovery of a migration that a process left unfinished takes the backup for the only copy.
  -- Whatever the server answers, it deletes the backup only when its messages are in the stream, or
  -- if it has none, and never the stream; and if it returns that it recovered, one of the two holds.
  pub recover_loses_nothing :
      (now : ℕ) (desired : StreamSpec) (w : W)
      → let (r, es, w') = recover_interrupted jsm now stream desired w in
        (accepted (observe stream (backup_of stream)) (permits stream (backup_of stream)) lost es
          ≡ true)
        × Recovered r
            (after (observe stream (backup_of stream)) (permits stream (backup_of stream)) lost es)
  recover_loses_nothing now desired w = (
    (recover-Recovered now desired lost refl).permitted w,
    (recover-Recovered now desired lost refl).ends w,
  )
