-- ===== src/Migration/Copy.antt =====
-- The copying to a backup and the deletion of the original, against the ledger.
use Prim.Native.String.{String}
use text.Mathlib.Text.{◌==◌ as str_eq}
use nestjs_jetstream.Prelude.{
  ℕ, zero, suc, ◌≡◌, refl, true, false, ◌||◌, none, some, ltb, ◌==◌, arith,
}
use nestjs_jetstream.Jsm.{Result, ok, err, StreamSpec, StreamInfo, Manager, pure}
use nestjs_jetstream.Jsm.Rules.{Runs-pure, Runs-raise, Runs-if, Runs-bind, and-intro}
use nestjs_jetstream.Migration.{is_drained, drain_rounds, wait_for_source_drained, up_to_delete}
use nestjs_jetstream.Migration.Ledger.{Ledger, is_zero, see_backup}
use nestjs_jetstream.Migration.Steps.{
  moved, or_false, WhenOk, or_true, Keeps, on_info_stream, on_info_backup, on_update_stream, on_add,
  on_delete_stream,
}

-- The original is there for certain.
abbrev pub Present : Ledger → Type 0
Present l = (l.gone ≡ false) × (l.doubtful ≡ false)

-- With the number of messages, the original is gone; with an error, it was not deleted for certain.
abbrev pub Deleted : Result ℕ → Ledger → Type 0
Deleted (ok n) l = (l.gone ≡ true) × (l.count ≡ some n)
Deleted (err e) l = l.gone ≡ false

module _ {W : Type 0} (jsm : Manager W) (stream backup : String)
    (apart : str_eq backup stream ≡ false) where
  -- The stream is closed and its messages are counted.
  abbrev Counted : ℕ → Ledger → Type 0
  Counted n l = Present l × (l.closed ≡ true) × (l.count ≡ some n)

  abbrev Copied : ℕ → Result (Unit {0}) → Ledger → Type 0
  Copied n r l = Counted n l × WhenOk r (λ _. (is_zero l.count || l.copied) ≡ true)

  drain_rounds-Copied :
      (rounds : ℕ) (l : Ledger) (n : ℕ)
      → Counted n l
      → Keeps stream backup l (drain_rounds jsm rounds backup stream n) (Copied n)
  unfolding drain_rounds
  drain_rounds-Copied zero l n c = Runs-raise l _ (c, tt)
  drain_rounds-Copied (suc rounds) l n (p, c, m) =
      on_info_backup jsm stream backup apart l _
        (λ i.
          let l' = see_backup stream backup i l in
          Runs-if l' (is_drained stream n i) (pure tt) (drain_rounds jsm rounds backup stream n)
            (λ d. Runs-pure l' tt ((p, c, m), rw (c, m, d, or_true l.copied) (or_true (n == 0))))
            (λ d. drain_rounds-Copied rounds l' n (p, c, m)))
        (λ x. ((p, c, m), tt))

  wait-Copied :
      (l : Ledger) (n : ℕ)
      → Counted n l
      → Keeps stream backup l (wait_for_source_drained jsm backup stream n) (Copied n)
  unfolding wait_for_source_drained
  wait-Copied l n c = record {
    permitted = λ w. (drain_rounds-Copied (jsm.polls w) l n c).permitted w;
    ends = λ w. (drain_rounds-Copied (jsm.polls w) l n c).ends w;
  }

  pub up_to_delete-Deleted :
      (now : ℕ) (current : StreamSpec) (l : Ledger)
      → Present l
      → Keeps stream backup l (up_to_delete jsm now stream current backup) Deleted
  unfolding up_to_delete
  up_to_delete-Deleted now current l (g, d) =
      on_update_stream jsm stream backup apart l _ _
        (λ _. moved jsm stream backup apart {l = closed} (rw g refl) (
          on_info_stream jsm stream backup apart closed _
            (λ i. moved jsm stream backup apart {l = counted i} (rw (g, or_false l.restored) refl) (
              Runs-bind {P = Copied i.messages} (counted i) _ _
                (Runs-if (counted i) (ltb 0 i.messages) _ _
                  (λ _.
                    on_add jsm stream backup apart (counted i) _ _
                      (λ _. wait-Copied (counted i) i.messages ((g, refl), refl, refl))
                      (λ e. (((g, refl), refl, refl), tt)))
                  (λ z. Runs-pure (counted i) tt (((g, refl), refl, refl), ground arith)))
                (λ _ l' ((p, c, m), q).
                  on_delete_stream jsm stream backup apart l' _ (and-intro c q)
                    (Runs-pure _ i.messages (refl, m)) (λ e. p.0))
                (λ e l' ((p, c, m), q). p.0)))
            (λ e. g)))
        (λ e. g)
    where
      closed : Ledger
      closed = record l { closed = true; count = none; copied = false; doubtful = false }

      counted : StreamInfo → Ledger
      counted i = record closed { count = some i.messages }
