-- ===== src/Migration/Steps.antt =====
-- What each call does to the ledger, as rules for a call and what follows it.
use Prim.Native.String.{String}
use text.Mathlib.Text.{◌==◌ as str_eq}
use mathlib.Core.Path.{subst, subst⁻¹}
use text.Mathlib.TextPositions.{eq_refl}
use nestjs_jetstream.Prelude.{
  ◌≡◌, refl, Bool, true, false, not, ◌&&◌, ◌||◌, Option, none, some, if◌then◌else◌,
}
use nestjs_jetstream.Jsm.{
  Error, Result, ok, err, StreamSpec, StreamInfo, Manager, Exec, stream_info, stream_update,
  stream_add, stream_delete, pure, raise, ◌>>=◌, info, update, add, delete, has_code,
  stream_not_found,
}
use nestjs_jetstream.Jsm.Rules.{
  Runs, Runs-pure, Runs-raise, Runs-call-bind, Runs-if, Runs-bind, Runs-catch,
}
use nestjs_jetstream.Migration.{try_info}
use nestjs_jetstream.Migration.Ledger.{
  Ledger, is_zero, see_stream, see_backup, set_stream, observe, permits,
}

-- a property of what is returned
abbrev pub WhenOk : {A : Type 0} → Result A → (A → Type 0) → Type 0
WhenOk (ok a) P = P a
WhenOk (err e) P = Unit

pub or_false : (b : Bool) → (b || false) ≡ b
or_false true = refl
or_false false = refl

pub or_true : (b : Bool) → (b || true) ≡ true
or_true true = refl
or_true false = refl

-- Every call is one that the ledger permits, and the end is as `Q` says.
abbrev pub Keeps :
    {W A : Type 0} → String → String → Ledger → Exec W A → (Result A → Ledger → Type 0) → Type 0
Keeps stream backup l m Q = Runs (observe stream backup) (permits stream backup) l m Q

module _ {W : Type 0} (jsm : Manager W) (stream backup : String)
    (apart : str_eq backup stream ≡ false) where
  pub moved :
      {A : Type 0} {l l' : Ledger} {m : Exec W A} {Q : Result A → Ledger → Type 0}
      → l' ≡ l
      → Keeps stream backup l m Q
      → Keeps stream backup l' m Q
  moved {m = m} {Q = Q} e k = subst⁻¹ (λ x. Keeps stream backup x m Q) e k

  ended :
      {A : Type 0} (r : Result A) (Q : Result A → Ledger → Type 0) {l l' : Ledger}
      → l' ≡ l
      → Q r l
      → Q r l'
  ended r Q e k = subst⁻¹ (λ x. Q r x) e k

  -- one call and what follows, at what it does to the ledger
  module _ {B : Type 0} {Q : Result B → Ledger → Type 0} (l : Ledger) where
    pub on_info_stream :
        (k : StreamInfo → Exec W B)
        → ((i : StreamInfo) → Keeps stream backup (see_stream stream backup i l) (k i) Q)
        → ((e : Error) → Q (err e) l)
        → Keeps stream backup l (info jsm stream >>= k) Q
    on_info_stream k ka ke =
        Runs-call-bind l (stream_info stream) (jsm.info stream) k (λ r. refl)
          (λ i. moved (rw (eq_refl stream) refl) (ka i)) ke

    pub on_info_backup :
        (k : StreamInfo → Exec W B)
        → ((i : StreamInfo) → Keeps stream backup (see_backup stream backup i l) (k i) Q)
        → ((e : Error) → Q (err e) l)
        → Keeps stream backup l (info jsm backup >>= k) Q
    on_info_backup k ka ke =
        Runs-call-bind l (stream_info backup) (jsm.info backup) k (λ r. refl)
          (λ i. moved (rw (apart, eq_refl backup) refl) (ka i)) ke

    pub on_update_stream :
        (c : StreamSpec) (k : StreamInfo → Exec W B)
        → ((i : StreamInfo) → Keeps stream backup (set_stream stream backup c l) (k i) Q)
        → ((e : Error) → Q (err e) l)
        → Keeps stream backup l (update jsm stream c >>= k) Q
    on_update_stream c k ka ke =
        Runs-call-bind l (stream_update stream c) (jsm.update stream c) k
          (λ r. rw (eq_refl stream) refl) (λ i. moved (rw (eq_refl stream) refl) (ka i)) ke

    pub on_update_backup :
        (c : StreamSpec) (k : StreamInfo → Exec W B)
        → ((i : StreamInfo) → Keeps stream backup l (k i) Q)
        → ((e : Error) → Q (err e) l)
        → Keeps stream backup l (update jsm backup c >>= k) Q
    on_update_backup c k ka ke =
        Runs-call-bind l (stream_update backup c) (jsm.update backup c) k
          (λ r. rw (apart, eq_refl backup) refl) (λ i. moved (rw apart refl) (ka i)) ke

    pub on_add :
        (c : StreamSpec) (k : StreamInfo → Exec W B)
        → ((i : StreamInfo) → Keeps stream backup l (k i) Q)
        → ((e : Error) → Q (err e) l)
        → Keeps stream backup l (add jsm c >>= k) Q
    on_add c k ka ke = Runs-call-bind l (stream_add c) (jsm.add c) k (λ r. refl) ka ke

    pub on_delete_stream :
        (k : Unit → Exec W B)
        → (l.closed && (is_zero l.count || l.copied)) ≡ true
        → Keeps stream backup (record l { gone = true; restored = false }) (k tt) Q
        → ((e : Error) → Q (err e) (record l { doubtful = true }))
        → Keeps stream backup l (delete jsm stream >>= k) Q
    on_delete_stream k p ka ke =
        Runs-call-bind l (stream_delete stream) (jsm.remove stream) k (λ r. rw (eq_refl stream) p)
          (λ u. moved (rw (eq_refl stream) refl) ka)
          (λ e.
            ended (err e) Q {l = record l { doubtful = true }} (rw (eq_refl stream) refl) (ke e))

    pub on_delete_backup :
        (k : Unit → Exec W B)
        → ((not l.gone && not l.doubtful) || (l.restored || is_zero l.held)) ≡ true
        → Keeps stream backup l (k tt) Q
        → ((e : Error) → Q (err e) l)
        → Keeps stream backup l (delete jsm backup >>= k) Q
    on_delete_backup k p ka ke =
        Runs-call-bind l (stream_delete backup) (jsm.remove backup) k
          (λ r. rw (apart, eq_refl backup) p) (λ u. moved (rw apart refl) ka)
          (λ e. ended (err e) Q {l = l} (rw apart refl) (ke e))

  -- once the original is gone, its configuration no longer matters
  pub on_update_new :
      {B : Type 0} {Q : Result B → Ledger → Type 0} (l : Ledger) (c : StreamSpec)
      (k : StreamInfo → Exec W B)
      → l.gone ≡ true
      → ((i : StreamInfo) → Keeps stream backup l (k i) Q)
      → ((e : Error) → Q (err e) l)
      → Keeps stream backup l (update jsm stream c >>= k) Q
  on_update_new l c k g ka ke = on_update_stream l c k (λ i. moved (rw g refl) (ka i)) ke

  -- `try_info`: the ledger after what was read, or the same.
  abbrev TryAt :
      (StreamInfo → Ledger → Ledger) → Ledger → Result (Option StreamInfo) → Ledger → Type 0
  TryAt see l (ok (some i)) l' = see i l ≡ l'
  TryAt see l (ok none) l' = l ≡ l'
  TryAt see l (err e) l' = l ≡ l'

  module _ (l : Ledger) (name : String) (see : StreamInfo → Ledger → Ledger) where
    caught :
        (e : Error) (l' : Ledger)
        → l ≡ l'
        → Keeps stream backup l'
            (if has_code stream_not_found e then pure none else raise {W = W} e)
            (TryAt see l)
    caught e l' h =
        Runs-if l' (has_code stream_not_found e) (pure none) (raise e) (λ _. Runs-pure l' none h)
          (λ _. Runs-raise l' e h)

    tried :
        Keeps stream backup l (info jsm name >>= λ i. pure (some i)) (TryAt see l)
        → Keeps stream backup l (try_info jsm name) (TryAt see l)
    unfolding try_info
    tried m = Runs-catch l _ _ m (λ o l' h. h) (λ e l' h. caught e l' h)

    module _ {B : Type 0} {Q : Result B → Ledger → Type 0} (k : Option StreamInfo → Exec W B) where
      found :
          ((i : StreamInfo) → Keeps stream backup (see i l) (k (some i)) Q)
          → Keeps stream backup l (k none) Q
          → (o : Option StreamInfo) (l' : Ledger) → TryAt see l (ok o) l'
          → Keeps stream backup l' (k o) Q
      found ki kn none l' h = subst (λ x. Keeps stream backup x (k none) Q) h kn
      found ki kn (some i) l' h = subst (λ x. Keeps stream backup x (k (some i)) Q) h (ki i)

      on_try :
          Keeps stream backup l (info jsm name >>= λ i. pure (some i)) (TryAt see l)
          → ((i : StreamInfo) → Keeps stream backup (see i l) (k (some i)) Q)
          → Keeps stream backup l (k none) Q
          → ((e : Error) → Q (err e) l)
          → Keeps stream backup l (try_info jsm name >>= k) Q
      on_try m ki kn ke =
          Runs-bind {P = TryAt see l} l (try_info jsm name) k (tried m) (found ki kn)
            (λ e l' h. subst (λ x. Q (err e) x) h (ke e))

  module _ {B : Type 0} {Q : Result B → Ledger → Type 0} (l : Ledger)
      (k : Option StreamInfo → Exec W B) where
    pub on_try_stream :
        ((i : StreamInfo) → Keeps stream backup (see_stream stream backup i l) (k (some i)) Q)
        → Keeps stream backup l (k none) Q
        → ((e : Error) → Q (err e) l)
        → Keeps stream backup l (try_info jsm stream >>= k) Q
    on_try_stream =
        on_try l stream (see_stream stream backup) k
          (on_info_stream l _ (λ i. Runs-pure _ (some i) refl) (λ e. refl))

    pub on_try_backup :
        ((i : StreamInfo) → Keeps stream backup (see_backup stream backup i l) (k (some i)) Q)
        → Keeps stream backup l (k none) Q
        → ((e : Error) → Q (err e) l)
        → Keeps stream backup l (try_info jsm backup >>= k) Q
    on_try_backup =
        on_try l backup (see_backup stream backup) k
          (on_info_backup l _ (λ i. Runs-pure _ (some i) refl) (λ e. refl))
