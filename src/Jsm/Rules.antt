-- ===== src/Jsm/Rules.antt =====
-- Rules for what a program's calls do to a monitor: one for each way to build a program.
--
-- A monitor is a state that each call advances, and a test of the calls that it permits.
use mathlib.Core.Path.{subst, subst⁻¹}
use nestjs_jetstream.Prelude.{
  ◌≡◌, refl, Bool, true, false, ◌&&◌, List, [], ◌∷◌, ◌++◌, if◌then◌else◌,
}
use nestjs_jetstream.Jsm.{
  Error, Result, ok, err, Event, Exec, pure, raise, call, continue, ◌>>=◌, recover, catch,
}

pub and-intro : {a b : Bool} → a ≡ true → b ≡ true → (a && b) ≡ true
and-intro {a} {b} h k = rw (h, k) refl

pub and_fst : (a b : Bool) → (a && b) ≡ true → a ≡ true
and_fst true b h = refl
and_fst false b h = h

pub and_snd : (a b : Bool) → (a && b) ≡ true → b ≡ true
and_snd true b h = h
and_snd false b h = cc

module _ {L : Type 0} (observe : Event → L → L) (permits : Event → L → Bool) where
  -- the monitor after the calls
  abbrev pub after : L → List Event → L
  after l [] = l
  after l (e ∷ es) = after (observe e l) es

  abbrev pub accepted : L → List Event → Bool
  accepted l [] = true
  accepted l (e ∷ es) = permits e l && accepted (observe e l) es

  after-append : (l : L) (es fs : List Event) → after l (es ++ fs) ≡ after (after l es) fs
  after-append l [] fs = refl
  after-append l (e ∷ es) fs = after-append (observe e l) es fs

  accepted-append :
      (l : L) (es fs : List Event)
      → accepted l es ≡ true
      → accepted (after l es) fs ≡ true
      → accepted l (es ++ fs) ≡ true
  accepted-append l [] fs h k = k
  accepted-append l (e ∷ es) fs h k =
      and-intro (and_fst (permits e l) (accepted (observe e l) es) h) (
        accepted-append (observe e l) es fs (and_snd (permits e l) (accepted (observe e l) es) h) k)

  module _ {W : Type 0} where
    -- From the monitor `l`, the program makes permitted calls only, and ends as `Q` says.
    pub record Runs {A : Type 0} (l : L) (m : Exec W A) (Q : Result A → L → Type 0) : Type 0 where
      pub permitted : (w : W) → accepted l (m w).1 ≡ true
      pub ends : (w : W) → Q (m w).0 (after l (m w).1)

module _ {L : Type 0} {observe : Event → L → L} {permits : Event → L → Bool} {W : Type 0} where
  module _ {A : Type 0} {Q : Result A → L → Type 0} where
    pub Runs-pure : (l : L) (a : A) → Q (ok a) l → Runs observe permits l (pure {W = W} a) Q
    Runs-pure l a q = record { permitted = λ w. refl; ends = λ w. q }

    pub Runs-raise : (l : L) (e : Error) → Q (err e) l → Runs observe permits l (raise {W = W} e) Q
    Runs-raise l e q = record { permitted = λ w. refl; ends = λ w. q }

    pub Runs-call :
        (l : L) (event : Result A → Event) (f : W → Result A × W)
        → ((r : Result A) → permits (event r) l ≡ true)
        → ((r : Result A) → Q r (observe (event r) l))
        → Runs observe permits l (call event f) Q
    Runs-call l event f p q = record {
      permitted = λ w. and-intro (p (f w).0) refl;
      ends = λ w. q (f w).0;
    }

    pub Runs-if :
        (l : L) (b : Bool) (m n : Exec W A)
        → (b ≡ true → Runs observe permits l m Q)
        → (b ≡ false → Runs observe permits l n Q)
        → Runs observe permits l (if b then m else n) Q
    Runs-if l true m n km kn = km refl
    Runs-if l false m n km kn = kn refl

  module _ {A B : Type 0} {Q : Result B → L → Type 0} where
    Runs-continue :
        (l : L) (r : Result A) (f : A → Exec W B)
        → ((a : A) → r ≡ ok a → Runs observe permits l (f a) Q)
        → ((e : Error) → r ≡ err e → Q (err e) l)
        → Runs observe permits l (continue r f) Q
    Runs-continue l (ok a) f kf ke = kf a refl
    Runs-continue l (err e) f kf ke = Runs-raise l e (ke e refl)

  module _ {A B : Type 0} {P : Result A → L → Type 0} {Q : Result B → L → Type 0} where
    pub Runs-bind :
        (l : L) (m : Exec W A) (f : A → Exec W B)
        → Runs observe permits l m P
        → ((a : A) (l' : L) → P (ok a) l' → Runs observe permits l' (f a) Q)
        → ((e : Error) (l' : L) → P (err e) l' → Q (err e) l')
        → Runs observe permits l (m >>= f) Q
    unfolding ◌>>=◌
    Runs-bind l m f km kf ke =
        let rest = λ (w : W).
          let (r, es, w') = m w in
          Runs-continue (after observe permits l es) r f
            (λ a h.
              kf a (after observe permits l es)
                (subst (λ x. P x (after observe permits l es)) h (km.ends w)))
            (λ e h.
              ke e (after observe permits l es)
                (subst (λ x. P x (after observe permits l es)) h (km.ends w))) in
        record {
          permitted = λ w.
              let (r, es, w') = m w in
              accepted-append observe permits l es (continue r f w').1 (km.permitted w)
                ((rest w).permitted w');
          ends = λ w.
              let (r, es, w') = m w in
              subst⁻¹ (λ x. Q (continue r f w').0 x)
                (after-append observe permits l es (continue r f w').1) ((rest w).ends w');
        }

  module _ {A : Type 0} {Q : Result A → L → Type 0} where
    Runs-recover :
        (l : L) (r : Result A) (h : Error → Exec W A)
        → ((a : A) → r ≡ ok a → Q (ok a) l)
        → ((e : Error) → r ≡ err e → Runs observe permits l (h e) Q)
        → Runs observe permits l (recover r h) Q
    Runs-recover l (ok a) h ka ke = Runs-pure l a (ka a refl)
    Runs-recover l (err e) h ka ke = ke e refl

  module _ {A : Type 0} {P Q : Result A → L → Type 0} where
    pub Runs-catch :
        (l : L) (m : Exec W A) (h : Error → Exec W A)
        → Runs observe permits l m P
        → ((a : A) (l' : L) → P (ok a) l' → Q (ok a) l')
        → ((e : Error) (l' : L) → P (err e) l' → Runs observe permits l' (h e) Q)
        → Runs observe permits l (catch m h) Q
    unfolding catch
    Runs-catch l m h km ka ke =
        let rest = λ (w : W).
          let (r, es, w') = m w in
          Runs-recover (after observe permits l es) r h
            (λ a x.
              ka a (after observe permits l es)
                (subst (λ y. P y (after observe permits l es)) x (km.ends w)))
            (λ e x.
              ke e (after observe permits l es)
                (subst (λ y. P y (after observe permits l es)) x (km.ends w))) in
        record {
          permitted = λ w.
              let (r, es, w') = m w in
              accepted-append observe permits l es (recover r h w').1 (km.permitted w)
                ((rest w).permitted w');
          ends = λ w.
              let (r, es, w') = m w in
              subst⁻¹ (λ x. Q (recover r h w').0 x)
                (after-append observe permits l es (recover r h w').1) ((rest w).ends w');
        }

    pub Runs-weaken :
        (l : L) (m : Exec W A)
        → Runs observe permits l m P
        → ((r : Result A) (l' : L) → P r l' → Q r l')
        → Runs observe permits l m Q
    Runs-weaken l m km k = record {
      permitted = km.permitted;
      ends = λ w. k (m w).0 (after observe permits l (m w).1) (km.ends w);
    }

module _ {L : Type 0} {observe : Event → L → L} {permits : Event → L → Bool} {W : Type 0} where
  module _ {A B : Type 0} {Q : Result B → L → Type 0} where
    -- a call and what follows, each answer at the monitor that it leads to
    pub Runs-call-bind :
        (l : L) (event : Result A → Event) (f : W → Result A × W) (k : A → Exec W B)
        → ((r : Result A) → permits (event r) l ≡ true)
        → ((a : A) → Runs observe permits (observe (event (ok a)) l) (k a) Q)
        → ((e : Error) → Q (err e) (observe (event (err e)) l))
        → Runs observe permits l (call event f >>= k) Q
    Runs-call-bind l event f k p ka ke =
        Runs-bind {P = λ r l'. observe (event r) l ≡ l'} l (call event f) k
          (Runs-call l event f p (λ r. refl))
          (λ a l' h. subst (λ x. Runs observe permits x (k a) Q) h (ka a))
          (λ e l' h. subst (λ x. Q (err e) x) h (ke e))
