-- ===== src/Names/Laws.antt =====
-- The two ways to the schedule subject of an event, and the normal form of a custom prefix.
use Prim.Native.Char.{code}
use Prim.Native.String.{String, len, slice}
use text.Mathlib.Text.{starts_with}
use text.Mathlib.TextEquality.{starts_with_iff}
use text.Mathlib.TextPositions.{len-append, slice-append_right, starts_with-append}
use text.Mathlib.TextLemmas.{
  append_assoc as text_assoc, append_cancel_left, cons-append, nil-append,
}
use nestjs_jetstream.Prelude.{
  ℕ, ◌==◌, ◌≡◌, ◌≢◌, refl, sym, ap, ◌∙◌, Bool, true, false, Option, none, some, List, [], ◌∷◌,
  if◌then◌else◌, Bool-cases, inl, inr, arith,
}
use nestjs_jetstream.Names.{
  StreamKind, event, command, broadcast, ordered, is_kind, ◌<>◌, internal_name, schedule_segment,
  broadcast_subject_prefix, convention_schedule_prefix, KindNames, names_by_convention, subject,
  base_by, schedule_subject_base, after_dot, convention_schedule_subject_base,
}

drop : (s t : String) → slice (s <> t) (len s) (len (s <> t)) ≡ t
drop s t = ap (λ n. slice (s <> t) (len s) n) (len-append s t) ∙ slice-append_right s t

-- A text that does not begin with another does not after a common beginning either.
starts_with-common :
    (a b c : String) → starts_with b c ≡ false → starts_with (a <> b) (a <> c) ≡ false
starts_with-common a b c h = elim (Bool-cases (starts_with (a <> b) (a <> c))) [
  | inl t ↦
      let (u, e) = (starts_with_iff (a <> b) (a <> c)).0 t in
      let whole =
        (starts_with_iff b c).1 (u, append_cancel_left a (c <> u) b (sym (text_assoc a c u) ∙ e)) in
      cc
  | inr f ↦ f
]

base_by-here :
    (n : KindNames) (ns : List KindNames) (p : String)
    → base_by (n ∷ ns) (n.prefix <> p) ≡ some (n.schedule_prefix <> p)
unfolding base_by
base_by-here n ns p =
    rw (starts_with-append n.prefix p) (ap (λ t. some (n.schedule_prefix <> t)) (drop n.prefix p))

base_by-skip :
    (n : KindNames) (ns : List KindNames) (s : String)
    → starts_with s n.prefix ≡ false
    → base_by (n ∷ ns) s ≡ base_by ns s
unfolding base_by
base_by-skip n ns s h = rw h refl

-- the convention's own subjects, by the part after the service's name
own_base :
    (name rest p : String)
    → starts_with ((internal_name name <> ".") <> rest) broadcast_subject_prefix ≡ false
    → after_dot rest ≡ some p
    → convention_schedule_subject_base name ((internal_name name <> ".") <> rest)
      ≡ some ((internal_name name <> "." <> schedule_segment) <> p)
unfolding convention_schedule_subject_base
own_base name rest p h e =
    let own = internal_name name <> "." in
    rw (h, starts_with-append own rest, drop own rest, e)
      (ap some (
        sym (text_assoc own schedule_segment p)
        ∙ ap (λ t. t <> p) (text_assoc (internal_name name) "." schedule_segment)))

-- The second character's number.
abbrev second : String → ℕ
second String.[] = 0
second (String.◌∷◌ c String.[]) = 0
second (String.◌∷◌ c (String.◌∷◌ d s)) = code d

abbrev has_second : String → Bool
has_second String.[] = false
has_second (String.◌∷◌ c String.[]) = false
has_second (String.◌∷◌ c (String.◌∷◌ d s)) = true

second-append : (s t : String) → has_second s ≡ true → second (s <> t) ≡ second s
second-append String.[] t h = cc
second-append (String.◌∷◌ c String.[]) t h = cc
second-append (String.◌∷◌ c (String.◌∷◌ d s)) t h =
    ap second (cons-append c (String.◌∷◌ d s) t ∙ ap (λ r. String.◌∷◌ c r) (cons-append d s t))

abbrev from : String → Option String → String
from d none = d
from d (some s) = s

at_dot :
    (b : Bool) (s r t : String) (o o' : Option String)
    → (o ≡ some r → o' ≡ some (r <> t))
    → (if b then some s else o) ≡ some r
    → (if b then some (s <> t) else o') ≡ some (r <> t)
at_dot true s r t o o' f e = ap (λ x. some (from s x <> t)) e
at_dot false s r t o o' f e = f e

after_dot-append : (s r t : String) → after_dot s ≡ some r → after_dot (s <> t) ≡ some (r <> t)
unfolding after_dot
after_dot-append String.[] r t e = cc
after_dot-append (String.◌∷◌ c s) r t e =
    ap after_dot (cons-append c s t)
    ∙ at_dot (code c == b'.') s r t (after_dot s) (after_dot (s <> t)) (after_dot-append s r t) e

after_dot-kind : (kind p : String) → after_dot kind ≡ some "" → after_dot (kind <> p) ≡ some p
after_dot-kind kind p e = after_dot-append kind "" p e ∙ ap some (nil-append p)

ordered_is_not_event : (p : String) → starts_with (".ordered." <> p) ".ev." ≡ false
ordered_is_not_event p = elim (Bool-cases (starts_with (".ordered." <> p) ".ev.")) [
  | inl t ↦
      let (u, e) = (starts_with_iff (".ordered." <> p) ".ev.").0 t in
      let no : ⊥ =
        omega (arith, ap second e, second-append ".ev." u refl, second-append ".ordered." p refl) in
      elim no [ ]
  | inr f ↦ f
]

-- The same subject, split after the service's name.
regroup :
    (name kind p : String)
    → (internal_name name <> ("." <> kind)) <> p ≡ (internal_name name <> ".") <> (kind <> p)
regroup name kind p =
    ap (λ t. t <> p) (sym (text_assoc (internal_name name) "." kind))
    ∙ text_assoc (internal_name name <> ".") kind p

own_subject :
    (name kind p : String)
    → starts_with ((internal_name name <> ("." <> kind)) <> p) broadcast_subject_prefix ≡ false
    → after_dot (kind <> p) ≡ some p
    → convention_schedule_subject_base name ((internal_name name <> ("." <> kind)) <> p)
      ≡ some ((internal_name name <> "." <> schedule_segment) <> p)
own_subject name kind p h e =
    ap (λ s. convention_schedule_subject_base name s) (regroup name kind p)
    ∙ own_base name (kind <> p) p
        (ap (λ s. starts_with s broadcast_subject_prefix) (sym (regroup name kind p)) ∙ h) e

broadcast_base :
    (name p : String)
    → convention_schedule_subject_base name (broadcast_subject_prefix <> p)
      ≡ some (broadcast_subject_prefix <> (schedule_segment <> p))
unfolding convention_schedule_subject_base
broadcast_base name p = rw (starts_with-append broadcast_subject_prefix p) (
    ap (λ t. some (broadcast_subject_prefix <> (schedule_segment <> t)))
      (drop broadcast_subject_prefix p))

-- A subject of an event, broadcast or ordered handler under the conventional names is mapped to its
-- schedule subject, its kind's schedule prefix before the same pattern, and the function for a
-- foreign service finds the same one; if only a broadcast's subject begins with `broadcast.`.
pub schedule_subject_base-convention :
    (name : String) (kind : StreamKind) (p : String)
    → kind ≢ command
    → starts_with (subject (names_by_convention name) kind p) broadcast_subject_prefix
      ≡ is_kind broadcast kind
    → let s = subject (names_by_convention name) kind p in
      let base = some (convention_schedule_prefix name kind <> p) in
      (schedule_subject_base (names_by_convention name) s ≡ base)
      × (convention_schedule_subject_base name s ≡ base)
unfolding schedule_subject_base after_dot
schedule_subject_base-convention name event p ne h =
    let names = names_by_convention name in
    let s = subject names event p in
    (
      base_by-skip (names broadcast) (names event ∷ names ordered ∷ []) s h
          ∙ base_by-here (names event) (names ordered ∷ []) p,
      own_subject name "ev." p h (after_dot-kind "ev." p refl),
    )
schedule_subject_base-convention name ordered p ne h =
    let names = names_by_convention name in
    let s = subject names ordered p in
    let other =
      ap (λ t. starts_with t (names event).prefix) (text_assoc (internal_name name) ".ordered." p)
      ∙ starts_with-common (internal_name name) (".ordered." <> p) ".ev."
          (ordered_is_not_event p) in
    (
      base_by-skip (names broadcast) (names event ∷ names ordered ∷ []) s h
          ∙ base_by-skip (names event) (names ordered ∷ []) s other
          ∙ base_by-here (names ordered) [] p,
      own_subject name "ordered." p h (after_dot-kind "ordered." p refl),
    )
schedule_subject_base-convention name broadcast p ne h =
    let names = names_by_convention name in
    (
      base_by-here (names broadcast) (names event ∷ names ordered ∷ []) p,
      broadcast_base name p
          ∙ ap some (sym (text_assoc broadcast_subject_prefix schedule_segment p)),
    )
schedule_subject_base-convention name command p ne h = elim (ne refl) [ ]
