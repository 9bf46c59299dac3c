-- ===== src/Client/Reserved.antt =====
-- The reserved headers of a message that is sent.
use Prim.Native.String.{String}
use text.Mathlib.Text.{◌==◌ as str_eq}
use nestjs_jetstream.Prelude.{
  ℕ, ◌≡◌, refl, ◌∙◌, Bool, true, false, ◌||◌, Option, none, some, List, [], ◌∷◌, ◌++◌, All,
  All-append, keep, keep-append, keep-none, append-nil, Bool-cases, inl, inr,
}
use nestjs_jetstream.Event.Actions.{HeaderCall, set}
use nestjs_jetstream.Event.Headers.{codes, is_control, key}
use nestjs_jetstream.Record.{builder, build, equals, lowered, is_reserved}
use nestjs_jetstream.Record.Laws.{BuilderCall, run, Since, Free, build-Sound}
use nestjs_jetstream.Client.{Client, set_present, set_all, build_headers}

-- The calls whose key is a given name, in any spelling of its case.
abbrev pub named : String → HeaderCall → Bool
named name h = equals (lowered (key h)) (codes name)

or-left : (a b : Bool) → (a || b) ≡ false → a ≡ false
or-left true b e = e
or-left false b e = refl

or-right : (a b : Bool) → (a || b) ≡ false → b ≡ false
or-right true b e = cc
or-right false b e = e

-- free keys are none of the reserved ones
correlation-Free :
    (hs : List (String × String))
    → All Free hs
    → All (λ h. named "x-correlation-id" h ≡ false) (set_all hs)
unfolding set_all is_reserved
correlation-Free [] a = tt
correlation-Free ((k, v) ∷ hs) a = (or-left _ _ a.0.1, correlation-Free hs a.1)

reply_to-Free :
    (hs : List (String × String))
    → All Free hs
    → All (λ h. named "x-reply-to" h ≡ false) (set_all hs)
unfolding set_all is_reserved
reply_to-Free [] a = tt
reply_to-Free ((k, v) ∷ hs) a =
    (or-left _ _ (or-right (named "x-correlation-id" (set k v)) _ a.0.1), reply_to-Free hs a.1)

control-Free :
    (hs : List (String × String)) → All Free hs → All (λ h. is_control (key h) ≡ false) (set_all hs)
unfolding set_all
control-Free [] a = tt
control-Free ((k, v) ∷ hs) a = (a.0.0, control-Free hs a.1)

module _ (p : HeaderCall → Bool) where
  present-kept :
      (k : String) (v : Option String)
      → ((x : String) → p (set k x) ≡ true)
      → keep p (set_present k v) ≡ set_present k v
  present-kept k none h = refl
  present-kept k (some v) h = elim (Bool-cases (str_eq v "")) [
    | inl e ↦ rw e refl
    | inr e ↦ rw (e, h v) refl
  ]

  present-dropped :
      (k : String) (v : Option String)
      → ((x : String) → p (set k x) ≡ false)
      → keep p (set_present k v) ≡ []
  present-dropped k none h = refl
  present-dropped k (some v) h = elim (Bool-cases (str_eq v "")) [
    | inl e ↦ rw e refl
    | inr e ↦ rw (e, h v) refl
  ]

parts :
    {A : Type 0} (p : A → Bool) (xs ys zs : List A) {us vs ws : List A}
    → keep p xs ≡ us
    → keep p ys ≡ vs
    → keep p zs ≡ ws
    → keep p (xs ++ (ys ++ zs)) ≡ us ++ (vs ++ ws)
parts p xs ys zs e f g = rw (keep-append p xs (ys ++ zs), keep-append p ys zs, e, f, g) refl

module _ (c : Client) (hs : List (String × String)) (subject : String) (id reply : Option String)
    (free : All Free hs) where
  correlation_kept :
      keep (named "x-correlation-id") (build_headers c hs subject id reply)
      ≡ set_present "x-correlation-id" id
  unfolding build_headers
  correlation_kept =
      parts (named "x-correlation-id") (set_present "x-correlation-id" id)
        (set_present "x-reply-to" reply) (set_all hs)
        (present-kept (named "x-correlation-id") "x-correlation-id" id (λ x. refl))
        (present-dropped (named "x-correlation-id") "x-reply-to" reply (λ x. refl))
        (keep-none _ (set_all hs) (correlation-Free hs free))
      ∙ append-nil _

  reply_kept :
      keep (named "x-reply-to") (build_headers c hs subject id reply)
      ≡ set_present "x-reply-to" reply
  unfolding build_headers
  reply_kept =
      parts (named "x-reply-to") (set_present "x-correlation-id" id)
        (set_present "x-reply-to" reply) (set_all hs)
        (present-dropped (named "x-reply-to") "x-correlation-id" id (λ x. refl))
        (present-kept (named "x-reply-to") "x-reply-to" reply (λ x. refl))
        (keep-none _ (set_all hs) (reply_to-Free hs free))
      ∙ append-nil _

  present-not_control :
      (k : String) (v : Option String)
      → is_control k ≡ false
      → All (λ h. is_control (key h) ≡ false) (set_present k v)
  present-not_control k none h = tt
  present-not_control k (some v) h = elim (Bool-cases (str_eq v "")) [
    | inl e ↦ rw e tt
    | inr e ↦ rw e (h, tt)
  ]

  none_controls : All (λ h. is_control (key h) ≡ false) (build_headers c hs subject id reply)
  unfolding build_headers is_control
  none_controls = (
    refl,
    (
      refl,
      All-append _ (set_present "x-correlation-id" id) _
          (present-not_control "x-correlation-id" id refl)
          (All-append _ (set_present "x-reply-to" reply) _
            (present-not_control "x-reply-to" reply refl) (control-Free hs free)),
    ),
  )

-- For a record that a builder has built, whatever was done with the builder: of the headers that a
-- client sends with it, the correlation id and the reply subject, in any spelling of their case, are
-- set by the transport alone, once if it has a value for them and never otherwise; and no header is a
-- control header of the server.
pub build_headers-run :
    {D : Type 0} (start : ℕ) (d : Option D) (calls : List (BuilderCall D)) (c : Client)
    (subject : String) (id reply : Option String)
    → Since start calls
    → let sent = build_headers c (build (run calls (builder d))).headers subject id reply in
      (keep (named "x-correlation-id") sent ≡ set_present "x-correlation-id" id)
      × ((keep (named "x-reply-to") sent ≡ set_present "x-reply-to" reply)
          × All (λ h. is_control (key h) ≡ false) sent)
build_headers-run start d calls c subject id reply p =
    let hs = (build (run calls (builder d))).headers in
    let free = (build-Sound start d calls p).0 in
    (
      correlation_kept c hs subject id reply free,
      (reply_kept c hs subject id reply free, none_controls c hs subject id reply free),
    )
