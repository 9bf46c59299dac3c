-- ===== src/Client/Subjects.antt =====
-- The subjects that a client publishes to, against the target's lookup of its handlers.
use Prim.Native.String.{String}
use mathlib.Core.Path.{subst}
use text.Mathlib.Text.{◌==◌ as str_eq, starts_with}
use text.Mathlib.TextLemmas.{append-nil}
use nestjs_jetstream.Prelude.{
  ℕ, ◌≡◌, refl, sym, ap, ◌∙◌, Bool, true, false, Option, none, some, List, Bool-cases, ◌⊎◌, inl,
  inr,
}
use nestjs_jetstream.Names.{
  StreamKind, event, command, broadcast, ordered, ◌<>◌, subject_prefix, Options, KindNames, subject,
}
use nestjs_jetstream.Registry.{
  Handler, PatternRegistry, new as new_registry, kind_of, register_handlers, get_handler,
  resolve_declared,
}
use nestjs_jetstream.Registry.Laws.{handler_at, declared_at, last_for, register_handlers-lookup}
use nestjs_jetstream.Client.{
  broadcast_pattern, ordered_pattern, detect_event_kind, declared_event_pattern, slice_from,
  event_stream_kind, Client, own_names, prefix_for_broadcasts, client_of, new, own_or,
  build_event_subject,
}

-- A client knows the names of its target: they are its own service's, or the target keeps to the
-- convention and shares the prefix of broadcasts.
abbrev pub Knows :
    Options → String → Option (StreamKind → KindNames) → (StreamKind → KindNames) → Type 0
Knows o target given names =
    ((str_eq target o.name ≡ true) × (own_names o true given ≡ some (some names)))
    ⊎ ((str_eq target o.name ≡ false)
        × (((names event).prefix ≡ subject_prefix target event)
            × (((names command).prefix ≡ subject_prefix target command)
                × (((names ordered).prefix ≡ subject_prefix target ordered)
                    × ((names broadcast).prefix ≡ prefix_for_broadcasts given)))))

-- What the client does with the prefixes.
abbrev pub Prefixed : Client → (StreamKind → KindNames) → Type 0
Prefixed c names =
    (c.broadcast_prefix ≡ (names broadcast).prefix)
    × (((p : String)
          → own_or c.self_names ordered c.ordered_subject_prefix p ≡ subject names ordered p)
        × (((p : String)
              → own_or c.self_names event c.event_subject_prefix p ≡ subject names event p)
            × ((p : String)
                → own_or c.self_names command c.command_subject_prefix p
                  ≡ subject names command p)))

abbrev from : {A : Type 0} → A → Option A → A
from a none = a
from a (some b) = b

foreign_names :
    (o : Options) (given : Option (StreamKind → KindNames)) → own_names o false given ≡ some given
foreign_names o none = refl
foreign_names o (some n) = refl

module _ (o : Options) (target : String) (t : Option ℕ) (given : Option (StreamKind → KindNames))
    (names : StreamKind → KindNames) where
  made :
      (c : Client) (self : Bool) (m : Option (StreamKind → KindNames))
      → str_eq target o.name ≡ self
      → own_names o self given ≡ some m
      → new o target t given ≡ some c
      → client_of o target t m ≡ c
  unfolding new
  made c self m h n e = ap (from (client_of o target t m)) (sym here ∙ e)
    where
      here : new o target t given ≡ some (client_of o target t m)
      here =
          ap
            (λ own. elim own as (λ _. Option Client) [
              | none ↦ none
              | some m ↦ some (client_of o target t m)
            ])
            (ap (λ b. own_names o b given) h ∙ n)

  client_of-Prefixed :
      str_eq target o.name ≡ true → Prefixed (client_of o target t (some names)) names
  client_of-Prefixed h =
      rw h (append-nil (names broadcast).prefix, ((λ p. refl), ((λ p. refl), (λ p. refl))))

  client_of-Prefixed_foreign :
      str_eq target o.name ≡ false
      → (names event).prefix ≡ subject_prefix target event
      → (names command).prefix ≡ subject_prefix target command
      → (names ordered).prefix ≡ subject_prefix target ordered
      → (names broadcast).prefix ≡ prefix_for_broadcasts given
      → Prefixed (client_of o target t given) names
  client_of-Prefixed_foreign h e m d b = rw h (
    sym b,
    (
      (λ p. ap (λ x. x <> p) (sym d)),
      ((λ p. ap (λ x. x <> p) (sym e)), (λ p. ap (λ x. x <> p) (sym m))),
    ),
  )

  new-Prefixed :
      (c : Client) → Knows o target given names → new o target t given ≡ some c → Prefixed c names
  new-Prefixed c (inl (h, n)) e =
      subst (λ x. Prefixed x names) (made c true (some names) h n e) (client_of-Prefixed h)
  new-Prefixed c (inr (h, (x, (m, (d, b))))) e =
      subst (λ y. Prefixed y names) (made c false given h (foreign_names o given) e)
        (client_of-Prefixed_foreign h x m d b)

module _ (c : Client) (names : StreamKind → KindNames) where
  pub build_event_subject-subject :
      (p : String)
      → Prefixed c names
      → let k = detect_event_kind p in
        build_event_subject c p ≡ subject names (event_stream_kind k) (declared_event_pattern p k)
  unfolding build_event_subject detect_event_kind declared_event_pattern
  build_event_subject-subject p i = elim (Bool-cases (starts_with p broadcast_pattern)) [
    | inl e ↦ rw e (ap (λ x. x <> slice_from broadcast_pattern p) i.0)
    | inr e ↦ elim (Bool-cases (starts_with p ordered_pattern)) [
      | inl f ↦ rw (e, f) (i.1.0 (slice_from ordered_pattern p))
      | inr f ↦ rw (e, f) (i.1.1.0 p)
    ]
  ]

-- For a service whose names the client knows: an event that is emitted, with the prefix of its pattern
-- choosing broadcast or ordered, is published to the subject under which the service has registered
-- the handler of that kind for that pattern (the last one that shares its subject), so that the
-- service's lookup finds this handler and resolves the pattern and the kind that it declared.
pub get_handler-build_event_subject :
    {H D : Type 0} (o : Options) (target : String) (t : Option ℕ)
    (given : Option (StreamKind → KindNames)) (names : StreamKind → KindNames) (c : Client)
    (hs : List (String × Handler H D)) (r : PatternRegistry H D) (pattern p : String)
    (h : Handler H D)
    → Knows o target given names
    → new o target t given ≡ some c
    → register_handlers names hs new_registry ≡ some r
    → declared_event_pattern pattern (detect_event_kind pattern) ≡ p
    → event_stream_kind (detect_event_kind pattern) ≡ kind_of h
    → last_for names (subject names (kind_of h) p) hs ≡ some (p, h)
    → (get_handler r (build_event_subject c pattern) ≡ some h.handler)
      × (resolve_declared r (build_event_subject c pattern) ≡ some (p, kind_of h))
get_handler-build_event_subject o target t given names c hs r pattern p h k e g d q l =
    let found = register_handlers-lookup names hs r (subject names (kind_of h) p) g in
    rw (emitted) (found.0 ∙ ap handler_at l, found.1 ∙ ap declared_at l)
  where
    emitted : build_event_subject c pattern ≡ subject names (kind_of h) p
    emitted =
        build_event_subject-subject c names pattern (new-Prefixed o target t given names c k e)
        ∙ ap (λ x. subject names x (declared_event_pattern pattern (detect_event_kind pattern))) q
        ∙ ap (λ x. subject names (kind_of h) x) d
