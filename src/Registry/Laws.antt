-- ===== src/Registry/Laws.antt =====
-- What registration stores of the handlers that it is given.
use Prim.Native.String.{String}
use text.Mathlib.Text.{◌==◌ as str_eq}
use text.Mathlib.TextEquality.{eq_iff}
use nestjs_jetstream.Prelude.{
  ◌≡◌, refl, ap, sym, ◌∙◌, Bool, true, false, not, ◌&&◌, ◌||◌, Option, none, some, List, [], ◌∷◌,
  if◌then◌else◌, any, map, keep, arith, inl, inr, ◌⊎◌,
}
use nestjs_jetstream.Maps.{lookup, set}
use nestjs_jetstream.Names.{
  StreamKind, event, command, broadcast, ordered, KindNames, subject, is_kind,
}
use nestjs_jetstream.Registry.{
  Handler, RegisteredHandler, PatternsByKind, PatternRegistry, new, resolve_stream_kind, kind_of,
  conflicts, registered_as, build_patterns_by_kind, register_loop, register_handlers, finish,
  handler_of, get_handler, declared_of, resolve_declared,
}

lookup-set :
    {V : Type 0} (k j : String) (v : V) (m : List (String × V))
    → lookup k (set j v m) ≡ (if str_eq j k then some v else lookup k m)
unfolding lookup set
lookup-set k j v [] = refl
lookup-set k j v ((i, w) ∷ m) =
    ground (arith, lookup-set k j v m, eq_iff i j, eq_iff j k, eq_iff i k)

abbrev pub or_else : {A : Type 0} → Option A → Option A → Option A
or_else none b = b
or_else (some a) b = some a

abbrev from : {A : Type 0} → A → Option A → A
from a none = a
from a (some b) = b

abbrev pub is_none : {A : Type 0} → Option A → Bool
is_none none = true
is_none (some _) = false

no_throw :
    {A : Type 0} (b : Bool) {o : Option A} {a : A} → (if b then none else o) ≡ some a → o ≡ some a
no_throw true e = cc
no_throw false e = e

is_none-if :
    {A : Type 0} (b : Bool) (o : Option A) → is_none (if b then none else o) ≡ (b || is_none o)
is_none-if true o = refl
is_none-if false o = refl

kind-flags :
    (e b o : Bool)
    → (if b then broadcast else if o then ordered else if e && not o then event else command)
      ≡ (if b then broadcast else if o then ordered else if e then event else command)
kind-flags e true o = refl
kind-flags e false true = refl
kind-flags true false false = refl
kind-flags false false false = refl

last_step :
    {A : Type 0} (a : Option A) (b : Bool) (x y : A)
    → or_else a (if b then some x else none) ≡ some y
    → (a ≡ some y) ⊎ ((b ≡ true) × (x ≡ y))
last_step none true x y e = inr (refl, ap (from x) e)
last_step none false x y e = cc
last_step (some z) b x y e = inl e

module _ {H D : Type 0} where
  is_none-finish :
      (o : Option (List (String × RegisteredHandler H D)))
      → is_none (elim o [ none ↦ none | some m ↦ some (finish m) ]) ≡ is_none o
  is_none-finish none = refl
  is_none-finish (some m) = refl

  finished :
      (o : Option (List (String × RegisteredHandler H D))) (r : PatternRegistry H D)
      → elim o as (λ _. Option (PatternRegistry H D)) [ none ↦ none | some m ↦ some (finish m) ]
        ≡ some r
      → o ≡ some r.registry
  finished none r e = cc
  finished (some m) r e = ap (λ x. some (from (finish m) x).registry) e

  -- what a subject's handler and declaration are
  abbrev pub handler_at : Option (String × Handler H D) → Option H
  handler_at none = none
  handler_at (some (p, h)) = some h.handler

  abbrev pub declared_at : Option (String × Handler H D) → Option (String × StreamKind)
  declared_at none = none
  declared_at (some (p, h)) = some (p, kind_of h)

module _ {H D : Type 0} (names : StreamKind → KindNames) where
  -- The last handler of the list whose pattern, under the prefix of its kind, is the subject.
  abbrev pub last_for : String → List (String × Handler H D) → Option (String × Handler H D)
  last_for s [] = none
  last_for s ((pattern, h) ∷ hs) =
      or_else (last_for s hs)
        (if str_eq (subject names (kind_of h) pattern) s then some (pattern, h) else none)

  abbrev entry_of : Option (String × Handler H D) → Option (RegisteredHandler H D)
  entry_of none = none
  entry_of (some (pattern, h)) = some (registered_as pattern h)

  entry_of-or :
      (a : Option (String × Handler H D)) (b : Bool) (p : String) (h : Handler H D)
      (o : Option (RegisteredHandler H D))
      → or_else (entry_of a) (if b then some (registered_as p h) else o)
        ≡ or_else (entry_of (or_else a (if b then some (p, h) else none))) o
  entry_of-or none true p h o = refl
  entry_of-or none false p h o = refl
  entry_of-or (some a) b p h o = refl

  by_entry_handler :
      (a : Option (String × Handler H D)) → handler_of (or_else (entry_of a) none) ≡ handler_at a
  by_entry_handler none = refl
  by_entry_handler (some (p, h)) = refl

  by_entry_declared :
      (a : Option (String × Handler H D)) → declared_of (or_else (entry_of a) none) ≡ declared_at a
  by_entry_declared none = refl
  by_entry_declared (some (p, h)) =
      ap (λ k. some (p, k)) (kind-flags h.is_event_handler h.broadcast_extra h.ordered_extra)

  lookup-register_loop :
      (s : String) (hs : List (String × Handler H D)) (m m' : List (String × RegisteredHandler H D))
      → register_loop names hs m ≡ some m'
      → lookup s m' ≡ or_else (entry_of (last_for s hs)) (lookup s m)
  unfolding register_loop
  lookup-register_loop s [] m m' e = sym (ap (λ o. lookup s (from m o)) e)
  lookup-register_loop s ((p, h) ∷ hs) m m' e =
      let j = subject names (kind_of h) p in
      lookup-register_loop s hs (set j (registered_as p h) m) m' (no_throw (conflicts h) e)
      ∙ ap (λ o. or_else (entry_of (last_for s hs)) o) (lookup-set s j (registered_as p h) m)
      ∙ entry_of-or (last_for s hs) (str_eq j s) p h (lookup s m)

  is_none-register_loop :
      (hs : List (String × Handler H D)) (m : List (String × RegisteredHandler H D))
      → is_none (register_loop names hs m) ≡ any (λ (p, h). conflicts h) hs
  unfolding register_loop
  is_none-register_loop [] m = refl
  is_none-register_loop ((p, h) ∷ hs) m =
      is_none-if (conflicts h)
        (register_loop names hs (set (subject names (kind_of h) p) (registered_as p h) m))
      ∙ ap (λ b. conflicts h || b)
          (is_none-register_loop hs (set (subject names (kind_of h) p) (registered_as p h) m))

  last_for-subject :
      (s : String) (hs : List (String × Handler H D)) (p : String) (h : Handler H D)
      → last_for s hs ≡ some (p, h)
      → subject names (kind_of h) p ≡ s
  last_for-subject s [] p h e = cc
  last_for-subject s ((q, g) ∷ hs) p h e =
      elim (last_step (last_for s hs) (str_eq (subject names (kind_of g) q) s) (q, g) (p, h) e) [
        | inl l ↦ last_for-subject s hs p h l
        | inr (t, x) ↦
            sym (ap (λ (c, d). subject names (kind_of d) c) x)
            ∙ (eq_iff (subject names (kind_of g) q) s).0 t
      ]

  served :
      (s p : String) (k : StreamKind) (o : Option (String × Handler H D))
      → ((q : String) (h : Handler H D) → o ≡ some (q, h) → subject names (kind_of h) q ≡ s)
      → declared_at o ≡ some (p, k)
      → subject names k p ≡ s
  served s p k none f d = cc
  served s p k (some (q, h)) f d =
      sym (ap (λ (c, j). subject names j c) (ap (from (q, kind_of h)) d)) ∙ f q h refl

  -- Registration is refused if and only if some handler is marked both as broadcast and as ordered.
  pub register_handlers-conflict :
      (hs : List (String × Handler H D))
      → is_none (register_handlers names hs new) ≡ any (λ (p, h). conflicts h) hs
  unfolding register_handlers new
  register_handlers-conflict hs =
      is_none-finish (register_loop names hs []) ∙ is_none-register_loop hs []

  -- After a registration that succeeds, a subject is served by the last handler that was given for
  -- it, with the pattern that this handler declared and the kind that its flags choose; a subject
  -- that no handler was given for is served by none.
  pub register_handlers-lookup :
      (hs : List (String × Handler H D)) (r : PatternRegistry H D) (s : String)
      → register_handlers names hs new ≡ some r
      → (get_handler r s ≡ handler_at (last_for s hs))
        × (resolve_declared r s ≡ declared_at (last_for s hs))
  unfolding register_handlers new get_handler resolve_declared
  register_handlers-lookup hs r s e =
      let l = lookup-register_loop s hs [] r.registry (finished (register_loop names hs []) r e) in
      (
        ap handler_of l ∙ by_entry_handler (last_for s hs),
        ap declared_of l ∙ by_entry_declared (last_for s hs),
      )

  -- The pattern and the kind that a subject is resolved to give back the subject.
  pub resolve_declared-subject :
      (hs : List (String × Handler H D)) (r : PatternRegistry H D) (s p : String) (k : StreamKind)
      → register_handlers names hs new ≡ some r
      → resolve_declared r s ≡ some (p, k)
      → subject names k p ≡ s
  resolve_declared-subject hs r s p k e d =
      served s p k (last_for s hs) (last_for-subject s hs)
        (sym (register_handlers-lookup hs r s e).1 ∙ d)

-- the patterns of a kind
abbrev pub patterns_of : StreamKind → PatternsByKind → List String
patterns_of event k = k.events
patterns_of command k = k.commands
patterns_of broadcast k = k.broadcasts
patterns_of ordered k = k.ordereds

-- An entry is listed where its flags resolve to.
patterns_of-flags :
    (k : StreamKind) (b o e : Bool) (p : String) (ps : PatternsByKind)
    → patterns_of k (
        if b
        then record ps { broadcasts = p ∷ ps.broadcasts }
        else if o
        then record ps { ordereds = p ∷ ps.ordereds }
        else if e
        then record ps { events = p ∷ ps.events }
        else record ps { commands = p ∷ ps.commands })
      ≡ (if is_kind k (if b then broadcast else if o then ordered else if e then event else command)
          then p ∷ patterns_of k ps
          else patterns_of k ps)
patterns_of-flags event true o e p ps = refl
patterns_of-flags event false true e p ps = refl
patterns_of-flags event false false true p ps = refl
patterns_of-flags event false false false p ps = refl
patterns_of-flags command true o e p ps = refl
patterns_of-flags command false true e p ps = refl
patterns_of-flags command false false true p ps = refl
patterns_of-flags command false false false p ps = refl
patterns_of-flags broadcast true o e p ps = refl
patterns_of-flags broadcast false true e p ps = refl
patterns_of-flags broadcast false false true p ps = refl
patterns_of-flags broadcast false false false p ps = refl
patterns_of-flags ordered true o e p ps = refl
patterns_of-flags ordered false true e p ps = refl
patterns_of-flags ordered false false true p ps = refl
patterns_of-flags ordered false false false p ps = refl

module _ {H D : Type 0} where
  map-keep_if :
      (k : StreamKind) (b : Bool) (s : String) (e : RegisteredHandler H D)
      (rest : List (String × RegisteredHandler H D))
      → map (λ (t, x). x.pattern) (if b then (s, e) ∷ rest else rest)
        ≡ (if b then e.pattern ∷ map (λ (t, x). x.pattern) rest else map (λ (t, x). x.pattern) rest)
  map-keep_if k true s e rest = refl
  map-keep_if k false s e rest = refl

  -- Whatever is registered, the patterns listed for a kind are those of the entries that resolve to
  -- this kind, in the order of registration: the four lists share the entries out among them.
  pub patterns_of-build :
      (k : StreamKind) (m : List (String × RegisteredHandler H D))
      → patterns_of k (build_patterns_by_kind m)
        ≡ map (λ (s, e). e.pattern) (keep (λ (s, e). is_kind k (resolve_stream_kind e)) m)
  unfolding build_patterns_by_kind
  patterns_of-build event [] = refl
  patterns_of-build command [] = refl
  patterns_of-build broadcast [] = refl
  patterns_of-build ordered [] = refl
  patterns_of-build k ((s, e) ∷ m) =
      let b = is_kind k (resolve_stream_kind e) in
      patterns_of-flags k e.is_broadcast e.is_ordered e.is_event e.pattern
        (build_patterns_by_kind m)
      ∙ ap (λ t. if b then e.pattern ∷ t else t) (patterns_of-build k m)
      ∙ sym (map-keep_if k b s e (keep (λ (t, x). is_kind k (resolve_stream_kind x)) m))
