-- ===== src/Registry.antt =====
-- src/server/routing/pattern-registry.ts: which handler a subject has, and of which kind it is.
--
-- `H` stands for the handlers and `D` for their metadata. Registration that throws is `none`.
pub mod Laws
pub mod Examples
use Prim.Native.String.{String}
use nestjs_jetstream.Prelude.{
  ℕ, Bool, true, false, not, ◌&&◌, Option, none, some, List, [], ◌∷◌, if◌then◌else◌, ltb, length,
  any, map,
}
use nestjs_jetstream.Maps.{lookup, set}
use nestjs_jetstream.Names.{
  StreamKind, event, command, broadcast, ordered, KindNames, subject, metadata_key,
}

-- `isEventHandler`, `extras.broadcast`, `extras.ordered` and `extras.meta` of a handler.
pub record Handler (H D : Type 0) : Type 0 where
  pub handler : H
  pub is_event_handler : Bool
  pub broadcast_extra : Bool
  pub ordered_extra : Bool
  pub meta : Option D

pub record RegisteredHandler (H D : Type 0) : Type 0 where
  pub handler : H
  pub pattern : String
  pub is_event : Bool
  pub is_broadcast : Bool
  pub is_ordered : Bool
  pub meta : Option D

pub record PatternsByKind : Type 0 where
  pub events : List String
  pub commands : List String
  pub broadcasts : List String
  pub ordereds : List String

pub record PatternRegistry (H D : Type 0) : Type 0 where
  pub registry : List (String × RegisteredHandler H D)
  pub cached_patterns : Option PatternsByKind
  pub has_events : Bool
  pub has_commands : Bool
  pub has_broadcasts : Bool
  pub has_ordered : Bool
  pub has_metadata : Bool

unfoldable pub new : {H D : Type 0} → PatternRegistry H D
new = record {
  registry = [];
  cached_patterns = none;
  has_events = false;
  has_commands = false;
  has_broadcasts = false;
  has_ordered = false;
  has_metadata = false;
}

abbrev is_set : {D : Type 0} → Option D → Bool
is_set none = false
is_set (some _) = true

module _ {H D : Type 0} where
  abbrev pub resolve_stream_kind : RegisteredHandler H D → StreamKind
  resolve_stream_kind e =
      if e.is_broadcast
      then broadcast
      else if e.is_ordered
      then ordered
      else if e.is_event
      then event
      else command

  -- The kind that registration picks, from the handler's own flags.
  abbrev pub kind_of : Handler H D → StreamKind
  kind_of h =
      if h.broadcast_extra
      then broadcast
      else if h.ordered_extra
      then ordered
      else if h.is_event_handler
      then event
      else command

  abbrev pub conflicts : Handler H D → Bool
  conflicts h = h.broadcast_extra && h.ordered_extra

  abbrev pub registered_as : String → Handler H D → RegisteredHandler H D
  registered_as pattern h = record {
    handler = h.handler;
    pattern = pattern;
    is_event = h.is_event_handler && not h.ordered_extra;
    is_broadcast = h.broadcast_extra;
    is_ordered = h.ordered_extra;
    meta = h.meta;
  }

  -- The loop's round: the code tests the flags here by itself.
  abbrev pub push_pattern : RegisteredHandler H D → PatternsByKind → PatternsByKind
  push_pattern e k =
      if e.is_broadcast
      then record k { broadcasts = e.pattern ∷ k.broadcasts }
      else if e.is_ordered
      then record k { ordereds = e.pattern ∷ k.ordereds }
      else if e.is_event
      then record k { events = e.pattern ∷ k.events }
      else record k { commands = e.pattern ∷ k.commands }

  unfoldable pub build_patterns_by_kind : List (String × RegisteredHandler H D) → PatternsByKind
  build_patterns_by_kind [] = record { events = []; commands = []; broadcasts = []; ordereds = [] }
  build_patterns_by_kind ((s, e) ∷ m) = push_pattern e (build_patterns_by_kind m)

  -- The loop of `registerHandlers`.
  unfoldable pub register_loop :
      (StreamKind → KindNames)
      → List (String × Handler H D)
      → List (String × RegisteredHandler H D)
      → Option (List (String × RegisteredHandler H D))
  unfolding set
  register_loop names [] m = some m
  register_loop names ((pattern, h) ∷ hs) m =
      let rest =
        register_loop names hs
          (set (subject names (kind_of h) pattern) (registered_as pattern h) m) in
      if conflicts h then none else rest

  abbrev pub finish : List (String × RegisteredHandler H D) → PatternRegistry H D
  finish m =
      let k = build_patterns_by_kind m in
      record {
        registry = m;
        cached_patterns = some k;
        has_events = ltb 0 (length k.events);
        has_commands = ltb 0 (length k.commands);
        has_broadcasts = ltb 0 (length k.broadcasts);
        has_ordered = ltb 0 (length k.ordereds);
        has_metadata = any (λ (s, e). is_set e.meta) m;
      }

  unfoldable pub register_handlers :
      (StreamKind → KindNames)
      → List (String × Handler H D)
      → PatternRegistry H D
      → Option (PatternRegistry H D)
  unfolding register_loop build_patterns_by_kind
  register_handlers names hs r = elim (register_loop names hs r.registry) [
    | none ↦ none
    | some m ↦ some (finish m)
  ]

  abbrev pub handler_of : Option (RegisteredHandler H D) → Option H
  handler_of none = none
  handler_of (some e) = some e.handler

  unfoldable pub get_handler : PatternRegistry H D → String → Option H
  unfolding lookup
  get_handler r s = handler_of (lookup s r.registry)

  abbrev pub declared_of : Option (RegisteredHandler H D) → Option (String × StreamKind)
  declared_of none = none
  declared_of (some e) = some (e.pattern, resolve_stream_kind e)

  unfoldable pub resolve_declared : PatternRegistry H D → String → Option (String × StreamKind)
  unfolding lookup
  resolve_declared r s = declared_of (lookup s r.registry)

  abbrev pub get_patterns_by_kind : PatternRegistry H D → PatternsByKind
  get_patterns_by_kind r = elim r.cached_patterns [
    | none ↦ build_patterns_by_kind r.registry
    | some k ↦ k
  ]

  abbrev pub get_broadcast_patterns : (StreamKind → KindNames) → PatternRegistry H D → List String
  get_broadcast_patterns names r = map (subject names broadcast) (get_patterns_by_kind r).broadcasts

  abbrev pub get_ordered_subjects : (StreamKind → KindNames) → PatternRegistry H D → List String
  get_ordered_subjects names r = map (subject names ordered) (get_patterns_by_kind r).ordereds

  -- The loop of `getMetadataEntries`.
  metadata_loop :
      String → List (String × RegisteredHandler H D) → List (String × D) → List (String × D)
  unfolding set
  metadata_loop service [] entries = entries
  metadata_loop service ((s, e) ∷ m) entries = elim e.meta [
    | none ↦ metadata_loop service m entries
    | some d ↦
        metadata_loop service m
          (set (metadata_key service (resolve_stream_kind e) e.pattern) d entries)
  ]

  unfoldable pub get_metadata_entries : String → PatternRegistry H D → List (String × D)
  unfolding metadata_loop
  get_metadata_entries service r = metadata_loop service r.registry []
