-- ===== src/Registry/Examples.antt =====
-- Tests of the registry, and its theorems at a concrete service.
use Prim.Native.String.{String}
use nestjs_jetstream.Prelude.{ℕ, ◌≡◌, refl, true, false, none, some, List, [], ◌∷◌, map, keep, any}
use nestjs_jetstream.Maps.{set, lookup}
use nestjs_jetstream.Names.{
  StreamKind, event, ordered, KindNames, subject, is_kind, names_by_convention,
}
use nestjs_jetstream.Registry.{
  Handler, PatternRegistry, RegisteredHandler, conflicts, new, register_loop, register_handlers,
  build_patterns_by_kind, finish, get_handler, resolve_declared, registered_as, resolve_stream_kind,
}
use nestjs_jetstream.Registry.Laws.{
  is_none, patterns_of, register_handlers-conflict, register_handlers-lookup,
  resolve_declared-subject, patterns_of-build,
}

abbrev pub names : StreamKind → KindNames
names = names_by_convention "orders"

abbrev pub created : Handler ℕ ℕ
created = record {
  handler = 1;
  is_event_handler = true;
  broadcast_extra = false;
  ordered_extra = false;
  meta = none;
}

abbrev pub ordered_created : Handler ℕ ℕ
ordered_created = record {
  handler = 2;
  is_event_handler = true;
  broadcast_extra = false;
  ordered_extra = true;
  meta = some 5;
}

abbrev pub query : Handler ℕ ℕ
query = record {
  handler = 3;
  is_event_handler = false;
  broadcast_extra = false;
  ordered_extra = false;
  meta = none;
}

abbrev undecided : Handler ℕ ℕ
undecided = record {
  handler = 4;
  is_event_handler = true;
  broadcast_extra = true;
  ordered_extra = true;
  meta = none;
}

abbrev pub handlers : List (String × Handler ℕ ℕ)
handlers = ("created", created) ∷ ("created", ordered_created) ∷ ("get", query) ∷ []

abbrev pub entries : List (String × RegisteredHandler ℕ ℕ)
entries =
    ("orders__microservice.ev.created", registered_as "created" created)
    ∷ ("orders__microservice.ordered.created", registered_as "created" ordered_created)
    ∷ ("orders__microservice.cmd.get", registered_as "get" query)
    ∷ []

-- What the registry is once the handlers are registered.
abbrev pub service : PatternRegistry ℕ ℕ
service = finish entries

pub registered : register_handlers names handlers new ≡ some service
unfolding register_handlers register_loop new set build_patterns_by_kind
registered = refl

register_handlers-conflict_example :
    is_none (register_handlers names (("both", undecided) ∷ handlers) new)
    ≡ any (λ (p, h). conflicts h) (("both", undecided) ∷ handlers)
register_handlers-conflict_example =
    register_handlers-conflict names (("both", undecided) ∷ handlers)

register_handlers-lookup_example :
    (get_handler service "orders__microservice.ordered.created" ≡ some 2)
    × (resolve_declared service "orders__microservice.ordered.created" ≡ some ("created", ordered))
register_handlers-lookup_example =
    register_handlers-lookup names handlers service "orders__microservice.ordered.created"
      registered

resolve_declared-subject_example :
    subject names ordered "created" ≡ "orders__microservice.ordered.created"
unfolding resolve_declared lookup
resolve_declared-subject_example =
    resolve_declared-subject names handlers service "orders__microservice.ordered.created" "created"
      ordered registered refl

patterns_of-build_example :
    patterns_of event (build_patterns_by_kind entries)
    ≡ map (λ (s, e). e.pattern) (keep (λ (s, e). is_kind event (resolve_stream_kind e)) entries)
patterns_of-build_example = patterns_of-build event entries
