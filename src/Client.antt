-- ===== src/Client.antt =====
-- src/client/jetstream.client.ts: what a client knows of its target, and the subjects and headers of
-- what it sends. Tracing and logging are left out.
pub mod Emit
pub mod Published
pub mod Request
pub mod Ended
pub mod Phases
pub mod Deadline
pub mod Once
pub mod Subjects
pub mod Core
pub mod Answer
pub mod Session
pub mod Examples
pub mod Reserved
use Prim.Native.String.{String, len, slice}
use text.Mathlib.Text.{◌==◌ as str_eq, starts_with}
use nestjs_jetstream.Prelude.{
  ℕ, Bool, true, false, Option, none, some, List, [], ◌∷◌, ◌++◌, if◌then◌else◌,
}
use nestjs_jetstream.Names.{
  StreamKind, event, command, broadcast, ordered, ◌<>◌, internal_name, subject_prefix,
  broadcast_subject_prefix, RpcConfig, rpc_unset, rpc_core, rpc_jetstream, Options, KindNames,
  build_kind_map, subject, schedule_subject_base, convention_schedule_subject_base,
}
use nestjs_jetstream.Event.Actions.{HeaderCall, set}
use nestjs_jetstream.Record.{JetstreamRecord, GoDuration}

abbrev pub broadcast_pattern : String
broadcast_pattern = "broadcast:"

abbrev pub ordered_pattern : String
ordered_pattern = "ordered:"

pub data EventPublishKind : Type 0 where
  as_event as_broadcast as_ordered : EventPublishKind

unfoldable pub detect_event_kind : String → EventPublishKind
detect_event_kind pattern =
    if starts_with pattern broadcast_pattern
    then as_broadcast
    else if starts_with pattern ordered_pattern
    then as_ordered
    else as_event

-- `pattern.slice(prefix.length)`, in the text's encoding
abbrev pub slice_from : String → String → String
slice_from prefix pattern = slice pattern (len prefix) (len pattern)

unfoldable pub declared_event_pattern : String → EventPublishKind → String
declared_event_pattern pattern as_broadcast = slice_from broadcast_pattern pattern
declared_event_pattern pattern as_ordered = slice_from ordered_pattern pattern
declared_event_pattern pattern as_event = pattern

abbrev pub event_stream_kind : EventPublishKind → StreamKind
event_stream_kind as_broadcast = broadcast
event_stream_kind as_ordered = ordered
event_stream_kind as_event = event

abbrev pub is_core_rpc_mode : RpcConfig → Bool
is_core_rpc_mode rpc_unset = true
is_core_rpc_mode rpc_core = true
is_core_rpc_mode (rpc_jetstream b) = false

-- `rpc.timeout ?? ...`
abbrev pub rpc_timeout : Bool → Option ℕ → ℕ
rpc_timeout core (some t) = t
rpc_timeout true none = 30000
rpc_timeout false none = 180000

-- The fields that the constructor sets; `self_names` is set for a client of the own service.
pub record Client : Type 0 where
  pub target_name : String
  pub caller_name : String
  pub event_subject_prefix : String
  pub command_subject_prefix : String
  pub ordered_subject_prefix : String
  pub broadcast_prefix : String
  pub self_names : Option (StreamKind → KindNames)
  pub is_core_mode : Bool
  pub default_rpc_timeout : ℕ

-- `names ?? (isSelf ? new NameResolver(rootOptions) : null)`; the resolver may throw.
abbrev pub own_names :
    Options → Bool → Option (StreamKind → KindNames) → Option (Option (StreamKind → KindNames))
own_names o self (some names) = some (some names)
own_names o false none = some none
own_names o true none = elim (build_kind_map o) [ none ↦ none | some names ↦ some (some names) ]

abbrev pub prefix_for_broadcasts : Option (StreamKind → KindNames) → String
prefix_for_broadcasts none = broadcast_subject_prefix
prefix_for_broadcasts (some names) = subject names broadcast ""

abbrev pub client_of : Options → String → Option ℕ → Option (StreamKind → KindNames) → Client
client_of o target timeout names = record {
  target_name = target;
  caller_name = internal_name o.name;
  event_subject_prefix = subject_prefix target event;
  command_subject_prefix = subject_prefix target command;
  ordered_subject_prefix = subject_prefix target ordered;
  broadcast_prefix = prefix_for_broadcasts names;
  self_names = if str_eq target o.name then names else none;
  is_core_mode = is_core_rpc_mode o.rpc;
  default_rpc_timeout = rpc_timeout (is_core_rpc_mode o.rpc) timeout;
}

-- The constructor: the options of the own service, the target's name, `rpc.timeout`, and the names
-- if they are given. `none` if the names of the own service are refused.
unfoldable pub new : Options → String → Option ℕ → Option (StreamKind → KindNames) → Option Client
new o target timeout names = elim (own_names o (str_eq target o.name) names) [
  | none ↦ none
  | some own ↦ some (client_of o target timeout own)
]

abbrev pub own_or : Option (StreamKind → KindNames) → StreamKind → String → String → String
own_or none kind prefix pattern = prefix <> pattern
own_or (some names) kind prefix pattern = subject names kind pattern

unfoldable pub build_event_subject : Client → String → String
build_event_subject c pattern =
    if starts_with pattern broadcast_pattern
    then c.broadcast_prefix <> slice_from broadcast_pattern pattern
    else if starts_with pattern ordered_pattern
    then own_or c.self_names ordered c.ordered_subject_prefix (slice_from ordered_pattern pattern)
    else own_or c.self_names event c.event_subject_prefix pattern

-- The subject of a command, in `publish`.
abbrev pub build_command_subject : Client → String → String
build_command_subject c pattern = own_or c.self_names command c.command_subject_prefix pattern

abbrev pub schedule_base : Option (StreamKind → KindNames) → String → String → Option String
schedule_base none target s = convention_schedule_subject_base target s
schedule_base (some names) target s = schedule_subject_base names s

abbrev pub with_suffix : String → Option String → Option String
with_suffix id none = none
with_suffix id (some base) = some (base <> "." <> id)

-- `id`: the unique text that the client library makes. `none` if the subject has no base.
unfoldable pub build_schedule_subject : Client → String → String → Option String
build_schedule_subject c id s = with_suffix id (schedule_base c.self_names c.target_name s)

-- A header that is set unless its value is missing or empty.
abbrev pub set_present : String → Option String → List HeaderCall
set_present k none = []
set_present k (some v) = if str_eq v "" then [] else set k v ∷ []

unfoldable pub set_all : List (String × String) → List HeaderCall
set_all [] = []
set_all ((k, v) ∷ hs) = set k v ∷ set_all hs

-- The calls on the header object of the client library, in order.
unfoldable pub build_headers :
    Client → List (String × String) → String → Option String → Option String → List HeaderCall
unfolding set_all
build_headers c custom subject correlation_id reply_to =
    set "x-subject" subject
    ∷ set "x-caller-name" c.caller_name
    ∷ (set_present "x-correlation-id" correlation_id
        ++ (set_present "x-reply-to" reply_to ++ set_all custom))

-- The data of a packet: a record, or anything else.
pub data PacketData (D : Type 0) : Type 0 where
  of_record : JetstreamRecord D → PacketData D
  raw : Option D → PacketData D

abbrev pub raw_record : {D : Type 0} → Option D → JetstreamRecord D
raw_record d = record {
  data_of = d;
  headers = [];
  timeout = none;
  message_id = none;
  schedule = none;
  ttl_duration = none;
}

abbrev pub extract_record_data : {D : Type 0} → PacketData D → JetstreamRecord D
extract_record_data (of_record r) = r
extract_record_data (raw d) = raw_record d
