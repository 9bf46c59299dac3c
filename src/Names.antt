-- ===== src/Names.antt =====
-- src/server/infrastructure/name-resolver.ts: the names of streams, consumers and subjects, with the
-- naming functions of src/jetstream.constants.ts.
--
-- An error that is thrown is `none`; its text is left out.
pub mod Laws
pub mod Examples
use Prim.Native.Char.{code}
use Prim.Native.String
use Prim.Native.String.{String, len, slice}
use text.Mathlib.Text.{◌==◌ as str_eq, starts_with}
use nestjs_jetstream.Prelude.{
  Bool, true, false, ◌||◌, ◌==◌, Option, none, some, List, [], ◌∷◌, if◌then◌else◌, any,
}
use nestjs_jetstream.Subject.{split}

pub data StreamKind : Type 0 where
  event command broadcast ordered : StreamKind

abbrev pub is_kind : StreamKind → StreamKind → Bool
is_kind event event = true
is_kind command command = true
is_kind broadcast broadcast = true
is_kind ordered ordered = true
is_kind _ _ = false

-- The kind's text in names.
abbrev pub kind_text : StreamKind → String
kind_text event = "ev"
kind_text command = "cmd"
kind_text broadcast = "broadcast"
kind_text ordered = "ordered"

infixr 65 ◌<>◌
abbrev pub ◌<>◌ : String → String → String
s <> t = String.◌++◌ s t

abbrev pub internal_name : String → String
internal_name name = name <> "__microservice"

abbrev pub subject_prefix : String → StreamKind → String
subject_prefix service kind = internal_name service <> "." <> kind_text kind <> "."

abbrev pub broadcast_subject_prefix : String
broadcast_subject_prefix = "broadcast."

abbrev pub schedule_segment : String
schedule_segment = "_sch."

abbrev pub stream_name : String → StreamKind → String
stream_name service broadcast = "broadcast-stream"
stream_name service kind = internal_name service <> "_" <> kind_text kind <> "-stream"

abbrev pub dlq_stream_name : String → String
dlq_stream_name service = internal_name service <> "_dlq-stream"

abbrev pub consumer_name : String → StreamKind → String
consumer_name service broadcast = internal_name service <> "_broadcast-consumer"
consumer_name service kind = internal_name service <> "_" <> kind_text kind <> "-consumer"

abbrev pub metadata_key : String → StreamKind → String → String
metadata_key service kind pattern = service <> "." <> kind_text kind <> "." <> pattern

-- What a kind's options set: `subjectPrefix`, `stream.name` and `consumer.durable_name`.
pub record KindOptionsBlock : Type 0 where
  pub custom_prefix : Option String
  pub stream : Option String
  pub durable : Option String

-- `rpc` is missing, or in core mode, or in JetStream mode with a block.
pub data RpcConfig : Type 0 where
  rpc_unset rpc_core : RpcConfig
  rpc_jetstream : KindOptionsBlock → RpcConfig

pub record Options : Type 0 where
  pub name : String
  pub events : Option KindOptionsBlock
  pub broadcasts : Option KindOptionsBlock
  pub ordereds : Option KindOptionsBlock
  pub rpc : RpcConfig

pub record KindNames : Type 0 where
  pub stream : String
  pub consumer : String
  pub prefix : String
  pub schedule_prefix : String
  pub custom : Bool

abbrev rpc_block : RpcConfig → Option KindOptionsBlock
rpc_block (rpc_jetstream b) = some b
rpc_block _ = none

abbrev pub kind_options_block : Options → StreamKind → Option KindOptionsBlock
kind_options_block o event = o.events
kind_options_block o broadcast = o.broadcasts
kind_options_block o ordered = o.ordereds
kind_options_block o command = rpc_block o.rpc

-- The loop that drops the dots at the end.
trim_dots : String → String
trim_dots String.[] = ""
trim_dots (String.◌∷◌ c s) =
    let rest = trim_dots s in
    if str_eq rest "" then (if code c == b'.' then "" else String.◌∷◌ c "") else String.◌∷◌ c rest

unfoldable pub normalize_prefix : String → Option String
unfolding trim_dots
normalize_prefix raw =
    let trimmed = trim_dots raw in
    if str_eq trimmed "" || any (λ t. str_eq t "" || str_eq t ">") (split trimmed)
    then none
    else some (trimmed <> ".")

abbrev pub convention_prefix : String → StreamKind → String
convention_prefix name broadcast = broadcast_subject_prefix
convention_prefix name kind = subject_prefix name kind

abbrev pub convention_schedule_prefix : String → StreamKind → String
convention_schedule_prefix name broadcast = broadcast_subject_prefix <> schedule_segment
convention_schedule_prefix name kind = internal_name name <> "." <> schedule_segment

abbrev or_else : Option String → String → String
or_else none d = d
or_else (some s) d = s

abbrev conventional : String → StreamKind → Option String → Option String → KindNames
conventional name kind stream durable = record {
  stream = or_else stream (stream_name name kind);
  consumer = or_else durable (consumer_name name kind);
  prefix = convention_prefix name kind;
  schedule_prefix = convention_schedule_prefix name kind;
  custom = false;
}

-- The names of a service that sets none of its own.
abbrev pub names_by_convention : String → StreamKind → KindNames
names_by_convention name kind = conventional name kind none none

-- The entry of one kind in `buildKindMap`.
unfoldable pub names_for : String → StreamKind → Option KindOptionsBlock → Option KindNames
names_for name kind none = some (conventional name kind none none)
names_for name kind (some b) = elim b.custom_prefix [
  | none ↦ some (conventional name kind b.stream b.durable)
  | some raw ↦ elim (normalize_prefix raw) [
    | none ↦ none
    | some p ↦ some (record {
      stream = or_else b.stream (stream_name name kind);
      consumer = or_else b.durable (consumer_name name kind);
      prefix = p;
      schedule_prefix = p <> schedule_segment;
      custom = true;
    })
  ]
]

abbrev by_kind : KindNames → KindNames → KindNames → KindNames → StreamKind → KindNames
by_kind e c b s event = e
by_kind e c b s command = c
by_kind e c b s broadcast = b
by_kind e c b s ordered = s

-- `buildKindMap` in the constructor: every kind has an entry, or the constructor throws.
unfoldable pub build_kind_map : Options → Option (StreamKind → KindNames)
unfolding names_for
build_kind_map o = elim (names_for o.name event (kind_options_block o event)) [
  | none ↦ none
  | some e ↦ elim (names_for o.name command (kind_options_block o command)) [
    | none ↦ none
    | some c ↦ elim (names_for o.name broadcast (kind_options_block o broadcast)) [
      | none ↦ none
      | some b ↦ elim (names_for o.name ordered (kind_options_block o ordered)) [
        | none ↦ none
        | some s ↦ some (by_kind e c b s)
      ]
    ]
  ]
]

abbrev pub subject : (StreamKind → KindNames) → StreamKind → String → String
subject names kind pattern = (names kind).prefix <> pattern

abbrev pub filter_subject : (StreamKind → KindNames) → StreamKind → String
filter_subject names kind = (names kind).prefix <> ">"

-- The loop of `scheduleSubjectBase`; `slice` and `len` are those of the text's encoding.
unfoldable pub base_by : List KindNames → String → Option String
base_by [] s = none
base_by (n ∷ ns) s =
    let rest = base_by ns s in
    if starts_with s n.prefix
    then some (n.schedule_prefix <> slice s (len n.prefix) (len s))
    else rest

unfoldable pub schedule_subject_base : (StreamKind → KindNames) → String → Option String
unfolding base_by
schedule_subject_base names s = base_by (names broadcast ∷ names event ∷ names ordered ∷ []) s

-- What follows the first dot.
unfoldable pub after_dot : String → Option String
after_dot String.[] = none
after_dot (String.◌∷◌ c s) = let rest = after_dot s in if code c == b'.' then some s else rest

unfoldable pub convention_schedule_subject_base : String → String → Option String
unfolding after_dot
convention_schedule_subject_base target s =
    let own = internal_name target <> "." in
    if starts_with s broadcast_subject_prefix
    then some (
        broadcast_subject_prefix
        <> schedule_segment
        <> slice s (len broadcast_subject_prefix) (len s))
    else if starts_with s own
    then elim (after_dot (slice s (len own) (len s))) [
      | none ↦ none
      | some rest ↦ some (own <> schedule_segment <> rest)
    ]
    else none
