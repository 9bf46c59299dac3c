-- ===== src/Management.antt =====
-- src/server/infrastructure/management.ts: who manages a stream or a consumer.
use nestjs_jetstream.Prelude.{Bool, true, false, Option, none, some}
use nestjs_jetstream.Names.{StreamKind}

pub data ManagementMode : Type 0 where
  auto manual : ManagementMode

pub data ManagedEntity : Type 0 where
  stream consumer : ManagedEntity

-- A kind, or the dead letter queue.
pub data ManagedKind : Type 0 where
  kind_of : StreamKind → ManagedKind
  dlq : ManagedKind

-- What a block of the options says of its stream and its consumer.
pub record EntityManagement : Type 0 where
  pub stream_mode : Option ManagementMode
  pub consumer_mode : Option ManagementMode

-- `blocks`: the `management` entry of the block of a kind or of the dead letter queue, if it has one.
-- `schedules`: whether a kind's stream overrides set `allow_msg_schedules` to true.
pub record Settings : Type 0 where
  pub blocks : ManagedKind → Option EntityManagement
  pub provisioning : Option ManagementMode
  pub schedules : StreamKind → Bool

abbrev entity_mode : ManagedEntity → Option EntityManagement → Option ManagementMode
entity_mode e none = none
entity_mode stream (some m) = m.stream_mode
entity_mode consumer (some m) = m.consumer_mode

abbrev or_else : Option ManagementMode → ManagementMode → ManagementMode
or_else none d = d
or_else (some m) d = m

unfoldable pub resolve_management_mode : Settings → ManagedKind → ManagedEntity → ManagementMode
resolve_management_mode s kind entity =
    or_else (entity_mode entity (s.blocks kind)) (or_else s.provisioning auto)

abbrev pub is_manual : ManagementMode → Bool
is_manual manual = true
is_manual auto = false
