-- ===== src/Migration/Ledger.antt =====
-- What the answers of the server have shown about the copies of a stream's messages, and which
-- deletions this allows: the promise of a migration, apart from its code.
use Prim.Native.String.{String}
use text.Mathlib.Text.{◌==◌ as str_eq}
use nestjs_jetstream.Prelude.{
  ℕ, Bool, true, false, not, ◌&&◌, ◌||◌, Option, none, some, if◌then◌else◌, ◌==◌,
}
use nestjs_jetstream.Jsm.{
  ok, err, StreamSpec, StreamInfo, Event, stream_info, stream_update, stream_delete,
}
use nestjs_jetstream.Migration.{is_empty, is_drained}

-- `gone`: the original was deleted. `doubtful`: a deletion of it failed, which may have been done all
-- the same. `closed`: it takes no publishes. `count`: its messages, read since it was closed.
-- `copied`: since then the backup has reported that it drained them all. `held`: the messages that
-- the backup reported last. `restored`: the new stream has reported that it drained these.
pub record Ledger : Type 0 where
  pub gone : Bool
  pub doubtful : Bool
  pub closed : Bool
  pub count : Option ℕ
  pub copied : Bool
  pub held : Option ℕ
  pub restored : Bool

-- A stream that is there, with nothing known.
abbrev pub live : Ledger
live = record {
  gone = false;
  doubtful = false;
  closed = false;
  count = none;
  copied = false;
  held = none;
  restored = false;
}

-- The worst case: the backup may be the only copy.
abbrev pub lost : Ledger
lost = record live { gone = true }

abbrev pub is_zero : Option ℕ → Bool
is_zero none = false
is_zero (some n) = n == 0

abbrev pub has_drained : String → Option ℕ → StreamInfo → Bool
has_drained source none i = false
has_drained source (some n) i = is_drained source n i

module _ (stream backup : String) where
  abbrev pub see_stream : StreamInfo → Ledger → Ledger
  see_stream i l = record l {
    count = if l.closed && not l.gone then some i.messages else l.count;
    restored = l.restored || (l.gone && has_drained backup l.held i);
  }

  abbrev pub see_backup : StreamInfo → Ledger → Ledger
  see_backup i l = record l {
    held = some i.messages;
    copied = l.copied || (l.closed && has_drained stream l.count i);
  }

  -- Before the deletion, a configuration that is accepted opens or closes the stream, and shows that it
  -- is there.
  abbrev pub set_stream : StreamSpec → Ledger → Ledger
  set_stream c l =
      if l.gone
      then l
      else record l { closed = is_empty c.subjects; count = none; copied = false; doubtful = false }

  abbrev pub observe : Event → Ledger → Ledger
  observe (stream_info name (ok i)) l =
      if str_eq name stream
      then see_stream i l
      else if str_eq name backup
      then see_backup i l
      else l
  observe (stream_update name c (ok i)) l = if str_eq name stream then set_stream c l else l
  observe (stream_delete name (ok u)) l =
      if str_eq name stream then record l { gone = true; restored = false } else l
  observe (stream_delete name (err e)) l =
      if str_eq name stream then record l { doubtful = true } else l
  observe _ l = l

  -- The original may be deleted once it is closed, and empty or copied. The backup may be deleted
  -- while the original is there for certain, or if its messages are restored, or if it has none.
  -- Nothing else may be deleted, and no other stream is updated.
  abbrev pub permits : Event → Ledger → Bool
  permits (stream_delete name r) l =
      if str_eq name stream
      then l.closed && (is_zero l.count || l.copied)
      else str_eq name backup && ((not l.gone && not l.doubtful) || (l.restored || is_zero l.held))
  permits (stream_update name c r) l = str_eq name stream || str_eq name backup
  permits _ l = true
