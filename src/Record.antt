-- ===== src/Record.antt =====
-- src/client/jetstream.record.ts: a message record and its builder.
--
-- A method that throws leaves the builder as it is then, which is the first component of its result;
-- a caller may catch the error and go on. Times are milliseconds, given as numbers.
pub mod Duration
pub mod Laws
pub mod Examples
use Prim.Native.String.{String}
use nestjs_jetstream.Prelude.{
  ℕ, ◌*◌, ◌/◌, ◌%◌, Bool, true, false, ◌&&◌, ◌||◌, ◌==◌, Option, none, some, List, [], ◌∷◌, map,
  if◌then◌else◌, leb,
}
use nestjs_jetstream.Maps.{set}
use nestjs_jetstream.Event.Headers.{codes, lower, is_control}

pub data DurationUnit : Type 0 where
  hours minutes seconds milliseconds nanoseconds : DurationUnit

-- The text is the number in decimal, followed by the unit: `h`, `m`, `s`, `ms` or `ns`.
pub record GoDuration : Type 0 where
  pub amount : ℕ
  pub unit : DurationUnit

abbrev pub ns_per_ms : ℕ
ns_per_ms = 1000000

abbrev pub ns_per_s : ℕ
ns_per_s = 1000000000

abbrev pub ns_per_m : ℕ
ns_per_m = 60000000000

abbrev pub ns_per_h : ℕ
ns_per_h = 3600000000000

abbrev pub fits : ℕ → ℕ → Bool
fits unit nanos = leb unit nanos && (nanos % unit == 0)

-- On a whole number of nanoseconds.
unfoldable pub nanos_to_go_duration : ℕ → GoDuration
nanos_to_go_duration nanos =
    if fits ns_per_h nanos
    then record { amount = nanos / ns_per_h; unit = hours }
    else if fits ns_per_m nanos
    then record { amount = nanos / ns_per_m; unit = minutes }
    else if fits ns_per_s nanos
    then record { amount = nanos / ns_per_s; unit = seconds }
    else if fits ns_per_ms nanos
    then record { amount = nanos / ns_per_ms; unit = milliseconds }
    else record { amount = nanos; unit = nanoseconds }

-- `D` stands for the payloads.
pub record JetstreamRecord (D : Type 0) : Type 0 where
  pub data_of : Option D
  pub headers : List (String × String)
  pub timeout : Option ℕ
  pub message_id : Option String
  pub schedule : Option ℕ
  pub ttl_duration : Option GoDuration

-- The fields of the builder are those of the record.
pub record Builder (D : Type 0) : Type 0 where
  pub data_of : Option D
  pub headers : List (String × String)
  pub timeout : Option ℕ
  pub message_id : Option String
  pub schedule : Option ℕ
  pub ttl_duration : Option GoDuration

pub data RecordError : Type 0 where
  control_header reserved_header : String → RecordError
  invalid_date date_not_in_future invalid_ttl : RecordError

-- A date that is invalid has a time that is not a number.
pub data Date : Type 0 where
  not_a_date : Date
  time : ℕ → Date

-- A time to live: not finite or below 0, or a whole number.
pub data Nanos : Type 0 where
  infinite_or_negative : Nanos
  nanos : ℕ → Nanos

abbrev pub equals : List ℕ → List ℕ → Bool
equals [] [] = true
equals (x ∷ xs) (y ∷ ys) = x == y && equals xs ys
equals _ _ = false

abbrev pub lowered : String → List ℕ
lowered k = map lower (codes k)

-- `RESERVED_HEADERS.has(normalized)`; the names are of letters that `lower` lowers as the source does.
unfoldable pub is_reserved : String → Bool
is_reserved k =
    equals (lowered k) (codes "x-correlation-id")
    || (equals (lowered k) (codes "x-reply-to") || equals (lowered k) (codes "x-error"))

unfoldable pub validate_header_key : String → Option RecordError
validate_header_key k =
    if is_control k
    then some (control_header k)
    else if is_reserved k
    then some (reserved_header k)
    else none

module _ {D : Type 0} where
  unfoldable pub builder : Option D → Builder D
  builder d = record {
    data_of = d;
    headers = [];
    timeout = none;
    message_id = none;
    schedule = none;
    ttl_duration = none;
  }

  abbrev pub set_data : D → Builder D → Builder D × Option RecordError
  set_data d b = (record b { data_of = some d }, none)

  abbrev pub set_valid :
      Option RecordError → String → String → Builder D → Builder D × Option RecordError
  set_valid (some e) k v b = (b, some e)
  set_valid none k v b = (record b { headers = set k v b.headers }, none)

  unfoldable pub set_header : String → String → Builder D → Builder D × Option RecordError
  unfolding set
  set_header k v b = set_valid (validate_header_key k) k v b

  -- An exception ends the loop.
  abbrev pub go_on :
      Builder D × Option RecordError
      → (Builder D → Builder D × Option RecordError)
      → Builder D × Option RecordError
  go_on (b, some e) f = (b, some e)
  go_on (b, none) f = f b

  unfoldable pub set_headers : List (String × String) → Builder D → Builder D × Option RecordError
  set_headers [] b = (b, none)
  set_headers ((k, v) ∷ hs) b = go_on (set_header k v b) (λ c. set_headers hs c)

  abbrev pub set_message_id : String → Builder D → Builder D × Option RecordError
  set_message_id id b = (record b { message_id = some id }, none)

  abbrev pub set_timeout : ℕ → Builder D → Builder D × Option RecordError
  set_timeout ms b = (record b { timeout = some ms }, none)

  -- `now` is the clock.
  unfoldable pub schedule_at : ℕ → Date → Builder D → Builder D × Option RecordError
  schedule_at now not_a_date b = (b, some invalid_date)
  schedule_at now (time t) b =
      if leb t now then (b, some date_not_in_future) else (record b { schedule = some t }, none)

  unfoldable pub ttl : Nanos → Builder D → Builder D × Option RecordError
  ttl infinite_or_negative b = (b, some invalid_ttl)
  ttl (nanos n) b =
      if n == 0
      then (b, some invalid_ttl)
      else (record b { ttl_duration = some (nanos_to_go_duration n) }, none)

  abbrev pub build : Builder D → JetstreamRecord D
  build b = record {
    data_of = b.data_of;
    headers = b.headers;
    timeout = b.timeout;
    message_id = b.message_id;
    schedule = b.schedule;
    ttl_duration = b.ttl_duration;
  }
