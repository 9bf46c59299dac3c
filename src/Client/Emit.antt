-- ===== src/Client/Emit.antt =====
-- src/client/jetstream.client.ts, `dispatchEvent`: one event that is emitted.
use Prim.Native.String.{String}
use nestjs_jetstream.Prelude.{
  ℕ, Bool, true, false, Option, none, some, List, [], ◌∷◌, if◌then◌else◌,
}
use nestjs_jetstream.Names.{StreamKind}
use nestjs_jetstream.Event.Actions.{Thrown, error, HeaderCall}
use nestjs_jetstream.Record.{JetstreamRecord, GoDuration}
use nestjs_jetstream.Client.{
  EventPublishKind, as_ordered, detect_event_kind, declared_event_pattern, event_stream_kind,
  Client, build_event_subject, build_schedule_subject, build_headers, PacketData,
  extract_record_data,
}

-- The options of a publication; the schedule's is its time, its target and the time to live.
pub record Publication (B : Type 0) : Type 0 where
  pub subject : String
  pub payload : B
  pub headers : List HeaderCall
  pub message_id : String
  pub schedule : Option (ℕ × (String × Option GoDuration))
  pub ttl_duration : Option GoDuration

pub data PublishStatus : Type 0 where
  success errored : PublishStatus

pub data Call (B : Type 0) : Type 0 where
  connects : Call B
  publishes : Publication B → Call B
  emits_published : String → StreamKind → PublishStatus → Call B

pub data Encoded (B : Type 0) : Type 0 where
  encoded : B → Encoded B
  unencodable : Thrown → Encoded B

-- What the surroundings do: whether the client is ready, whether connecting and publishing fail,
-- whether a header is refused, what the codec makes of the data, the unique texts, and whether the published hook is wanted. The
-- warning about a duplicate is only logged.
pub record World (D B : Type 0) : Type 0 where
  pub ready : Bool
  pub connecting : Option Thrown
  pub refusing : Option Thrown
  pub codec : Option D → Encoded B
  pub publishing : Publication B → Option Thrown
  pub fresh_id : String
  pub fresh_suffix : String
  pub has_hook : Bool

abbrev pub or_fresh : Option String → String → String
or_fresh none id = id
or_fresh (some id) fresh = id

abbrev pub with_schedule :
    Option ℕ → String → Option GoDuration → Option (ℕ × (String × Option GoDuration))
with_schedule none target ttl = none
with_schedule (some at) target ttl = some (at, (target, ttl))

-- As an option of its own, the time to live would expire the holder of a schedule.
abbrev pub own_ttl : Option ℕ → Option GoDuration → Option GoDuration
own_ttl none ttl = ttl
own_ttl (some at) ttl = none

abbrev pub is_ordered_schedule : EventPublishKind → Option ℕ → Bool
is_ordered_schedule as_ordered (some at) = true
is_ordered_schedule _ _ = false

module _ {D B : Type 0} (c : Client) (w : World D B) where
  abbrev pub report : String → StreamKind → PublishStatus → List (Call B)
  report pattern kind status = if w.has_hook then emits_published pattern kind status ∷ [] else []

  abbrev pub reported : String → EventPublishKind → Option Thrown → List (Call B)
  reported pattern kind none =
      report (declared_event_pattern pattern kind) (event_stream_kind kind) success
  reported pattern kind (some e) =
      report (declared_event_pattern pattern kind) (event_stream_kind kind) errored

  abbrev pub publication : String → JetstreamRecord D → String → B → Publication B
  publication pattern r subject payload = record {
    subject = subject;
    payload = payload;
    headers = build_headers c r.headers (build_event_subject c pattern) none none;
    message_id = or_fresh r.message_id w.fresh_id;
    schedule = with_schedule r.schedule (build_event_subject c pattern) r.ttl_duration;
    ttl_duration = own_ttl r.schedule r.ttl_duration;
  }

  -- The `try` block and its `catch`.
  unfoldable pub send : String → Publication B → List (Call B) × Option Thrown
  send pattern p =
      (publishes p ∷ reported pattern (detect_event_kind pattern) (w.publishing p), w.publishing p)

  abbrev pub encode_and_send :
      String → JetstreamRecord D → String → Encoded B → List (Call B) × Option Thrown
  encode_and_send pattern r subject (unencodable e) = ([], some e)
  encode_and_send pattern r subject (encoded payload) =
      send pattern (publication pattern r subject payload)

  -- `schedule ? this.buildScheduleSubject(eventSubject) : eventSubject`
  abbrev pub publish_subject : Option ℕ → String → Option String
  publish_subject none s = some s
  publish_subject (some at) s = build_schedule_subject c w.fresh_suffix s

  -- The headers are made before the data is encoded.
  abbrev pub with_headers :
      Option Thrown → String → JetstreamRecord D → String → List (Call B) × Option Thrown
  with_headers (some e) pattern r s = ([], some e)
  with_headers none pattern r s = encode_and_send pattern r s (w.codec r.data_of)

  abbrev pub to_subject : String → JetstreamRecord D → Option String → List (Call B) × Option Thrown
  to_subject pattern r none = ([], some (error "no schedule subject"))
  to_subject pattern r (some s) = with_headers w.refusing pattern r s

  -- After connecting.
  unfoldable pub dispatch_ready : String → JetstreamRecord D → List (Call B) × Option Thrown
  unfolding send
  dispatch_ready pattern r =
      if is_ordered_schedule (detect_event_kind pattern) r.schedule
      then ([], some (error "scheduleAt() is not supported for ordered events"))
      else to_subject pattern r (publish_subject r.schedule (build_event_subject c pattern))

  abbrev pub after_connect :
      Option Thrown → String → JetstreamRecord D → List (Call B) × Option Thrown
  after_connect (some e) pattern r = (connects ∷ [], some e)
  after_connect none pattern r = let rest = dispatch_ready pattern r in (connects ∷ rest.0, rest.1)

  unfoldable pub dispatch_event : String → PacketData D → List (Call B) × Option Thrown
  unfolding dispatch_ready
  dispatch_event pattern data_of =
      let r = extract_record_data data_of in
      if w.ready then dispatch_ready pattern r else after_connect w.connecting pattern r
