-- ===== src/Client/Published.antt =====
-- What an emission publishes, where and when.
use Prim.Native.String.{String}
use nestjs_jetstream.Prelude.{
  ℕ, ◌≡◌, ◌≢◌, refl, Bool, true, false, Option, none, some, List, [], ◌∷◌, if◌then◌else◌,
  Bool-cases, ◌⊎◌, inl, inr,
}
use nestjs_jetstream.Event.Actions.{Thrown, error}
use nestjs_jetstream.Record.{JetstreamRecord, GoDuration}
use nestjs_jetstream.Client.{
  EventPublishKind, as_event, as_broadcast, as_ordered, detect_event_kind, Client,
  build_event_subject, build_schedule_subject, PacketData, extract_record_data,
}
use nestjs_jetstream.Client.Emit.{
  Publication, Call, connects, publishes, emits_published, Encoded, encoded, unencodable, World,
  reported, publication, send, encode_and_send, publish_subject, to_subject, with_headers,
  is_ordered_schedule, dispatch_ready, after_connect, dispatch_event,
}

module _ {B : Type 0} where
  abbrev pub publications : List (Call B) → List (Publication B)
  publications [] = []
  publications (publishes p ∷ t) = p ∷ publications t
  publications (connects ∷ t) = publications t
  publications (emits_published s k u ∷ t) = publications t

  -- Where and when a publication stands: at the event's subject and with the record's time to live;
  -- or, if the record has a schedule, under a schedule subject, at the scheduled time for the event's
  -- subject, where the time to live is that of the message to come.
  abbrev pub Placed :
      Client → String → String → Option ℕ → Option GoDuration → Publication B → Type 0
  Placed c suffix pattern none ttl p =
      (p.subject ≡ build_event_subject c pattern) × ((p.schedule ≡ none) × (p.ttl_duration ≡ ttl))
  Placed c suffix pattern (some at) ttl p =
      (build_schedule_subject c suffix (build_event_subject c pattern) ≡ some p.subject)
      × ((p.schedule ≡ some (at, (build_event_subject c pattern, ttl)))
          × ((p.ttl_duration ≡ none) × (detect_event_kind pattern ≢ as_ordered)))

  -- Nothing is published and the emission fails, or one message is, and the emission fails if the
  -- publishing does.
  abbrev pub Emitted :
      {D : Type 0}
      → Client
      → String
      → String
      → JetstreamRecord D
      → (Publication B → Option Thrown)
      → List (Publication B)
      → Option Thrown
      → Type 0
  Emitted c suffix pattern r fails [] e = e ≢ none
  Emitted c suffix pattern r fails (p ∷ []) e =
      (e ≡ fails p) × Placed c suffix pattern r.schedule r.ttl_duration p
  Emitted c suffix pattern r fails _ e = ⊥

kind-cases : (k : EventPublishKind) → (k ≡ as_ordered) ⊎ (k ≢ as_ordered)
kind-cases as_ordered = inl refl
kind-cases as_event = inr (λ e. cc)
kind-cases as_broadcast = inr (λ e. cc)

refused-only_ordered :
    (k : EventPublishKind) (at : ℕ) → k ≢ as_ordered → is_ordered_schedule k (some at) ≡ false
refused-only_ordered as_ordered at h = elim (h refl) [ ]
refused-only_ordered as_event at h = refl
refused-only_ordered as_broadcast at h = refl

refused-unscheduled : (k : EventPublishKind) → is_ordered_schedule k none ≡ false
refused-unscheduled as_ordered = refl
refused-unscheduled as_event = refl
refused-unscheduled as_broadcast = refl

module _ {D B : Type 0} (c : Client) (w : World D B) (pattern : String)
    (r : JetstreamRecord D) where
  abbrev Done : List (Call B) × Option Thrown → Type 0
  Done t = Emitted c w.fresh_suffix pattern r w.publishing (publications t.0) t.1

  not_none : (e : Thrown) → some e ≢ none
  not_none e h = cc

  quiet : (k : EventPublishKind) (o : Option Thrown) → publications (reported c w pattern k o) ≡ []
  quiet k none = elim (Bool-cases w.has_hook) [ inl e ↦ rw e refl | inr e ↦ rw e refl ]
  quiet k (some x) = elim (Bool-cases w.has_hook) [ inl e ↦ rw e refl | inr e ↦ rw e refl ]

  send-Done :
      (p : Publication B)
      → Placed c w.fresh_suffix pattern r.schedule r.ttl_duration p
      → Done (send c w pattern p)
  unfolding send
  send-Done p h = rw (quiet (detect_event_kind pattern) (w.publishing p)) (refl, h)

  encode_and_send-Done :
      (s : String) (x : Encoded B)
      → ((payload : B)
          → Placed c w.fresh_suffix pattern r.schedule r.ttl_duration
              (publication c w pattern r s payload))
      → Done (encode_and_send c w pattern r s x)
  encode_and_send-Done s (unencodable e) h = not_none e
  encode_and_send-Done s (encoded payload) h = send-Done _ (h payload)

  with_headers-Done :
      (o : Option Thrown) (s : String)
      → ((payload : B)
          → Placed c w.fresh_suffix pattern r.schedule r.ttl_duration
              (publication c w pattern r s payload))
      → Done (with_headers c w o pattern r s)
  with_headers-Done (some e) s h = not_none e
  with_headers-Done none s h = encode_and_send-Done s (w.codec r.data_of) h

  scheduled-Done :
      (at : ℕ) (o : Option String)
      → r.schedule ≡ some at
      → detect_event_kind pattern ≢ as_ordered
      → build_schedule_subject c w.fresh_suffix (build_event_subject c pattern) ≡ o
      → Done (to_subject c w pattern r o)
  scheduled-Done at none e k h = not_none _
  scheduled-Done at (some s) e k h =
      with_headers-Done w.refusing s (λ x. rw e (h, (refl, (refl, k))))

  by_schedule :
      (o : Option ℕ)
      → r.schedule ≡ o
      → Done (
          if is_ordered_schedule (detect_event_kind pattern) o
          then ([], some (error "scheduleAt() is not supported for ordered events"))
          else to_subject c w pattern r (publish_subject c w o (build_event_subject c pattern)))
  by_schedule none e = rw (refused-unscheduled (detect_event_kind pattern)) (
      with_headers-Done w.refusing (build_event_subject c pattern) (λ x. rw e (refl, (refl, refl))))
  by_schedule (some at) e = elim (kind-cases (detect_event_kind pattern)) [
    | inl k ↦ rw k (not_none _)
    | inr k ↦
        rw (refused-only_ordered (detect_event_kind pattern) at k) (scheduled-Done at _ e k refl)
  ]

  dispatch_ready-Done : Done (dispatch_ready c w pattern r)
  unfolding dispatch_ready
  dispatch_ready-Done = by_schedule r.schedule refl

  after_connect-Done : (o : Option Thrown) → Done (after_connect c w o pattern r)
  after_connect-Done (some e) = not_none e
  after_connect-Done none = dispatch_ready-Done

  when_ready :
      (b : Bool)
      → Done (if b then dispatch_ready c w pattern r else after_connect c w w.connecting pattern r)
  when_ready true = dispatch_ready-Done
  when_ready false = after_connect-Done w.connecting

-- Whatever the surroundings do: an emission either fails with nothing published, or publishes one
-- message and fails exactly if that publishing does. The message goes to the event's subject with the
-- record's time to live; with a schedule it goes to a schedule subject instead, to be delivered to the
-- event's subject at that time, with the time to live for the delivery and none for the holder, and
-- never for an ordered event.
pub dispatch_event-Emitted :
    {D B : Type 0} (c : Client) (w : World D B) (pattern : String) (data_of : PacketData D)
    → let t = dispatch_event c w pattern data_of in
      Emitted c w.fresh_suffix pattern
        (extract_record_data data_of)
        w.publishing
        (publications t.0)
        t.1
unfolding dispatch_event
dispatch_event-Emitted c w pattern data_of =
    when_ready c w pattern (extract_record_data data_of) w.ready
