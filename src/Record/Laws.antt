-- ===== src/Record/Laws.antt =====
-- What a builder can hold, whatever is done with it, and when its methods throw.
use Prim.Native.String.{String}
use text.Mathlib.Text.{◌==◌ as str_eq}
use nestjs_jetstream.Prelude.{
  ℕ, ◌≤◌, ◌<◌, ◌≡◌, refl, false, ◌||◌, Option, none, some, List, [], ◌∷◌, All, if◌then◌else◌, leb,
  ◌==◌, arith, Bool-cases, inl, inr,
}
use nestjs_jetstream.Maps.{set}
use nestjs_jetstream.Event.Headers.{is_control}
use nestjs_jetstream.Record.{
  GoDuration, nanos_to_go_duration, JetstreamRecord, Builder, RecordError, control_header,
  reserved_header, Date, not_a_date, time, Nanos, infinite_or_negative, nanos, is_reserved,
  validate_header_key, builder, set_data, set_valid, set_header, go_on, set_headers, set_message_id,
  set_timeout, schedule_at, ttl, build,
}

-- A call of a method of the builder, with what the clock says.
pub data BuilderCall (D : Type 0) : Type 0 where
  sets_data : D → BuilderCall D
  sets_header : String → String → BuilderCall D
  sets_headers : List (String × String) → BuilderCall D
  sets_message_id : String → BuilderCall D
  sets_timeout : ℕ → BuilderCall D
  schedules : ℕ → Date → BuilderCall D
  sets_ttl : Nanos → BuilderCall D

-- a key that the transport and the server leave to the user
abbrev pub Free : String × String → Type 0
Free (k, v) = (is_control k ≡ false) × (is_reserved k ≡ false)

-- A time to live is one that was written for a positive number.
abbrev pub Written : Option GoDuration → Type 0
Written none = Unit {0}
Written (some d) = (n : ℕ) × ((1 ≤ n) × (d ≡ nanos_to_go_duration n))

set-Free :
    (k v : String) (m : List (String × String)) → Free (k, v) → All Free m → All Free (set k v m)
unfolding set
set-Free k v [] f a = (f, tt)
set-Free k v ((j, w) ∷ m) f a = elim (Bool-cases (str_eq j k)) [
  | inl e ↦ rw e (a.0, a.1)
  | inr e ↦ rw e (a.0, set-Free k v m f a.1)
]

-- a schedule is after the times that the clock showed when it was set
abbrev pub After : ℕ → Option ℕ → Type 0
After start none = Unit {0}
After start (some t) = start < t

module _ {D : Type 0} where
  abbrev pub perform : BuilderCall D → Builder D → Builder D × Option RecordError
  perform (sets_data d) b = set_data d b
  perform (sets_header k v) b = set_header k v b
  perform (sets_headers hs) b = set_headers hs b
  perform (sets_message_id id) b = set_message_id id b
  perform (sets_timeout ms) b = set_timeout ms b
  perform (schedules now d) b = schedule_at now d b
  perform (sets_ttl n) b = ttl n b

  -- The calls one after the other, also after one that throws.
  abbrev pub run : List (BuilderCall D) → Builder D → Builder D
  run [] b = b
  run (c ∷ cs) b = run cs (perform c b).0

  -- no call was made before `start`
  abbrev pub Since : ℕ → List (BuilderCall D) → Type 0
  Since start [] = Unit {0}
  Since start (schedules now d ∷ cs) = (start ≤ now) × Since start cs
  Since start (_ ∷ cs) = Since start cs

  abbrev pub Inv : ℕ → Builder D → Type 0
  Inv start b = All Free b.headers × (Written b.ttl_duration × After start b.schedule)

  set_valid-Inv :
      (start : ℕ) (k v : String) (b : Builder D)
      → Inv start b
      → Inv start (set_valid (validate_header_key k) k v b).0
  unfolding validate_header_key
  set_valid-Inv start k v b i = elim (Bool-cases (is_control k)) [
    | inl c ↦ rw (c, validate_header_key) i
    | inr c ↦ elim (Bool-cases (is_reserved k)) [
      | inl r ↦ rw (c, r) i
      | inr r ↦ rw (c, r) (set-Free k v b.headers (c, r) i.0, i.1)
    ]
  ]

  go_on-Inv :
      (start : ℕ) (r : Builder D × Option RecordError)
      (f : Builder D → Builder D × Option RecordError)
      → Inv start r.0
      → ((b : Builder D) → Inv start b → Inv start (f b).0)
      → Inv start (go_on r f).0
  go_on-Inv start (b, some e) f i h = i
  go_on-Inv start (b, none) f i h = h b i

  set_headers-Inv :
      (start : ℕ) (hs : List (String × String)) (b : Builder D)
      → Inv start b
      → Inv start (set_headers hs b).0
  unfolding set_headers set_header
  set_headers-Inv start [] b i = i
  set_headers-Inv start ((k, v) ∷ hs) b i =
      go_on-Inv start (set_header k v b) (λ c. set_headers hs c) (set_valid-Inv start k v b i)
        (λ c j. set_headers-Inv start hs c j)

  schedule_at-Inv :
      (start now : ℕ) (d : Date) (b : Builder D)
      → start ≤ now
      → Inv start b
      → Inv start (schedule_at now d b).0
  unfolding schedule_at
  schedule_at-Inv start now not_a_date b p i = i
  schedule_at-Inv start now (time t) b p i = elim (Bool-cases (leb t now)) [
    | inl e ↦ rw e i
    | inr e ↦ rw e (i.0, (i.1.0, ground arith))
  ]

  ttl-Inv : (start : ℕ) (n : Nanos) (b : Builder D) → Inv start b → Inv start (ttl n b).0
  unfolding ttl
  ttl-Inv start infinite_or_negative b i = i
  ttl-Inv start (nanos n) b i = elim (Bool-cases (n == 0)) [
    | inl e ↦ rw e i
    | inr e ↦ rw e (i.0, ((n, (ground arith, refl)), i.1.1))
  ]

  run-Inv :
      (start : ℕ) (cs : List (BuilderCall D)) (b : Builder D)
      → Since start cs
      → Inv start b
      → Inv start (run cs b)
  unfolding set_header
  run-Inv start [] b p i = i
  run-Inv start (sets_data d ∷ cs) b p i = run-Inv start cs _ p i
  run-Inv start (sets_header k v ∷ cs) b p i = run-Inv start cs _ p (set_valid-Inv start k v b i)
  run-Inv start (sets_headers hs ∷ cs) b p i = run-Inv start cs _ p (set_headers-Inv start hs b i)
  run-Inv start (sets_message_id id ∷ cs) b p i = run-Inv start cs _ p i
  run-Inv start (sets_timeout ms ∷ cs) b p i = run-Inv start cs _ p i
  run-Inv start (schedules now d ∷ cs) b p i =
      run-Inv start cs _ p.1 (schedule_at-Inv start now d b p.0 i)
  run-Inv start (sets_ttl n ∷ cs) b p i = run-Inv start cs _ p (ttl-Inv start n b i)

-- What a record is built with.
abbrev pub Sound : {D : Type 0} → ℕ → JetstreamRecord D → Type 0
Sound start r = All Free r.headers × (Written r.ttl_duration × After start r.schedule)

-- Whatever methods of a new builder are called, in whatever order and also after some have thrown,
-- the record that it builds has no header that is reserved by the transport or a control header of
-- the server, in any spelling of its case; its time to live, if any, is the duration of a positive
-- number of nanoseconds; and its schedule, if any, is later than a time that no call was made before.
pub build-Sound :
    {D : Type 0} (start : ℕ) (d : Option D) (cs : List (BuilderCall D))
    → Since start cs
    → Sound start (build (run cs (builder d)))
unfolding builder
build-Sound start d cs p = run-Inv start cs _ p (tt, (tt, tt))

-- the first error of the keys, if any
abbrev pub first_error : List (String × String) → Option RecordError
first_error [] = none
first_error ((k, v) ∷ hs) =
    let rest = first_error hs in
    if is_control k
    then some (control_header k)
    else if is_reserved k
    then some (reserved_header k)
    else rest

-- the headers up to the first key that is not free
abbrev pub set_up_to : List (String × String) → List (String × String) → List (String × String)
set_up_to [] m = m
set_up_to ((k, v) ∷ hs) m =
    let rest = set_up_to hs (set k v m) in if is_control k || is_reserved k then m else rest

-- Several headers at once: the call throws the error of the first key that is reserved or a control
-- header, if there is one, and not otherwise; the headers before that key are set then, those from it
-- on are not, and nothing else of the builder changes.
pub set_headers-first_error :
    {D : Type 0} (hs : List (String × String)) (b : Builder D)
    → set_headers hs b ≡ (record b { headers = set_up_to hs b.headers }, first_error hs)
unfolding set_headers set_header validate_header_key
set_headers-first_error [] b = refl
set_headers-first_error ((k, v) ∷ hs) b = elim (Bool-cases (is_control k)) [
  | inl c ↦ rw c refl
  | inr c ↦ elim (Bool-cases (is_reserved k)) [
    | inl r ↦ rw (c, r) refl
    | inr r ↦ rw (c, r) (set_headers-first_error hs (record b { headers = set k v b.headers }))
  ]
]
