-- ===== src/Event/Headers.antt =====
-- src/server/routing/dead-letter-capture.ts, `buildDlqHeaders` and the diagnostic headers.
--
-- The header object belongs to the NATS client: the model records the calls on it, in order, and
-- whether such a call throws is an oracle (the client refuses a value with a line break).
use Prim.Native.Char.{code}
use Prim.Native.String.{String}
use nestjs_jetstream.Prelude.{
  ℕ, ◌+◌, ◌≡◌, refl, Bool, true, false, ◌&&◌, Option, none, some, List, [], ◌∷◌, ◌++◌, map, leb,
  ◌==◌, if◌then◌else◌, All, All-append, Bool-cases, inl, inr,
}
use nestjs_jetstream.Event.Actions.{
  Thrown, error, object_with_message, other, HeaderCall, append, set,
}

abbrev pub codes : String → List ℕ
codes String.[] = []
codes (String.◌∷◌ c s) = code c ∷ codes s

-- `toLowerCase` on the letters that the prefix is made of
abbrev pub lower : ℕ → ℕ
lower c = if leb b'A' c && leb c b'Z' then c + 32 else c

abbrev pub starts_with : List ℕ → List ℕ → Bool
starts_with [] s = true
starts_with (p ∷ ps) [] = false
starts_with (p ∷ ps) (c ∷ cs) = p == c && starts_with ps cs

-- `k.toLowerCase().startsWith(NATS_CONTROL_HEADER_PREFIX)`
unfoldable pub is_control : String → Bool
is_control k = starts_with (codes "nats-") (map lower (codes k))

append_all : String → List String → List HeaderCall
append_all k [] = []
append_all k (v ∷ vs) = append k v ∷ append_all k vs

-- The original headers, by key; `none` where the message has none.
unfoldable pub build_dlq_headers : Option (List (String × List String)) → List HeaderCall
unfolding append_all
build_dlq_headers none = []
build_dlq_headers (some []) = []
build_dlq_headers (some ((k, vs) ∷ rest)) =
    let more = build_dlq_headers (some rest) in
    if is_control k then more else append_all k vs ++ more

unfoldable pub extract_error_reason : Thrown → String
extract_error_reason (error m) = m
extract_error_reason (object_with_message m text) = m
extract_error_reason (other t) = t

-- `subject`, `stream` and the texts of the time and of the delivery count
unfoldable pub diagnostic_headers : Thrown → String → String → String → String → List HeaderCall
unfolding extract_error_reason
diagnostic_headers e subject stream failed_at delivery_count =
    set "x-dead-letter-reason" (extract_error_reason e)
    ∷ set "x-original-subject" subject
    ∷ set "x-original-stream" stream
    ∷ set "x-failed-at" failed_at
    ∷ set "x-delivery-count" delivery_count
    ∷ []

abbrev pub key : HeaderCall → String
key (append k v) = k
key (set k v) = k

append_all-All :
    (k : String) (vs : List String)
    → is_control k ≡ false
    → All (λ h. is_control (key h) ≡ false) (append_all k vs)
unfolding append_all
append_all-All k [] h = tt
append_all-All k (v ∷ vs) h = (h, append_all-All k vs h)

build_dlq_headers-All :
    (hs : List (String × List String))
    → All (λ h. is_control (key h) ≡ false) (build_dlq_headers (some hs))
unfolding build_dlq_headers
build_dlq_headers-All [] = tt
build_dlq_headers-All ((k, vs) ∷ rest) = elim (Bool-cases (is_control k)) [
  | inl c ↦ rw c (build_dlq_headers-All rest)
  | inr c ↦
      rw c (All-append _ (append_all k vs) _ (append_all-All k vs c) (build_dlq_headers-All rest))
]

-- No header of a republished dead letter, copied or added, is a control header of the server, in
-- any spelling of its case: none can expire, deduplicate or reroute the entry.
pub dlq_headers-not_control :
    (headers : Option (List (String × List String))) (e : Thrown) (subject stream at count : String)
    → All
        (λ h. is_control (key h) ≡ false)
        (build_dlq_headers headers ++ diagnostic_headers e subject stream at count)
dlq_headers-not_control headers e subject stream at count =
    All-append _ (build_dlq_headers headers) _ (copied headers) added
  where
    copied :
        (hs : Option (List (String × List String)))
        → All (λ h. is_control (key h) ≡ false) (build_dlq_headers hs)
    copied none = unfold build_dlq_headers in tt
    copied (some hs) = build_dlq_headers-All hs

    added : All (λ h. is_control (key h) ≡ false) (diagnostic_headers e subject stream at count)
    added = unfold diagnostic_headers is_control in (refl, (refl, (refl, (refl, (refl, tt)))))
