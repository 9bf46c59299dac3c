-- ===== src/Jsm/Toy.antt =====
-- A small server for the tests: streams by name, whose sources are drained at once.
use Prim.Native.String.{String}
use text.Mathlib.Text.{◌==◌ as str_eq}
use nestjs_jetstream.Prelude.{ℕ, ◌+◌, Option, none, some, List, [], ◌∷◌, if◌then◌else◌, map}
use nestjs_jetstream.Jsm.{
  api_error, Result, ok, err, StreamSpec, StreamInfo, ConsumerSpec, ConsumerInfo, Manager,
  stream_not_found, consumer_not_found,
}

pub record Server : Type 0 where
  pub streams : List StreamInfo
  pub consumers : List ConsumerInfo
  pub failing : Option String

abbrev find_stream : String → List StreamInfo → Option StreamInfo
find_stream name [] = none
find_stream name (s ∷ ss) =
    let rest = find_stream name ss in if str_eq s.config.name name then some s else rest

abbrev without : String → List StreamInfo → List StreamInfo
without name [] = []
without name (s ∷ ss) =
    let rest = without name ss in if str_eq s.config.name name then rest else s ∷ rest

abbrev held_by : Option StreamInfo → ℕ
held_by none = 0
held_by (some s) = s.messages

abbrev sourced : List String → List StreamInfo → ℕ
sourced [] ss = 0
sourced (name ∷ names) ss = held_by (find_stream name ss) + sourced names ss

abbrev with_config : StreamSpec → ℕ → List StreamInfo → StreamInfo
with_config c n ss = record {
  config = c;
  messages = n + sourced c.sources ss;
  sources = map (λ name. record { name = name; active = some 0; lag = 0 }) c.sources;
}

abbrev found : Option StreamInfo → Result StreamInfo
found none = err (api_error stream_not_found)
found (some s) = ok s

abbrev changed : StreamSpec → Option StreamInfo → Server → Result StreamInfo × Server
changed c none w = (err (api_error stream_not_found), w)
changed c (some s) w =
    let s' = with_config c s.messages w.streams in
    (ok s', record w { streams = s' ∷ without c.name w.streams })

abbrev find_consumer : String → String → List ConsumerInfo → Result ConsumerInfo
find_consumer stream name [] = err (api_error consumer_not_found)
find_consumer stream name (c ∷ cs) =
    let rest = find_consumer stream name cs in
    if str_eq c.stream_name stream then (if str_eq c.name name then ok c else rest) else rest

abbrev added : String → ConsumerSpec → ConsumerInfo
added stream c = record { stream_name = stream; name = c.durable_name; config = c }

-- `failing`: a stream that the server refuses to create.
abbrev pub toy : Manager Server
toy = record {
  info = λ name w. (found (find_stream name w.streams), w);
  update = λ name c w. changed c (find_stream name w.streams) w;
  add = λ c w. elim w.failing [
    | some name ↦
        if str_eq name c.name
        then (err (api_error 10047), w)
        else (let s = with_config c 0 w.streams in (ok s, record w { streams = s ∷ w.streams }))
    | none ↦ let s = with_config c 0 w.streams in (ok s, record w { streams = s ∷ w.streams })
  ];
  remove = λ name w. (ok tt, record w { streams = without name w.streams });
  info_consumer = λ stream name w. (find_consumer stream name w.consumers, w);
  update_consumer = λ stream name c w. (ok (added stream c), w);
  add_consumer =
      λ stream c w. (ok (added stream c), record w { consumers = added stream c ∷ w.consumers });
  polls = λ w. 3;
}
