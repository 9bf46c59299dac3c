-- ===== src/Event/Capture.antt =====
-- src/server/routing/dead-letter-capture.ts: what happens to a message that exhausted its
-- deliveries. Tracing spans run the code inside them and pass its outcome on, and are left out.
pub mod Verdict
pub mod Laws
use Prim.Native.String.{String}
use text.Mathlib.Text.{◌==◌ as str_eq}
use nestjs_jetstream.Prelude.{
  ℕ, ◌-◌, suc, zero, Bool, true, false, not, ◌||◌, Option, none, some, List, [], ◌∷◌, ◌++◌,
  if◌then◌else◌, leb, ltb,
}
use nestjs_jetstream.Event.Actions.{
  Thrown, error, Settle, ack, nak, term, HeaderCall, DeadLetterInfo, Call, settles, logs,
  emits_dead_letter, publishes, calls_on_dead_letter, Act, nothing, call, raise, ◌>>◌, catch, when,
}
use nestjs_jetstream.Event.Headers.{build_dlq_headers, diagnostic_headers}

-- `max_deliver` of a consumer: NATS counts -1 as unlimited.
pub data MaxDeliver : Type 0 where
  limited : ℕ → MaxDeliver
  negative : MaxDeliver

pub record JsMsg : Type 0 where
  pub subject : String
  pub headers : Option (List (String × List String))
  pub delivery_count : ℕ
  pub stream : String

-- `options.dlq`: `false`, absent, or a block with an optional stream name
pub data DlqSetting : Type 0 where
  dlq_off : DlqSetting
  dlq_unset : DlqSetting
  dlq_block : Option String → DlqSetting

-- `manual`: the global management mode is Manual.
pub record Options : Type 0 where
  pub name : String
  pub dlq : DlqSetting
  pub manual : Bool

-- src/server/infrastructure/dlq-options.ts
unfoldable pub is_dlq_enabled : Options → Bool
is_dlq_enabled o = elim o.dlq [ dlq_off ↦ false | dlq_unset ↦ not o.manual | dlq_block _ ↦ true ]

unfoldable pub dlq_stream_override : Options → Option String
dlq_stream_override o = elim o.dlq [ dlq_off ↦ none | dlq_unset ↦ none | dlq_block s ↦ s ]

-- The constructor's arguments. `max_deliver` is the entry of `maxDeliverByStream` for a stream;
-- `named` is the resolver's stream name, `conventional` the default one.
pub record Capture : Type 0 where
  pub max_deliver : String → Option MaxDeliver
  pub on_dead_letter : Bool
  pub connected : Bool
  pub options : Option Options
  pub named : Option String
  pub conventional : String → String

-- What the surroundings do with the calls: which settlement calls, publish attempts and header
-- calls throw, and what; what the callback does; and the texts of the present time and the count.
pub record Oracle : Type 0 where
  pub settle_fails : Settle → Option Thrown
  pub publish_fails : ℕ → Option Thrown
  pub header_fails : HeaderCall → Option Thrown
  pub callback_fails : Option Thrown
  pub failed_at : String
  pub count_text : String

unfoldable pub is_final_delivery : Capture → JsMsg → Bool
is_final_delivery c msg = elim (c.max_deliver msg.stream) [
  | none ↦ false
  | some m ↦ elim m [
    | negative ↦ false
    | limited n ↦ if leb n 0 then false else leb n msg.delivery_count
  ]
]

abbrev pub dlq_publish_attempts : ℕ
dlq_publish_attempts = 3

abbrev or_else : Option String → String → String
or_else none s = s
or_else (some t) s = t

unfoldable pub destination : Capture → Options → String
destination c opts = or_else c.named (or_else (dlq_stream_override opts) (c.conventional opts.name))

module _ {D : Type 0} where
  abbrev pub throws : Option Thrown → Act D
  throws none = nothing
  throws (some e) = raise e

  -- a call that may throw
  abbrev pub try_settle : Oracle → Settle → Act D
  try_settle o s = call (settles s) >> throws (o.settle_fails s)

  -- src/utils/settle-quietly.ts
  unfoldable pub settle_quietly : Oracle → Settle → Act D
  settle_quietly o s = catch (try_settle o s) (λ e. call logs)

  -- the copies and the five `set` calls; the first that is refused ends them
  unfoldable pub header_calls : Oracle → List HeaderCall → Act D
  header_calls o [] = nothing
  header_calls o (h ∷ hs) =
      let rest = header_calls o hs in elim (o.header_fails h) [ none ↦ rest | some e ↦ raise e ]

  -- the loop of `publishWithRetry`; `left` attempts come after this one
  unfoldable pub publish_from : Oracle → String → List HeaderCall → ℕ → ℕ → Act D
  publish_from o subject hdrs attempt zero =
      call (publishes subject hdrs attempt) >> throws (o.publish_fails attempt)
  publish_from o subject hdrs attempt (suc left) =
      let again = publish_from o subject hdrs (suc attempt) left in
      catch (call (publishes subject hdrs attempt) >> throws (o.publish_fails attempt))
        (λ _. call logs >> again)

  unfoldable pub publish_with_retry : Oracle → String → List HeaderCall → Act D
  unfolding publish_from
  publish_with_retry o subject hdrs = publish_from o subject hdrs 1 (dlq_publish_attempts - 1)

  unfoldable pub notify_dead_letter_callback : Capture → Oracle → DeadLetterInfo D → Act D
  unfolding settle_quietly
  notify_dead_letter_callback c o info =
      when c.on_dead_letter
        (catch (call (calls_on_dead_letter info) >> throws o.callback_fails) (λ _. call logs))
      >> settle_quietly o (term (some "Moved to DLQ stream"))

  unfoldable pub fallback_to_on_dead_letter_callback : Capture → Oracle → DeadLetterInfo D → Act D
  unfolding settle_quietly
  fallback_to_on_dead_letter_callback c o info =
      if c.on_dead_letter
      then catch
          (call (calls_on_dead_letter info)
            >> throws o.callback_fails
            >> settle_quietly o (term (some "Dead letter processed via fallback callback")))
          (λ _. call logs >> settle_quietly o (nak none))
      else (call logs >> settle_quietly o (nak none))

  -- `!serviceName`: the empty name counts as missing
  unfoldable pub publish_to_dlq : Capture → Oracle → Options → JsMsg → DeadLetterInfo D → Act D
  publish_to_dlq c o opts msg info =
      let fallback = fallback_to_on_dead_letter_callback c o info in
      let hdrs =
        build_dlq_headers msg.headers
        ++ diagnostic_headers info.thrown msg.subject msg.stream o.failed_at o.count_text in
      if not c.connected || str_eq opts.name ""
      then (call logs >> fallback)
      else (header_calls o hdrs
          >> catch
              (publish_with_retry o (destination c opts) hdrs
                >> call logs
                >> notify_dead_letter_callback c o info)
              (λ _. call logs >> fallback))

  unfoldable pub capture : Capture → Oracle → JsMsg → Option D → Thrown → Act D
  capture c o msg data_of thrown =
      let info : DeadLetterInfo D = record {
        subject = msg.subject;
        data_of = data_of;
        thrown = thrown;
        delivery_count = msg.delivery_count;
        stream = msg.stream;
      } in
      let fallback = fallback_to_on_dead_letter_callback c o info in
      call (emits_dead_letter info) >> elim c.options [
        | none ↦ fallback
        | some opts ↦ if is_dlq_enabled opts then publish_to_dlq c o opts msg info else fallback
      ]
