-- ===== src/Event/Actions.antt =====
-- The calls that routing one event or command makes, and code that may throw after some of them.
--
-- `Act` is a piece of code that returns nothing: the calls that it made, in order, and the error
-- that it ended with, if any. Awaiting a promise adds nothing: the calls stand in the order in
-- which they are made.
use Prim.Native.String.{String}
use nestjs_jetstream.Prelude.{ℕ, Bool, Option, none, some, List, [], ◌∷◌, ◌++◌, if◌then◌else◌}

-- A thrown value, by what the code asks of it: an `Error` with its message; an object with a
-- `message` property, given by its text, and the text of the object; or the text of anything else.
pub data Thrown : Type 0 where
  error : String → Thrown
  object_with_message : String → String → Thrown
  other : String → Thrown

-- `err instanceof Error ? err.message : String(err)`
abbrev pub describe : Thrown → String
describe (error m) = m
describe (object_with_message m text) = text
describe (other text) = text

-- A settlement call on the message.
pub data Settle : Type 0 where
  ack : Settle
  nak : Option ℕ → Settle
  term : Option String → Settle

pub data HandlerStatus : Type 0 where
  success retried terminated failed : HandlerStatus

-- A call on the header object of the republished dead letter.
pub data HeaderCall : Type 0 where
  append set : String → String → HeaderCall

-- What the dead-letter event and the callback receive, as far as routing fills it.
pub record DeadLetterInfo (D : Type 0) : Type 0 where
  pub subject : String
  pub data_of : Option D
  pub thrown : Thrown
  pub delivery_count : ℕ
  pub stream : String

pub data Call (D : Type 0) : Type 0 where
  settles : Settle → Call D
  logs : Call D
  emits_routed : String → Call D
  emits_error : Thrown → Call D
  emits_dead_letter : DeadLetterInfo D → Call D
  emits_completed : HandlerStatus → Call D
  runs_handler : D → Call D
  publishes : String → List HeaderCall → ℕ → Call D
  calls_on_dead_letter : DeadLetterInfo D → Call D
  starts_extension : ℕ → Call D
  stops_extension : Call D
  replies : D → Call D
  replies_error : Thrown → Call D
  emits_timeout : Call D
  arms_deadline : ℕ → Call D
  clears_deadline : Call D
  aborts_span : Call D

pub record Act (D : Type 0) : Type 0 where
  pub calls : List (Call D)
  pub failure : Option Thrown

module _ {D : Type 0} where
  abbrev pub nothing : Act D
  nothing = record { calls = []; failure = none }

  abbrev pub call : Call D → Act D
  call c = record { calls = c ∷ []; failure = none }

  abbrev pub raise : Thrown → Act D
  raise e = record { calls = []; failure = some e }

  abbrev pub after_failure : List (Call D) → Option Thrown → Act D → Act D
  after_failure t (some e) b = record { calls = t; failure = some e }
  after_failure t none b = record { calls = t ++ b.calls; failure = b.failure }

  infixl 5 ◌>>◌
  abbrev pub ◌>>◌ : Act D → Act D → Act D
  a >> b = after_failure a.calls a.failure b

  abbrev pub handle : List (Call D) → Option Thrown → (Thrown → Act D) → Act D
  handle t none h = record { calls = t; failure = none }
  handle t (some e) h = record { calls = t ++ (h e).calls; failure = (h e).failure }

  -- `try { a } catch (e) { h e }`
  abbrev pub catch : Act D → (Thrown → Act D) → Act D
  catch a h = handle a.calls a.failure h

  -- `a.finally(c)`, where `c` is one call that does not throw
  abbrev pub finally : Act D → List (Call D) → Act D
  finally a c = record a { calls = a.calls ++ c }

  abbrev pub when : Bool → Act D → Act D
  when b a = if b then a else nothing
