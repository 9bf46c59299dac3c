-- ===== src/Inbox.antt =====
-- src/client/rpc-reply-inbox.ts: the pending requests of a client, by correlation id.
--
-- `K` stands for the callbacks. A `Map` is an association list: `set` keeps a key's place. Timers
-- are numbered; that a timer fires is an operation, which the surroundings choose.
pub mod Counts
pub mod Once
pub mod Watched
pub mod Examples
use Prim.Native.String.{String}
use text.Mathlib.Text.{◌==◌ as str_eq}
use nestjs_jetstream.Prelude.{
  ℕ, suc, Bool, true, false, Option, none, some, List, [], ◌∷◌, ◌++◌, if◌then◌else◌,
}
use nestjs_jetstream.Maps.{lookup, set, delete}
use nestjs_jetstream.Event.Actions.{Thrown, error}
use nestjs_jetstream.Event.Pipeline.{Decoded, decoded, undecodable}

-- What a callback is given: an error, or a decoded response.
pub data Reply (D : Type 0) : Type 0 where
  failed : Thrown → Reply D
  answered_error : D → Reply D
  answered : D → Reply D

pub record Inbox (K : Type 0) : Type 0 where
  pub address : Option String
  pub active : Bool
  pub pending : List (String × K)
  pub timeouts : List (String × ℕ)
  pub next_timer : ℕ

pub data Call (K D : Type 0) : Type 0 where
  subscribes : String → Call K D
  unsubscribes : Call K D
  arms : String → ℕ → ℕ → Call K D
  clears : ℕ → Call K D
  invokes : String → K → Reply D → Call K D
  expires : String → Call K D
  discards : String → Call K D
  logs : Call K D

-- An inbox message: its correlation id, whether the error header is set, its decoding.
pub record Msg (D : Type 0) : Type 0 where
  pub correlation_id : Option String
  pub is_error : Bool
  pub payload : Decoded D

unfoldable pub new : {K : Type 0} → Inbox K
new = record { address = none; active = false; pending = []; timeouts = []; next_timer = 0 }

-- `err instanceof Error ? err : new Error('Decode error')`
abbrev as_error : Thrown → Thrown
as_error (error m) = error m
as_error _ = error "Decode error"

unfoldable pub register : {K : Type 0} → String → K → Inbox K → Inbox K
unfolding set
register id k s = record s { pending = set id k s.pending }

-- The reply that the callback is given first.
abbrev pub reply_of : {D : Type 0} → Msg D → Reply D
reply_of msg = elim msg.payload [
  | decoded d ↦ if msg.is_error then answered_error d else answered d
  | undecodable e ↦ failed (as_error e)
]

module _ {K D : Type 0} where
  -- `inbox`: the subject that the client library makes
  unfoldable pub setup : String → Inbox K → Inbox K × List (Call K D)
  setup inbox s = (record s { address = some inbox; active = true }, subscribes inbox ∷ [])

  abbrev pub clear_calls : Option ℕ → List (Call K D)
  clear_calls none = []
  clear_calls (some t) = clears t ∷ []

  unfoldable pub arm_timeout : String → ℕ → Inbox K → Inbox K × List (Call K D)
  unfolding lookup set
  arm_timeout id ms s = (
    record s { timeouts = set id s.next_timer s.timeouts; next_timer = suc s.next_timer },
    clear_calls (lookup id s.timeouts) ++ arms id s.next_timer ms ∷ [],
  )

  -- The callback of a deadline timer.
  unfoldable pub expire : Option K → String → Inbox K → Inbox K × List (Call K D)
  expire none id s = (s, [])
  expire (some k) id s =
      (record s { timeouts = delete id s.timeouts; pending = delete id s.pending }, expires id ∷ [])

  unfoldable pub on_timer : String → Inbox K → Inbox K × List (Call K D)
  unfolding expire
  on_timer id s = expire (lookup id s.pending) id s

  abbrev pub discard_calls : Option K → String → List (Call K D)
  discard_calls none id = []
  discard_calls (some k) id = discards id ∷ []

  -- `Map.delete` returns whether the key was there: the call is recorded then.
  unfoldable pub discard : String → Inbox K → Inbox K × List (Call K D)
  unfolding lookup delete
  discard id s = (
    record s { timeouts = delete id s.timeouts; pending = delete id s.pending },
    clear_calls (lookup id s.timeouts) ++ discard_calls (lookup id s.pending) id,
  )

  unfoldable pub reject_calls : Thrown → List (String × K) → List (Call K D)
  reject_calls e [] = []
  reject_calls e ((id, k) ∷ m) = invokes id k (failed e) ∷ reject_calls e m

  unfoldable pub clear_all : List (String × ℕ) → List (Call K D)
  clear_all [] = []
  clear_all ((id, t) ∷ m) = clears t ∷ clear_all m

  unfoldable pub reject_all : Thrown → Inbox K → Inbox K × List (Call K D)
  unfolding reject_calls clear_all
  reject_all e s = (
    record s { pending = []; timeouts = []; active = false; address = none },
    reject_calls e s.pending
        ++ (clear_all s.timeouts ++ (if s.active then unsubscribes ∷ [] else [])),
  )

  -- The callback runs inside the `try` if the payload was decoded, so that one that throws is called
  -- once more, with its own error; `callback_fails` is what it throws.
  unfoldable pub invoke_calls : (K → Reply D → Option Thrown) → String → K → Msg D → List (Call K D)
  invoke_calls callback_fails id k msg = elim msg.payload [
    | undecodable e ↦ invokes id k (reply_of msg) ∷ []
    | decoded d ↦ elim (callback_fails k (reply_of msg)) [
      | none ↦ invokes id k (reply_of msg) ∷ []
      | some e ↦ invokes id k (reply_of msg) ∷ invokes id k (failed (as_error e)) ∷ []
    ]
  ]

  unfoldable pub route_to :
      (K → Reply D → Option Thrown)
      → Msg D
      → String
      → Option K
      → Inbox K
      → Inbox K × List (Call K D)
  route_to fails msg id none s = (s, logs ∷ [])
  route_to fails msg id (some k) s = (
    record s { timeouts = delete id s.timeouts; pending = delete id s.pending },
    clear_calls (lookup id s.timeouts) ++ invoke_calls fails id k msg,
  )

  unfoldable pub route_id :
      (K → Reply D → Option Thrown) → Msg D → Option String → Inbox K → Inbox K × List (Call K D)
  route_id fails msg none s = (s, logs ∷ [])
  route_id fails msg (some id) s =
      if str_eq id "" then (s, logs ∷ []) else route_to fails msg id (lookup id s.pending) s

  -- The subscription's callback on a message.
  unfoldable pub route : (K → Reply D → Option Thrown) → Msg D → Inbox K → Inbox K × List (Call K D)
  unfolding route_id route_to invoke_calls lookup delete
  route fails msg s = route_id fails msg msg.correlation_id s
