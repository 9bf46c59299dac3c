-- ===== src/Client/Core.antt =====
-- src/client/jetstream.client.ts, `publishCoreRpc` with `publish`: a request of the core mode.
use Prim.Native.String.{String}
use nestjs_jetstream.Prelude.{
  ℕ, Bool, true, false, Option, none, some, List, [], ◌∷◌, ◌++◌, if◌then◌else◌,
}
use nestjs_jetstream.Event.Actions.{Thrown, error, HeaderCall}
use nestjs_jetstream.Inbox.{Reply, failed, answered, answered_error}
use nestjs_jetstream.Client.{Client, build_headers}
use nestjs_jetstream.Client.Request.{or_default, as_error}

-- What is thrown inside the request: a `TimeoutError` of the client library with its message, or
-- anything else.
pub data Failure : Type 0 where
  timeout_error : String → Failure
  thrown : Thrown → Failure

pub data Payload (D : Type 0) : Type 0 where
  decoded : D → Payload D
  undecodable : Failure → Payload D

-- What `nc.request` ends with: a reply, whether its error header is set and what the codec makes of
-- its payload, or an error.
pub data Response (D : Type 0) : Type 0 where
  replied : Bool → Payload D → Response D
  unanswered : Failure → Response D

pub data RpcStatus : Type 0 where
  success errored timed_out : RpcStatus

pub data Call (D B : Type 0) : Type 0 where
  connects : Call D B
  requests : String → B → List HeaderCall → ℕ → Call D B
  emits_timeout : String → Call D B
  emits_error : Thrown → Call D B
  emits_published emits_completed : RpcStatus → Call D B
  calls_back : Reply D → Call D B
  logs : Call D B

-- `preparing`: whether the codec or a header throws before the request is begun.
pub record World (D : Type 0) : Type 0 where
  pub ready : Bool
  pub preparing : Option Thrown
  pub connecting : Option Failure
  pub response : Response D
  pub callback_fails : Reply D → Option Failure
  pub wants_published : Bool
  pub wants_completed : Bool

pub record Request (B : Type 0) : Type 0 where
  pub subject : String
  pub payload : B
  pub headers : List (String × String)
  pub timeout : Option ℕ

-- `err instanceof Error ? err : new Error('Unknown error')`
abbrev pub reason : Failure → Thrown
reason (timeout_error m) = error m
reason (thrown e) = as_error e

module _ {D B : Type 0} (c : Client) (w : World D) (q : Request B) where
  abbrev pub report_published : RpcStatus → List (Call D B)
  report_published s = if w.wants_published then emits_published s ∷ [] else []

  abbrev pub report_completed : RpcStatus → List (Call D B)
  report_completed s = if w.wants_completed then emits_completed s ∷ [] else []

  abbrev pub call_back : Reply D → List (Call D B) × Option Failure
  call_back r = (calls_back r ∷ [], w.callback_fails r)

  abbrev pub after :
      List (Call D B) → List (Call D B) × Option Failure → List (Call D B) × Option Failure
  after t r = (t ++ r.0, r.1)

  -- The end of the `try` block, once the reply is there.
  unfoldable pub on_response : Response D → List (Call D B) × Option Failure
  on_response (unanswered f) = ([], some f)
  on_response (replied b (undecodable f)) = ([], some f)
  on_response (replied true (decoded d)) =
      after (report_published success ++ report_completed errored) (call_back (answered_error d))
  on_response (replied false (decoded d)) =
      after (report_published success ++ report_completed success) (call_back (answered d))

  abbrev pub ask : List (Call D B) × Option Failure
  ask =
      let asked =
        requests q.subject q.payload (build_headers c q.headers q.subject none none)
          (or_default q.timeout c.default_rpc_timeout) in
      after (asked ∷ []) (on_response w.response)

  abbrev pub after_connect : Option Failure → List (Call D B) × Option Failure
  after_connect (some f) = (connects ∷ [], some f)
  after_connect none = after (connects ∷ []) ask

  -- The `try` block.
  unfoldable pub attempt : List (Call D B) × Option Failure
  unfolding on_response
  attempt = if w.ready then ask else after_connect w.connecting

  -- The `catch` block.
  unfoldable pub on_failure : Failure → List (Call D B) × Option Failure
  on_failure (timeout_error m) =
      after (emits_timeout q.subject ∷ (report_published success ++ report_completed timed_out))
        (call_back (failed (error m)))
  on_failure (thrown e) =
      after (emits_error (as_error e) ∷ (report_published errored ++ report_completed errored))
        (call_back (failed (as_error e)))

  abbrev pub caught : List (Call D B) × Option Failure → List (Call D B) × Option Failure
  caught (t, none) = (t, none)
  caught (t, some f) = after t (on_failure f)

  -- `onUnhandled`
  abbrev pub on_unhandled : List (Call D B)
  on_unhandled = logs ∷ calls_back (failed (error "Internal transport error")) ∷ []

  abbrev pub or_unhandled : List (Call D B) × Option Failure → List (Call D B)
  or_unhandled (t, none) = t
  or_unhandled (t, some f) = t ++ on_unhandled

  abbrev pub prepared : Option Thrown → List (Call D B)
  prepared (some e) = on_unhandled
  prepared none = or_unhandled (caught attempt)

  unfoldable pub publish_core_rpc : List (Call D B)
  unfolding attempt on_failure
  publish_core_rpc = prepared w.preparing
