-- ===== src/Client/Request.antt =====
-- src/client/jetstream.client.ts, `publishJetStreamRpc` with `publish`: one request and its reply inbox.
--
-- The request waits twice, for the connection and for the publishing. Between, anything may happen to
-- the inbox: replies, deadlines, other requests, a lost connection, the caller's unsubscribing.
use Prim.Native.String.{String}
use nestjs_jetstream.Prelude.{
  ℕ, Bool, true, false, Option, none, some, List, [], ◌∷◌, ◌++◌, map, if◌then◌else◌,
}
use nestjs_jetstream.Maps.{lookup}
use nestjs_jetstream.Event.Actions.{Thrown, error, HeaderCall}
use nestjs_jetstream.Inbox.{
  Reply, failed, Inbox, Call as InboxCall, register, arm_timeout, discard, setup,
}
use nestjs_jetstream.Inbox.Once.{Op, perform}
use nestjs_jetstream.Client.{Client, build_headers}
use nestjs_jetstream.Client.Emit.{PublishStatus, success, errored, or_fresh}

-- `K` stands for the callbacks, `B` for the encoded payloads.
pub record Request (K B : Type 0) : Type 0 where
  pub id : String
  pub callback : K
  pub timeout : Option ℕ
  pub subject : String
  pub headers : List (String × String)
  pub message_id : Option String
  pub fresh_id : String
  pub payload : B
  pub wants_published : Bool
  pub wants_completed : Bool

pub data Call (K D B : Type 0) : Type 0 where
  of_inbox : InboxCall K D → Call K D B
  of_own_discard : InboxCall K D → Call K D B
  publishes : String → B → List HeaderCall → String → Call K D B
  emits_error : Thrown → Call K D B
  emits_published emits_completed : PublishStatus → Call K D B
  calls_back : Reply D → Call K D B

-- Where the request is: waiting for the connection with its headers, or for the publishing, or done.
pub data Phase : Type 0 where
  connecting : List HeaderCall → Phase
  publishing finished : Phase

-- What the publishing ends with: an acknowledgement, which says whether it is a duplicate, or an error.
pub data Published : Type 0 where
  acknowledged : Bool → Published
  refused : Thrown → Published

pub data Event (K D : Type 0) : Type 0 where
  happens : Op K D → Event K D
  sets_up : String → Event K D
  connected : Option Thrown → Event K D
  published : Published → Event K D

pub record State (K : Type 0) : Type 0 where
  pub phase : Phase
  pub inbox : Inbox K

abbrev pub or_empty : Option String → String
or_empty none = ""
or_empty (some s) = s

abbrev pub or_default : Option ℕ → ℕ → ℕ
or_default none d = d
or_default (some t) d = t

-- `err instanceof Error ? err : new Error('Unknown error')`
abbrev pub as_error : Thrown → Thrown
as_error (error m) = error m
as_error _ = error "Unknown error"

abbrev pub request_headers : {K B : Type 0} → Request K B → Client → Inbox K → List HeaderCall
request_headers q c s = build_headers c q.headers q.subject (some q.id) (some (or_empty s.address))

module _ {K D B : Type 0} (q : Request K B) where
  abbrev pub report_published : PublishStatus → List (Call K D B)
  report_published s = if q.wants_published then emits_published s ∷ [] else []

  abbrev pub report_completed : PublishStatus → List (Call K D B)
  report_completed s = if q.wants_completed then emits_completed s ∷ [] else []

  -- What follows a discard, if the request was pending.
  abbrev pub if_discarded :
      Option K → List (Call K D B) → Inbox K × List (InboxCall K D) → State K × List (Call K D B)
  if_discarded none after (s, calls) =
      (record { phase = finished; inbox = s }, map of_own_discard calls)
  if_discarded (some k) after (s, calls) =
      (record { phase = finished; inbox = s }, map of_own_discard calls ++ after)

  abbrev pub errors : Thrown → List (Call K D B)
  errors e =
      emits_error (as_error e)
      ∷ (report_published errored
          ++ (report_completed errored ++ calls_back (failed (as_error e)) ∷ []))

  -- The `catch` block.
  unfoldable pub on_error : Thrown → Inbox K → State K × List (Call K D B)
  unfolding lookup discard
  on_error e s = if_discarded (lookup q.id s.pending) (errors e) (discard q.id s)

  abbrev pub no_inbox : List (Call K D B)
  no_inbox =
      report_published errored
      ++ (report_completed errored
          ++ calls_back (
              failed (error "Inbox not initialized; JetStream RPC mode requires a connected inbox"))
            ∷ [])

  -- The request is still pending: publish it, if there is an inbox by now.
  abbrev pub publish_pending :
      Option String → List HeaderCall → Inbox K → State K × List (Call K D B)
  publish_pending none hs s = if_discarded (some q.callback) no_inbox (discard q.id s)
  publish_pending (some a) hs s = (
    record { phase = publishing; inbox = s },
    publishes q.subject q.payload hs (or_fresh q.message_id q.fresh_id) ∷ [],
  )

  abbrev pub if_pending : Option K → List HeaderCall → Inbox K → State K × List (Call K D B)
  if_pending none hs s = (record { phase = finished; inbox = s }, [])
  if_pending (some k) hs s = publish_pending s.address hs s

  unfoldable pub on_connected :
      Option Thrown → List HeaderCall → Inbox K → State K × List (Call K D B)
  unfolding on_error lookup discard
  on_connected (some e) hs s = on_error e s
  on_connected none hs s = if_pending (lookup q.id s.pending) hs s

  unfoldable pub on_published : Published → Inbox K → State K × List (Call K D B)
  unfolding on_error
  on_published (acknowledged false) s =
      (record { phase = finished; inbox = s }, report_published success)
  on_published (acknowledged true) s = on_error (error "Duplicate RPC publish") s
  on_published (refused e) s = on_error e s

  module _ (c : Client) where
    abbrev pub armed : Inbox K → Inbox K × List (InboxCall K D)
    armed s =
        arm_timeout q.id (or_default q.timeout c.default_rpc_timeout) (register q.id q.callback s)

    abbrev pub then_continue :
        Bool → List HeaderCall → Inbox K × List (InboxCall K D) → State K × List (Call K D B)
    then_continue false hs (s, calls) =
        (record { phase = connecting hs; inbox = s }, map of_inbox calls)
    then_continue true hs (s, calls) =
        let rest = on_connected none hs s in (rest.0, map of_inbox calls ++ rest.1)

    -- The call of `publish`: `ready` if the client is connected, `fails` if the codec throws, which
    -- `onUnhandled` reports to the caller. The headers are made before the connection is awaited.
    unfoldable pub start : Bool → Option Thrown → Inbox K → State K × List (Call K D B)
    unfolding register arm_timeout on_connected
    start ready (some e) s = (
      record { phase = finished; inbox = s },
      calls_back (failed (error "Internal transport error")) ∷ [],
    )
    start ready none s = then_continue ready (request_headers q c s) (armed s)

  module _ (callback_fails : K → Reply D → Option Thrown) where
    abbrev pub in_phase : Phase → Inbox K × List (InboxCall K D) → State K × List (Call K D B)
    in_phase p (s, calls) = (record { phase = p; inbox = s }, map of_inbox calls)

    -- An event; a wait that is over is not ended again.
    unfoldable pub step : Event K D → Phase → Inbox K → State K × List (Call K D B)
    unfolding on_connected on_published
    step (happens op) p s = in_phase p (perform callback_fails op s)
    step (sets_up address) p s = in_phase p (setup address s)
    step (connected o) (connecting hs) s = on_connected o hs s
    step (connected o) p s = (record { phase = p; inbox = s }, [])
    step (published o) publishing s = on_published o s
    step (published o) p s = (record { phase = p; inbox = s }, [])

    abbrev pub run : List (Event K D) → State K → State K × List (Call K D B)
    run [] s = (s, [])
    run (e ∷ es) s =
        let one = step e s.phase s.inbox in let rest = run es one.0 in (rest.0, one.1 ++ rest.1)
