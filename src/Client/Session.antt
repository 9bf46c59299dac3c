-- ===== src/Client/Session.antt =====
-- src/client/jetstream.client.ts: connecting, closing and the loss of the connection.
use Prim.Native.String.{String}
use nestjs_jetstream.Prelude.{
  ◌≡◌, refl, Bool, true, false, not, ◌&&◌, ◌||◌, Option, none, some, List, [], ◌∷◌, ◌++◌, map,
  if◌then◌else◌,
}
use nestjs_jetstream.Event.Actions.{Thrown, error}
use nestjs_jetstream.Inbox.{Inbox, Call as InboxCall, new, setup, reject_all}

-- The inbox, whether the status of the connection is subscribed to, and `readyForPublish`.
pub record Session (K : Type 0) : Type 0 where
  pub inbox : Inbox K
  pub subscribed : Bool
  pub ready : Bool

pub data Call (K D : Type 0) : Type 0 where
  of_inbox : InboxCall K D → Call K D
  subscribes_status unsubscribes_status : Call K D

abbrev pub closed : {K : Type 0} → Session K
closed = record { inbox = new; subscribed = false; ready = false }

module _ {K D : Type 0} where
  abbrev pub set_up_if : Bool → String → Inbox K → Inbox K × List (InboxCall K D)
  set_up_if true address s = setup address s
  set_up_if false address s = (s, [])

  abbrev pub subscribe_if : Bool → List (Call K D)
  subscribe_if b = if b then subscribes_status ∷ [] else []

  abbrev pub opened : Session K → Inbox K × List (InboxCall K D) → Session K × List (Call K D)
  opened s (inbox, calls) = (
    record { inbox = inbox; subscribed = true; ready = true },
    map of_inbox calls ++ subscribe_if (not s.subscribed),
  )

  -- `fails`: whether the connection is refused; `address`: the inbox that the client library makes.
  unfoldable pub connect : Bool → Option Thrown → String → Session K → Session K × List (Call K D)
  unfolding setup
  connect core (some e) address s = (s, [])
  connect core none address s =
      opened s (set_up_if (not core && not s.inbox.active) address s.inbox)

  abbrev pub rejected : Bool → Inbox K × List (InboxCall K D) → Session K × List (Call K D)
  rejected subscribed (inbox, calls) =
      (record { inbox = inbox; subscribed = subscribed; ready = false }, map of_inbox calls)

  unfoldable pub close : Session K → Session K × List (Call K D)
  unfolding reject_all
  close s =
      let rest = rejected false (reject_all (error "Client closed") s.inbox) in
      (rest.0, (if s.subscribed then unsubscribes_status ∷ [] else []) ++ rest.1)

  -- On the status `disconnect`.
  unfoldable pub handle_disconnect : Session K → Session K × List (Call K D)
  unfolding reject_all
  handle_disconnect s = rejected s.subscribed (reject_all (error "Connection lost") s.inbox)

pub data Change : Type 0 where
  connects : Option Thrown → String → Change
  closes disconnects : Change

abbrev pub change : {K D : Type 0} → Bool → Change → Session K → Session K × List (Call K D)
change core (connects o address) s = connect core o address s
change core closes s = close s
change core disconnects s = handle_disconnect s

abbrev pub run : {K : Type 0} → (D : Type 0) → Bool → List Change → Session K → Session K
run D core [] s = s
run D core (c ∷ cs) s = run D core cs (change {D = D} core c s).0

-- A client that is ready watches the connection, and in the JetStream mode has a live inbox.
abbrev pub is_sound : {K : Type 0} → Bool → Session K → Bool
is_sound core s = not s.ready || (s.subscribed && (core || s.inbox.active))

set_up-active :
    {K : Type 0} (D : Type 0) (core active : Bool) (address : String) (s : Inbox K)
    → s.active ≡ active
    → (core || (set_up_if {D = D} (not core && not active) address s).0.active) ≡ true
unfolding setup
set_up-active D true a address s e = refl
set_up-active D false false address s e = refl
set_up-active D false true address s e = e

change_sound :
    {K : Type 0} (D : Type 0) (core : Bool) (c : Change) (s : Session K)
    → is_sound core s ≡ true
    → is_sound core (change {D = D} core c s).0 ≡ true
unfolding connect close handle_disconnect
change_sound D core (connects (some e) address) s h = h
change_sound D core (connects none address) s h =
    set_up-active D core s.inbox.active address s.inbox refl
change_sound D core closes s h = refl
change_sound D core disconnects s h = refl

-- Whatever connecting, closing and losing the connection do, in whatever order, a client that is ready
-- watches the connection and, in the JetStream mode, has a live inbox.
pub run_sound :
    (K D : Type 0) (core : Bool) (cs : List Change)
    → is_sound core (run D core cs (closed {K = K})) ≡ true
run_sound K D core cs = from_here cs closed refl
  where
    from_here :
        (cs : List Change) (s : Session K)
        → is_sound core s ≡ true
        → is_sound core (run D core cs s) ≡ true
    from_here [] s h = h
    from_here (c ∷ cs) s h = from_here cs (change {D = D} core c s).0 (change_sound D core c s h)
