-- ===== src/Inbox/Watched.antt =====
-- The deadline timers of pending requests: src/client/rpc-reply-inbox.ts.
use Prim.Native.String.{String}
use text.Mathlib.Text.{◌==◌ as str_eq}
use nestjs_jetstream.Prelude.{◌≤◌, ◌≡◌, Option, none, some, [], ◌∷◌, arith, Bool-cases, inl, inr}
use nestjs_jetstream.Maps.{lookup}
use nestjs_jetstream.Event.Actions.{Thrown}
use nestjs_jetstream.Inbox.{
  Reply, Inbox, Msg, register, arm_timeout, expire, on_timer, discard, reject_all, route_to,
  route_id, route,
}
use nestjs_jetstream.Inbox.Counts.{count, count-set, count-delete}
use nestjs_jetstream.Inbox.Once.{
  Op, registers, arms_timeout, fires, discarded, rejects, receives, perform, registered,
}

-- While the request under an id is pending, a deadline timer is set for it.
abbrev pub Watched : {K : Type 0} → String → Inbox K → Type 0
Watched c s = count c s.pending ≤ count c s.timeouts

module _ {K : Type 0} (D : Type 0) where
  pub discard-Watched :
      (c id : String) (s : Inbox K) → Watched c s → Watched c (discard {D = D} id s).0
  unfolding discard
  discard-Watched c id s h =
      ground (arith, count-delete c id s.pending, count-delete c id s.timeouts)

module _ {K D : Type 0} (fails : K → Reply D → Option Thrown) (c : String) where
  expire-Watched :
      (o : Option K) (id : String) (s : Inbox K) → Watched c s → Watched c (expire {D = D} o id s).0
  unfolding expire
  expire-Watched none id s h = h
  expire-Watched (some k) id s h =
      ground (arith, count-delete c id s.pending, count-delete c id s.timeouts)

  route_to-Watched :
      (o : Option K) (id : String) (msg : Msg D) (s : Inbox K)
      → Watched c s
      → Watched c (route_to fails msg id o s).0
  unfolding route_to
  route_to-Watched none id msg s h = h
  route_to-Watched (some k) id msg s h =
      ground (arith, count-delete c id s.pending, count-delete c id s.timeouts)

  route_id-Watched :
      (o : Option String) (msg : Msg D) (s : Inbox K)
      → Watched c s
      → Watched c (route_id fails msg o s).0
  unfolding route_id
  route_id-Watched none msg s h = h
  route_id-Watched (some id) msg s h = elim (Bool-cases (str_eq id "")) [
    | inl e ↦ rw (e, route_id) h
    | inr e ↦ rw (e, route_id) (route_to-Watched (lookup id s.pending) id msg s h)
  ]

  pub perform-Watched :
      (op : Op K D) (s : Inbox K)
      → registered c (op ∷ []) ≡ 0
      → Watched c s
      → Watched c (perform fails op s).0
  unfolding register arm_timeout on_timer reject_all route
  perform-Watched (registers id k) s z h = ground (arith, count-set c id k s.pending)
  perform-Watched (arms_timeout id ms) s z h =
      ground (arith, count-set c id s.next_timer s.timeouts)
  perform-Watched (fires id) s z h = expire-Watched (lookup id s.pending) id s h
  perform-Watched (discarded id) s z h = discard-Watched D c id s h
  perform-Watched (rejects e) s z h = omega arith
  perform-Watched (receives msg) s z h = route_id-Watched msg.correlation_id msg s h
