-- ===== src/Gate.antt =====
-- src/server/routing/concurrency-gate.ts: the limiter between a subscription and its pipeline.
--
-- A method of the class returns the new gate and the calls that it made, in order. What a call of
-- the routing function gives is an oracle on the message: it finished, threw, or left a promise.
pub mod World
pub mod Invariant
pub mod Laws
pub mod Naks
pub mod Progress
pub mod Examples
use nestjs_jetstream.Prelude.{
  ℕ, suc, ◌+◌, ◌-◌, Bool, true, false, not, ◌&&◌, Option, none, some, List, [], ◌∷◌, ◌++◌, ltb, leb,
  if◌then◌else◌, length,
}

abbrev pub backlog_warn_threshold : ℕ
backlog_warn_threshold = 1000

-- What `route(msg)` did: returned `undefined`, threw, or returned a promise.
pub data Routed : Type 0 where
  finished threw pending : Routed

-- `stoppable`: `stopAckExtension` is a function, not null.
pub record QueuedMessage (M : Type 0) : Type 0 where
  pub msg : M
  pub stoppable : Bool

pub record Gate (M : Type 0) : Type 0 where
  pub active : ℕ
  pub backlog_warned : Bool
  pub backlog : List (QueuedMessage M)

-- The constructor's arguments. No limit is `Number.POSITIVE_INFINITY`; the park timer is a
-- function that says for a message whether a timer was started.
pub record Config (M : Type 0) : Type 0 where
  pub max_active : Option ℕ
  pub route : M → Routed
  pub park_timer : Option (M → Bool)

-- The calls that leave the class.
pub data Call (M : Type 0) : Type 0 where
  routes : M → Call M
  logs_failure : M → Call M
  starts_timer : M → Call M
  stops_timer : M → Call M
  warns : ℕ → Call M
  naks : M → Call M

unfoldable pub new : {M : Type 0} → Gate M
new = record { active = 0; backlog_warned = false; backlog = [] }

-- `this.active < this.maxActive`
abbrev pub has_slot : Option ℕ → ℕ → Bool
has_slot none active = true
has_slot (some n) active = ltb active n

-- The slot count after `routeSafely`: a promise keeps the slot, anything else gives it back.
abbrev pub occupied : ℕ → Routed → ℕ
occupied active pending = suc active
occupied active _ = suc active - 1

module _ {M : Type 0} where
  pub park : Option (M → Bool) → M → Bool
  park none m = false
  park (some start) m = start m

  abbrev pub start_calls : QueuedMessage M → List (Call M)
  start_calls q = if q.stoppable then starts_timer q.msg ∷ [] else []

  abbrev pub stop_calls : QueuedMessage M → List (Call M)
  stop_calls q = if q.stoppable then stops_timer q.msg ∷ [] else []

  abbrev pub route_calls : M → Routed → List (Call M)
  route_calls m threw = routes m ∷ logs_failure m ∷ []
  route_calls m _ = routes m ∷ []

  abbrev pub failure_calls : M → Bool → List (Call M)
  failure_calls m rejected = if rejected then logs_failure m ∷ [] else []

  -- the loop of `drainBacklog`: the slots, the backlog and the calls
  unfoldable pub drain_loop :
      Config M → ℕ → List (QueuedMessage M) → ℕ × List (QueuedMessage M) × List (Call M)
  drain_loop c active [] = (active, [], [])
  drain_loop c active (q ∷ rest) =
      let outcome = c.route q.msg in
      let (active', left, calls) = drain_loop c (occupied active outcome) rest in
      if has_slot c.max_active active
      then (active', left, stop_calls q ++ (route_calls q.msg outcome ++ calls))
      else (active, q ∷ rest, [])

  unfoldable pub drain_backlog : Config M → Gate M → Gate M × List (Call M)
  drain_backlog c g =
      let (active, left, calls) = drain_loop c g.active g.backlog in
      (
        record {
          active = active;
          backlog_warned =
              if ltb (length left) backlog_warn_threshold then false else g.backlog_warned;
          backlog = left;
        },
        calls,
      )

  warn_calls : Bool → ℕ → List (Call M)
  warn_calls warned n = if not warned && leb backlog_warn_threshold n then warns n ∷ [] else []

  unfoldable pub enqueue : Config M → M → Gate M → Gate M × List (Call M)
  unfolding park warn_calls
  enqueue c m g =
      let q : QueuedMessage M = record { msg = m; stoppable = park c.park_timer m } in
      let backlog = g.backlog ++ q ∷ [] in
      (
        record g {
          backlog = backlog;
          backlog_warned =
              if not g.backlog_warned && leb backlog_warn_threshold (length backlog)
              then true
              else g.backlog_warned;
        },
        start_calls q ++ warn_calls g.backlog_warned (length backlog),
      )

  -- `if (this.backlog.length > 0) this.drainBacklog()`
  drain_if_backlog : Config M → Gate M → List (QueuedMessage M) → Gate M × List (Call M)
  drain_if_backlog c g [] = (g, [])
  drain_if_backlog c g (_ ∷ _) = drain_backlog c g

  admit_as : Config M → M → Gate M → Routed → Gate M × List (Call M)
  unfolding drain_if_backlog
  admit_as c m g pending = (record g { active = occupied g.active pending }, route_calls m pending)
  admit_as c m g outcome =
      let (g', calls) =
        drain_if_backlog c (record g { active = occupied g.active outcome }) g.backlog in
      (g', route_calls m outcome ++ calls)

  unfoldable pub push : Config M → M → Gate M → Gate M × List (Call M)
  unfolding admit_as
  push c m g = if has_slot c.max_active g.active then admit_as c m g (c.route m) else enqueue c m g

  -- A pending promise settled: the `catch` logs a rejection, then `onAsyncDone` runs.
  unfoldable pub on_async_done : Config M → M → Bool → Gate M → Gate M × List (Call M)
  on_async_done c m rejected g =
      let (g', calls) = drain_backlog c (record g { active = g.active - 1 }) in
      (g', failure_calls m rejected ++ calls)

  pub dispose_calls : List (QueuedMessage M) → List (Call M)
  dispose_calls [] = []
  dispose_calls (q ∷ rest) = stop_calls q ++ naks q.msg ∷ dispose_calls rest

  -- A `nak` that throws is swallowed, so the loop always reaches the end.
  unfoldable pub dispose : Gate M → Gate M × List (Call M)
  unfolding dispose_calls
  dispose g = (record g { backlog = [] }, dispose_calls g.backlog)
