-- ===== src/AckPool.antt =====
-- src/utils/ack-extension.ts: the pool that keeps in-flight messages alive by one shared timer.
--
-- The time of day is an argument of each call. An entry is known by its identifier, the object
-- identity of the source; it is active as long as it is in the set, since the source sets and
-- clears both together.
pub mod Invariant
pub mod Tick
pub mod Examples
use nestjs_jetstream.Prelude.{
  ℕ, zero, suc, ◌+◌, ◌-◌, ◌*◌, ◌/◌, Bool, true, false, Option, none, some, List, [], ◌∷◌, ◌++◌,
  if◌then◌else◌, leb, ltb, ◌==◌, min, max, any,
}

abbrev pub default_ack_extension_interval : ℕ
default_ack_extension_interval = 5000

abbrev pub min_ack_extension_interval : ℕ
min_ack_extension_interval = 500

abbrev pub default_max_ack_extension_ms : ℕ
default_max_ack_extension_ms = 300000

-- `false` or `undefined`; `true`; a number of ms, by its floor and whether it is above 0; a number
-- that is not finite
pub data AckExtensionConfig : Type 0 where
  off : AckExtensionConfig
  auto : AckExtensionConfig
  every : ℕ → Bool → AckExtensionConfig
  not_finite : AckExtensionConfig

-- `ack_wait` comes in nanoseconds, `none` where it is not known.
unfoldable pub resolve_ack_extension_interval : AckExtensionConfig → Option ℕ → Option ℕ
resolve_ack_extension_interval off wait = none
resolve_ack_extension_interval not_finite wait = none
resolve_ack_extension_interval (every floor positive) wait = if positive then some floor else none
resolve_ack_extension_interval auto none = some default_ack_extension_interval
resolve_ack_extension_interval auto (some nanos) =
    if nanos == 0
    then some default_ack_extension_interval
    else some (max (nanos / 1000000 / 2) min_ack_extension_interval)

pub record AckEntry : Type 0 where
  pub id : ℕ
  pub interval : ℕ
  pub next_fire_at : ℕ
  pub expires_at : ℕ

-- `handle` is the time that the armed timer is meant for (`handleFireAt`), if one is armed; `fresh`
-- names the next entry.
pub record AckExtensionPool : Type 0 where
  pub entries : List AckEntry
  pub handle : Option ℕ
  pub fresh : ℕ

-- Calls that leave the pool.
pub data Call : Type 0 where
  sets_timer : ℕ → Call
  clears_timer : Call
  works : ℕ → Call

unfoldable pub new : AckExtensionPool
new = record { entries = []; handle = none; fresh = 0 }

abbrev pub due_at : AckEntry → ℕ
due_at e = min e.next_fire_at e.expires_at

-- `dueAt - Date.now()`, not below 0, is the truncated difference.
ensure_wake : ℕ → ℕ → Option ℕ → Option ℕ × List Call
ensure_wake now due none = (some due, sets_timer (due - now) ∷ [])
ensure_wake now due (some at) =
    if leb at due then (some at, []) else (some due, clears_timer ∷ sets_timer (due - now) ∷ [])

-- The new entry goes to the end, as in a `Set`.
unfoldable pub schedule : ℕ → ℕ → ℕ → AckExtensionPool → AckExtensionPool × List Call
unfolding ensure_wake
schedule now interval max_total p =
    let e : AckEntry = record {
      id = p.fresh;
      interval = interval;
      next_fire_at = now + interval;
      expires_at = now + max_total;
    } in
    let (handle, calls) = ensure_wake now (due_at e) p.handle in
    (record { entries = p.entries ++ e ∷ []; handle = handle; fresh = suc p.fresh }, calls)

delete : ℕ → List AckEntry → List AckEntry
delete i [] = []
delete i (e ∷ es) = if e.id == i then es else e ∷ delete i es

-- After a deletion: with no entry left an armed timer is cleared.
disarm : List AckEntry → Option ℕ → Option ℕ × List Call
disarm [] none = (none, [])
disarm [] (some at) = (none, clears_timer ∷ [])
disarm (e ∷ es) handle = (handle, [])

unfoldable pub cancel : ℕ → AckExtensionPool → AckExtensionPool × List Call
unfolding delete disarm
cancel i p =
    let left = delete i p.entries in
    let (handle, calls) = disarm left p.handle in
    if any (λ e. e.id == i) p.entries
    then (record p { entries = left; handle = handle }, calls)
    else (p, [])

abbrev earlier : ℕ → Option ℕ → ℕ
earlier due none = due
earlier due (some t) = min due t

-- The walk of `tick`: an expired entry is cancelled (the timer is not armed then, so nothing is
-- cleared), a due one is extended; a `working()` that throws is swallowed. It gives the entries that
-- stay, the earliest deadline and the calls.
walk : ℕ → List AckEntry → List AckEntry × Option ℕ × List Call
walk now [] = ([], none, [])
walk now (e ∷ es) =
    let (left, earliest, calls) = walk now es in
    let fired = record e { next_fire_at = now + e.interval } in
    if leb e.expires_at now
    then (left, earliest, calls)
    else if leb e.next_fire_at now
    then (fired ∷ left, some (earlier (due_at fired) earliest), works e.id ∷ calls)
    else (e ∷ left, some (earlier (due_at e) earliest), calls)

wake : ℕ → Option ℕ → Option ℕ × List Call
unfolding ensure_wake
wake now none = (none, [])
wake now (some due) = ensure_wake now due none

unfoldable pub tick : ℕ → AckExtensionPool → AckExtensionPool × List Call
unfolding walk wake
tick now p =
    let (left, earliest, calls) = walk now p.entries in
    let (handle, timer_calls) = wake now earliest in
    (record p { entries = left; handle = handle }, calls ++ timer_calls)

-- The interval that a message is registered with, if it is: `startAckExtensionTimer`.
unfoldable pub start_ack_extension_timer :
    ℕ → Option ℕ → ℕ → AckExtensionPool → AckExtensionPool × List Call
start_ack_extension_timer now none max_total p = (p, [])
start_ack_extension_timer now (some interval) max_total p =
    if leb interval 0 then (p, []) else schedule now interval max_total p
