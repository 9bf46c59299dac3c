-- ===== src/Inbox/Examples.antt =====
-- Tests of the inbox, and its theorem at concrete runs.
use nestjs_jetstream.Prelude.{ℕ, ◌+◌, ◌≡◌, refl, none, some, List, [], ◌∷◌, false}
use nestjs_jetstream.Event.Actions.{error}
use nestjs_jetstream.Event.Pipeline.{decoded}
use nestjs_jetstream.Maps.{lookup, set, delete}
use nestjs_jetstream.Inbox.{
  Msg, invokes, answered, failed, new, register, arm_timeout, expire, on_timer, discard,
  reject_calls, clear_all, reject_all, route_to, route_id, route, invoke_calls,
}
use nestjs_jetstream.Inbox.Counts.{settled, count}
use nestjs_jetstream.Inbox.Once.{
  Op, registers, arms_timeout, fires, discarded, rejects, receives, run,
  registered_once_settled_once,
}

abbrev reply : Msg ℕ
reply = record { correlation_id = some "a"; is_error = false; payload = decoded 7 }

-- Two requests: the first is answered twice and its timer fires late, the second is discarded.
abbrev ops : List (Op ℕ ℕ)
ops =
    registers "a" 1
    ∷ registers "b" 2
    ∷ arms_timeout "a" 500
    ∷ receives reply
    ∷ receives reply
    ∷ fires "a"
    ∷ discarded "b"
    ∷ rejects (error "disconnected")
    ∷ []

ops_settled : settled "a" (run (λ k r. none) ops new).1 ≡ 1
unfolding lookup set delete new register arm_timeout expire on_timer discard reject_calls clear_all
    reject_all invoke_calls route_to route_id route
ops_settled = refl

registered_once_settled_once_example :
    settled "a" (run (λ k r. none) ops new).1 + count "a" (run (λ k r. none) ops new).0.pending ≡ 1
registered_once_settled_once_example =
    registered_once_settled_once (λ k r. none) (λ k r. refl) "a" ops refl

-- A callback that throws on its answer is called again, with what it threw.
callback_throws :
    invoke_calls {K = ℕ} (λ k r. some (error "in the callback")) "a" 1 reply
    ≡ invokes "a" 1 (answered 7) ∷ invokes "a" 1 (failed (error "in the callback")) ∷ []
unfolding invoke_calls
callback_throws = refl
