-- ===== src/Rpc/Examples.antt =====
-- Commands at work: a promise that is fulfilled after its deadline, and a command with no reply-to.
use nestjs_jetstream.Prelude.{ℕ, ◌≡◌, refl, true, false, none, some, List, [], ◌∷◌, ◌++◌, All}
use nestjs_jetstream.Event.Actions.{term}
use nestjs_jetstream.Event.Capture.{Oracle}
use nestjs_jetstream.Event.Capture.Verdict.{settlements}
use nestjs_jetstream.Event.Pipeline.{decoded}
use nestjs_jetstream.Rpc.{
  promised, Command, RouterContext, Event, deadline, fulfilled, resolve_command, handle_safe,
}
use nestjs_jetstream.Rpc.Laws.{Fate, answers, handle_safe-Fate}
use nestjs_jetstream.Rpc.Refusal.{is_nak, handle_safe-refusal}
use nestjs_jetstream.Rpc.Naks.{naked_are_unrouted}
use nestjs_jetstream.Gate.{Config, pending, push, enqueue, new, dispose}
use nestjs_jetstream.Gate.World.{
  World, here, next, arrives, start as start_world, arrive, routed, naked,
}

abbrev calm : Oracle
calm = record {
  settle_fails = λ _. none;
  publish_fails = λ _. none;
  header_fails = λ _. none;
  callback_fails = none;
  failed_at = "";
  count_text = "";
}

abbrev router : RouterContext
router = record {
  handles = λ _. true;
  has_hook = true;
  ack_extension_interval = some 5000;
  timeout = 180000;
}

abbrev slow : Command ℕ
slow = record {
  subject = "orders__microservice.cmd.get";
  reply_to = some "_INBOX.1";
  correlation_id = some "c1";
  payload = decoded 1;
  outcome = promised;
  oracle = calm;
  reply_fails = λ _. none;
  error_reply_fails = λ _. none;
}

abbrev anonymous : Command ℕ
anonymous = record slow { reply_to = none }

abbrev late : List (Event ℕ)
late = deadline ∷ fulfilled 2 ∷ []

handle_safe-Fate_example : Fate router slow promised late (handle_safe router slow late)
unfolding resolve_command
handle_safe-Fate_example = handle_safe-Fate router slow 1 late refl

-- One slot: the first command runs when the second one arrives.
abbrev one_slot : Config (Command ℕ)
one_slot = record { max_active = some 1; route = λ _. pending; park_timer = none }

abbrev parked : World (Command ℕ)
parked = arrive one_slot anonymous (arrive one_slot slow start_world)

parked_naked : naked (dispose parked.gate).1 ≡ anonymous ∷ []
unfolding start_world arrive push enqueue new dispose
parked_naked = refl

naked_are_unrouted_example :
    All
      (λ m. All (λ s. is_nak s ≡ false) (settlements (handle_safe router m late)))
      (routed parked.trace)
    × (naked parked.trace ≡ [])
    × (routed parked.trace ++ naked (dispose parked.gate).1 ≡ parked.arrived)
naked_are_unrouted_example =
    naked_are_unrouted router one_slot parked (λ _. late)
      (next (next here (arrives start_world slow)) (arrives _ anonymous))

handle_safe-refusal_example :
    (settlements (handle_safe router anonymous [])
      ≡ term (some "Missing required headers (reply-to or correlation-id)") ∷ [])
    × (answers (handle_safe router anonymous []) ≡ [])
handle_safe-refusal_example =
    handle_safe-refusal router anonymous [] "Missing required headers (reply-to or correlation-id)"
      refl refl
