-- ===== src/Rpc/Naks.antt =====
-- Which commands are naked: src/server/routing/rpc.router.ts with its gate, concurrency-gate.ts.
use nestjs_jetstream.Prelude.{◌≡◌, false, List, [], ◌∷◌, ◌++◌, All}
use nestjs_jetstream.Event.Capture.Verdict.{settlements}
use nestjs_jetstream.Gate.{Config, dispose}
use nestjs_jetstream.Gate.World.{World, Reach, routed, naked}
use nestjs_jetstream.Gate.Naks.{naks_unrouted}
use nestjs_jetstream.Rpc.{Command, RouterContext, Event, handle_safe}
use nestjs_jetstream.Rpc.Refusal.{is_nak, handle_safe-not_nak}

All-each : {A : Type 0} {P : A → Type 0} (xs : List A) → ((x : A) → P x) → All P xs
All-each [] f = tt
All-each (x ∷ xs) f = (f x, All-each xs f)

-- For a gate of commands in any reachable state: the handling of a command that it routed makes no
-- nak, whatever comes of the command; the gate has naked none while it ran; and if it is disposed
-- now, the commands that it naks are those it never routed, so that with the routed ones they are
-- all that arrived, in order.
pub naked_are_unrouted :
    {D : Type 0} (rctx : RouterContext) (c : Config (Command D)) (w : World (Command D))
    (es : Command D → List (Event D))
    → Reach c w
    → All
        (λ m. All (λ s. is_nak s ≡ false) (settlements (handle_safe rctx m (es m))))
        (routed w.trace)
      × (naked w.trace ≡ [])
      × (routed w.trace ++ naked (dispose w.gate).1 ≡ w.arrived)
naked_are_unrouted rctx c w es r =
    let n = naks_unrouted c r in
    (All-each (routed w.trace) (λ m. handle_safe-not_nak rctx m (es m)), n.0, n.1)
