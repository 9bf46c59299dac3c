-- ===== src/Gate/World.antt =====
-- The gate with its surroundings: the messages that arrived, those whose promise is pending, and
-- the calls made so far. Arrivals and completions come in any order.
use nestjs_jetstream.Prelude.{Bool, true, false, ◌≡◌, List, [], ◌∷◌, ◌++◌, if◌then◌else◌, keep}
use nestjs_jetstream.Gate.{
  Gate, Config, Call, Routed, QueuedMessage, routes, starts_timer, stops_timer, naks, pending, push,
  on_async_done, new,
}

abbrev pub is_pending : Routed → Bool
is_pending pending = true
is_pending _ = false

module _ {M : Type 0} where
  -- The messages that a kind of call was made for, in order.
  abbrev pub routed : List (Call M) → List M
  routed [] = []
  routed (routes m ∷ t) = m ∷ routed t
  routed (_ ∷ t) = routed t

  abbrev pub started : List (Call M) → List M
  started [] = []
  started (starts_timer m ∷ t) = m ∷ started t
  started (_ ∷ t) = started t

  abbrev pub stopped : List (Call M) → List M
  stopped [] = []
  stopped (stops_timer m ∷ t) = m ∷ stopped t
  stopped (_ ∷ t) = stopped t

  abbrev pub naked : List (Call M) → List M
  naked [] = []
  naked (naks m ∷ t) = m ∷ naked t
  naked (_ ∷ t) = naked t

  abbrev pub still_pending : Config M → List M → List M
  still_pending c = keep (λ m. is_pending (c.route m))

  -- The parked messages that hold a timer.
  abbrev pub timed : List (QueuedMessage M) → List M
  timed [] = []
  timed (q ∷ rest) = let later = timed rest in if q.stoppable then q.msg ∷ later else later

  abbrev pub msgs : List (QueuedMessage M) → List M
  msgs [] = []
  msgs (q ∷ rest) = q.msg ∷ msgs rest

pub record World (M : Type 0) : Type 0 where
  pub gate : Gate M
  pub in_flight : List M
  pub trace : List (Call M)
  pub arrived : List M

unfoldable pub start : {M : Type 0} → World M
unfolding new
start = record { gate = new; in_flight = []; trace = []; arrived = [] }

module _ {M : Type 0} (c : Config M) where
  unfoldable pub arrive : M → World M → World M
  arrive m w =
      let (gate, calls) = push c m w.gate in
      record {
        gate = gate;
        in_flight = w.in_flight ++ still_pending c (routed calls);
        trace = w.trace ++ calls;
        arrived = w.arrived ++ m ∷ [];
      }

  -- The promise of `m` settles; `others` are the promises that stay pending.
  unfoldable pub complete : M → Bool → List M → World M → World M
  complete m rejected others w =
      let (gate, calls) = on_async_done c m rejected w.gate in
      record w {
        gate = gate;
        in_flight = others ++ still_pending c (routed calls);
        trace = w.trace ++ calls;
      }

  pub data Step : World M → World M → Type 0 where
    arrives : (w : World M) (m : M) → Step w (arrive m w)
    completes :
        (w : World M) (before after : List M) (m : M) (rejected : Bool)
        → w.in_flight ≡ before ++ m ∷ after
        → Step w (complete m rejected (before ++ after) w)

  pub data Reach : World M → Type 0 where
    here : Reach start
    next : {w v : World M} → Reach w → Step w v → Reach v
