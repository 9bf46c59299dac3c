-- ===== src/Gate/Invariant/Drain.antt =====
-- What one run of the drain loop does to the slots, the backlog and the timers.
use nestjs_jetstream.Prelude.{
  ℕ, suc, ◌+◌, ◌-◌, ◌≤◌, ◌≡◌, refl, ap, ◌⊎◌, inl, inr, Bool, true, false, Option, none, some, List,
  [], ◌∷◌, ◌++◌, arith, length, Bool-cases,
}
use nestjs_jetstream.Gate.{
  Config, Call, Routed, QueuedMessage, finished, threw, pending, has_slot, drain_loop, stop_calls,
  occupied, failure_calls, route_calls, routes, starts_timer, stops_timer,
}
use nestjs_jetstream.Gate.World.{routed, started, stopped, timed, msgs, still_pending}

abbrev pub Within : Option ℕ → ℕ → Type 0
Within none active = Unit
Within (some n) active = active ≤ n

module _ {M : Type 0} where
  pub routed-append : (s t : List (Call M)) → routed (s ++ t) ≡ routed s ++ routed t
  routed-append [] t = refl
  routed-append (routes m ∷ s) t = ap (λ r. m ∷ r) (routed-append s t)
  routed-append (_ ∷ s) t = routed-append s t

  pub started-append : (s t : List (Call M)) → started (s ++ t) ≡ started s ++ started t
  started-append [] t = refl
  started-append (starts_timer m ∷ s) t = ap (λ r. m ∷ r) (started-append s t)
  started-append (_ ∷ s) t = started-append s t

  pub stopped-append : (s t : List (Call M)) → stopped (s ++ t) ≡ stopped s ++ stopped t
  stopped-append [] t = refl
  stopped-append (stops_timer m ∷ s) t = ap (λ r. m ∷ r) (stopped-append s t)
  stopped-append (_ ∷ s) t = stopped-append s t

  pub msgs-append : (xs ys : List (QueuedMessage M)) → msgs (xs ++ ys) ≡ msgs xs ++ msgs ys
  msgs-append [] ys = refl
  msgs-append (q ∷ xs) ys = ap (λ r. q.msg ∷ r) (msgs-append xs ys)

  pub timed-append : (xs ys : List (QueuedMessage M)) → timed (xs ++ ys) ≡ timed xs ++ timed ys
  timed-append [] ys = refl
  timed-append (q ∷ xs) ys = ground (arith, timed-append xs ys)

  pub routed-route : (m : M) (o : Routed) → routed (route_calls m o) ≡ m ∷ []
  routed-route m o = ground arith

  pub started-route : (m : M) (o : Routed) → started (route_calls m o) ≡ []
  started-route m o = ground arith

  pub stopped-route : (m : M) (o : Routed) → stopped (route_calls m o) ≡ []
  stopped-route m o = ground arith

  pub routed-failure : (m : M) (b : Bool) → routed (failure_calls m b) ≡ []
  routed-failure m b = ground arith

  pub started-failure : (m : M) (b : Bool) → started (failure_calls m b) ≡ []
  started-failure m b = ground arith

  pub stopped-failure : (m : M) (b : Bool) → stopped (failure_calls m b) ≡ []
  stopped-failure m b = ground arith

  pub record Drained (c : Config M) (active : ℕ) (backlog : List (QueuedMessage M)) (active' : ℕ)
      (left : List (QueuedMessage M)) (calls : List (Call M)) : Type 0 where
    pub fifo : routed calls ++ msgs left ≡ msgs backlog
    pub counted : active' ≡ active + length (still_pending c (routed calls))
    pub within : Within c.max_active active → Within c.max_active active'
    pub busy : (left ≡ []) ⊎ (has_slot c.max_active active' ≡ false)
    pub stops : stopped calls ++ timed left ≡ timed backlog
    pub starts : started calls ≡ []
    pub shrinks : length left ≤ length backlog

pub Within-idle : (o : Option ℕ) (n : ℕ) → Within o n → Within o (suc n - 1)
Within-idle none n h = tt
Within-idle (some k) n h = omega arith

pub Within-pred : (o : Option ℕ) (n : ℕ) → Within o n → Within o (n - 1)
Within-pred none n h = tt
Within-pred (some k) n h = omega arith

pub Within-zero : (o : Option ℕ) → Within o 0
Within-zero none = tt
Within-zero (some k) = omega arith

pub Within-taken : (o : Option ℕ) (n : ℕ) → has_slot o n ≡ true → Within o (suc n)
Within-taken none n h = tt
Within-taken (some k) n h = ground arith

module _ {M : Type 0} (c : Config M) where
  -- one round of the loop in front of the rest
  Drained-cons :
      (active active' : ℕ) (q : QueuedMessage M) (rest left : List (QueuedMessage M))
      (calls : List (Call M)) (o : Routed)
      → c.route q.msg ≡ o
      → has_slot c.max_active active ≡ true
      → Drained c (occupied active o) rest active' left calls
      → Drained c active (q ∷ rest) active' left (stop_calls q ++ (route_calls q.msg o ++ calls))
  Drained-cons active active' q rest left calls finished e s d = record {
    fifo = ground (arith, d.fifo);
    counted = ground (arith, d.counted);
    within = λ h. d.within (Within-idle c.max_active active h);
    busy = d.busy;
    stops = ground (arith, d.stops);
    starts = ground (arith, d.starts);
    shrinks = ground (arith, d.shrinks);
  }
  Drained-cons active active' q rest left calls threw e s d = record {
    fifo = ground (arith, d.fifo);
    counted = ground (arith, d.counted);
    within = λ h. d.within (Within-idle c.max_active active h);
    busy = d.busy;
    stops = ground (arith, d.stops);
    starts = ground (arith, d.starts);
    shrinks = ground (arith, d.shrinks);
  }
  Drained-cons active active' q rest left calls pending e s d = record {
    fifo = ground (arith, d.fifo);
    counted = ground (arith, d.counted);
    within = λ h. d.within (Within-taken c.max_active active s);
    busy = d.busy;
    stops = ground (arith, d.stops);
    starts = ground (arith, d.starts);
    shrinks = ground (arith, d.shrinks);
  }

  Drained-stay :
      (active : ℕ) (backlog : List (QueuedMessage M))
      → (backlog ≡ []) ⊎ (has_slot c.max_active active ≡ false)
      → Drained c active backlog active backlog []
  Drained-stay active backlog h = record {
    fifo = refl;
    counted = omega arith;
    within = λ w. w;
    busy = h;
    stops = refl;
    starts = refl;
    shrinks = omega arith;
  }

  pub drain_loop-Drained :
      (active : ℕ) (backlog : List (QueuedMessage M))
      → let (active', left, calls) = drain_loop c active backlog in
        Drained c active backlog active' left calls
  unfolding drain_loop
  drain_loop-Drained active [] = Drained-stay active [] (inl refl)
  drain_loop-Drained active (q ∷ rest) = elim (Bool-cases (has_slot c.max_active active)) [
    | inl free ↦ rw free (
        Drained-cons active _ q rest _ _ (c.route q.msg) refl free
          (drain_loop-Drained (occupied active (c.route q.msg)) rest))
    | inr full ↦ rw full (Drained-stay active (q ∷ rest) (inr full))
  ]
