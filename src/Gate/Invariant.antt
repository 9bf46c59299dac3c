-- ===== src/Gate/Invariant.antt =====
-- What holds of a gate and its surroundings at every reachable state.
pub mod Drain
use nestjs_jetstream.Prelude.{
  ℕ, suc, ◌+◌, ◌-◌, ◌≤◌, ◌<◌, ◌≡◌, refl, sym, ◌∙◌, ap, ◌⊎◌, inl, inr, Bool, true, false, Option,
  none, some, List, [], ◌∷◌, ◌++◌, append_assoc, append-nil, arith, leb, length, length-append,
  Bool-cases, if◌then◌else◌, keep,
}
use nestjs_jetstream.Gate.{
  Gate, Config, Call, Routed, QueuedMessage, finished, threw, pending, has_slot, drain_loop,
  drain_backlog, push, park, enqueue, route_calls, occupied, on_async_done, backlog_warn_threshold,
}
use nestjs_jetstream.Gate.World.{
  World, routed, started, stopped, timed, msgs, still_pending, arrive, complete, Step, arrives,
  completes, Reach, here, next, start,
}
use Drain.{
  Within-pred, Within-zero, routed-route, started-route, stopped-route, routed-failure,
  started-failure, stopped-failure, Within, Within-idle, Within-taken, Drained, drain_loop-Drained,
  routed-append, started-append, stopped-append, msgs-append, timed-append,
}

module _ {M : Type 0} (c : Config M) where
  pub record Inv (w : World M) : Type 0 where
    pub counted : w.gate.active ≡ length w.in_flight
    pub within : Within c.max_active w.gate.active
    pub busy : (w.gate.backlog ≡ []) ⊎ (has_slot c.max_active w.gate.active ≡ false)
    pub fifo : routed w.trace ++ msgs w.gate.backlog ≡ w.arrived
    pub timers : started w.trace ≡ stopped w.trace ++ timed w.gate.backlog
    pub warned : w.gate.backlog_warned ≡ leb backlog_warn_threshold (length w.gate.backlog)

  pub push_free :
      (m : M) (g : Gate M)
      → has_slot c.max_active g.active ≡ true
      → g.backlog ≡ []
      → push c m g
        ≡ (record g { active = occupied g.active (c.route m) }, route_calls m (c.route m))
  unfolding push
  push_free m g free idle = ground arith

  pub push_full :
      (m : M) (g : Gate M) → has_slot c.max_active g.active ≡ false → push c m g ≡ enqueue c m g
  unfolding push
  push_full m g full = rw full

  pub record Enqueued (m : M) (g g' : Gate M) (calls : List (Call M)) : Type 0 where
    pub active : g'.active ≡ g.active
    pub routed_none : routed calls ≡ []
    pub stopped_none : stopped calls ≡ []
    pub queued : msgs g'.backlog ≡ msgs g.backlog ++ m ∷ []
    pub timers : timed g'.backlog ≡ timed g.backlog ++ started calls
    pub warned :
        g.backlog_warned ≡ leb backlog_warn_threshold (length g.backlog)
        → g'.backlog_warned ≡ leb backlog_warn_threshold (length g'.backlog)

  enqueue-Enqueued : (m : M) (g : Gate M) → let (g', calls) = enqueue c m g in Enqueued m g g' calls
  unfolding enqueue
  enqueue-Enqueued m g = record {
    active = refl;
    routed_none = ground arith;
    stopped_none = ground arith;
    queued = msgs-append g.backlog _;
    timers = rw timed-append (ground arith);
    warned = λ h.
        ground (
          arith,
          length-append g.backlog (record { msg = m; stoppable = park c.park_timer m } ∷ []),
        );
  }

  arrive_full-Inv :
      (m : M) (w : World M)
      → Inv w
      → has_slot c.max_active w.gate.active ≡ false
      → Inv (arrive c m w)
  unfolding arrive
  arrive_full-Inv m w v full =
      let q = enqueue-Enqueued m w.gate in
      rw (push_full m w.gate full) (record {
        counted = rw q.routed_none (simp append-nil (q.active ∙ v.counted));
        within = rw q.active v.within;
        busy = inr (rw q.active full);
        fifo =
            simp (routed-append, q.routed_none, append-nil, q.queued, ← append_assoc)
              (ap (λ r. r ++ m ∷ []) v.fifo);
        timers =
            simp
              (started-append, stopped-append, q.stopped_none, append-nil, q.timers, ← append_assoc)
              (ap (λ r. r ++ started (enqueue c m w.gate).1) v.timers);
        warned = q.warned v.warned;
      })

  occupied-length : (m : M) (n : ℕ) → occupied n (c.route m) ≡ n + length (still_pending c (m ∷ []))
  occupied-length m n = ground arith

  occupied-Within :
      (m : M) (n : ℕ)
      → has_slot c.max_active n ≡ true
      → Within c.max_active n
      → Within c.max_active (occupied n (c.route m))
  occupied-Within m n free h = elim (c.route m) as (λ o. Within c.max_active (occupied n o)) [
    | finished ↦ Within-idle c.max_active n h
    | threw ↦ Within-idle c.max_active n h
    | pending ↦ Within-taken c.max_active n free
  ]

  arrive_free-Inv :
      (m : M) (w : World M)
      → Inv w
      → has_slot c.max_active w.gate.active ≡ true
      → w.gate.backlog ≡ []
      → Inv (arrive c m w)
  unfolding arrive
  arrive_free-Inv m w v free idle = rw (push_free m w.gate free idle) (record {
    counted =
        rw (length-append, routed-route)
          (omega (arith, occupied-length m w.gate.active, v.counted));
    within = occupied-Within m w.gate.active free v.within;
    busy = inl idle;
    fifo =
        simp (routed-append, routed-route, idle, append-nil)
          (ap (λ r. r ++ m ∷ []) (rw (idle, append-nil) at v.fifo));
    timers =
        simp (started-append, stopped-append, started-route, stopped-route, append-nil) v.timers;
    warned = v.warned;
  })

  Inv-arrive : (m : M) (w : World M) → Inv w → Inv (arrive c m w)
  Inv-arrive m w v = elim (Bool-cases (has_slot c.max_active w.gate.active)) [
    | inl free ↦ arrive_free-Inv m w v free (ground (arith, v.busy))
    | inr full ↦ arrive_full-Inv m w v full
  ]

  Inv-complete :
      (m : M) (rejected : Bool) (before after : List M) (w : World M)
      → Inv w
      → w.in_flight ≡ before ++ m ∷ after
      → Inv (complete c m rejected (before ++ after) w)
  unfolding complete on_async_done drain_backlog
  Inv-complete m rejected before after w v e =
      let d = drain_loop-Drained c (w.gate.active - 1) w.gate.backlog in
      record {
        counted =
            rw (routed-append, routed-failure, length-append, length-append)
              (omega (arith, d.counted, v.counted, ap length e, length-append before (m ∷ after)));
        within = d.within (Within-pred c.max_active w.gate.active v.within);
        busy = d.busy;
        fifo = simp (routed-append, routed-failure, append_assoc, d.fifo) v.fifo;
        timers =
            simp
              (
                started-append, stopped-append, started-failure, stopped-failure, append_assoc,
                d.stops, d.starts, append-nil,
              )
              v.timers;
        warned = ground (arith, v.warned, d.shrinks);
      }

  -- Every arrival and every completion keeps the invariant.
  pub Step-Inv : {w w' : World M} → Step c w w' → Inv w → Inv w'
  Step-Inv (arrives w m) v = Inv-arrive m w v
  Step-Inv (completes w before after m rejected e) v = Inv-complete m rejected before after w v e

  -- A gate that was just built satisfies it, whatever the limit.
  start-Inv : Inv start
  unfolding start
  start-Inv = record {
    counted = refl;
    within = Within-zero c.max_active;
    busy = inl refl;
    fifo = refl;
    timers = refl;
    warned = refl;
  }

  -- In every state that arrivals and completions lead to, in any order: the slots taken are the
  -- pending promises and never more than the limit; a message waits only if no slot is free; the
  -- messages were routed in the order of their arrival, and those not yet routed are the backlog,
  -- in order; a parked message's timer was stopped if and only if the message left the backlog; and
  -- the warning flag says that the backlog is at the threshold.
  pub Reach-Inv : {w : World M} → Reach c w → Inv w
  Reach-Inv here = start-Inv
  Reach-Inv (next r s) = Step-Inv s (Reach-Inv r)
