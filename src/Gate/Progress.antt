-- ===== src/Gate/Progress.antt =====
-- Promises that settle at a gate: src/server/routing/concurrency-gate.ts.
use nestjs_jetstream.Prelude.{
  ℕ, suc, ◌+◌, ◌-◌, ◌≤◌, ◌<◌, ◌≡◌, refl, ◌∙◌, ap, ◌⊎◌, inl, inr, Bool, true, Option, none, some,
  List, [], ◌∷◌, ◌++◌, append-nil, arith, length, length-append, length-keep-le,
}
use nestjs_jetstream.Gate.{
  Config, Call, QueuedMessage, has_slot, drain_loop, drain_backlog, on_async_done,
}
use nestjs_jetstream.Gate.World.{World, Reach, next, completes, routed, msgs, is_pending, complete}
use nestjs_jetstream.Gate.Invariant.{Inv, Reach-Inv}
use nestjs_jetstream.Gate.Invariant.Drain.{
  Within, drain_loop-Drained, routed-append, routed-failure,
}
use nestjs_jetstream.Gate.Laws.{idle_all_routed}

slot_freed : (o : Option ℕ) (n : ℕ) → Within o n → 1 ≤ n → has_slot o (n - 1) ≡ true
slot_freed none n h p = refl
slot_freed (some k) n h p = ground arith

nil_or_cons : {A : Type 0} (xs : List A) → (xs ≡ []) ⊎ (1 ≤ length xs)
nil_or_cons [] = inl refl
nil_or_cons (x ∷ xs) = inr (omega arith)

module _ {M : Type 0} (c : Config M) where
  -- Pending promises settle, in any order, and no message arrives.
  pub data Completions : ℕ → World M → World M → Type 0 where
    done : (w : World M) → Completions 0 w w
    settles :
        {n : ℕ} {v : World M} (w : World M) (before after : List M) (m : M) (rejected : Bool)
        → w.in_flight ≡ before ++ m ∷ after
        → Completions n (complete c m rejected (before ++ after) w) v
        → Completions (suc n) w v

  length-msgs : (xs : List (QueuedMessage M)) → length (msgs xs) ≡ length xs
  length-msgs [] = refl
  length-msgs (q ∷ xs) = ap suc (length-msgs xs)

  abbrev pub work : World M → ℕ
  work w = length w.in_flight + length w.gate.backlog

  complete-work :
      (m : M) (rejected : Bool) (before after : List M) (w : World M)
      → w.in_flight ≡ before ++ m ∷ after
      → let w' = complete c m rejected (before ++ after) w in work w' < work w
  unfolding complete on_async_done drain_backlog
  complete-work m rejected before after w e =
      rw (routed-append, routed-failure, length-append, length-append)
        (omega (
          arith,
          moved,
          ap length e,
          length-append before (m ∷ after),
          length-keep-le (λ x. is_pending (c.route x)) (routed t),
        ))
    where
      t : List (Call M)
      t = (drain_loop c (w.gate.active - 1) w.gate.backlog).2

      left : List (QueuedMessage M)
      left = (drain_loop c (w.gate.active - 1) w.gate.backlog).1

      moved : length (routed t) + length left ≡ length w.gate.backlog
      moved =
          let d = drain_loop-Drained c (w.gate.active - 1) w.gate.backlog in
          omega (
            arith,
            ap length d.fifo,
            length-append (routed t) (msgs left),
            length-msgs left,
            length-msgs w.gate.backlog,
          )

  drain_loop-moves :
      (active : ℕ) (backlog : List (QueuedMessage M))
      → has_slot c.max_active active ≡ true
      → 1 ≤ length backlog
      → 1 ≤ length (routed (drain_loop c active backlog).2)
  unfolding drain_loop
  drain_loop-moves active [] free h = absurd (omega arith)
  drain_loop-moves active (q ∷ rest) free h = rw free (ground arith)

  -- a completion routes a message if one waits
  complete-routed :
      (m : M) (rejected : Bool) (before after : List M) (w : World M)
      → Inv c w
      → w.in_flight ≡ before ++ m ∷ after
      → 1 ≤ length w.gate.backlog
      → length (routed w.trace) + 1
        ≤ length (routed (complete c m rejected (before ++ after) w).trace)
  unfolding complete on_async_done drain_backlog
  complete-routed m rejected before after w v e h =
      let held : 1 ≤ w.gate.active =
        omega (arith, v.counted, ap length e, length-append before (m ∷ after)) in
      rw (routed-append, routed-append, routed-failure, length-append)
        (omega (
          arith,
          drain_loop-moves (w.gate.active - 1) w.gate.backlog
              (slot_freed c.max_active w.gate.active v.within held) h,
        ))

  complete-empty :
      (m : M) (rejected : Bool) (others : List M) (w : World M)
      → w.gate.backlog ≡ []
      → (complete c m rejected others w).gate.backlog ≡ []
  unfolding complete on_async_done drain_backlog drain_loop
  complete-empty m rejected others w e = rw e refl

  stays_empty :
      {n : ℕ} {w v : World M} → Completions n w v → w.gate.backlog ≡ [] → v.gate.backlog ≡ []
  stays_empty (done w) e = e
  stays_empty (settles w before after m rejected _ rest) e =
      stays_empty rest (complete-empty m rejected (before ++ after) w e)

  still_reached : {n : ℕ} {w v : World M} → Completions n w v → Reach c w → Reach c v
  still_reached (done w) r = r
  still_reached (settles w before after m rejected e rest) r =
      still_reached rest (next r (completes w before after m rejected e))

  same_arrived : {n : ℕ} {w v : World M} → Completions n w v → v.arrived ≡ w.arrived
  unfolding complete
  same_arrived (done w) = refl
  same_arrived (settles w before after m rejected e rest) = same_arrived rest

  less_work : {n : ℕ} {w v : World M} → Completions n w v → n + work v ≤ work w
  less_work (done w) = omega arith
  less_work (settles w before after m rejected e rest) =
      omega (arith, less_work rest, complete-work m rejected before after w e)

  more_routed :
      {n : ℕ} {w v : World M}
      → Completions n w v
      → Reach c w
      → (length (routed w.trace) + n ≤ length (routed v.trace)) ⊎ (v.gate.backlog ≡ [])
  more_routed (done w) r = inl (omega arith)
  more_routed (settles w before after m rejected e rest) r = elim (nil_or_cons w.gate.backlog) [
    | inl none_waits ↦
        inr (stays_empty rest (complete-empty m rejected (before ++ after) w none_waits))
    | inr waits ↦ elim (more_routed rest (next r (completes w before after m rejected e))) [
      | inl more ↦
          inl
            (omega (arith, more, complete-routed m rejected before after w (Reach-Inv c r) e waits))
      | inr empty ↦ inr empty
    ]
  ]

  all_routed : (v : World M) → Inv c v → v.gate.backlog ≡ [] → routed v.trace ≡ v.arrived
  all_routed v i empty = rw (empty, append-nil) at i.fifo

  -- With room for at least one message, let `n` pending promises settle from any reachable state, in
  -- any order and each fulfilled or rejected, while no message arrives. Then `n` is at most the work
  -- there was (the messages pending or waiting) less the work that is left; and either all that
  -- arrived has been routed, or a promise is still pending and at least `n` more messages have been
  -- routed.
  pub settling_ends :
      (n : ℕ) (w v : World M)
      → Reach c w
      → has_slot c.max_active 0 ≡ true
      → Completions n w v
      → (n + work v ≤ work w)
        × ((routed v.trace ≡ w.arrived)
            ⊎ ((1 ≤ length v.in_flight) × (length (routed w.trace) + n ≤ length (routed v.trace))))
  settling_ends n w v r room s = (
    less_work s,
    elim (nil_or_cons v.in_flight) [
      | inl idle ↦ inl ((idle_all_routed c v there room idle).1 ∙ same_arrived s)
      | inr waits ↦ elim (more_routed s r) [
        | inl more ↦ inr (waits, more)
        | inr empty ↦ inl (all_routed v (Reach-Inv c there) empty ∙ same_arrived s)
      ]
    ],
  )
    where
      there : Reach c v
      there = still_reached s r
