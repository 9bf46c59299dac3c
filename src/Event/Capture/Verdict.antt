-- ===== src/Event/Capture/Verdict.antt =====
-- The settlements that a capture makes.
use Prim.Native.String.{String}
use text.Mathlib.Text.{◌==◌ as str_eq}
use nestjs_jetstream.Prelude.{
  ℕ, zero, suc, ◌-◌, ◌≡◌, refl, ap, Bool, true, false, not, ◌&&◌, ◌||◌, ◌⊎◌, inl, inr, Option, none,
  some, List, [], ◌∷◌, ◌++◌, arith, if◌then◌else◌, Option-cases,
}
use nestjs_jetstream.Event.Actions.{
  Thrown, Settle, nak, term, HeaderCall, DeadLetterInfo, Call, settles, publishes, logs, Act, ◌>>◌,
  catch, call,
}
use nestjs_jetstream.Event.Capture.{
  Capture, Oracle, is_dlq_enabled, settle_quietly, header_calls, publish_from, publish_with_retry,
  notify_dead_letter_callback, fallback_to_on_dead_letter_callback, throws, dlq_publish_attempts,
}

abbrev pub succeeds : Option Thrown → Bool
succeeds none = true
succeeds (some e) = false

-- One of the attempts from `attempt` on succeeds, `left` of them after it.
abbrev pub stored : Oracle → ℕ → ℕ → Bool
stored o attempt zero = succeeds (o.publish_fails attempt)
stored o attempt (suc left) = succeeds (o.publish_fails attempt) || stored o (suc attempt) left

-- The dead letter can be published: the stream is on, a connection is there, the service is named.
abbrev pub can_publish : Capture → Bool
can_publish c = elim c.options [
  | none ↦ false
  | some opts ↦ is_dlq_enabled opts && (c.connected && not (str_eq opts.name ""))
]

-- What the callback decides where the dead letter was not stored.
abbrev pub fallback_verdict : Capture → Oracle → Settle
fallback_verdict c o =
    if c.on_dead_letter && succeeds o.callback_fails
    then term (some "Dead letter processed via fallback callback")
    else nak none

-- The settlement that a dead letter gets: it is removed from its stream if it was stored in the
-- dead-letter stream, or else if the callback took it; otherwise it stays.
abbrev pub captured : Capture → Oracle → Settle
captured c o =
    if can_publish c && stored o 1 (dlq_publish_attempts - 1)
    then term (some "Moved to DLQ stream")
    else fallback_verdict c o

-- Some header call is refused.
abbrev pub Refused : Oracle → Type 0
Refused o = (h : HeaderCall) × (e : Thrown) × (o.header_fails h ≡ some e)

module _ {D : Type 0} where
  abbrev pub settlements : List (Call D) → List Settle
  settlements [] = []
  settlements (settles s ∷ t) = s ∷ settlements t
  settlements (_ ∷ t) = settlements t

  pub settlements-append :
      (s t : List (Call D)) → settlements (s ++ t) ≡ settlements s ++ settlements t
  settlements-append [] t = refl
  settlements-append (settles x ∷ s) t = ap (λ r. x ∷ r) (settlements-append s t)
  settlements-append (_ ∷ s) t = settlements-append s t

  -- The act ends normally, and makes these settlement calls.
  pub record Settles (a : Act D) (s : List Settle) : Type 0 where
    pub made : settlements a.calls ≡ s
    pub normal : a.failure ≡ none

  -- The act throws, and makes these settlement calls before.
  pub record Throws (a : Act D) (s : List Settle) : Type 0 where
    pub made : settlements a.calls ≡ s
    pub thrown : (e : Thrown) × (a.failure ≡ some e)

  pub >>-Settles :
      (a b : Act D) {s t : List Settle} → Settles a s → Settles b t → Settles (a >> b) (s ++ t)
  >>-Settles a b p q =
      rw p.normal (record { made = rw (settlements-append, p.made, q.made); normal = q.normal })

  pub >>-Throws :
      (a b : Act D) {s t : List Settle} → Settles a s → Throws b t → Throws (a >> b) (s ++ t)
  >>-Throws a b p q =
      rw p.normal (record { made = rw (settlements-append, p.made, q.made); thrown = q.thrown })

  pub >>-Throws_left : (a b : Act D) {s : List Settle} → Throws a s → Throws (a >> b) s
  >>-Throws_left a b p = rw p.thrown.1 (record { made = p.made; thrown = (p.thrown.0, refl) })

  pub catch-Settles :
      (a : Act D) (h : Thrown → Act D) {s : List Settle} → Settles a s → Settles (catch a h) s
  catch-Settles a h p = rw p.normal (record { made = p.made; normal = refl })

  pub catch-Throws :
      (a : Act D) (h : Thrown → Act D) {s t : List Settle}
      → Throws a s
      → ((e : Thrown) → Settles (h e) t)
      → Settles (catch a h) (s ++ t)
  catch-Throws a h p q =
      let (e, thrown) = p.thrown in
      rw thrown
        (record { made = rw (settlements-append, p.made, (q e).made); normal = (q e).normal })

  pub settle_quietly-Settles : (o : Oracle) (s : Settle) → Settles (settle_quietly o s) (s ∷ [])
  unfolding settle_quietly
  settle_quietly-Settles o s = ground arith

  pub fallback-Settles :
      (c : Capture) (o : Oracle) (info : DeadLetterInfo D)
      → Settles (fallback_to_on_dead_letter_callback c o info) (fallback_verdict c o ∷ [])
  unfolding fallback_to_on_dead_letter_callback
  fallback-Settles c o info = ground arith

  pub notify-Settles :
      (c : Capture) (o : Oracle) (info : DeadLetterInfo D)
      → Settles (notify_dead_letter_callback c o info) (term (some "Moved to DLQ stream") ∷ [])
  unfolding notify_dead_letter_callback
  notify-Settles c o info = ground arith

  -- It ends in this one settlement, or a header is refused and it throws before any settlement.
  abbrev pub Ends : Oracle → Act D → Settle → Type 0
  Ends o a s = Settles a (s ∷ []) ⊎ (Throws a [] × Refused o)

  -- An act that publishes: it ends normally exactly if the dead letter was stored.
  abbrev pub Published : Bool → Act D → Type 0
  Published b a = ((b ≡ true) × Settles a []) ⊎ ((b ≡ false) × Throws a [])

  last_attempt :
      (r : Option Thrown) (p : String) (hdrs : List HeaderCall) (n : ℕ)
      → Published (succeeds r) (call (publishes p hdrs n) >> throws r)
  last_attempt none p hdrs n = inl (refl, record { made = refl; normal = refl })
  last_attempt (some e) p hdrs n = inr (refl, record { made = refl; thrown = (e, refl) })

  next_attempt :
      (r : Option Thrown) (p : String) (hdrs : List HeaderCall) (n : ℕ) (b : Bool) (again : Act D)
      → Published b again
      → Published
          (succeeds r || b)
          (catch (call (publishes p hdrs n) >> throws r) (λ _. call logs >> again))
  next_attempt none p hdrs n b again h = inl (refl, record { made = refl; normal = refl })
  next_attempt (some e) p hdrs n b again (inl (h, s)) =
      inl (h, record { made = s.made; normal = s.normal })
  next_attempt (some e) p hdrs n b again (inr (h, s)) =
      inr (h, record { made = s.made; thrown = s.thrown })

  publish_from-Published :
      (o : Oracle) (subject : String) (hdrs : List HeaderCall) (attempt left : ℕ)
      → Published (stored o attempt left) (publish_from o subject hdrs attempt left)
  unfolding publish_from
  publish_from-Published o subject hdrs attempt zero =
      last_attempt (o.publish_fails attempt) subject hdrs attempt
  publish_from-Published o subject hdrs attempt (suc left) =
      next_attempt (o.publish_fails attempt) subject hdrs attempt (stored o (suc attempt) left)
        (publish_from o subject hdrs (suc attempt) left)
        (publish_from-Published o subject hdrs (suc attempt) left)

  pub publish_with_retry-Published :
      (o : Oracle) (subject : String) (hdrs : List HeaderCall)
      → Published (stored o 1 (dlq_publish_attempts - 1)) (publish_with_retry o subject hdrs)
  unfolding publish_with_retry
  publish_with_retry-Published o subject hdrs = publish_from-Published o subject hdrs 1 2

  -- The headers are accepted, or one is refused and the act throws before anything is published.
  pub header_calls-cases :
      (o : Oracle) (hs : List HeaderCall)
      → Settles (header_calls o hs) [] ⊎ (Throws (header_calls o hs) [] × Refused o)
  unfolding header_calls
  header_calls-cases o [] = inl (record { made = refl; normal = refl })
  header_calls-cases o (x ∷ hs) = elim (Option-cases (o.header_fails x)) [
    | inl fine ↦ rw (fine, header_calls) (header_calls-cases o hs)
    | inr (e, bad) ↦
        inr (rw (bad, header_calls) (record { made = refl; thrown = (e, refl) }), (x, e, bad))
  ]

  -- A refused header ends the act with no call made.
  pub header_calls-refused :
      (o : Oracle) (xs ys : List HeaderCall) (h : HeaderCall) (e : Thrown)
      → o.header_fails h ≡ some e
      → ((header_calls {D = D} o (xs ++ h ∷ ys)).calls ≡ [])
        × ((x : Thrown) × ((header_calls {D = D} o (xs ++ h ∷ ys)).failure ≡ some x))
  unfolding header_calls
  header_calls-refused o [] ys h e refused = rw (refused, header_calls) (refl, (e, refl))
  header_calls-refused o (x ∷ xs) ys h e refused = elim (Option-cases (o.header_fails x)) [
    | inl fine ↦ rw (fine, header_calls) (header_calls-refused o xs ys h e refused)
    | inr (e', bad) ↦ rw (bad, header_calls) (refl, (e', refl))
  ]
