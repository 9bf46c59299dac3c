-- ===== src/Client/Answer.antt =====
-- How a request of the core mode answers its caller.
use nestjs_jetstream.Prelude.{
  ◌≡◌, refl, ◌∙◌, Bool, true, false, Option, none, some, List, [], ◌∷◌, ◌++◌, if◌then◌else◌,
  Bool-cases, inl, inr,
}
use nestjs_jetstream.Event.Actions.{Thrown, error}
use nestjs_jetstream.Inbox.{Reply, failed, answered, answered_error}
use nestjs_jetstream.Client.{Client}
use nestjs_jetstream.Client.Core.{
  Failure, timeout_error, thrown, decoded, undecodable, Response, replied, unanswered, RpcStatus,
  success, errored, timed_out, Call, connects, emits_completed, calls_back, World, Request, reason,
  report_published, report_completed, after, on_response, ask, after_connect, attempt, on_failure,
  caught, or_unhandled, prepared, publish_core_rpc,
}

module _ {D B : Type 0} where
  -- What the caller is told.
  abbrev pub answers : List (Call D B) → List (Reply D)
  answers [] = []
  answers (calls_back r ∷ t) = r ∷ answers t
  answers (_ ∷ t) = answers t

  abbrev pub completions : List (Call D B) → List RpcStatus
  completions [] = []
  completions (emits_completed s ∷ t) = s ∷ completions t
  completions (_ ∷ t) = completions t

abbrev pub answer_to : {D : Type 0} → Response D → Reply D
answer_to (unanswered f) = failed (reason f)
answer_to (replied b (undecodable f)) = failed (reason f)
answer_to (replied true (decoded d)) = answered_error d
answer_to (replied false (decoded d)) = answered d

abbrev pub failure_status : Failure → RpcStatus
failure_status (timeout_error m) = timed_out
failure_status (thrown e) = errored

abbrev pub status_of : {D : Type 0} → Response D → RpcStatus
status_of (unanswered f) = failure_status f
status_of (replied b (undecodable f)) = failure_status f
status_of (replied true (decoded d)) = errored
status_of (replied false (decoded d)) = success

-- The response that counts: that of the server, or that connecting failed.
abbrev pub effective : {D : Type 0} → Bool → Option Failure → Response D → Response D
effective false (some f) x = unanswered f
effective _ _ x = x

abbrev pub wanted : Bool → RpcStatus → List RpcStatus
wanted b s = if b then s ∷ [] else []

-- What is expected of a request: the answer, and what the completion hook is told.
abbrev pub Answered : {D B : Type 0} → Option Thrown → Bool → Response D → List (Call D B) → Type 0
Answered (some e) wants x t =
    (answers t ≡ failed (error "Internal transport error") ∷ []) × (completions t ≡ [])
Answered none wants x t =
    (answers t ≡ answer_to x ∷ []) × (completions t ≡ wanted wants (status_of x))

module _ {D B : Type 0} (c : Client) (w : World D) (q : Request B)
    (quiet : (r : Reply D) → w.callback_fails r ≡ none) where
  -- a result that threw nothing
  abbrev Settled : Reply D → RpcStatus → List (Call D B) × Option Failure → Type 0
  Settled r s (t, o) =
      (answers t ≡ r ∷ []) × ((completions t ≡ wanted w.wants_completed s) × (o ≡ none))

  reported-answers :
      (s u : RpcStatus) (t : List (Call D B))
      → answers ((report_published c w q s ++ report_completed c w q u) ++ t) ≡ answers t
  reported-answers s u t = elim (Bool-cases w.wants_published) [
    | inl e ↦ elim (Bool-cases w.wants_completed) [
      | inl f ↦ rw (e, f) refl
      | inr f ↦ rw (e, f) refl
    ]
    | inr e ↦ elim (Bool-cases w.wants_completed) [
      | inl f ↦ rw (e, f) refl
      | inr f ↦ rw (e, f) refl
    ]
  ]

  reported-completions :
      (s u : RpcStatus) (r : Reply D)
      → completions ((report_published c w q s ++ report_completed c w q u) ++ calls_back r ∷ [])
        ≡ wanted w.wants_completed u
  reported-completions s u r = elim (Bool-cases w.wants_published) [
    | inl e ↦ elim (Bool-cases w.wants_completed) [
      | inl f ↦ rw (e, f) refl
      | inr f ↦ rw (e, f) refl
    ]
    | inr e ↦ elim (Bool-cases w.wants_completed) [
      | inl f ↦ rw (e, f) refl
      | inr f ↦ rw (e, f) refl
    ]
  ]

  on_failure-Settled :
      (f : Failure) → Settled (failed (reason f)) (failure_status f) (on_failure c w q f)
  unfolding on_failure
  on_failure-Settled (timeout_error m) =
      (reported-answers _ _ _, (reported-completions success timed_out _, quiet _))
  on_failure-Settled (thrown e) =
      (reported-answers _ _ _, (reported-completions errored errored _, quiet _))

  -- A call that tells nobody does not matter.
  caught-after :
      (x : Call D B) (a : Reply D) (u : RpcStatus) (r : List (Call D B) × Option Failure)
      → ((t : List (Call D B)) → answers (x ∷ t) ≡ answers t)
      → ((t : List (Call D B)) → completions (x ∷ t) ≡ completions t)
      → Settled a u (caught c w q r)
      → Settled a u (caught c w q (after c w q (x ∷ []) r))
  caught-after x a u (t, none) f g h = (f t ∙ h.0, (g t ∙ h.1.0, h.1.1))
  caught-after x a u (t, some e) f g h =
      let rest = t ++ (on_failure c w q e).0 in (f rest ∙ h.0, (g rest ∙ h.1.0, h.1.1))

  on_response-Settled :
      (x : Response D) → Settled (answer_to x) (status_of x) (caught c w q (on_response c w q x))
  unfolding on_response
  on_response-Settled (unanswered f) = on_failure-Settled f
  on_response-Settled (replied b (undecodable f)) = on_failure-Settled f
  on_response-Settled (replied true (decoded d)) =
      rw (quiet (answered_error d))
        (reported-answers _ _ _, (reported-completions success errored _, refl))
  on_response-Settled (replied false (decoded d)) =
      rw (quiet (answered d))
        (reported-answers _ _ _, (reported-completions success success _, refl))

  ask-Settled : Settled (answer_to w.response) (status_of w.response) (caught c w q (ask c w q))
  ask-Settled =
      caught-after _ _ _ (on_response c w q w.response) (λ t. refl) (λ t. refl)
        (on_response-Settled w.response)

  attempted :
      (ready : Bool) (o : Option Failure)
      → let x = effective ready o w.response in
        Settled
          (answer_to x)
          (status_of x)
          (caught c w q (if ready then ask c w q else after_connect c w q o))
  attempted true o = ask-Settled
  attempted false none = caught-after connects _ _ (ask c w q) (λ t. refl) (λ t. refl) ask-Settled
  attempted false (some f) =
      caught-after connects _ _ ([], some f) (λ t. refl) (λ t. refl) (on_failure-Settled f)

  handled :
      (a : Reply D) (u : RpcStatus) (r : List (Call D B) × Option Failure)
      → Settled a u r
      → (answers (or_unhandled c w q r) ≡ a ∷ [])
        × (completions (or_unhandled c w q r) ≡ wanted w.wants_completed u)
  handled a u (t, none) h = (h.0, h.1.0)
  handled a u (t, some f) h = cc

  prepared-Answered :
      (o : Option Thrown)
      → Answered o w.wants_completed (effective w.ready w.connecting w.response) (prepared c w q o)
  unfolding attempt
  prepared-Answered (some e) = (refl, refl)
  prepared-Answered none = handled _ _ _ (attempted w.ready w.connecting)

-- A request of the core mode whose callback does not throw calls its caller back exactly once: with the
-- decoded reply, as an answer or, under the error header, as an error; with the reason, if connecting,
-- the request or the decoding fails; or with an internal error, if the request cannot be prepared. The
-- completion hook, if wanted, is told once how the request ended, unless it could not be prepared.
pub publish_core_rpc-Answered :
    {D B : Type 0} (c : Client) (w : World D) (q : Request B)
    → ((r : Reply D) → w.callback_fails r ≡ none)
    → Answered w.preparing w.wants_completed
        (effective w.ready w.connecting w.response)
        (publish_core_rpc c w q)
unfolding publish_core_rpc
publish_core_rpc-Answered c w q quiet = prepared-Answered c w q quiet w.preparing
