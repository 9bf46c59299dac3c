-- ===== src/Rpc/Refusal.antt =====
-- Commands that never reach a handler, and the settlements of a command: src/server/routing/rpc.router.ts.
use Prim.Native.String
use Prim.Native.String.{String}
use nestjs_jetstream.Prelude.{
  ◌≡◌, refl, ◌⊎◌, inl, inr, Bool, true, false, ◌||◌, Option, none, some, List, [], ◌∷◌,
  if◌then◌else◌, arith, All, Bool-cases,
}
use nestjs_jetstream.Event.Actions.{Settle, nak, term, Call}
use nestjs_jetstream.Event.Capture.Verdict.{settlements}
use nestjs_jetstream.Event.Pipeline.{Decoded, decoded, undecodable}
use nestjs_jetstream.Rpc.{
  Outcome, returned, threw, promised, Command, RouterContext, Event, deadline, fulfilled, rejected,
  Resolved, command, settled, is_missing, refuse, resolve_command, handle_safe,
}
use nestjs_jetstream.Rpc.Laws.{Fate, answers, handle_safe-Fate}

abbrev pub is_nak : Settle → Bool
is_nak (nak d) = true
is_nak _ = false

-- The reason to refuse a command: no handler, missing headers, or a payload that is undecodable.
abbrev pub refusal : {D : Type 0} → RouterContext → Command D → Option String
refusal rctx m =
    if rctx.handles m.subject
    then if is_missing m.reply_to || is_missing m.correlation_id
      then some "Missing required headers (reply-to or correlation-id)"
      else elim m.payload [ decoded d ↦ none | undecodable e ↦ some "Decode error" ]
    else some (String.◌++◌ "No handler for RPC: " m.subject)

module _ {D : Type 0} (rctx : RouterContext) (m : Command D) where
  abbrev Resolves : Type 0
  Resolves =
      ((d : D) × (resolve_command rctx m ≡ command d) × (refusal rctx m ≡ none))
      ⊎ ((r : String) × (resolve_command rctx m ≡ refuse rctx m r) × (refusal rctx m ≡ some r))

  by_payload :
      (p : Decoded D)
      → m.payload ≡ p
      → rctx.handles m.subject ≡ true
      → (is_missing m.reply_to || is_missing m.correlation_id) ≡ false
      → Resolves
  unfolding resolve_command
  by_payload (decoded d) e known there = inl (d, ground arith, ground arith)
  by_payload (undecodable x) e known there = inr ("Decode error", ground arith, ground arith)

  resolve_cases : Resolves
  unfolding resolve_command
  resolve_cases = elim (Bool-cases (rctx.handles m.subject)) [
    | inr unknown ↦
        inr (String.◌++◌ "No handler for RPC: " m.subject, rw unknown refl, rw unknown refl)
    | inl known ↦ elim (Bool-cases (is_missing m.reply_to || is_missing m.correlation_id)) [
      | inl missing ↦ inr (
        "Missing required headers (reply-to or correlation-id)",
        rw (known, missing) refl,
        rw (known, missing) refl,
      )
      | inr there ↦ by_payload m.payload refl known there
    ]
  ]

  -- the calls of a refused command
  refused_calls : Resolved D → List (Call D)
  refused_calls (settled a) = a.calls
  refused_calls (command d) = []

  refuse_terms :
      (r : String)
      → (answers (refused_calls (refuse rctx m r)) ≡ [])
        × All (λ s. is_nak s ≡ false) (settlements (refused_calls (refuse rctx m r)))
  unfolding refuse refused_calls
  refuse_terms r = ground arith

  refuse_settles :
      (r : String)
      → m.oracle.settle_fails (term (some r)) ≡ none
      → settlements (refused_calls (refuse rctx m r)) ≡ term (some r) ∷ []
  unfolding refuse refused_calls
  refuse_settles r h = ground arith

  handle_safe_refused :
      (es : List (Event D)) (r : String)
      → resolve_command rctx m ≡ refuse rctx m r
      → handle_safe rctx m es ≡ refused_calls (refuse rctx m r)
  unfolding handle_safe refuse refused_calls
  handle_safe_refused es r h = rw (h, handle_safe) refl

  Fate-not_nak :
      (oc : Outcome D) (es : List (Event D)) (t : List (Call D))
      → Fate rctx m oc es t
      → All (λ s. is_nak s ≡ false) (settlements t)
  Fate-not_nak (returned d) es t h = rw h.settlement (refl, tt)
  Fate-not_nak (threw e) es t h = rw h.settlement (refl, tt)
  Fate-not_nak promised [] t h = rw h.settlement tt
  Fate-not_nak promised (deadline ∷ es) t h = rw h.settlement (refl, tt)
  Fate-not_nak promised (fulfilled d ∷ es) t h = rw h.settlement (refl, tt)
  Fate-not_nak promised (rejected e ∷ es) t h = rw h.settlement (refl, tt)

  -- the handling of a routed command makes no nak, on any path
  pub handle_safe-not_nak :
      (es : List (Event D)) → All (λ s. is_nak s ≡ false) (settlements (handle_safe rctx m es))
  handle_safe-not_nak es = elim resolve_cases [
    | inl (d, e, _) ↦ Fate-not_nak m.outcome es _ (handle_safe-Fate rctx m d es e)
    | inr (r, e, _) ↦ rw (handle_safe_refused es r e) (refuse_terms r).1
  ]

  -- A command that is refused, for want of a handler, of its reply headers or of a payload that can
  -- be decoded, is terminated with that reason, once if the server accepts the call, and the caller
  -- is sent nothing.
  pub handle_safe-refusal :
      (es : List (Event D)) (r : String)
      → refusal rctx m ≡ some r
      → m.oracle.settle_fails (term (some r)) ≡ none
      → (settlements (handle_safe rctx m es) ≡ term (some r) ∷ [])
        × (answers (handle_safe rctx m es) ≡ [])
  handle_safe-refusal es r h fine = elim resolve_cases [
    | inl (d, _, n) ↦ absurd (cc)
    | inr (r', e, s) ↦
        let same : r' ≡ r = ground arith in
        rw (handle_safe_refused es r' e, same) (refuse_settles r fine, (refuse_terms r).0)
  ]
