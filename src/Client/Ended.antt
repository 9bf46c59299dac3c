-- ===== src/Client/Ended.antt =====
-- How often a request has ended: its caller was called back or has unsubscribed.
use Prim.Native.String.{String}
use nestjs_jetstream.Prelude.{ℕ, suc, ◌+◌, ◌≡◌, refl, List, [], ◌∷◌, ◌++◌, map, arith}
use nestjs_jetstream.Inbox.{Call as InboxCall}
use nestjs_jetstream.Inbox.Counts.{count, settled, settled-append}
use nestjs_jetstream.Inbox.Once.{registered}
use nestjs_jetstream.Client.Request.{
  Call, of_inbox, of_own_discard, publishes, emits_error, emits_published, emits_completed,
  calls_back, Event, happens, sets_up, connected, published, State,
}

module _ {K D B : Type 0} where
  -- How often the request under an id has ended: its caller was called back, by the inbox or by the
  -- request itself, or has unsubscribed.
  abbrev pub ended : String → List (Call K D B) → ℕ
  ended c [] = 0
  ended c (of_inbox x ∷ t) = settled c (x ∷ []) + ended c t
  ended c (calls_back r ∷ t) = suc (ended c t)
  ended c (_ ∷ t) = ended c t

  pub ended-append :
      (c : String) (s t : List (Call K D B)) → ended c (s ++ t) ≡ ended c s + ended c t
  ended-append c [] t = omega arith
  ended-append c (of_inbox x ∷ s) t = omega (arith, ended-append c s t)
  ended-append c (calls_back r ∷ s) t = omega (arith, ended-append c s t)
  ended-append c (of_own_discard x ∷ s) t = ended-append c s t
  ended-append c (publishes s b h i ∷ s') t = ended-append c s' t
  ended-append c (emits_error e ∷ s) t = ended-append c s t
  ended-append c (emits_published u ∷ s) t = ended-append c s t
  ended-append c (emits_completed u ∷ s) t = ended-append c s t

module _ {K D : Type 0} (B : Type 0) where
  pub ended-of_inbox :
      (c : String) (t : List (InboxCall K D)) → ended {B = B} c (map of_inbox t) ≡ settled c t
  ended-of_inbox c [] = refl
  ended-of_inbox c (x ∷ t) = omega (arith, ended-of_inbox c t, settled-append c (x ∷ []) t)

  pub ended-of_own_discard :
      (c : String) (t : List (InboxCall K D)) → ended {B = B} c (map of_own_discard t) ≡ 0
  ended-of_own_discard c [] = refl
  ended-of_own_discard c (x ∷ t) = ended-of_own_discard c t

-- how often the events register an id
abbrev pub registrations : {K D : Type 0} → String → List (Event K D) → ℕ
registrations c [] = 0
registrations c (happens op ∷ es) = registered c (op ∷ []) + registrations c es
registrations c (_ ∷ es) = registrations c es

module _ {K D : Type 0} (c : String) where
  pub registrations-cons :
      (e : Event K D) (es : List (Event K D))
      → registrations c (e ∷ es) ≡ registrations c (e ∷ []) + registrations c es
  registrations-cons (happens op) es = omega arith
  registrations-cons (sets_up a) es = omega arith
  registrations-cons (connected o) es = omega arith
  registrations-cons (published o) es = omega arith

-- Ended and still pending, together.
abbrev pub total : {K D B : Type 0} → String → State K × List (Call K D B) → ℕ
total c (s, t) = ended c t + count c s.inbox.pending
