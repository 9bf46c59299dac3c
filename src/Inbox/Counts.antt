-- ===== src/Inbox/Counts.antt =====
-- How often a request is pending, and how often the calls settle it.
use Prim.Native.String.{String}
use text.Mathlib.Text.{◌==◌ as str_eq}
use text.Mathlib.TextEquality.{eq_iff}
use nestjs_jetstream.Prelude.{
  ℕ, suc, ◌+◌, ◌≤◌, ◌≡◌, refl, Option, none, some, List, [], ◌∷◌, ◌++◌, if◌then◌else◌, max, arith,
  ◌⊎◌, inl, inr,
}
use nestjs_jetstream.Event.Actions.{Thrown}
use nestjs_jetstream.Event.Pipeline.{Decoded, decoded, undecodable}
use nestjs_jetstream.Maps.{lookup, set, delete}
use nestjs_jetstream.Inbox.{
  reply_of, Reply, Inbox, Call, invokes, expires, discards, Msg, clear_calls, expire, discard_calls,
  reject_calls, clear_all, reply_of, invoke_calls,
}

module _ {ℓ} {V : Type ℓ} where
  -- how many entries a key has
  abbrev pub count : String → List (String × V) → ℕ
  count c [] = 0
  count c ((j, v) ∷ m) = let rest = count c m in if str_eq j c then suc rest else rest

  pub count-set :
      (c k : String) (v : V) (m : List (String × V))
      → count c (set k v m) ≡ (if str_eq k c then max 1 (count c m) else count c m)
  unfolding set
  count-set c k v [] = ground arith
  count-set c k v ((j, w) ∷ m) =
      ground (arith, count-set c k v m, eq_iff j k, eq_iff k c, eq_iff j c)

  pub count-delete :
      (c k : String) (m : List (String × V))
      → count c (delete k m) ≡ (if str_eq k c then 0 else count c m)
  unfolding delete
  count-delete c k [] = ground arith
  count-delete c k ((j, w) ∷ m) =
      ground (arith, count-delete c k m, eq_iff j k, eq_iff k c, eq_iff j c)

  pub count-lookup-none : (k : String) (m : List (String × V)) → lookup k m ≡ none → count k m ≡ 0
  unfolding lookup
  count-lookup-none k [] h = refl
  count-lookup-none k ((j, w) ∷ m) h = ground (arith, count-lookup-none k m)

  pub count-lookup-some :
      (k : String) (v : V) (m : List (String × V)) → lookup k m ≡ some v → 1 ≤ count k m
  unfolding lookup
  count-lookup-some k v [] h = cc
  count-lookup-some k v ((j, w) ∷ m) h = ground (arith, count-lookup-some k v m)

module _ {K D : Type 0} where
  -- how often the calls settle a request
  abbrev pub settled : String → List (Call K D) → ℕ
  settled c [] = 0
  settled c (invokes id k r ∷ t) = let rest = settled c t in if str_eq id c then suc rest else rest
  settled c (expires id ∷ t) = let rest = settled c t in if str_eq id c then suc rest else rest
  settled c (discards id ∷ t) = let rest = settled c t in if str_eq id c then suc rest else rest
  settled c (_ ∷ t) = settled c t

  pub settled-append :
      (c : String) (s t : List (Call K D)) → settled c (s ++ t) ≡ settled c s + settled c t
  settled-append c [] t = omega arith
  settled-append c (invokes id k r ∷ s) t = ground (arith, settled-append c s t)
  settled-append c (expires id ∷ s) t = ground (arith, settled-append c s t)
  settled-append c (discards id ∷ s) t = ground (arith, settled-append c s t)
  settled-append c (_ ∷ s) t = settled-append c s t

pub settled-clear_all :
    (K D : Type 0) (c : String) (m : List (String × ℕ))
    → settled {K = K} {D = D} c (clear_all m) ≡ 0
unfolding clear_all
settled-clear_all K D c [] = refl
settled-clear_all K D c ((id, t) ∷ m) = settled-clear_all K D c m

pub settled-reject_calls :
    {K : Type 0} (D : Type 0) (c : String) (e : Thrown) (m : List (String × K))
    → settled {D = D} c (reject_calls e m) ≡ count c m
unfolding reject_calls
settled-reject_calls D c e [] = refl
settled-reject_calls D c e ((id, k) ∷ m) = ground (arith, settled-reject_calls D c e m)

pub payload-cases :
    {D : Type 0} (p : Decoded D)
    → ((d : D) × (p ≡ decoded d)) ⊎ ((x : Thrown) × (p ≡ undecodable x))
payload-cases (decoded d) = inl (d, refl)
payload-cases (undecodable x) = inr (x, refl)

module _ {K D : Type 0} where
  pub settled-clear_calls :
      (c : String) (t : Option ℕ) (calls : List (Call K D))
      → settled c (clear_calls t ++ calls) ≡ settled c calls
  settled-clear_calls c none calls = refl
  settled-clear_calls c (some t) calls = refl

  pub settled-invoke_calls :
      (fails : K → Reply D → Option Thrown)
      → ((k : K) → (r : Reply D) → fails k r ≡ none)
      → (c id : String) (k : K) (msg : Msg D)
      → settled c (invoke_calls fails id k msg) ≡ (if str_eq id c then 1 else 0)
  unfolding invoke_calls
  settled-invoke_calls fails quiet c id k msg = elim (payload-cases msg.payload) [
    | inl (d, e) ↦ rw (e, quiet k (reply_of msg), invoke_calls) (ground arith)
    | inr (x, e) ↦ rw (e, invoke_calls) (ground arith)
  ]

-- a key that is found has an entry, and it is the only one
pub count-found :
    {V : Type 0} (c id : String) (v : V) (m : List (String × V))
    → lookup id m ≡ some v
    → count c m ≤ 1
    → (if str_eq id c then 1 else 0) + count c (delete id m) ≡ count c m
count-found c id v m e h =
    ground (arith, count-delete c id m, count-lookup-some id v m e, eq_iff id c)

pub count-not_found :
    {V : Type 0} (c id : String) (m : List (String × V))
    → lookup id m ≡ none
    → count c (delete id m) ≡ count c m
count-not_found c id m e =
    ground (arith, count-delete c id m, count-lookup-none id m e, eq_iff id c)

-- Settled and still pending, together, are what was pending.
abbrev pub Kept : {K D : Type 0} → String → Inbox K → Inbox K × List (Call K D) → Type 0
Kept c s r = settled c r.1 + count c r.0.pending ≡ count c s.pending

module _ {K : Type 0} (D : Type 0) (c : String) where
  pub expire-Kept :
      (o : Option K) (id : String) (s : Inbox K)
      → lookup id s.pending ≡ o
      → count c s.pending ≤ 1
      → Kept {D = D} c s (expire o id s)
  unfolding expire
  expire-Kept none id s e h = omega arith
  expire-Kept (some k) id s e h = ground (arith, count-found c id k s.pending e h)

  pub discard-Kept :
      (o : Option K) (id : String) (s : Inbox K)
      → lookup id s.pending ≡ o
      → count c s.pending ≤ 1
      → settled {D = D} c (discard_calls o id) + count c (delete id s.pending) ≡ count c s.pending
  discard-Kept none id s e h = omega (arith, count-not_found c id s.pending e)
  discard-Kept (some k) id s e h = ground (arith, count-found c id k s.pending e h)
