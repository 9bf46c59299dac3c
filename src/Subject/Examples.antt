-- ===== src/Subject/Examples.antt =====
-- Coverage at concrete subjects.
use nestjs_jetstream.Prelude.{◌≡◌, refl, ◌↔◌, inl, inr, true, false, [], ◌∷◌}
use nestjs_jetstream.Subject.{split, subject_covers, covers_or_equals, covers_loop}
use nestjs_jetstream.Subject.Laws.{Matches, one, subject_covers_sound, covers_or_equals_iff}

-- an equal pattern does not cover itself
not_itself : subject_covers "orders.>" "orders.>" ≡ false
unfolding subject_covers
not_itself = refl

subject_covers_sound_example : Matches (split "orders.>") ("orders" ∷ "eu" ∷ "created" ∷ [])
unfolding split subject_covers covers_loop
subject_covers_sound_example =
    subject_covers_sound "orders.>" "orders.*.created" ("orders" ∷ "eu" ∷ "created" ∷ [])
      (inl (λ e. cc), (inr refl, tt)) refl
      (one (inr refl) (one (inl refl) (one (inr refl) Matches.all)))

covers_or_equals_iff_example :
    (covers_or_equals "orders.*" "orders.created" ≡ true)
    ↔ Matches (split "orders.*") (split "orders.created")
unfolding split
covers_or_equals_iff_example =
    covers_or_equals_iff "orders.*" "orders.created" (inl (λ e. cc), (inl (λ e. cc), tt))
      (((λ e. cc), (λ e. cc)), (((λ e. cc), (λ e. cc)), tt))
