-- ===== src/StreamConfig/Examples.antt =====
-- Tests of the difference, and its theorem at a concrete stream.
use Prim.Native.String.{String}
use nestjs_jetstream.Prelude.{◌≡◌, refl, inl, inr, List, true, false, [], ◌∷◌}
use nestjs_jetstream.Maps.{lookup}
use nestjs_jetstream.StreamConfig.{
  Config, json, boolean, is_equal, value_of, classify_mutability, changes_of, replace, hold_back,
  compare_stream_config, build_mutable_only_config, plan, updates,
}
use nestjs_jetstream.StreamConfig.Laws.{plan_update-safe}
use nestjs_jetstream.StreamConfig.Shared.{distinct, merge_subjects, has, merge_subjects-keeps}
use nestjs_jetstream.Subject.{split, subject_covers, covers_loop}
use nestjs_jetstream.Subject.Laws.{Matches, one}

abbrev stream : Config
stream = ("storage", json "file") ∷ ("max_age", json "60") ∷ ("deny_delete", boolean true) ∷ []

abbrev wanted : Config
wanted = ("storage", json "memory") ∷ ("max_age", json "90") ∷ ("deny_delete", boolean false) ∷ []

-- The storage and the flag keep their values, the age is updated.
abbrev sent : Config
sent = ("storage", json "file") ∷ ("max_age", json "90") ∷ ("deny_delete", boolean true) ∷ []

plan-wanted : plan false false stream wanted ≡ updates sent
unfolding plan compare_stream_config build_mutable_only_config changes_of hold_back replace value_of
    lookup is_equal classify_mutability
plan-wanted = refl

plan_update-safe_example :
    ((compare_stream_config stream sent).has_immutable_changes ≡ false)
    × ((compare_stream_config stream sent).has_transport_conflicts ≡ false)
plan_update-safe_example = plan_update-safe false false stream wanted sent plan-wanted

-- What one service wants of the shared stream, and what the others have brought to it.
abbrev own_subjects : List String
own_subjects = "broadcast.>" ∷ "audit.*" ∷ []

abbrev others : List String
others = "broadcast.*.b" ∷ "audit.*" ∷ "audit.x" ∷ []

merged_subjects : merge_subjects own_subjects others ≡ "broadcast.>" ∷ "audit.*" ∷ []
unfolding merge_subjects distinct subject_covers covers_loop split
merged_subjects = refl

merge_subjects-keeps_example :
    (u : String) × ((has u (merge_subjects own_subjects others) ≡ true)
      × Matches (split u) ("broadcast" ∷ "a" ∷ "b" ∷ []))
unfolding split
merge_subjects-keeps_example =
    merge_subjects-keeps own_subjects others "broadcast.*.b" ("broadcast" ∷ "a" ∷ "b" ∷ [])
      (
        (inl (λ e. cc), (inr refl, tt)),
        (
          (inl (λ e. cc), (inl (λ e. cc), tt)),
          (
            (inl (λ e. cc), (inl (λ e. cc), (inl (λ e. cc), tt))),
            ((inl (λ e. cc), (inl (λ e. cc), tt)), ((inl (λ e. cc), (inl (λ e. cc), tt)), tt)),
          ),
        ),
      )
      refl (inl (λ e. cc), (inl (λ e. cc), (inl (λ e. cc), tt)))
      (one (inr refl) (one (inl refl) (one (inr refl) Matches.all)))
