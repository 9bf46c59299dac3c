-- ===== src/Names/Examples.antt =====
-- Tests of the names, and their theorem at a concrete service.
use nestjs_jetstream.Prelude.{◌≡◌, ◌≢◌, refl, none, some}
use nestjs_jetstream.Subject.{split}
use nestjs_jetstream.Names.{
  command, ordered, names_by_convention, schedule_subject_base, convention_schedule_subject_base,
  normalize_prefix,
}
use nestjs_jetstream.Names.Laws.{schedule_subject_base-convention}

trailing_dots : normalize_prefix "acme.orders.." ≡ some "acme.orders."
unfolding normalize_prefix split
trailing_dots = refl

wildcard_prefix : normalize_prefix "acme.>" ≡ none
unfolding normalize_prefix split
wildcard_prefix = refl

ordered-ne-command : ordered ≢ command
ordered-ne-command e = cc

schedule_subject_base-convention_example :
    (schedule_subject_base (names_by_convention "orders") "orders__microservice.ordered.created"
      ≡ some "orders__microservice._sch.created")
    × (convention_schedule_subject_base "orders" "orders__microservice.ordered.created"
        ≡ some "orders__microservice._sch.created")
schedule_subject_base-convention_example =
    schedule_subject_base-convention "orders" ordered "created" ordered-ne-command refl
