-- ===== src/Migration/Examples.antt =====
-- Migrations on a small server, and the theorems at them.
use nestjs_jetstream.Prelude.{◌≡◌, refl, true, none, some, [], ◌∷◌}
use nestjs_jetstream.StreamConfig.{
  json, compare_stream_config, changes_of, is_equal, value_of, classify_mutability,
}
use nestjs_jetstream.Maps.{lookup}
use nestjs_jetstream.Jsm.{StreamSpec, StreamInfo, missing, at, ◌>>=◌, catch}
use nestjs_jetstream.Jsm.Rules.{after, accepted}
use nestjs_jetstream.Jsm.Toy.{Server, toy}
use nestjs_jetstream.Migration.{
  backup_of, try_info, drain_rounds, wait_for_source_drained, peer_rounds, wait_out_peer_migration,
  restore_from_backup, rollback_before_delete, up_to_delete, from_delete, migrate, resume,
  recover_interrupted,
}
use nestjs_jetstream.Migration.Ledger.{live, lost, observe, permits}
use nestjs_jetstream.Migration.Laws.{Safe, migrate_loses_nothing}
use nestjs_jetstream.Migration.Recovery.{Recovered, recover_loses_nothing}

abbrev on_file : StreamSpec
on_file = record {
  name = "orders";
  subjects = "orders.>" ∷ [];
  sources = [];
  started_at = missing;
  rest = ("storage", json "file") ∷ [];
}

abbrev in_memory : StreamSpec
in_memory = record on_file { rest = ("storage", json "memory") ∷ [] }

abbrev orders : StreamInfo
orders = record { config = on_file; messages = 5; sources = [] }

abbrev server : Server
server = record { streams = orders ∷ []; consumers = []; failing = none }

-- The five messages are in the stream with the new configuration, and the backup is gone.
migrated :
    (migrate toy 1000 "orders" in_memory server).2.streams
    ≡ record { config = in_memory; messages = 5; sources = [] } ∷ []
unfolding migrate wait_out_peer_migration try_info peer_rounds up_to_delete from_delete
    restore_from_backup wait_for_source_drained drain_rounds rollback_before_delete
    compare_stream_config changes_of value_of is_equal classify_mutability lookup ◌>>=◌ catch
migrated = refl

-- The backup cannot be made: the stream takes its subjects back.
rolled_back :
    (migrate toy 1000 "orders" in_memory
      (record server { failing = some (backup_of "orders") })).2.streams
    ≡ orders ∷ []
unfolding migrate wait_out_peer_migration try_info peer_rounds up_to_delete from_delete
    restore_from_backup wait_for_source_drained drain_rounds rollback_before_delete
    compare_stream_config changes_of value_of is_equal classify_mutability lookup ◌>>=◌ catch
rolled_back = refl

migrate_loses_nothing_example :
    let (r, es, w') = migrate toy 1000 "orders" in_memory server in
    (accepted
        (observe "orders" (backup_of "orders"))
        (permits "orders" (backup_of "orders"))
        live
        es
      ≡ true)
    × Safe r (
        after
          (observe "orders" (backup_of "orders"))
          (permits "orders" (backup_of "orders"))
          live
          es)
migrate_loses_nothing_example = migrate_loses_nothing toy "orders" 1000 in_memory server

-- A process died after it had deleted the original.
abbrev left_over : Server
left_over = record server {
  streams =
      record {
        config = record on_file {
          name = backup_of "orders";
          subjects = [];
          sources = "orders" ∷ [];
          started_at = at 1000;
        };
        messages = 5;
        sources = [];
      }
      ∷ [];
}

recovered :
    (recover_interrupted toy 200000 "orders" in_memory left_over).2.streams
    ≡ record { config = in_memory; messages = 5; sources = [] } ∷ []
unfolding recover_interrupted resume try_info restore_from_backup wait_for_source_drained
    drain_rounds ◌>>=◌ catch
recovered = refl

recover_loses_nothing_example :
    let (r, es, w') = recover_interrupted toy 200000 "orders" in_memory left_over in
    (accepted
        (observe "orders" (backup_of "orders"))
        (permits "orders" (backup_of "orders"))
        lost
        es
      ≡ true)
    × Recovered r (
        after
          (observe "orders" (backup_of "orders"))
          (permits "orders" (backup_of "orders"))
          lost
          es)
recover_loses_nothing_example = recover_loses_nothing toy "orders" 200000 in_memory left_over
