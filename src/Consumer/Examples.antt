-- ===== src/Consumer/Examples.antt =====
-- Consumers on a small server, and the theorems at them.
use nestjs_jetstream.Prelude.{◌⊎◌, ◌≡◌, refl, true, false, none, some, [], ◌∷◌, All}
use nestjs_jetstream.Names.{StreamKind, event, KindNames, subject, names_by_convention}
use nestjs_jetstream.Registry.{PatternsByKind}
use nestjs_jetstream.Management.{Settings, resolve_management_mode}
use nestjs_jetstream.Binder.{filter_covers_subject}
use nestjs_jetstream.Jsm.{ConsumerSpec, ok, ◌>>=◌, catch}
use nestjs_jetstream.Jsm.Rules.{after, accepted}
use nestjs_jetstream.Jsm.Toy.{Server, toy}
use nestjs_jetstream.Consumer.{
  Base, build_config, create_consumer, assert_no_migration, ensure_consumer, recover_consumer,
}
use nestjs_jetstream.Consumer.Protocol.{unknown, observe, permits, Shown}
use nestjs_jetstream.Consumer.Laws.{ensure_consumer_protocol, recover_consumer_protocol}
use nestjs_jetstream.Consumer.Filters.{build_config-covers}

abbrev names : StreamKind → KindNames
names = names_by_convention "orders"

abbrev patterns : PatternsByKind
patterns = record {
  events = "created" ∷ "paid" ∷ [];
  commands = [];
  broadcasts = [];
  ordereds = [];
}

abbrev settings : Settings
settings = record { blocks = λ k. none; provisioning = none; schedules = λ k. false }

abbrev no_config : StreamKind → Base
no_config kind = record { filter_subject = none; filter_subjects = none; rest = [] }

abbrev server : Server
server = record { streams = []; consumers = []; failing = none }

abbrev event_consumer : ConsumerSpec
event_consumer = record {
  durable_name = "orders__microservice_ev-consumer";
  filter_subject = some "orders__microservice.ev.>";
  filter_subjects = none;
  rest = [];
}

-- A consumer that was lost is made again.
recovered :
    (recover_consumer toy names patterns no_config settings event server).0
    ≡ ok (record {
      stream_name = "orders__microservice_ev-stream";
      name = "orders__microservice_ev-consumer";
      config = event_consumer;
    })
unfolding recover_consumer build_config resolve_management_mode assert_no_migration create_consumer
    ◌>>=◌ catch
recovered = refl

abbrev custom : StreamKind → KindNames
custom kind = record {
  stream = "shared";
  consumer = "shared-events";
  prefix = "acme.";
  schedule_prefix = "acme._sch.";
  custom = true;
}

abbrev overridden : StreamKind → Base
overridden kind = record {
  filter_subject = some "acme.elsewhere";
  filter_subjects = none;
  rest = [];
}

-- A filter of the user's overrides stays beside the list.
overridden_kept :
    build_config custom patterns overridden event
    ≡ ok (record {
      durable_name = "shared-events";
      filter_subject = some "acme.elsewhere";
      filter_subjects = some ("acme.created" ∷ "acme.paid" ∷ []);
      rest = [];
    })
unfolding build_config
overridden_kept = refl

ensure_consumer_protocol_example :
    let (r, es, w') = ensure_consumer toy names patterns no_config settings event server in
    (accepted observe (permits false "orders__microservice_ev-stream") unknown es ≡ true)
    × Shown r (after observe (permits false "orders__microservice_ev-stream") unknown es)
ensure_consumer_protocol_example =
    ensure_consumer_protocol toy names patterns no_config settings event server

recover_consumer_protocol_example :
    let (r, es, w') = recover_consumer toy names patterns no_config settings event server in
    (accepted observe (permits true "orders__microservice_ev-stream") unknown es ≡ true)
    × Shown r (after observe (permits true "orders__microservice_ev-stream") unknown es)
recover_consumer_protocol_example =
    recover_consumer_protocol toy names patterns no_config settings event server

build_config-covers_example :
    All
      (λ p. filter_covers_subject event_consumer (subject names event p) ≡ true)
      ("created" ∷ "paid" ∷ [])
    × ((event_consumer.filter_subject ≡ none) ⊎ (event_consumer.filter_subjects ≡ none))
unfolding build_config
build_config-covers_example =
    build_config-covers names patterns no_config event "orders__microservice.ev" event_consumer refl
      refl refl refl
