-- ===== src/Consumer/Laws.antt =====
-- The start and the recovery of a consumer, against the protocol.
use Prim.Native.String.{String}
use text.Mathlib.TextPositions.{eq_refl}
use nestjs_jetstream.Prelude.{◌≡◌, refl, ◌∙◌, Bool, true, false}
use nestjs_jetstream.Names.{StreamKind, KindNames}
use nestjs_jetstream.Registry.{PatternsByKind}
use nestjs_jetstream.Management.{Settings, kind_of, consumer, resolve_management_mode, is_manual}
use nestjs_jetstream.Binder.{handlers_covered, swallows_schedules, fetch_consumer, bind_consumer}
use nestjs_jetstream.Jsm.{
  Error, plain_error, Result, ok, err, consumer_update, ConsumerSpec, ConsumerInfo, Manager, Exec,
  update_consumer, api_error, provisioning_error, has_code, consumer_not_found,
}
use nestjs_jetstream.Jsm.Rules.{
  after, accepted, Runs, Runs-pure, Runs-raise, Runs-call, Runs-if, Runs-bind, Runs-catch,
  Runs-weaken,
}
use nestjs_jetstream.Migration.Steps.{or_true}
use nestjs_jetstream.Consumer.{
  Base, build_config, run_consumer_op, with_config, map_provisioning_error, absent, ensure_consumer,
  recover_consumer,
}
use nestjs_jetstream.Consumer.Protocol.{
  Knowledge, unknown, observe, permits, Shown, Here, Read, Found, Clear, info_consumer-Read,
  info_consumer-Shown, or_create-Shown, assert-Clear, fetched,
}

not_mapped : (e : Error) → has_code consumer_not_found (map_provisioning_error e) ≡ false
not_mapped (api_error n) = refl
not_mapped (provisioning_error n) = refl
not_mapped (plain_error s) = refl

module _ {W : Type 0} (jsm : Manager W) (stream : String) where
  update-Found :
      (k : Knowledge) (c : ConsumerSpec)
      → k.exists ≡ true
      → Runs observe
          (permits false stream)
          k
          (run_consumer_op jsm (update_consumer jsm stream c.durable_name c))
          (Found jsm false stream)
  unfolding run_consumer_op
  update-Found k c x =
      Runs-catch {P = Shown} k _ _
        (Runs-call k (consumer_update stream c.durable_name c)
          (jsm.update_consumer stream c.durable_name c) (λ r. rw (eq_refl stream, x) refl) shown)
        (λ i k' h. h) (λ e k' h. Runs-raise k' _ ((λ t. cc (not_mapped e)), or_true k'.no_backup))
    where
      shown :
          (r : Result ConsumerInfo)
          → Shown r (observe (consumer_update stream c.durable_name c r) k)
      shown (ok i) = refl
      shown (err e) = tt

module _ {W : Type 0} (jsm : Manager W) (names : StreamKind → KindNames) (patterns : PatternsByKind)
    (base : StreamKind → Base) (settings : Settings) (kind : StreamKind) where
  Read-Found :
      (k : Knowledge)
      → k.no_backup ≡ true
      → (r : Result ConsumerInfo) (k' : Knowledge) → Read jsm true (names kind).stream k r k'
      → Found jsm true (names kind).stream r k'
  Read-Found k b (ok i) k' (x, n) = x
  Read-Found k b (err e) k' (m, n) = ((λ t. m ∙ t), rw (n ∙ b) refl)

  configured :
      (recovering : Bool) (r : Result ConsumerSpec) (f : ConsumerSpec → Exec W ConsumerInfo)
      → ((c : ConsumerSpec) → Here recovering (names kind).stream unknown (f c))
      → Here recovering
          (names kind).stream
          unknown
          (with_config jsm names patterns base settings r f)
  configured recovering (ok c) f k = k c
  configured recovering (err e) f k = Runs-raise unknown e tt

  bind-Shown :
      (k : Knowledge)
      → Here false (names kind).stream k (bind_consumer names patterns settings jsm kind)
  unfolding bind_consumer fetch_consumer
  bind-Shown k =
      Runs-bind {P = Shown} k _ _
        (Runs-catch {P = Shown} k _ _
          (info_consumer-Shown jsm false (names kind).stream k (names kind).consumer) (λ i k' s. s)
          (λ e k' _.
            Runs-if k' (has_code consumer_not_found e) _ _ (λ _. Runs-raise k' _ tt)
              (λ _. Runs-raise k' e tt)))
        (λ i k' s.
          Runs-if k' (handlers_covered names patterns settings kind i.config) _ _
            (λ _.
              Runs-if k' (swallows_schedules names patterns settings kind i.config) _ _
                (λ _. Runs-raise k' _ tt) (λ _. Runs-pure k' i s))
            (λ _. Runs-raise k' _ tt))
        (λ e k' s. tt)

  ensure-Shown :
      Here false (names kind).stream unknown (ensure_consumer jsm names patterns base settings kind)
  unfolding ensure_consumer
  ensure-Shown =
      let stream = (names kind).stream in
      configured false (build_config names patterns base kind) _ λ c.
        Runs-if unknown (is_manual (resolve_management_mode settings (kind_of kind) consumer)) _ _
          (λ _. bind-Shown unknown)
          (λ _. or_create-Shown jsm false stream unknown c _ (
            Runs-bind {P = Read jsm false stream unknown} unknown _ _
              (info_consumer-Read jsm false stream unknown c.durable_name)
              (λ i k' (x, b). update-Found jsm stream k' c x)
              (λ e k' (m, b). ((λ t. m ∙ t), or_true k'.no_backup))))

  recover-Shown :
      Here true (names kind).stream unknown (recover_consumer jsm names patterns base settings kind)
  unfolding recover_consumer
  recover-Shown =
      let stream = (names kind).stream in
      configured true (build_config names patterns base kind) _ λ c.
        Runs-if unknown (is_manual (resolve_management_mode settings (kind_of kind) consumer)) _ _
          (λ _. fetched jsm true stream unknown c.durable_name (absent jsm))
          (λ _.
            Runs-bind {P = Clear jsm true stream} unknown _ _ (assert-Clear jsm true stream unknown)
              (λ u k b. or_create-Shown jsm true stream k c _ (
                Runs-weaken k _ (info_consumer-Read jsm true stream k c.durable_name)
                  (Read-Found k b)))
              (λ e k b. tt))

  -- Whatever the server answers: the start of a consumer changes no stream, updates the consumer only
  -- after it was found, and creates one only after the answer that it is not found; and if it
  -- returns, the server has shown that the consumer is there.
  pub ensure_consumer_protocol :
      (w : W)
      → let (r, es, w') = ensure_consumer jsm names patterns base settings kind w in
        (accepted observe (permits false (names kind).stream) unknown es ≡ true)
        × Shown r (after observe (permits false (names kind).stream) unknown es)
  ensure_consumer_protocol w = (ensure-Shown.permitted w, ensure-Shown.ends w)

  -- Whatever the server answers: the recovery of a consumer changes no stream and updates no
  -- consumer, and creates one only after the answers that the stream has no migration backup and
  -- that the consumer is not found; and if it returns, the server has shown that the consumer is
  -- there.
  pub recover_consumer_protocol :
      (w : W)
      → let (r, es, w') = recover_consumer jsm names patterns base settings kind w in
        (accepted observe (permits true (names kind).stream) unknown es ≡ true)
        × Shown r (after observe (permits true (names kind).stream) unknown es)
  recover_consumer_protocol w = (recover-Shown.permitted w, recover-Shown.ends w)
