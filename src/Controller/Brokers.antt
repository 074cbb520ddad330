-- ===== src/Controller/Brokers.antt =====
-- internal/controller/automq_controller_b.go, but for the deployment's contents and
-- the bootstrap service.
pub mod Clean
pub mod Answers
pub mod Stored
pub mod Ready
pub mod Image
use automq_operator.Base.{
  String, Bool, true, Option, none, some, List, [], ◌∷◌, ◌<>◌, if◌then◌else◌,
}
use automq_operator.Base.Int.{ℤ, pos, ltb_ℤ, range}
use automq_operator.Base.Decimal.{show}
use automq_operator.Kube.Objects.{
  Key, EnvVar, service, deployment, stateful_set, persistent_volume_claim, Service, ServicePort,
  PersistentVolumeClaim, Deployment, Condition, Err, Result, ok, err,
}
use automq_operator.Kube.Env.{Env}
use automq_operator.Api.Types.{AutoMq}
use automq_operator.Controller.Names.{
  broker_role, get_auto_mq_label_map, get_auto_mq_name, index_labels,
}
use automq_operator.Controller.State.{
  Reconciler, Context, State, Outcome, done, panicked, Method, new_condition, set_condition,
  on_error,
}
use automq_operator.Controller.Requests.{
  discard, new_claim, new_service, new_deployment, mutate_claim, mutate_service,
}
use automq_operator.Controller.Bootstrap.{bootstrap_key}
use automq_operator.Controller.BrokerDeploy.{broker_envs, mutate_broker_deploy}

abbrev pub broker_key : AutoMq → ℤ → Key
broker_key obj i = record {
  namespace = obj.metadata.namespace;
  name = get_auto_mq_name broker_role (some i);
}

-- The service that `syncBrokerService` passes to `CreateOrUpdate`.
abbrev pub new_broker_service : AutoMq → ℤ → Service
new_broker_service obj index =
    new_service obj.metadata.namespace (get_auto_mq_name broker_role (some index))
      (index_labels obj.metadata.name broker_role index)

-- The deployment that `syncBrokerDeploy` passes to `CreateOrUpdate`.
abbrev pub new_broker_deployment : AutoMq → ℤ → Deployment
new_broker_deployment obj index =
    new_deployment obj.metadata.namespace (get_auto_mq_name broker_role (some index))
      (index_labels obj.metadata.name broker_role index)

module _ {W : Type 0} (env : Env W) where
  -- One round of the loop of `cleanBroker`.
  clean_broker_at : AutoMq → ℤ → W → W
  unfolding discard
  clean_broker_at obj i w =
      discard env persistent_volume_claim (broker_key obj i)
        (discard env deployment (broker_key obj i) (discard env service (broker_key obj i) w))

  clean_brokers_from : AutoMq → List ℤ → W → W
  unfolding clean_broker_at
  clean_brokers_from obj [] w = w
  clean_brokers_from obj (i ∷ is) w = clean_brokers_from obj is (clean_broker_at obj i w)

  unfoldable pub clean_broker : AutoMq → W → Option Err × W
  unfolding clean_brokers_from discard
  clean_broker obj w =
      let w' = clean_brokers_from obj (range (pos 0) obj.status.broker_replicas) w in
      (none, discard env service (bootstrap_key obj) w')

  -- One round of the loop of `syncBrokerScale`. It asks to delete a stateful set.
  scale_broker_at : AutoMq → ℤ → W → W
  unfolding discard
  scale_broker_at obj i w =
      discard env persistent_volume_claim (broker_key obj i)
        (discard env service (broker_key obj i) (discard env stateful_set (broker_key obj i) w))

  scale_brokers_from : AutoMq → List ℤ → W → W
  unfolding scale_broker_at
  scale_brokers_from obj [] w = w
  scale_brokers_from obj (i ∷ is) w = scale_brokers_from obj is (scale_broker_at obj i w)

  -- The loop visits nothing unless the status counts more replicas than the specification.
  unfoldable pub sync_broker_scale : Method W
  unfolding scale_brokers_from
  sync_broker_scale s =
      let current = s.mq.status.broker_replicas in
      let w' =
        if ltb_ℤ s.mq.spec.broker.replicas current
        then scale_brokers_from s.mq (range s.mq.spec.broker.replicas current) s.world
        else s.world in
      done (
        true,
        record {
          mq =
              set_condition env
                (new_condition s.mq "SyncBrokerScale" "True" "BrokerScaleReconciling" (
                  "Broker scale for the custom resource (" <> s.mq.metadata.name
                  <> ") has been reconciled"))
                s.mq;
          world = w';
        },
      )

  unfoldable pub sync_broker_pvc : AutoMq → ℤ → W → Option Err × W
  unfolding mutate_claim index_labels
  sync_broker_pvc obj index w =
      let (e, (_, w')) =
        env.retry_on_conflict (PersistentVolumeClaim × W)
          (env.create_or_update persistent_volume_claim (
            mutate_claim (index_labels obj.metadata.name broker_role index)
              obj.spec.broker.storage_class))
          (new_claim obj.metadata.namespace (get_auto_mq_name broker_role (some index)), w) in
      (e, w')

  abbrev pub broker_ports : List ServicePort
  broker_ports =
      record {
        name = broker_role;
        port = pos 9092;
        target_port = broker_role;
        protocol = "TCP";
        node_port = pos 0;
      }
      ∷ []

  unfoldable pub sync_broker_service : AutoMq → ℤ → W → Option Err × W
  unfolding mutate_service index_labels
  sync_broker_service obj index w =
      let labels = index_labels obj.metadata.name broker_role index in
      let (e, (_, w')) =
        env.retry_on_conflict (Service × W)
          (env.create_or_update service (mutate_service labels broker_ports "NodePort"))
          (new_broker_service obj index, w) in
      (e, w')

  -- From the call of `RetryOnConflict` on.
  pub apply_broker_deploy : Reconciler → Context → AutoMq → ℤ → List EnvVar → W → Option Err × W
  unfolding mutate_broker_deploy index_labels
  apply_broker_deploy r ctx obj index envs w =
      let (e, (_, w')) =
        env.retry_on_conflict (Deployment × W)
          (env.create_or_update deployment (mutate_broker_deploy r ctx obj index envs))
          (new_broker_deployment obj index, w) in
      (e, w')

  -- `svc.Spec.Ports[0].NodePort`: with no port the index is out of range.
  deploy_at_port :
      Reconciler → Context → AutoMq → ℤ → List ServicePort → W → Outcome (Option Err × W)
  unfolding apply_broker_deploy broker_envs
  deploy_at_port r ctx obj index [] w = panicked
  deploy_at_port r ctx obj index (p ∷ ps) w =
      done
        (apply_broker_deploy r ctx obj index (broker_envs env.operator_apis_ip obj p.node_port) w)

  deploy_for_service :
      Reconciler → Context → AutoMq → ℤ → Result Service × W → Outcome (Option Err × W)
  unfolding deploy_at_port
  deploy_for_service r ctx obj index (err e, w) = done (some e, w)
  deploy_for_service r ctx obj index (ok svc, w) = deploy_at_port r ctx obj index svc.ports w

  unfoldable pub sync_broker_deploy :
      Reconciler → Context → AutoMq → ℤ → W → Outcome (Option Err × W)
  unfolding deploy_for_service
  sync_broker_deploy r ctx obj index w =
      deploy_for_service r ctx obj index (env.get service (broker_key obj index) w)

  -- The condition that a failing part of a replica reports.
  abbrev broker_failure : AutoMq → String → String → Err → Condition
  broker_failure obj reason what e = new_condition obj "SyncBrokerReady" "False" reason (
      "Failed to create " <> what <> " for the custom resource (" <> obj.metadata.name <> "): ("
      <> e.message <> ")")

  -- One round of the loop of `syncBrokers`: the condition of the part that fails, or `none`.
  sync_broker_at : Reconciler → Context → AutoMq → ℤ → W → Outcome (Option Condition × W)
  unfolding sync_broker_pvc sync_broker_service sync_broker_deploy
  sync_broker_at r ctx obj i w =
      on_error (done (sync_broker_pvc obj i w))
        (λ e w. done (some (broker_failure obj "BrokerPVCReconciling" "pvc" e), w))
        (λ w.
          on_error (done (sync_broker_service obj i w))
            (λ e w. done (some (broker_failure obj "BrokerServiceReconciling" "service" e), w))
            (λ w.
              on_error (sync_broker_deploy r ctx obj i w)
                (λ e w. done (some (broker_failure obj "BrokerSTSReconciling" "deploy" e), w))
                (λ w. done (none, w))))

  -- The loop ends at the first replica that fails.
  next_replica :
      Outcome (Option Condition × W)
      → (W → Outcome (Option Condition × W))
      → Outcome (Option Condition × W)
  next_replica panicked rest = panicked
  next_replica (done (some c, w)) rest = done (some c, w)
  next_replica (done (none, w)) rest = rest w

  sync_brokers_from : Reconciler → Context → AutoMq → List ℤ → W → Outcome (Option Condition × W)
  unfolding next_replica sync_broker_at
  sync_brokers_from r ctx obj [] w = done (none, w)
  sync_brokers_from r ctx obj (i ∷ is) w =
      next_replica (sync_broker_at r ctx obj i w) (λ w'. sync_brokers_from r ctx obj is w')

  -- The method answers true whether or not a replica failed.
  report_brokers : AutoMq → Outcome (Option Condition × W) → Outcome (Bool × State W)
  report_brokers obj panicked = panicked
  report_brokers obj (done (some c, w)) =
      done (true, record { mq = set_condition env c obj; world = w })
  report_brokers obj (done (none, w)) = done (
    true,
    record {
      mq =
          set_condition env
            (new_condition obj "SyncBrokerReady" "True" "BrokerReconciling" (
              "Broker resource for the custom resource (" <> obj.metadata.name
              <> ") has been created or update"))
            obj;
      world = w;
    },
  )

  unfoldable pub sync_brokers : Reconciler → Context → Method W
  unfolding sync_brokers_from report_brokers
  sync_brokers r ctx s =
      report_brokers s.mq
        (sync_brokers_from r ctx s.mq (range (pos 0) s.mq.spec.broker.replicas) s.world)
