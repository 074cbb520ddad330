-- ===== src/Controller/Bootstrap.antt =====
-- internal/controller/automq_controller_b.go: the service by which clients reach the brokers.
pub mod Stored
pub mod Image
use automq_operator.Base.{
  String, Bool, true, Option, none, some, List, [], ◌∷◌, ◌<>◌, if◌then◌else◌,
}
use automq_operator.Base.Int.{ℤ, pos, ltb_ℤ, range}
use automq_operator.Base.Decimal.{show}
use automq_operator.Kube.Objects.{
  Key, EnvVar, service, deployment, stateful_set, persistent_volume_claim, Service, ServicePort,
  PersistentVolumeClaim, Deployment, Condition, Err, Result, ok, err,
}
use automq_operator.Kube.Env.{Env}
use automq_operator.Api.Types.{AutoMq}
use automq_operator.Controller.Names.{
  broker_role, get_auto_mq_label_map, get_auto_mq_name, index_labels,
}
use automq_operator.Controller.State.{
  Reconciler, Context, State, Outcome, done, panicked, Method, new_condition, set_condition,
  on_error,
}
use automq_operator.Controller.Requests.{
  discard, new_claim, new_service, new_deployment, mutate_claim, mutate_service,
}
use automq_operator.Controller.BrokerDeploy.{broker_envs, mutate_broker_deploy}

abbrev pub bootstrap_key : AutoMq → Key
bootstrap_key obj = record {
  namespace = obj.metadata.namespace;
  name = get_auto_mq_name (broker_role <> "-bootstrap") none;
}

abbrev pub bootstrap_ports : AutoMq → List ServicePort
bootstrap_ports obj =
    record {
      name = broker_role;
      port = pos 9092;
      target_port = broker_role;
      protocol = "TCP";
      node_port = obj.spec.node_port;
    }
    ∷ []

-- The service that `syncKafkaBootstrapService` passes to `CreateOrUpdate`.
abbrev pub new_bootstrap_service : AutoMq → Service
new_bootstrap_service obj =
    new_service obj.metadata.namespace (get_auto_mq_name (broker_role <> "-bootstrap") none)
      (get_auto_mq_label_map obj.metadata.name broker_role)

module _ {W : Type 0} (env : Env W) where
  report_bootstrap : AutoMq → Option Err → AutoMq
  report_bootstrap obj (some e) =
      set_condition env
        (new_condition obj "SyncBootstrapServiceReady" "False" "BootstrapServiceReconciling" (
          "Failed to create bootstrap service for the custom resource (" <> obj.metadata.name
          <> "): (" <> e.message <> ")"))
        obj
  report_bootstrap obj none =
      let obj' =
        set_condition env
          (new_condition obj "SyncBootstrapServiceReady" "True" "BootstrapServiceReconciling" (
            "Bootstrap service for the custom resource (" <> obj.metadata.name
            <> ") has been created"))
          obj in
      record obj' {
        status = record obj'.status {
          bootstrap_internal_address =
              get_auto_mq_name (broker_role <> "-bootstrap") none
              <> "."
              <> obj.metadata.namespace
              <> ".svc:"
              <> show (pos 9092);
        };
      }

  unfoldable pub sync_kafka_bootstrap_service : Method W
  unfolding mutate_service report_bootstrap
  sync_kafka_bootstrap_service s =
      let labels = get_auto_mq_label_map s.mq.metadata.name broker_role in
      let (e, (_, w')) =
        env.retry_on_conflict (Service × W)
          (env.create_or_update service (mutate_service labels (bootstrap_ports s.mq) "NodePort"))
          (new_bootstrap_service s.mq, s.world) in
      done (true, record { mq = report_bootstrap s.mq e; world = w' })
