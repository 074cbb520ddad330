-- ===== src/Controller/Healthy.antt =====
-- When the server is healthy for a custom resource: it takes the requests that the operator makes for
-- the replicas and for the bootstrap service.
use automq_operator.Base.{◌≡◌, some, In, sym, subst}
use automq_operator.Base.Int.{ℤ, pos, range}
use automq_operator.Kube.Objects.{Service, service, deployment, persistent_volume_claim, ok}
use automq_operator.Kube.Env.{Env}
use automq_operator.Kube.Laws.{Laws}
use automq_operator.Kube.Retry.{Takes}
use automq_operator.Api.Types.{AutoMq}
use automq_operator.Controller.Names.{
  broker_role, controller_role, controller_voters, index_labels, get_auto_mq_label_map,
  get_auto_mq_name,
}
use automq_operator.Controller.State.{Reconciler, Context}
use automq_operator.Controller.Requests.{new_claim, mutate_claim, mutate_service}
use automq_operator.Controller.BrokerDeploy.{broker_envs, mutate_broker_deploy}
use automq_operator.Controller.ControllerDeploy.{controller_envs, mutate_controller_deploy}
use automq_operator.Controller.Brokers.{
  broker_key, broker_ports, new_broker_service, new_broker_deployment,
}
use automq_operator.Controller.Controllers.{
  controller_ports, new_controller_service, new_controller_deployment,
}
use automq_operator.Controller.Bootstrap.{bootstrap_ports, new_bootstrap_service}

-- The two objects differ in their status alone.
abbrev pub SameButStatus : AutoMq → AutoMq → Type 0
SameButStatus a b = (a.metadata ≡ b.metadata) × (a.spec ≡ b.spec)

module _ {W : Type 0} (env : Env W) (laws : Laws env) where
  -- The request for the bootstrap service is taken.
  abbrev pub TakesBootstrap : AutoMq → Type 0
  TakesBootstrap obj = Takes env laws service (new_bootstrap_service obj) (
      mutate_service (get_auto_mq_label_map obj.metadata.name broker_role) (bootstrap_ports obj)
        "NodePort")

  -- The three requests for a specified controller are taken.
  abbrev TakesControllers : Reconciler → Context → AutoMq → Type 0
  TakesControllers r ctx obj =
      (i : ℤ)
      → In i (range (pos 0) obj.spec.controller.replicas)
      → Takes env laws persistent_volume_claim
          (new_claim obj.metadata.namespace (get_auto_mq_name controller_role (some i)))
          (mutate_claim (index_labels obj.metadata.name controller_role i)
            obj.spec.controller.storage_class)
        × Takes env laws service (new_controller_service obj i) (
            mutate_service (index_labels obj.metadata.name controller_role i) (controller_ports env)
              "ClusterIP")
        × Takes env laws deployment (new_controller_deployment obj i)
            (mutate_controller_deploy r ctx obj i (controller_envs obj))

  -- The three requests for a specified broker are taken, with whatever port its service has.
  abbrev TakesBrokers : Reconciler → Context → AutoMq → Type 0
  TakesBrokers r ctx obj =
      (i : ℤ)
      → In i (range (pos 0) obj.spec.broker.replicas)
      → Takes env laws persistent_volume_claim
          (new_claim obj.metadata.namespace (get_auto_mq_name broker_role (some i)))
          (mutate_claim (index_labels obj.metadata.name broker_role i)
            obj.spec.broker.storage_class)
        × Takes env laws service (new_broker_service obj i) (
            mutate_service (index_labels obj.metadata.name broker_role i) (broker_ports env)
              "NodePort")
        × ((port : ℤ)
            → Takes env laws deployment (new_broker_deployment obj i)
                (mutate_broker_deploy r ctx obj i (broker_envs env.operator_apis_ip obj port)))

  -- A read of a broker's service finds the service that the server holds, one that was just written
  -- included.
  abbrev ReadsServices : AutoMq → Type 0
  ReadsServices obj =
      (i : ℤ) (svc : Service) (w : W)
      → laws.at service (broker_key obj i) w ≡ some svc
      → (env.get service (broker_key obj i) w).0 ≡ ok svc

  -- The server takes these requests in the worlds that occur, and reads of the brokers' services are up
  -- to date.
  abbrev pub IsHealthy : Reconciler → Context → AutoMq → Type 0
  IsHealthy r ctx obj =
      TakesControllers r ctx obj × TakesBrokers r ctx obj × TakesBootstrap obj × ReadsServices obj

  -- The status plays no part in it.
  pub IsHealthy-same :
      (r : Reconciler) (ctx : Context) (a obj : AutoMq)
      → SameButStatus a obj
      → IsHealthy r ctx obj
      → IsHealthy r ctx a
  unfolding mutate_broker_deploy mutate_controller_deploy mutate_claim mutate_service broker_envs
      controller_envs controller_voters
  IsHealthy-same r ctx a obj (em, es) h =
      subst (λ x. IsHealthy r ctx (record a { spec = x })) (sym es)
        (subst (λ x. IsHealthy r ctx (record a { metadata = x; spec = obj.spec })) (sym em) h)
