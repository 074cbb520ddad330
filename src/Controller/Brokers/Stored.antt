-- ===== src/Controller/Brokers/Stored.antt =====
-- The objects of a broker in the cluster, and the requests that write them.
use automq_operator.Base.{some, List, ◌∷◌, ◌≡◌, refl, ◌∙◌, In}
use automq_operator.Base.Int.{ℤ, pos, range}
use automq_operator.Kube.Objects.{
  Kind, service, deployment, persistent_volume_claim, Service, ServicePort,
}
use automq_operator.Kube.Env.{Env}
use automq_operator.Kube.Laws.{Laws}
use automq_operator.Kube.Retry.{Stores, Writes, retry-Writes, Stores-kept}
use automq_operator.Api.Types.{AutoMq}
use automq_operator.Controller.Names.{broker_role, index_labels}
use automq_operator.Controller.State.{Reconciler, Context}
use automq_operator.Controller.Healthy.{IsHealthy}
use automq_operator.Controller.Requests.{mutate_claim, mutate_service}
use automq_operator.Controller.BrokerDeploy.{broker_envs, mutate_broker_deploy}
use automq_operator.Controller.Brokers.{
  broker_key, broker_ports, sync_broker_pvc, sync_broker_service, apply_broker_deploy,
}

module _ {W : Type 0} (env : Env W) (laws : Laws env) (r : Reconciler) (ctx : Context)
    (obj : AutoMq) where
  abbrev pub ClaimStored : ℤ → W → Type 0
  ClaimStored i =
      Stores env laws persistent_volume_claim (broker_key obj i)
        (mutate_claim (index_labels obj.metadata.name broker_role i) obj.spec.broker.storage_class)

  abbrev pub ServiceStored : ℤ → W → Type 0
  ServiceStored i =
      Stores env laws service (broker_key obj i) (
        mutate_service (index_labels obj.metadata.name broker_role i) (broker_ports env) "NodePort")

  -- The deployment advertises the first port of the service that the server holds.
  abbrev pub DeploymentStored : ℤ → W → Type 0
  DeploymentStored i w =
      (svc : Service) × (p : ServicePort) × (ps : List ServicePort) × (laws.at service
          (broker_key obj i) w
        ≡ some svc)
      × (svc.ports ≡ p ∷ ps)
      × Stores env laws deployment (broker_key obj i)
          (mutate_broker_deploy r ctx obj i (broker_envs env.operator_apis_ip obj p.node_port)) w

  -- The three objects of the broker at an index.
  abbrev pub BrokerStored : ℤ → W → Type 0
  BrokerStored i w = ClaimStored i w × ServiceStored i w × DeploymentStored i w

  pub claim_lem :
      (i : ℤ) (w : W)
      → In i (range (pos 0) obj.spec.broker.replicas)
      → Writes env laws
          (IsHealthy env laws r ctx obj)
          persistent_volume_claim
          (broker_key obj i)
          (mutate_claim
            (index_labels obj.metadata.name broker_role i)
            obj.spec.broker.storage_class)
          w
          (sync_broker_pvc env obj i w)
  unfolding sync_broker_pvc mutate_claim
  claim_lem i w m =
      retry-Writes env laws _ persistent_volume_claim _ _ w (λ b. refl) (λ health. (health.1 i m).0)

  pub service_lem :
      (i : ℤ) (w : W)
      → In i (range (pos 0) obj.spec.broker.replicas)
      → Writes env laws
          (IsHealthy env laws r ctx obj)
          service
          (broker_key obj i)
          (mutate_service
            (index_labels obj.metadata.name broker_role i)
            (broker_ports env)
            "NodePort")
          w
          (sync_broker_service env obj i w)
  unfolding sync_broker_service mutate_service
  service_lem i w m = retry-Writes env laws _ service _ _ w (λ b. refl) (λ health. (health.1 i m).1)

  pub deploy_lem :
      (i : ℤ) (port : ℤ) (w : W)
      → In i (range (pos 0) obj.spec.broker.replicas)
      → Writes env laws
          (IsHealthy env laws r ctx obj)
          deployment
          (broker_key obj i)
          (mutate_broker_deploy r ctx obj i (broker_envs env.operator_apis_ip obj port))
          w
          (apply_broker_deploy env r ctx obj i (broker_envs env.operator_apis_ip obj port) w)
  unfolding apply_broker_deploy mutate_broker_deploy
  deploy_lem i port w m =
      retry-Writes env laws _ deployment _ _ w (λ b. refl) (λ health. (health.1 i m).2 port)

  -- What is stored stays stored while its object is not touched.
  pub ClaimStored-kept :
      (i : ℤ) (w w' : W)
      → laws.at persistent_volume_claim (broker_key obj i) w'
        ≡ laws.at persistent_volume_claim (broker_key obj i) w
      → ClaimStored i w
      → ClaimStored i w'
  ClaimStored-kept i w w' =
      Stores-kept env laws persistent_volume_claim (broker_key obj i)
        (mutate_claim (index_labels obj.metadata.name broker_role i) obj.spec.broker.storage_class)
        w w'

  pub ServiceStored-kept :
      (i : ℤ) (w w' : W)
      → laws.at service (broker_key obj i) w' ≡ laws.at service (broker_key obj i) w
      → ServiceStored i w
      → ServiceStored i w'
  ServiceStored-kept i w w' =
      Stores-kept env laws service (broker_key obj i)
        (mutate_service (index_labels obj.metadata.name broker_role i) (broker_ports env)
          "NodePort")
        w w'

  pub BrokerStored-kept :
      (i : ℤ) (w w' : W)
      → ((k : Kind) → laws.at k (broker_key obj i) w' ≡ laws.at k (broker_key obj i) w)
      → BrokerStored i w
      → BrokerStored i w'
  BrokerStored-kept i w w' same (claim, address, (svc, p, ps, at, e, deployed)) = (
    ClaimStored-kept i w w' (same persistent_volume_claim) claim,
    ServiceStored-kept i w w' (same service) address,
    (
      svc,
      p,
      ps,
      same service ∙ at,
      e,
      Stores-kept env laws deployment (broker_key obj i)
          (mutate_broker_deploy r ctx obj i (broker_envs env.operator_apis_ip obj p.node_port)) w w'
          (same deployment) deployed,
    ),
  )
