-- ===== src/Controller/Controllers/Stored.antt =====
-- The objects of a controller in the cluster, and the requests that write them.
use automq_operator.Base.{◌≡◌, refl, In}
use automq_operator.Base.Int.{ℤ, pos, range}
use automq_operator.Kube.Objects.{Kind, service, deployment, persistent_volume_claim}
use automq_operator.Kube.Env.{Env}
use automq_operator.Kube.Laws.{Laws}
use automq_operator.Kube.Retry.{Stores, Writes, retry-Writes, Stores-kept}
use automq_operator.Api.Types.{AutoMq}
use automq_operator.Controller.Names.{controller_role, index_labels}
use automq_operator.Controller.State.{Reconciler, Context}
use automq_operator.Controller.Healthy.{IsHealthy}
use automq_operator.Controller.Requests.{mutate_claim, mutate_service}
use automq_operator.Controller.ControllerDeploy.{controller_envs, mutate_controller_deploy}
use automq_operator.Controller.Controllers.{
  controller_key, controller_ports, sync_controller_pvc, sync_controller_service,
  apply_controller_deploy, sync_controller_deploy,
}

module _ {W : Type 0} (env : Env W) (laws : Laws env) (r : Reconciler) (ctx : Context)
    (obj : AutoMq) where
  abbrev pub ClaimStored : ℤ → W → Type 0
  ClaimStored i = Stores env laws persistent_volume_claim (controller_key obj i) (
      mutate_claim (index_labels obj.metadata.name controller_role i)
        obj.spec.controller.storage_class)

  abbrev pub ServiceStored : ℤ → W → Type 0
  ServiceStored i = Stores env laws service (controller_key obj i) (
      mutate_service (index_labels obj.metadata.name controller_role i) (controller_ports env)
        "ClusterIP")

  abbrev pub DeploymentStored : ℤ → W → Type 0
  DeploymentStored i =
      Stores env laws deployment (controller_key obj i)
        (mutate_controller_deploy r ctx obj i (controller_envs obj))

  -- The three objects of the controller at an index.
  abbrev pub ControllerStored : ℤ → W → Type 0
  ControllerStored i w = ClaimStored i w × ServiceStored i w × DeploymentStored i w

  pub claim_lem :
      (i : ℤ) (w : W)
      → In i (range (pos 0) obj.spec.controller.replicas)
      → Writes env laws
          (IsHealthy env laws r ctx obj)
          persistent_volume_claim
          (controller_key obj i)
          (mutate_claim
            (index_labels obj.metadata.name controller_role i)
            obj.spec.controller.storage_class)
          w
          (sync_controller_pvc env obj i w)
  unfolding sync_controller_pvc mutate_claim
  claim_lem i w m =
      retry-Writes env laws _ persistent_volume_claim _ _ w (λ b. refl) (λ health. (health.0 i m).0)

  pub service_lem :
      (i : ℤ) (w : W)
      → In i (range (pos 0) obj.spec.controller.replicas)
      → Writes env laws
          (IsHealthy env laws r ctx obj)
          service
          (controller_key obj i)
          (mutate_service
            (index_labels obj.metadata.name controller_role i)
            (controller_ports env)
            "ClusterIP")
          w
          (sync_controller_service env obj i w)
  unfolding sync_controller_service mutate_service
  service_lem i w m = retry-Writes env laws _ service _ _ w (λ b. refl) (λ health. (health.0 i m).1)

  pub deploy_lem :
      (i : ℤ) (w : W)
      → In i (range (pos 0) obj.spec.controller.replicas)
      → Writes env laws
          (IsHealthy env laws r ctx obj)
          deployment
          (controller_key obj i)
          (mutate_controller_deploy r ctx obj i (controller_envs obj))
          w
          (sync_controller_deploy env r ctx obj i w)
  unfolding sync_controller_deploy apply_controller_deploy mutate_controller_deploy
  deploy_lem i w m =
      retry-Writes env laws _ deployment _ _ w (λ b. refl) (λ health. (health.0 i m).2)

  -- What is stored stays stored while its object is not touched.
  pub ClaimStored-kept :
      (i : ℤ) (w w' : W)
      → laws.at persistent_volume_claim (controller_key obj i) w'
        ≡ laws.at persistent_volume_claim (controller_key obj i) w
      → ClaimStored i w
      → ClaimStored i w'
  ClaimStored-kept i w w' =
      Stores-kept env laws persistent_volume_claim (controller_key obj i)
        (mutate_claim (index_labels obj.metadata.name controller_role i)
          obj.spec.controller.storage_class)
        w w'

  pub ServiceStored-kept :
      (i : ℤ) (w w' : W)
      → laws.at service (controller_key obj i) w' ≡ laws.at service (controller_key obj i) w
      → ServiceStored i w
      → ServiceStored i w'
  ServiceStored-kept i w w' =
      Stores-kept env laws service (controller_key obj i)
        (mutate_service (index_labels obj.metadata.name controller_role i) (controller_ports env)
          "ClusterIP")
        w w'

  pub DeploymentStored-kept :
      (i : ℤ) (w w' : W)
      → laws.at deployment (controller_key obj i) w' ≡ laws.at deployment (controller_key obj i) w
      → DeploymentStored i w
      → DeploymentStored i w'
  DeploymentStored-kept i w w' =
      Stores-kept env laws deployment (controller_key obj i)
        (mutate_controller_deploy r ctx obj i (controller_envs obj)) w w'

  pub ControllerStored-kept :
      (i : ℤ) (w w' : W)
      → ((k : Kind) → laws.at k (controller_key obj i) w' ≡ laws.at k (controller_key obj i) w)
      → ControllerStored i w
      → ControllerStored i w'
  ControllerStored-kept i w w' same (claim, address, deployed) = (
    ClaimStored-kept i w w' (same persistent_volume_claim) claim,
    ServiceStored-kept i w w' (same service) address,
    DeploymentStored-kept i w w' (same deployment) deployed,
  )
