-- ===== src/Controller/Pipeline/Same.antt =====
-- What is stored for an object depends on its name and specification alone.
use automq_operator.Base.{subst}
use automq_operator.Base.Int.{ℤ}
use automq_operator.Kube.Env.{Env}
use automq_operator.Kube.Laws.{Laws}
use automq_operator.Api.Types.{AutoMq}
use automq_operator.Controller.Names.{controller_voters}
use automq_operator.Controller.State.{Reconciler, Context}
use automq_operator.Controller.Healthy.{SameButStatus}
use automq_operator.Controller.Requests.{mutate_claim, mutate_service}
use automq_operator.Controller.BrokerDeploy.{mutate_broker_deploy, broker_envs}
use automq_operator.Controller.ControllerDeploy.{mutate_controller_deploy, controller_envs}
use automq_operator.Controller.Brokers.Stored.{BrokerStored}
use automq_operator.Controller.Bootstrap.Stored.{BootstrapStored}
use automq_operator.Controller.Controllers.Stored.{ControllerStored}

module _ {W : Type 0} (env : Env W) (laws : Laws env) (r : Reconciler) (ctx : Context)
    (obj : AutoMq) where
  pub ControllerStored-same :
      (a : AutoMq) (i : ℤ) (w : W)
      → SameButStatus a obj
      → ControllerStored env laws r ctx a i w
      → ControllerStored env laws r ctx obj i w
  unfolding mutate_controller_deploy mutate_claim mutate_service controller_envs controller_voters
  ControllerStored-same a i w (em, es) h =
      subst (λ x. ControllerStored env laws r ctx (record obj { spec = x }) i w) es
        (subst
          (λ x. ControllerStored env laws r ctx (record obj { metadata = x; spec = a.spec }) i w) em
          h)

  pub BrokerStored-same :
      (a : AutoMq) (i : ℤ) (w : W)
      → SameButStatus a obj
      → BrokerStored env laws r ctx a i w
      → BrokerStored env laws r ctx obj i w
  unfolding mutate_broker_deploy mutate_claim mutate_service broker_envs controller_voters
  BrokerStored-same a i w (em, es) h =
      subst (λ x. BrokerStored env laws r ctx (record obj { spec = x }) i w) es
        (subst (λ x. BrokerStored env laws r ctx (record obj { metadata = x; spec = a.spec }) i w)
          em h)

  pub BootstrapStored-same :
      (a : AutoMq) (w : W)
      → SameButStatus a obj
      → BootstrapStored env laws a w
      → BootstrapStored env laws obj w
  unfolding mutate_service
  BootstrapStored-same a w (em, es) h =
      subst (λ x. BootstrapStored env laws (record obj { spec = x }) w) es
        (subst (λ x. BootstrapStored env laws (record obj { metadata = x; spec = a.spec }) w) em h)
