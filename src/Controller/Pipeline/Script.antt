-- ===== src/Controller/Pipeline/Script.antt =====
-- What of the script reaches the deployments that a reconciliation leaves.
use automq_operator.Base.{Option, none, some, true, ◌≡◌, All, All-at, All-of_In}
use automq_operator.Base.Int.{ℤ, pos, range}
use automq_operator.Kube.Objects.{Err, deployment, Deployment, lookup, Key}
use automq_operator.Kube.Env.{Env}
use automq_operator.Kube.Laws.{Laws}
use automq_operator.Controller.Healthy.{IsHealthy}
use automq_operator.Controller.Brokers.Stored.{BrokerStored}
use automq_operator.Controller.Controllers.Stored.{ControllerStored}
use automq_operator.Api.Types.{AutoMq}
use automq_operator.Controller.State.{Reconciler, Context, State, done}
use automq_operator.Controller.BrokerDeploy.{broker_envs}
use automq_operator.Controller.ControllerDeploy.{controller_envs}
use automq_operator.Controller.Brokers.{broker_key}
use automq_operator.Controller.Controllers.{controller_key}
use automq_operator.Controller.Workload.{empty_script_hash}
use automq_operator.Controller.Pipeline.{s3_service, script_configmap, with_addresses, reconcile}
use automq_operator.Controller.Pipeline.Converges.{reconcile-converges}

module _ {W : Type 0} (env : Env W) (laws : Laws env) where
  -- The server holds, under this key, what came of a deployment whose pods have the empty hash.
  abbrev pub NoHash : Key → W → Type 0
  NoHash key w =
      (sent held : Deployment) × (laws.at deployment key w ≡ some held)
      × laws.holds deployment sent held
      × (lookup "configmap/script-hash" sent.template.annotations ≡ some "")

  controller_unhashed :
      (r : Reconciler) (ctx : Context) (obj : AutoMq) (i : ℤ) (w : W)
      → ctx.hash_configmap ≡ none
      → ControllerStored env laws r ctx obj i w
      → NoHash (controller_key obj i) w
  controller_unhashed r ctx obj i w unset (_, _, (b, held, _, at, kept)) =
      (_, held, at, kept, (empty_script_hash r ctx obj i (controller_envs obj) b unset).1)

  broker_unhashed :
      (r : Reconciler) (ctx : Context) (obj : AutoMq) (j : ℤ) (w : W)
      → ctx.hash_configmap ≡ none
      → BrokerStored env laws r ctx obj j w
      → NoHash (broker_key obj j) w
  broker_unhashed r ctx obj j w unset (_, _, (svc, p, ps, _, _, (b, held, _, at, kept))) = (
    _,
    held,
    at,
    kept,
    (empty_script_hash r ctx obj j (broker_envs env.operator_apis_ip obj p.node_port) b unset).0,
  )

  -- If the context has no hash of the script, the server takes the requests for the replicas and for the
  -- bootstrap service, reads of the brokers' services are up to date, and the bucket and the script are
  -- made, then a reconciliation returns, and the deployments of every specified controller and of every
  -- specified broker were sent with the empty hash annotation on their pods, whatever the script is.
  pub reconcile_leaves_unhashed :
      (r : Reconciler) (ctx : Context) (obj : AutoMq) (w : W) (t u : State W)
      → ctx.hash_configmap ≡ none
      → IsHealthy env laws r ctx obj
      → s3_service env (record { mq = with_addresses env obj; world = w }) ≡ done (true, t)
      → script_configmap env t ≡ done (true, u)
      → (e : Option Err) × (w' : W) × (reconcile env r ctx obj w ≡ done (e, w'))
        × All (λ i. NoHash (controller_key obj i) w') (range (pos 0) obj.spec.controller.replicas)
        × All (λ j. NoHash (broker_key obj j) w') (range (pos 0) obj.spec.broker.replicas)
  reconcile_leaves_unhashed r ctx obj w t u unset health bucket script =
      let (e, w', ends, controllers, brokers, _) =
        reconcile-converges env laws r ctx obj w t u health bucket script in
      (
        e,
        w',
        ends,
        All-of_In _ (range (pos 0) obj.spec.controller.replicas) (λ i m.
            controller_unhashed r ctx obj i w' unset (
              All-at (λ i. ControllerStored env laws r ctx obj i w')
                (range (pos 0) obj.spec.controller.replicas) i controllers m)),
        All-of_In _ (range (pos 0) obj.spec.broker.replicas) (λ j m.
            broker_unhashed r ctx obj j w' unset (
              All-at (λ j. BrokerStored env laws r ctx obj j w')
                (range (pos 0) obj.spec.broker.replicas) j brokers m)),
      )
