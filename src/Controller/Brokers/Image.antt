-- ===== src/Controller/Brokers/Image.antt =====
-- The image of the custom resource is nothing to the brokers' methods.
use automq_operator.Base.{String, Option, none, some, List, [], ◌∷◌, ◌≡◌, refl, ap}
use mathlib.Core.Path.{fun_ext}
use automq_operator.Base.Int.{ℤ, pos, range}
use automq_operator.Kube.Objects.{Condition, Service, ServicePort, Err, Result, ok, err}
use automq_operator.Kube.Env.{Env}
use automq_operator.Api.Types.{AutoMq}
use automq_operator.Controller.Names.{controller_voters}
use automq_operator.Controller.State.{Reconciler, Context, Outcome, done, panicked, on_error}
use automq_operator.Controller.Image.{with_image, answer_image, IsBlind}
use automq_operator.Controller.BrokerDeploy.{broker_envs, mutate_broker_deploy}
use automq_operator.Controller.Brokers.{
  scale_broker_at, scale_brokers_from, sync_broker_scale, deploy_at_port, deploy_for_service,
  sync_broker_pvc, sync_broker_service, sync_broker_deploy, sync_broker_at, broker_failure,
  sync_brokers_from, report_brokers, sync_brokers,
}

module _ {W : Type 0} (env : Env W) (image : String) where
  scale_brokers_from-image :
      (obj : AutoMq) (is : List ℤ) (w : W)
      → scale_brokers_from env (with_image image obj) is w ≡ scale_brokers_from env obj is w
  unfolding scale_brokers_from
  scale_brokers_from-image obj [] w = refl
  scale_brokers_from-image obj (i ∷ is) w =
      scale_brokers_from-image obj is (scale_broker_at env obj i w)

  pub sync_broker_scale-IsBlind : IsBlind image (sync_broker_scale env)
  unfolding sync_broker_scale
  sync_broker_scale-IsBlind s =
      rw
        (scale_brokers_from-image s.mq (range s.mq.spec.broker.replicas s.mq.status.broker_replicas)
          s.world)
        refl

  module _ (r : Reconciler) (ctx : Context) (obj : AutoMq) where
    deploy_at_port-image :
        (i : ℤ) (ports : List ServicePort) (w : W)
        → deploy_at_port env r ctx (with_image image obj) i ports w
          ≡ deploy_at_port env r ctx obj i ports w
    unfolding deploy_at_port mutate_broker_deploy broker_envs controller_voters
    deploy_at_port-image i [] w = refl
    deploy_at_port-image i (p ∷ ps) w = refl

    deploy_for_service-image :
        (i : ℤ) (x : Result Service × W)
        → deploy_for_service env r ctx (with_image image obj) i x
          ≡ deploy_for_service env r ctx obj i x
    unfolding deploy_for_service
    deploy_for_service-image i (err e, w) = refl
    deploy_for_service-image i (ok svc, w) = deploy_at_port-image i svc.ports w

    sync_broker_deploy-image :
        (i : ℤ) (w : W)
        → sync_broker_deploy env r ctx (with_image image obj) i w
          ≡ sync_broker_deploy env r ctx obj i w
    unfolding sync_broker_deploy
    sync_broker_deploy-image i w = deploy_for_service-image i _

    sync_broker_at-image :
        (i : ℤ) (w : W)
        → sync_broker_at env r ctx (with_image image obj) i w ≡ sync_broker_at env r ctx obj i w
    unfolding sync_broker_at sync_broker_pvc sync_broker_service
    sync_broker_at-image i w =
        ap
          (λ (deploy : W → Outcome (Option Err × W)).
            on_error (done (sync_broker_pvc env obj i w))
              (λ e w. done (some (broker_failure env obj "BrokerPVCReconciling" "pvc" e), w))
              (λ w.
                on_error (done (sync_broker_service env obj i w))
                  (λ e w.
                    done (some (broker_failure env obj "BrokerServiceReconciling" "service" e), w))
                  (λ w.
                    on_error (deploy w)
                      (λ e w.
                        done (some (broker_failure env obj "BrokerSTSReconciling" "deploy" e), w))
                      (λ w. done (none, w)))))
          (fun_ext (sync_broker_deploy-image i))

    sync_brokers_from-image :
        (is : List ℤ) (w : W)
        → sync_brokers_from env r ctx (with_image image obj) is w
          ≡ sync_brokers_from env r ctx obj is w
    unfolding sync_brokers_from
    sync_brokers_from-image [] w = refl
    sync_brokers_from-image (i ∷ is) w =
        rw (sync_broker_at-image i w, fun_ext (sync_brokers_from-image is)) refl

  report_brokers-image :
      (obj : AutoMq) (o : Outcome (Option Condition × W))
      → report_brokers env (with_image image obj) o ≡ answer_image image (report_brokers env obj o)
  unfolding report_brokers
  report_brokers-image obj panicked = refl
  report_brokers-image obj (done (some c, w)) = refl
  report_brokers-image obj (done (none, w)) = refl

  pub sync_brokers-IsBlind :
      (r : Reconciler) (ctx : Context) → IsBlind image (sync_brokers env r ctx)
  unfolding sync_brokers
  sync_brokers-IsBlind r ctx s =
      rw (sync_brokers_from-image r ctx s.mq (range (pos 0) s.mq.spec.broker.replicas) s.world)
        (report_brokers-image s.mq _)
