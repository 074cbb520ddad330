-- ===== src/Controller/Controllers/Image.antt =====
-- The image of the custom resource is nothing to the controllers' methods.
use automq_operator.Base.{
  Bool-cases, inl, inr, String, Option, none, some, List, [], ◌∷◌, ◌≡◌, refl,
}
use mathlib.Core.Path.{fun_ext}
use automq_operator.Base.Int.{ℤ, pos, range}
use automq_operator.Kube.Objects.{Condition}
use automq_operator.Kube.Env.{Env}
use automq_operator.Api.Types.{AutoMq}
use automq_operator.Controller.Names.{controller_voters}
use automq_operator.Controller.State.{Reconciler, Context, Outcome, done, panicked}
use automq_operator.Controller.Image.{with_image, answer_image, IsBlind}
use automq_operator.Controller.ControllerDeploy.{controller_envs, mutate_controller_deploy}
use automq_operator.Controller.Controllers.{
  scale_controller_at, scale_controllers_from, sync_controllers_scale, apply_controller_deploy,
  sync_controller_pvc, sync_controller_service, sync_controller_deploy, sync_controller_at,
  sync_controllers_from, report_controllers, sync_controllers,
}

module _ {W : Type 0} (env : Env W) (image : String) where
  scale_controllers_from-image :
      (obj : AutoMq) (is : List ℤ) (w : W)
      → scale_controllers_from env (with_image image obj) is w ≡ scale_controllers_from env obj is w
  unfolding scale_controllers_from
  scale_controllers_from-image obj [] w = refl
  scale_controllers_from-image obj (i ∷ is) w =
      scale_controllers_from-image obj is (scale_controller_at env obj i w)

  pub sync_controllers_scale-IsBlind : IsBlind image (sync_controllers_scale env)
  unfolding sync_controllers_scale
  sync_controllers_scale-IsBlind s =
      rw
        (scale_controllers_from-image s.mq
          (range s.mq.spec.controller.replicas s.mq.status.controller_replicas) s.world)
        refl

  module _ (r : Reconciler) (ctx : Context) (obj : AutoMq) where
    sync_controller_at-image :
        (i : ℤ) (w : W)
        → sync_controller_at env r ctx (with_image image obj) i w
          ≡ sync_controller_at env r ctx obj i w
    unfolding sync_controller_at sync_controller_pvc sync_controller_service sync_controller_deploy
        apply_controller_deploy mutate_controller_deploy controller_envs controller_voters
    sync_controller_at-image i w = refl

    sync_controllers_from-image :
        (is : List ℤ) (w : W)
        → sync_controllers_from env r ctx (with_image image obj) is w
          ≡ sync_controllers_from env r ctx obj is w
    unfolding sync_controllers_from
    sync_controllers_from-image [] w = refl
    sync_controllers_from-image (i ∷ is) w =
        rw (sync_controller_at-image i w, fun_ext (sync_controllers_from-image is)) refl

  report_controllers-image :
      (obj : AutoMq) (o : Outcome (Option Condition × W))
      → report_controllers env (with_image image obj) o
        ≡ answer_image image (report_controllers env obj o)
  unfolding report_controllers
  report_controllers-image obj panicked = refl
  report_controllers-image obj (done (some c, w)) = elim (Bool-cases env.odd_log_panics) [
    | inl loud ↦ rw loud
    | inr quiet ↦ rw quiet
  ]
  report_controllers-image obj (done (none, w)) = refl

  pub sync_controllers-IsBlind :
      (r : Reconciler) (ctx : Context) → IsBlind image (sync_controllers env r ctx)
  unfolding sync_controllers
  sync_controllers-IsBlind r ctx s =
      rw
        (sync_controllers_from-image r ctx s.mq (range (pos 0) s.mq.spec.controller.replicas)
          s.world)
        (report_controllers-image s.mq _)
