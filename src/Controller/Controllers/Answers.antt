-- ===== src/Controller/Controllers/Answers.antt =====
-- What the methods of the controllers answer to the pipeline.
use automq_operator.Base.{arith, Bool, true, some, none, Option, ◌≡◌}
use automq_operator.Kube.Objects.{Condition}
use automq_operator.Kube.Env.{Env}
use automq_operator.Api.Types.{AutoMq}
use automq_operator.Controller.State.{
  Reconciler, Context, State, Outcome, done, panicked, AnswersTrue,
}
use automq_operator.Controller.Controllers.{
  report_controllers, sync_controllers, sync_controllers_scale,
}

module _ {W : Type 0} (env : Env W) where
  report_controllers-true :
      (obj : AutoMq) (o : Outcome (Option Condition × W)) (b : Bool) (t : State W)
      → report_controllers env obj o ≡ done (b, t)
      → b ≡ true
  unfolding report_controllers
  report_controllers-true obj panicked b t e = cc
  report_controllers-true obj (done (some c, w)) b t e = ground arith
  report_controllers-true obj (done (none, w)) b t e = cc

  pub sync_controllers-true :
      (r : Reconciler) (ctx : Context) → AnswersTrue (sync_controllers env r ctx)
  unfolding sync_controllers
  sync_controllers-true r ctx s t b e = report_controllers-true s.mq _ b t e

  pub sync_controllers_scale-true : AnswersTrue (sync_controllers_scale env)
  unfolding sync_controllers_scale
  sync_controllers_scale-true s t b e = cc
