-- ===== src/Controller/Brokers/Answers.antt =====
-- What the methods of the brokers answer to the pipeline.
use automq_operator.Base.{Bool, true, some, none, Option, ◌≡◌}
use automq_operator.Kube.Objects.{Condition}
use automq_operator.Kube.Env.{Env}
use automq_operator.Api.Types.{AutoMq}
use automq_operator.Controller.State.{
  Reconciler, Context, State, Outcome, done, panicked, AnswersTrue,
}
use automq_operator.Controller.Brokers.{report_brokers, sync_brokers, sync_broker_scale}
use automq_operator.Controller.Bootstrap.{sync_kafka_bootstrap_service}

module _ {W : Type 0} (env : Env W) where
  report_brokers-true :
      (obj : AutoMq) (o : Outcome (Option Condition × W)) (b : Bool) (t : State W)
      → report_brokers env obj o ≡ done (b, t)
      → b ≡ true
  unfolding report_brokers
  report_brokers-true obj panicked b t e = cc
  report_brokers-true obj (done (some c, w)) b t e = cc
  report_brokers-true obj (done (none, w)) b t e = cc

  pub sync_brokers-true : (r : Reconciler) (ctx : Context) → AnswersTrue (sync_brokers env r ctx)
  unfolding sync_brokers
  sync_brokers-true r ctx s t b e = report_brokers-true s.mq _ b t e

  pub sync_broker_scale-true : AnswersTrue (sync_broker_scale env)
  unfolding sync_broker_scale
  sync_broker_scale-true s t b e = cc

  pub sync_kafka_bootstrap_service-true : AnswersTrue (sync_kafka_bootstrap_service env)
  unfolding sync_kafka_bootstrap_service
  sync_kafka_bootstrap_service-true s t b e = cc
