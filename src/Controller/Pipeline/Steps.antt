-- ===== src/Controller/Pipeline/Steps.antt =====
-- How the pipeline runs its methods, and ends.
use automq_operator.Base.{Bool, true, false, List, [], ◌∷◌, ◌≡◌}
use automq_operator.Kube.Objects.{Kind, Key}
use automq_operator.Kube.Env.{Env}
use automq_operator.Kube.Laws.{Laws}
use automq_operator.Controller.State.{
  Reconciler, Context, State, Outcome, done, panicked, Method, Returns,
}
use automq_operator.Controller.Brokers.{sync_broker_scale, sync_brokers}
use automq_operator.Controller.Bootstrap.{sync_kafka_bootstrap_service}
use automq_operator.Controller.Controllers.{sync_controllers_scale, sync_controllers}
use automq_operator.Controller.Pipeline.{
  s3_service, script_configmap, pipelines, continue_with, run_pipelines, with_replicas, finish,
}
use automq_operator.Controller.Pipeline.Total.{sync_status-frame}

module _ {W : Type 0} (env : Env W) where
  -- The pipeline behind the bucket and the script.
  abbrev pub replicas_on : Reconciler → Context → List (Method W)
  replicas_on r ctx =
      sync_controllers_scale env
      ∷ sync_controllers env r ctx
      ∷ sync_broker_scale env
      ∷ sync_brokers env r ctx
      ∷ sync_kafka_bootstrap_service env
      ∷ []

  pub continue_with-true :
      (o : Outcome (Bool × State W)) (next : State W → Outcome (State W)) (Q P : State W → Type 0)
      → Returns o (λ x. (x.0 ≡ true) × Q x.1)
      → ((t : State W) → Q t → Returns (next t) P)
      → Returns (continue_with env o next) P
  unfolding continue_with
  continue_with-true panicked next Q P h rest = h
  continue_with-true (done (true, t)) next Q P h rest = rest t h.1
  continue_with-true (done (false, t)) next Q P h rest = cc (h.0)

  pub run_pipelines-replicas :
      (r : Reconciler) (ctx : Context) (s t u : State W)
      → s3_service env s ≡ done (true, t)
      → script_configmap env t ≡ done (true, u)
      → run_pipelines env (pipelines env r ctx) s ≡ run_pipelines env (replicas_on r ctx) u
  unfolding run_pipelines continue_with
  run_pipelines-replicas r ctx s t u bucket script = rw (bucket, script)

module _ {W : Type 0} (env : Env W) (laws : Laws env) where
  -- The world after the status update, which keeps all objects.
  pub finish-Returns :
      (o : Outcome (State W)) (P : State W → Type 0)
      → Returns o P
      → Returns (finish env o) (λ x.
        (s : State W) × P s × ((k : Kind) (key : Key) → laws.at k key x.1 ≡ laws.at k key s.world))
  unfolding finish
  finish-Returns panicked P h = h
  finish-Returns (done s) P h =
      (s, h, λ k key. sync_status-frame env laws (with_replicas env s.mq) s.world k key)
