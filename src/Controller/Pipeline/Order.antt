-- ===== src/Controller/Pipeline/Order.antt =====
-- Which methods of the pipeline can stop it, and what a stopped pipeline leaves in the status.
use automq_operator.Base.{
  Bool, true, false, Option, none, some, List, [], ◌∷◌, ◌≡◌, refl, sym, ap, ◌∙◌, arith, All,
}
use automq_operator.Base.Int.{ℤ, ltb_ℤ, pos_part, neg_part}
use automq_operator.Kube.Objects.{Err, Result, ok, err}
use automq_operator.Kube.Env.{Env}
use automq_operator.Api.Types.{AutoMq, AutoMqSpec, AutoMqStatus}
use automq_operator.Storage.{S3Service}
use automq_operator.Controller.State.{
  Reconciler, Context, State, Outcome, done, panicked, Method, AnswersTrue,
}
use automq_operator.Controller.Brokers.{sync_broker_scale, sync_brokers}
use automq_operator.Controller.Bootstrap.{sync_kafka_bootstrap_service}
use automq_operator.Controller.Brokers.Answers.{
  sync_brokers-true, sync_broker_scale-true, sync_kafka_bootstrap_service-true,
}
use automq_operator.Controller.Controllers.{sync_controllers_scale, sync_controllers}
use automq_operator.Controller.Controllers.Answers.{
  sync_controllers-true, sync_controllers_scale-true,
}
use automq_operator.Controller.Pipeline.{
  s3_service, make_bucket, after_bucket, script_configmap, pipelines, run_pipelines, continue_with,
  sync_status, finish, reconcile, with_replicas, with_addresses,
}

-- The methods one after the other, whatever they answer.
then_all :
    {W : Type 0} → Outcome (Bool × State W) → (State W → Outcome (State W)) → Outcome (State W)
then_all panicked rest = panicked
then_all (done (b, t)) rest = rest t

unfoldable pub run_all : {W : Type 0} → List (Method W) → State W → Outcome (State W)
unfolding then_all
run_all [] s = done s
run_all (f ∷ fs) s = then_all (f s) (λ t. run_all fs t)

-- The world that a method leaves, unless it panics.
abbrev pub world_of : {W : Type 0} → Outcome (Bool × State W) → Option W
world_of panicked = none
world_of (done (b, t)) = some t.world

not_below : (spec status : ℤ) → status ≡ spec → ltb_ℤ spec status ≡ false
not_below spec status e = ground (arith, ap pos_part e, ap neg_part e)

module _ {W : Type 0} (env : Env W) where
  continue-then :
      (o : Outcome (Bool × State W)) (k l : State W → Outcome (State W))
      → ((t : State W) (b : Bool) → o ≡ done (b, t) → b ≡ true)
      → ((t : State W) → k t ≡ l t)
      → continue_with env o k ≡ then_all o l
  unfolding continue_with then_all
  continue-then panicked k l h same = refl
  continue-then (done (true, t)) k l h same = same t
  continue-then (done (false, t)) k l h same = cc (h t false refl)

  -- A pipeline of methods that answer true runs to its end.
  run_pipelines-run_all :
      (fs : List (Method W))
      → All AnswersTrue fs
      → (s : State W) → run_pipelines env fs s ≡ run_all fs s
  unfolding run_pipelines run_all
  run_pipelines-run_all [] h s = refl
  run_pipelines-run_all (f ∷ fs) (h, hs) s =
      continue-then (f s) _ _ (λ t b e. h s t b e) (λ t. run_pipelines-run_all fs hs t)

  -- The methods behind the bucket and the script, in the order of the pipeline.
  unfoldable pub replica_methods : Reconciler → Context → List (Method W)
  replica_methods r ctx =
      sync_controllers_scale env
      ∷ sync_controllers env r ctx
      ∷ sync_broker_scale env
      ∷ sync_brokers env r ctx
      ∷ sync_kafka_bootstrap_service env
      ∷ []

  -- Once the bucket and the script are there, the pipeline runs all of its other methods in order,
  -- however they fail: it stops early only by a panic.
  pub pipeline_runs_on :
      (r : Reconciler) (ctx : Context) (s t u : State W)
      → s3_service env s ≡ done (true, t)
      → script_configmap env t ≡ done (true, u)
      → run_pipelines env (pipelines env r ctx) s ≡ run_all (replica_methods r ctx) u
  unfolding run_pipelines continue_with replica_methods
  pipeline_runs_on r ctx s t u bucket script =
      rw (bucket, script)
        (run_pipelines-run_all (replica_methods r ctx)
          (
            sync_controllers_scale-true env,
            (
              sync_controllers-true env r ctx,
              (
                sync_broker_scale-true env,
                (sync_brokers-true env r ctx, (sync_kafka_bootstrap_service-true env, tt)),
              ),
            ),
          )
          u)

  after_bucket-keeps_spec :
      (obj : AutoMq) (e : Option Err) (w : W) (t : State W) (b : Bool)
      → after_bucket env obj e w ≡ done (b, t)
      → t.mq.spec ≡ obj.spec
  unfolding after_bucket
  after_bucket-keeps_spec obj none w t b e = ground arith
  after_bucket-keeps_spec obj (some x) w t b e = ground arith

  make_bucket-keeps_spec :
      (obj : AutoMq) (sg : Result S3Service) (w : W) (t : State W) (b : Bool)
      → make_bucket env obj sg w ≡ done (b, t)
      → t.mq.spec ≡ obj.spec
  unfolding make_bucket
  make_bucket-keeps_spec obj (err x) w t b e = ground arith
  make_bucket-keeps_spec obj (ok sg) w t b e = after_bucket-keeps_spec obj _ _ t b e

  s3_service-keeps_spec :
      (s t : State W) (b : Bool) → s3_service env s ≡ done (b, t) → t.mq.spec ≡ s.mq.spec
  unfolding s3_service
  s3_service-keeps_spec s t b e = make_bucket-keeps_spec s.mq _ s.world t b e

  -- The scale-down of neither role makes a request.
  abbrev pub NothingToScale : State W → Type 0
  NothingToScale s =
      (world_of (sync_broker_scale env s) ≡ some s.world)
      × (world_of (sync_controllers_scale env s) ≡ some s.world)

  counted-NothingToScale :
      (s : State W)
      → s.mq.status.broker_replicas ≡ s.mq.spec.broker.replicas
      → s.mq.status.controller_replicas ≡ s.mq.spec.controller.replicas
      → NothingToScale s
  unfolding sync_broker_scale sync_controllers_scale
  counted-NothingToScale s hb hc = (rw (not_below _ _ hb) refl, rw (not_below _ _ hc) refl)

  -- If the S3 step fails, the reconciliation only writes the status, with the replica counts of the
  -- specification. An object with this status and the same specification has nothing to scale:
  -- neither scale-down method changes the world.
  pub failed_s3_loses_scale_down :
      (r : Reconciler) (ctx : Context) (obj : AutoMq) (w : W) (t next : State W)
      → s3_service env (record { mq = with_addresses env obj; world = w }) ≡ done (false, t)
      → next.mq.status ≡ (with_replicas env t.mq).status
      → next.mq.spec ≡ obj.spec
      → (reconcile env r ctx obj w ≡ done (sync_status env (with_replicas env t.mq) t.world))
        × NothingToScale next
  unfolding reconcile run_pipelines continue_with finish
  failed_s3_loses_scale_down r ctx obj w t next e same_status same_spec =
      let spec = s3_service-keeps_spec _ t false e in
      let keep = same_spec ∙ sym spec in
      (
        rw e,
        counted-NothingToScale next
            (ap (λ (x : AutoMqStatus). x.broker_replicas) same_status
              ∙ ap (λ (x : AutoMqSpec). x.broker.replicas) (sym keep))
            (ap (λ (x : AutoMqStatus). x.controller_replicas) same_status
              ∙ ap (λ (x : AutoMqSpec). x.controller.replicas) (sym keep)),
      )
