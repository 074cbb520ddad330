-- ===== src/Controller/Pipeline/Image.antt =====
-- The image of the custom resource reaches nothing in a reconciliation.
use automq_operator.Base.{
  String, Bool, true, false, Option, none, some, List, [], ◌∷◌, ◌≡◌, refl, ap, ◌∙◌, All,
}
use automq_operator.Kube.Objects.{Err, Result, ok, err}
use automq_operator.Kube.Env.{Env}
use automq_operator.Api.Types.{AutoMq}
use automq_operator.Storage.{S3Service}
use automq_operator.Defaults.{asset}
use automq_operator.Controller.Names.{controller_voters}
use automq_operator.Controller.State.{Reconciler, Context, State, Outcome, done, panicked, Method}
use automq_operator.Controller.Image.{with_image, state_image, answer_image, outcome_image, IsBlind}
use automq_operator.Controller.Brokers.Image.{sync_broker_scale-IsBlind, sync_brokers-IsBlind}
use automq_operator.Controller.Bootstrap.Image.{sync_kafka_bootstrap_service-IsBlind}
use automq_operator.Controller.Controllers.Image.{
  sync_controllers_scale-IsBlind, sync_controllers-IsBlind,
}
use automq_operator.Controller.Pipeline.{
  s3_service, make_bucket, after_bucket, script_configmap, script_from, after_script, write_script,
  pipelines, continue_with, run_pipelines, with_addresses, sync_status, finish, reconcile,
}

module _ {W : Type 0} (env : Env W) (image : String) where
  after_bucket-image :
      (obj : AutoMq) (e : Option Err) (w : W)
      → after_bucket env (with_image image obj) e w ≡ answer_image image (after_bucket env obj e w)
  unfolding after_bucket
  after_bucket-image obj (some e) w = refl
  after_bucket-image obj none w = refl

  make_bucket-image :
      (obj : AutoMq) (sg : Result S3Service) (w : W)
      → make_bucket env (with_image image obj) sg w ≡ answer_image image (make_bucket env obj sg w)
  unfolding make_bucket
  make_bucket-image obj (err e) w = refl
  make_bucket-image obj (ok sg) w = after_bucket-image obj _ _

  s3_service-IsBlind : IsBlind image (s3_service env)
  unfolding s3_service
  s3_service-IsBlind s = make_bucket-image s.mq _ s.world

  after_script-image :
      (obj : AutoMq) (x : Option Err × W)
      → after_script env (with_image image obj) x ≡ answer_image image (after_script env obj x)
  unfolding after_script
  after_script-image obj (some e, w) = refl
  after_script-image obj (none, w) = refl

  script_from-image :
      (obj : AutoMq) (text : Result String) (w : W)
      → script_from env (with_image image obj) text w
        ≡ answer_image image (script_from env obj text w)
  unfolding script_from write_script
  script_from-image obj (err e) w = refl
  script_from-image obj (ok text) w = after_script-image obj _

  script_configmap-IsBlind : IsBlind image (script_configmap env)
  unfolding script_configmap
  script_configmap-IsBlind s = script_from-image s.mq (asset env.up_sh "defaults/up.sh") s.world

  pipelines-IsBlind : (r : Reconciler) (ctx : Context) → All (IsBlind image) (pipelines env r ctx)
  pipelines-IsBlind r ctx = (
    s3_service-IsBlind,
    (
      script_configmap-IsBlind,
      (
        sync_controllers_scale-IsBlind env image,
        (
          sync_controllers-IsBlind env image r ctx,
          (
            sync_broker_scale-IsBlind env image,
            (
              sync_brokers-IsBlind env image r ctx,
              (sync_kafka_bootstrap_service-IsBlind env image, tt),
            ),
          ),
        ),
      ),
    ),
  )

  continue_with-image :
      (o : Outcome (Bool × State W)) (next : State W → Outcome (State W))
      → ((s : State W) → next (state_image image s) ≡ outcome_image image (next s))
      → continue_with env (answer_image image o) next
        ≡ outcome_image image (continue_with env o next)
  unfolding continue_with
  continue_with-image panicked next h = refl
  continue_with-image (done (true, s)) next h = h s
  continue_with-image (done (false, s)) next h = refl

  run_pipelines-image :
      (fs : List (Method W))
      → All (IsBlind image) fs
      → (s : State W)
      → run_pipelines env fs (state_image image s) ≡ outcome_image image (run_pipelines env fs s)
  unfolding run_pipelines
  run_pipelines-image [] h s = refl
  run_pipelines-image (f ∷ fs) (blind, h) s =
      rw (blind s) (continue_with-image (f s) _ (run_pipelines-image fs h))

  finish-image : (o : Outcome (State W)) → finish env (outcome_image image o) ≡ finish env o
  unfolding finish sync_status
  finish-image panicked = refl
  finish-image (done s) = refl

  -- The image of the custom resource reaches nothing: reconciliations of two objects that differ in it
  -- alone make the same calls, and so come out alike and leave the same world.
  pub reconcile_ignores_image :
      (r : Reconciler) (ctx : Context) (obj : AutoMq) (w : W)
      → reconcile env r ctx (with_image image obj) w ≡ reconcile env r ctx obj w
  unfolding reconcile controller_voters
  reconcile_ignores_image r ctx obj w =
      let s : State W = record { mq = with_addresses env obj; world = w } in
      ap (finish env) (run_pipelines-image (pipelines env r ctx) (pipelines-IsBlind r ctx) s)
      ∙ finish-image (run_pipelines env (pipelines env r ctx) s)
