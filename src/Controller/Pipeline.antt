-- ===== src/Controller/Pipeline.antt =====
-- internal/controller/automq_controller.go: the first two steps of the pipeline, the pipeline, and
-- the status update that ends it.
pub mod Order
pub mod Total
pub mod Steps
pub mod Same
pub mod Converges
pub mod Reports
pub mod Stored
pub mod Image
pub mod Script
use automq_operator.Base.{
  String, Bool, true, false, Option, none, some, List, [], ◌∷◌, ◌<>◌, contains, if◌then◌else◌,
}
use automq_operator.Kube.Objects.{key_of, new_meta, config_map, Err, Result, ok, err}
use automq_operator.Kube.Env.{Env}
use automq_operator.Api.Types.{AutoMq, AutoMqStatus}
use automq_operator.Defaults.{asset}
use automq_operator.Storage.{Config, S3Service, new_bucket}
use automq_operator.Controller.Names.{controller_voters}
use automq_operator.Controller.State.{
  Reconciler, Context, State, Outcome, done, panicked, Method, new_condition, set_condition,
}
use automq_operator.Controller.Brokers.{sync_broker_scale, sync_brokers}
use automq_operator.Controller.Bootstrap.{sync_kafka_bootstrap_service}
use automq_operator.Controller.Controllers.{sync_controllers_scale, sync_controllers}

abbrev s3_config : AutoMq → Config
s3_config obj = record {
  type = "s3";
  key = obj.spec.s3.access_key_id;
  secret = obj.spec.s3.secret_access_key;
  region = obj.spec.s3.region;
  endpoint = obj.spec.s3.endpoint;
  max_backoff_delay = none;
  max_retry_attempts = none;
}

-- `err != nil && !strings.Contains(err.Error(), "BucketAlready")`
abbrev bucket_failed : Option Err → Option Err
bucket_failed none = none
bucket_failed (some e) = if contains e.message "BucketAlready" then none else some e

module _ {W : Type 0} (env : Env W) where
  -- A method that sets one condition and returns its answer.
  abbrev answer : Bool → String → String → String → AutoMq → W → Outcome (Bool × State W)
  answer ready type reason message obj w = done (
    ready,
    record {
      mq =
          set_condition env
            (new_condition obj type (if ready then "True" else "False") reason message) obj;
      world = w;
    },
  )

  abbrev s3_failure : AutoMq → Err → String
  s3_failure obj e =
      "Failed to create S3 Bucket interface for the custom resource (" <> obj.metadata.name
      <> "): (" <> e.message <> ")"

  after_bucket : AutoMq → Option Err → W → Outcome (Bool × State W)
  after_bucket obj (some e) w =
      answer false "SyncS3ServiceReady" "AwsS3ReconcilingBucket" (s3_failure obj e) obj w
  after_bucket obj none w =
      answer true "SyncS3ServiceReady" "AwsS3Reconciling"
        ("S3 Bucket interface for the custom resource (" <> obj.metadata.name
          <> ") has been created")
        obj w

  make_bucket : AutoMq → Result S3Service → W → Outcome (Bool × State W)
  unfolding after_bucket contains
  make_bucket obj (err e) w =
      answer false "SyncS3ServiceReady" "AwsS3ReconcilingInit" (s3_failure obj e) obj w
  make_bucket obj (ok sg) w =
      let (e, w') = env.create_bucket sg.client obj.spec.s3.bucket w in
      after_bucket obj (bucket_failed e) w'

  unfoldable pub s3_service : Method W
  unfolding make_bucket new_bucket
  s3_service s = make_bucket s.mq (new_bucket env.load_default_config (s3_config s.mq)) s.world

  abbrev script_failure : AutoMq → Err → String
  script_failure obj e =
      "Failed to create script configmap for the custom resource (" <> obj.metadata.name <> "): ("
      <> e.message <> ")"

  -- The closure makes a new `ConfigMap` in every attempt.
  write_script : AutoMq → String → W → Option Err × W
  write_script obj text w =
      let (e, (_, w')) =
        env.create_or_update config_map (λ cm. record cm { entries = ("up.sh", text) ∷ [] })
          (
            record { metadata = new_meta obj.metadata.namespace obj.metadata.name; entries = [] },
            w,
          ) in
      (e, w')

  after_script : AutoMq → Option Err × W → Outcome (Bool × State W)
  after_script obj (some e, w) =
      answer false "SyncConfigmapReady" "ConfigmapReconcilingCreate" (script_failure obj e) obj w
  after_script obj (none, w) =
      answer true "SyncConfigmapReady" "ConfigmapReconciling"
        ("Script configmap for the custom resource (" <> obj.metadata.name <> ") has been created")
        obj w

  -- The new context that holds the script's hash is local to `scriptConfigmap`, and the calls below
  -- it do not read it.
  script_from : AutoMq → Result String → W → Outcome (Bool × State W)
  unfolding write_script after_script
  script_from obj (err e) w =
      answer false "SyncConfigmapReady" "ConfigmapReconcilingInit" (script_failure obj e) obj w
  script_from obj (ok text) w = after_script obj (env.retry_on_conflict W (write_script obj text) w)

  unfoldable pub script_configmap : Method W
  unfolding script_from asset
  script_configmap s = script_from s.mq (asset env.up_sh "defaults/up.sh") s.world

  abbrev pub pipelines : Reconciler → Context → List (Method W)
  pipelines r ctx =
      s3_service
      ∷ script_configmap
      ∷ sync_controllers_scale env
      ∷ sync_controllers env r ctx
      ∷ sync_broker_scale env
      ∷ sync_brokers env r ctx
      ∷ sync_kafka_bootstrap_service env
      ∷ []

  pub continue_with : Outcome (Bool × State W) → (State W → Outcome (State W)) → Outcome (State W)
  continue_with panicked rest = panicked
  continue_with (done (false, s)) rest = done s
  continue_with (done (true, s)) rest = rest s

  -- The loop over the pipeline breaks after the first method that answers false.
  unfoldable pub run_pipelines : List (Method W) → State W → Outcome (State W)
  unfolding continue_with
  run_pipelines [] s = done s
  run_pipelines (f ∷ fs) s = continue_with (f s) (λ s'. run_pipelines fs s')

  -- The object with the replica counts of its specification in its status.
  abbrev pub with_replicas : AutoMq → AutoMq
  with_replicas obj = record obj {
    status = record obj.status {
      controller_replicas = obj.spec.controller.replicas;
      broker_replicas = obj.spec.broker.replicas;
    };
  }

  abbrev pub with_addresses : AutoMq → AutoMq
  with_addresses obj = record obj {
    status = record obj.status { controller_addresses = controller_voters obj };
  }

  -- One attempt of `syncStatus`: the status is put into the object that the server has.
  update_status : AutoMqStatus → Result AutoMq × W → Option Err × W
  update_status status (err e, w) = (some e, w)
  update_status status (ok original, w) =
      env.update_auto_mq_status (record original { status = status }) w

  unfoldable pub sync_status : AutoMq → W → Option Err × W
  unfolding update_status
  sync_status automq w =
      env.retry_on_conflict W
        (λ w. update_status automq.status (env.get_auto_mq (key_of automq.metadata) w)) w

  pub finish : Outcome (State W) → Outcome (Option Err × W)
  unfolding sync_status
  finish panicked = panicked
  finish (done s) = done (sync_status (with_replicas s.mq) s.world)

  unfoldable pub reconcile : Reconciler → Context → AutoMq → W → Outcome (Option Err × W)
  unfolding run_pipelines finish
  reconcile r ctx automq w =
      finish (run_pipelines (pipelines r ctx) (record { mq = with_addresses automq; world = w }))
