-- ===== src/Controller/Controllers.antt =====
-- internal/controller/automq_controller_c.go, but for the deployment's contents.
pub mod Clean
pub mod Answers
pub mod Stored
pub mod Image
pub mod Ready
use automq_operator.Base.{
  String, Bool, true, Option, none, some, List, [], ◌∷◌, ◌<>◌, if◌then◌else◌,
}
use automq_operator.Base.Int.{ℤ, pos, ltb_ℤ, range}
use automq_operator.Kube.Objects.{
  Key, EnvVar, service, deployment, persistent_volume_claim, Service, ServicePort,
  PersistentVolumeClaim, Deployment, Condition, Err,
}
use automq_operator.Kube.Env.{Env}
use automq_operator.Api.Types.{AutoMq}
use automq_operator.Controller.Names.{controller_role, get_auto_mq_name, index_labels}
use automq_operator.Controller.State.{
  Reconciler, Context, State, Outcome, done, panicked, Method, new_condition, set_condition,
  on_error,
}
use automq_operator.Controller.Requests.{
  discard, new_claim, new_service, new_deployment, mutate_claim, mutate_service,
}
use automq_operator.Controller.ControllerDeploy.{controller_envs, mutate_controller_deploy}

abbrev pub controller_key : AutoMq → ℤ → Key
controller_key obj i = record {
  namespace = obj.metadata.namespace;
  name = get_auto_mq_name controller_role (some i);
}

-- The service that `syncControllerService` passes to `CreateOrUpdate`.
abbrev pub new_controller_service : AutoMq → ℤ → Service
new_controller_service obj index =
    new_service obj.metadata.namespace (get_auto_mq_name controller_role (some index))
      (index_labels obj.metadata.name controller_role index)

-- The deployment that `syncControllerDeploy` passes to `CreateOrUpdate`.
abbrev pub new_controller_deployment : AutoMq → ℤ → Deployment
new_controller_deployment obj index =
    new_deployment obj.metadata.namespace (get_auto_mq_name controller_role (some index))
      (index_labels obj.metadata.name controller_role index)

module _ {W : Type 0} (env : Env W) where
  -- One round of the loop of `cleanController`.
  clean_controller_at : AutoMq → ℤ → W → W
  unfolding discard
  clean_controller_at obj i w =
      discard env persistent_volume_claim (controller_key obj i) (
        discard env deployment (controller_key obj i)
          (discard env service (controller_key obj i) w))

  clean_controllers_from : AutoMq → List ℤ → W → W
  unfolding clean_controller_at
  clean_controllers_from obj [] w = w
  clean_controllers_from obj (i ∷ is) w =
      clean_controllers_from obj is (clean_controller_at obj i w)

  unfoldable pub clean_controller : AutoMq → W → Option Err × W
  unfolding clean_controllers_from
  clean_controller obj w =
      (none, clean_controllers_from obj (range (pos 0) obj.status.controller_replicas) w)

  -- One round of the loop of `syncControllersScale`.
  scale_controller_at : AutoMq → ℤ → W → W
  unfolding discard
  scale_controller_at obj i w =
      discard env persistent_volume_claim (controller_key obj i) (
        discard env service (controller_key obj i)
          (discard env deployment (controller_key obj i) w))

  scale_controllers_from : AutoMq → List ℤ → W → W
  unfolding scale_controller_at
  scale_controllers_from obj [] w = w
  scale_controllers_from obj (i ∷ is) w =
      scale_controllers_from obj is (scale_controller_at obj i w)

  -- The loop visits nothing unless the status counts more replicas than the specification.
  unfoldable pub sync_controllers_scale : Method W
  unfolding scale_controllers_from
  sync_controllers_scale s =
      let current = s.mq.status.controller_replicas in
      let w' =
        if ltb_ℤ s.mq.spec.controller.replicas current
        then scale_controllers_from s.mq (range s.mq.spec.controller.replicas current) s.world
        else s.world in
      done (
        true,
        record {
          mq =
              set_condition env
                (new_condition s.mq "SyncControllerScale" "True" "ControllerScaleReconciling" (
                  "Controller scale for the custom resource (" <> s.mq.metadata.name
                  <> ") has been reconciled"))
                s.mq;
          world = w';
        },
      )

  unfoldable pub sync_controller_pvc : AutoMq → ℤ → W → Option Err × W
  unfolding mutate_claim index_labels
  sync_controller_pvc obj index w =
      let (e, (_, w')) =
        env.retry_on_conflict (PersistentVolumeClaim × W)
          (env.create_or_update persistent_volume_claim (
            mutate_claim (index_labels obj.metadata.name controller_role index)
              obj.spec.controller.storage_class))
          (new_claim obj.metadata.namespace (get_auto_mq_name controller_role (some index)), w) in
      (e, w')

  abbrev pub controller_ports : List ServicePort
  controller_ports =
      record {
        name = controller_role;
        port = pos 9093;
        target_port = controller_role;
        protocol = "TCP";
        node_port = pos 0;
      }
      ∷ []

  unfoldable pub sync_controller_service : AutoMq → ℤ → W → Option Err × W
  unfolding mutate_service index_labels
  sync_controller_service obj index w =
      let labels = index_labels obj.metadata.name controller_role index in
      let (e, (_, w')) =
        env.retry_on_conflict (Service × W)
          (env.create_or_update service (mutate_service labels controller_ports "ClusterIP"))
          (new_controller_service obj index, w) in
      (e, w')

  -- From the call of `RetryOnConflict` on.
  pub apply_controller_deploy : Reconciler → Context → AutoMq → ℤ → List EnvVar → W → Option Err × W
  unfolding mutate_controller_deploy index_labels
  apply_controller_deploy r ctx obj index envs w =
      let (e, (_, w')) =
        env.retry_on_conflict (Deployment × W)
          (env.create_or_update deployment (mutate_controller_deploy r ctx obj index envs))
          (new_controller_deployment obj index, w) in
      (e, w')

  unfoldable pub sync_controller_deploy : Reconciler → Context → AutoMq → ℤ → W → Option Err × W
  unfolding apply_controller_deploy controller_envs
  sync_controller_deploy r ctx obj index w =
      apply_controller_deploy r ctx obj index (controller_envs obj) w

  -- The condition that a failing part of a replica reports.
  abbrev controller_failure : AutoMq → String → String → Err → Condition
  controller_failure obj reason what e = new_condition obj "SyncControllerReady" "False" reason (
      "Failed to create " <> what <> " for the custom resource (" <> obj.metadata.name <> "): ("
      <> e.message <> ")")

  -- One round of the loop of `syncControllers`: the condition of the part that fails, or `none`.
  -- The condition is set, and the log written, in `report_controllers`.
  sync_controller_at : Reconciler → Context → AutoMq → ℤ → W → Outcome (Option Condition × W)
  unfolding sync_controller_pvc sync_controller_service sync_controller_deploy
  sync_controller_at r ctx obj i w =
      on_error (done (sync_controller_pvc obj i w))
        (λ e w. done (some (controller_failure obj "ControllerPVCReconciling" "pvc" e), w))
        (λ w.
          on_error (done (sync_controller_deploy r ctx obj i w))
            (λ e w. done (some (controller_failure obj "ControllerSTSReconciling" "deploy" e), w))
            (λ w.
              on_error (done (sync_controller_service obj i w))
                (λ e w.
                  done
                    (some (controller_failure obj "ControllerServiceReconciling" "service" e), w))
                (λ w. done (none, w))))

  -- The loop ends at the first replica that fails.
  next_replica :
      Outcome (Option Condition × W)
      → (W → Outcome (Option Condition × W))
      → Outcome (Option Condition × W)
  next_replica panicked rest = panicked
  next_replica (done (some c, w)) rest = done (some c, w)
  next_replica (done (none, w)) rest = rest w

  sync_controllers_from :
      Reconciler → Context → AutoMq → List ℤ → W → Outcome (Option Condition × W)
  unfolding next_replica sync_controller_at
  sync_controllers_from r ctx obj [] w = done (none, w)
  sync_controllers_from r ctx obj (i ∷ is) w =
      next_replica (sync_controller_at r ctx obj i w) (λ w'. sync_controllers_from r ctx obj is w')

  -- `log.Error(err, message, obj.Name, "role", controllerRole)`, in each of the three branches of a
  -- failure: the arguments behind the message are three, so that the last key has no value.
  log_failure : {A : Type 0} → Outcome A → Outcome A
  log_failure rest = if env.odd_log_panics then panicked else rest

  -- A replica that failed is reported by its condition and in the log. The method answers true whether
  -- or not a replica failed.
  report_controllers : AutoMq → Outcome (Option Condition × W) → Outcome (Bool × State W)
  unfolding log_failure
  report_controllers obj panicked = panicked
  report_controllers obj (done (some c, w)) =
      log_failure (done (true, record { mq = set_condition env c obj; world = w }))
  report_controllers obj (done (none, w)) = done (
    true,
    record {
      mq =
          set_condition env
            (new_condition obj "SyncControllerReady" "True" "ControllerReconciling" (
              "Controller resource for the custom resource (" <> obj.metadata.name
              <> ") has been created or update"))
            obj;
      world = w;
    },
  )

  unfoldable pub sync_controllers : Reconciler → Context → Method W
  unfolding sync_controllers_from report_controllers
  sync_controllers r ctx s =
      report_controllers s.mq
        (sync_controllers_from r ctx s.mq (range (pos 0) s.mq.spec.controller.replicas) s.world)
