-- ===== src/Examples/Reconcile.antt =====
-- The reconciler in the cluster in memory.
use automq_operator.Base.{
  ℕ, String, Bool, true, false, none, some, [], ◌∷◌, ◌≡◌, refl, inl, inr, All, arith, eq_iff,
}
use automq_operator.Base.Int.{pos, In-range}
use automq_operator.Kube.Objects.{key_of, service, deployment, Dict, new_err}
use automq_operator.Kube.Env.{Env}
use automq_operator.Kube.Memory.{Memory, memory}
use automq_operator.Kube.Memory.Lawful.{memory_laws, memory_status_laws, memory-IsReliable}
use automq_operator.Api.Types.{AutoMq, error}
use automq_operator.Storage.{new_bucket}
use automq_operator.Controller.Names.{get_auto_mq_label_map}
use automq_operator.Controller.State.{panicked, Reconciler, Context, State, Outcome, done}
use automq_operator.Controller.Brokers.{broker_key, sync_broker_scale}
use automq_operator.Controller.Brokers.Clean.{sync_broker_scale-keeps_deployments}
use automq_operator.Controller.Controllers.{controller_key, sync_controllers_scale}
use automq_operator.Controller.Controllers.Clean.{ScalesExactly, sync_controllers_scale-exact}
use automq_operator.Controller.Pipeline.{
  s3_service, script_configmap, pipelines, run_pipelines, reconcile, sync_status, with_replicas,
  with_addresses,
}
use automq_operator.Controller.Pipeline.Order.{
  run_all, replica_methods, pipeline_runs_on, NothingToScale, failed_s3_loses_scale_down,
}
use automq_operator.Controller.Reconcile.{cleanup}
use automq_operator.Controller.Reconcile.Cleanup.{
  AllCleared, cleanup-frame, cleanup_complete, cleanup-deletes_others,
}
use automq_operator.Controller.Status.{status_reconcile}
use automq_operator.Controller.Ready.{status_reconcile-reports_error}
use automq_operator.Controller.Status.Phase.{Counted, HasPhase, status_reconcile-counts}
use automq_operator.Examples.Objects.{
  cluster, elsewhere, elsewhere-not-IsNamed, shrinking, neighbour, status, running, empty, hosting,
}

abbrev operator : Reconciler
operator = record { finalizer = "apps.cuisongliu.com/automq.finalizer"; mount_tz = false }

abbrev background : Context
background = record { hash_configmap = none }

abbrev labels : String → Dict
labels role = get_auto_mq_label_map "one" role

abbrev at_start : State Memory
at_start = record { mq = shrinking; world = empty }

sync_broker_scale-keeps_deployments_example :
    (t : State Memory) × (sync_broker_scale memory at_start ≡ done (true, t))
    × (memory_laws.at deployment (broker_key shrinking (pos 1)) t.world
        ≡ memory_laws.at deployment (broker_key shrinking (pos 1)) at_start.world)
sync_broker_scale-keeps_deployments_example =
    sync_broker_scale-keeps_deployments memory memory_laws at_start (broker_key shrinking (pos 1))

sync_controllers_scale-exact_example :
    (t : State Memory) × (sync_controllers_scale memory at_start ≡ done (true, t))
    × ScalesExactly memory memory_laws shrinking deployment
        (controller_key shrinking (pos 2))
        at_start.world
        t.world
sync_controllers_scale-exact_example =
    sync_controllers_scale-exact memory memory_laws at_start deployment
      (controller_key shrinking (pos 2)) memory-IsReliable

cleanup_complete_example :
    ((cleanup memory cluster empty).0 ≡ none)
    × AllCleared memory memory_laws cluster (cleanup memory cluster empty).1
cleanup_complete_example = cleanup_complete memory memory_laws cluster empty memory-IsReliable

cleanup-frame_example :
    memory_laws.at service elsewhere (cleanup memory cluster empty).1
    ≡ memory_laws.at service elsewhere empty
cleanup-frame_example =
    cleanup-frame memory memory_laws cluster empty service elsewhere elsewhere-not-IsNamed

cleanup-deletes_others_example :
    memory_laws.at deployment (broker_key neighbour (pos 1)) (cleanup memory cluster empty).1 ≡ none
cleanup-deletes_others_example =
    cleanup-deletes_others memory memory_laws cluster neighbour empty (pos 1) deployment
      memory-IsReliable refl ((In-range (pos 0) (pos 2) (pos 1)).1 (omega arith)) (inr (inl refl))

abbrev broken : Env Memory
broken = record memory { load_default_config = λ cfg. some (new_err "no config") }

abbrev stopped : State Memory
stopped = record {
  mq = record shrinking {
    status = record (with_addresses broken shrinking).status {
      conditions =
          record {
            type = "SyncS3ServiceReady";
            status = "False";
            observed_generation = pos 0;
            reason = "AwsS3ReconcilingInit";
            message =
                "Failed to create S3 Bucket interface for the custom resource (one): (no config)";
          }
          ∷ [];
    };
  };
  world = empty;
}

stops :
    s3_service broken (record { mq = with_addresses broken shrinking; world = empty })
    ≡ done (false, stopped)
unfolding s3_service new_bucket
stops = refl

abbrev later : State Memory
later = record {
  mq = record shrinking { status = (with_replicas broken stopped.mq).status };
  world = empty;
}

failed_s3_loses_scale_down_example :
    (reconcile broken operator background shrinking empty
      ≡ done (sync_status broken (with_replicas broken stopped.mq) stopped.world))
    × NothingToScale broken later
failed_s3_loses_scale_down_example =
    failed_s3_loses_scale_down broken operator background shrinking empty stopped later stops refl
      refl

abbrev state_after : Outcome (Bool × State Memory) → State Memory → State Memory
state_after (done (b, t)) s = t
state_after panicked s = s

abbrev with_bucket : State Memory
with_bucket = state_after (s3_service memory at_start) at_start

abbrev with_script : State Memory
with_script = state_after (script_configmap memory with_bucket) with_bucket

makes_bucket : s3_service memory at_start ≡ done (true, with_bucket)
unfolding s3_service new_bucket
makes_bucket = refl

writes_script : script_configmap memory with_bucket ≡ done (true, with_script)
unfolding s3_service new_bucket script_configmap
writes_script = refl

pipeline_runs_on_example :
    run_pipelines memory (pipelines memory operator background) at_start
    ≡ run_all (replica_methods memory operator background) with_script
pipeline_runs_on_example =
    pipeline_runs_on memory operator background at_start with_bucket with_script makes_bucket
      writes_script

status_reconcile-counts_example :
    (c b : ℕ) × (written : AutoMq) × Counted (running ∷ []) c
    × Counted (running ∷ []) b
    × HasPhase cluster c b written
    × (status_reconcile memory (key_of cluster.metadata) hosting
        ≡ sync_status memory written hosting)
status_reconcile-counts_example =
    status_reconcile-counts memory (key_of cluster.metadata) cluster hosting hosting hosting hosting
      (running ∷ []) (running ∷ []) refl tt refl refl

abbrev failing : AutoMq
failing = record cluster {
  status = status (pos 1) (pos 2) (
      record {
        type = "SyncBrokerReady";
        status = "False";
        observed_generation = pos 0;
        reason = "BrokerPVCReconciling";
        message = "";
      }
      ∷ []);
}

abbrev troubled : Memory
troubled = record hosting { mqs = λ key. some failing }

failing_condition : ¬ All (λ c. c.status ≡ "True") failing.status.conditions
failing_condition h = ground (arith, eq_iff "False" "True", h.0)

abbrev reported : Memory
reported = (status_reconcile memory (key_of failing.metadata) troubled).1

reports : status_reconcile memory (key_of failing.metadata) troubled ≡ (none, reported)
unfolding status_reconcile sync_status
reports = refl

status_reconcile-reports_error_example :
    (held : AutoMq) × (reported.mqs (key_of failing.metadata) ≡ some held)
    × (held.status ≡ record failing.status { phase = error })
status_reconcile-reports_error_example =
    status_reconcile-reports_error memory memory_laws memory_status_laws (key_of failing.metadata)
      failing troubled troubled reported refl failing_condition reports
