-- ===== src/Examples/Loud.antt =====
-- A cluster that takes no writes, with a logger that panics at a key without a value.
use automq_operator.Base.{true, false, ◌≢◌, none, some, ◌≡◌, refl, ◌⊎◌, All}
use automq_operator.Base.Int.{range, pos}
use automq_operator.Base.Decimal.{show}
use automq_operator.Kube.Objects.{Err, new_err}
use automq_operator.Kube.Env.{Env}
use automq_operator.Kube.Laws.{Laws, last}
use automq_operator.Kube.Memory.{Memory, memory}
use automq_operator.Kube.Memory.Lawful.{memory_laws}
use automq_operator.Controller.Names.{get_auto_mq_name}
use automq_operator.Controller.State.{Reconciler, Context, State, done, panicked, IsTrue}
use automq_operator.Controller.Controllers.{sync_controllers}
use automq_operator.Controller.Controllers.Stored.{ControllerStored}
use automq_operator.Controller.Controllers.Ready.{sync_controllers-panics_or_ready}
use automq_operator.Examples.Objects.{cluster, empty}

abbrev loud : Env Memory
loud = record memory {
  create_or_update = λ k mutate s. (some (new_err "forbidden"), s);
  odd_log_panics = true;
}

refused : {e : Err} → some e ≢ none
refused h = cc h

abbrev loud_laws : Laws loud
loud_laws = record {
  at = memory_laws.at;
  holds = memory_laws.holds;
  holds_ports = memory_laws.holds_ports;
  delete_cases = memory_laws.delete_cases;
  delete_done = memory_laws.delete_done;
  delete_missing = memory_laws.delete_missing;
  create_or_update_key = λ k mutate o m h. refl;
  create_or_update_frame = λ k mutate o k' key' m h. refl;
  create_or_update_done = λ k mutate o m h. absurd (refused h);
  get_frame = memory_laws.get_frame;
  get_done = memory_laws.get_done;
  get_auto_mq_frame = memory_laws.get_auto_mq_frame;
  update_auto_mq_frame = memory_laws.update_auto_mq_frame;
  update_auto_mq_key = memory_laws.update_auto_mq_key;
  update_auto_mq_status_frame = memory_laws.update_auto_mq_status_frame;
  list_pods_frame = memory_laws.list_pods_frame;
  create_bucket_frame = memory_laws.create_bucket_frame;
  condition_set = memory_laws.condition_set;
  condition_kept = memory_laws.condition_kept;
  finalizer_removed = memory_laws.finalizer_removed;
  finalizer_missing = memory_laws.finalizer_missing;
  retry_attempts = λ S f s. last refl;
}

abbrev operator : Reconciler
operator = record { finalizer = "apps.cuisongliu.com/automq.finalizer"; mount_tz = false }

abbrev background : Context
background = record { hash_configmap = none }

abbrev at_start : State Memory
at_start = record { mq = cluster; world = empty }

-- The first controller's claim is refused, and the log of that panics.
panics : sync_controllers loud operator background at_start ≡ panicked
unfolding sync_controllers range get_auto_mq_name show
panics = refl

sync_controllers-panics_or_ready_example :
    (sync_controllers loud operator background at_start ≡ panicked)
    ⊎ ((t : State Memory) × (sync_controllers loud operator background at_start ≡ done (true, t))
        × IsTrue "SyncControllerReady" t.mq
        × All
            (λ i. ControllerStored loud loud_laws operator background cluster i t.world)
            (range (pos 0) (pos 1)))
sync_controllers-panics_or_ready_example =
    sync_controllers-panics_or_ready loud loud_laws operator background at_start refl
