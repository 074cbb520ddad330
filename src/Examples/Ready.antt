-- ===== src/Examples/Ready.antt =====
-- Reconciliations of the cluster in memory, and what they leave there.
use automq_operator.Base.{Bool, true, false, Option, none, ◌≡◌, refl, arith, All}
use automq_operator.Base.Int.{pos, range, In-range}
use automq_operator.Base.Decimal.{show}
use automq_operator.Kube.Objects.{Err}
use automq_operator.Kube.Memory.{Memory, memory}
use automq_operator.Kube.Memory.Lawful.{memory_laws}
use automq_operator.Api.Types.{AutoMq}
use automq_operator.Controller.Healthy.{IsHealthy}
use automq_operator.Controller.Names.{get_auto_mq_name}
use automq_operator.Controller.State.{Reconciler, Context, State, Outcome, done, panicked}
use automq_operator.Controller.Brokers.{broker_key, sync_brokers}
use automq_operator.Controller.Brokers.Stored.{BrokerStored}
use automq_operator.Controller.Brokers.Ready.{sync_brokers-stores}
use automq_operator.Controller.Bootstrap.Stored.{BootstrapStored}
use automq_operator.Controller.Controllers.{controller_key, sync_controllers}
use automq_operator.Controller.Controllers.Stored.{ControllerStored}
use automq_operator.Controller.Controllers.Ready.{sync_controllers-stores}
use automq_operator.Controller.Pipeline.{s3_service, script_configmap, with_addresses, reconcile}
use automq_operator.Controller.Pipeline.Total.{reconcile_total}
use automq_operator.Controller.Pipeline.Converges.{
  ControllersStored, BrokersStored, reconcile-converges,
}
use automq_operator.Controller.Image.{with_image}
use automq_operator.Controller.Pipeline.Script.{NoHash, reconcile_leaves_unhashed}
use automq_operator.Controller.Pipeline.Image.{reconcile_ignores_image}
use automq_operator.Storage.{new_bucket}
use automq_operator.Examples.Objects.{cluster, empty}

abbrev operator : Reconciler
operator = record { finalizer = "apps.cuisongliu.com/automq.finalizer"; mount_tz = false }

abbrev background : Context
background = record { hash_configmap = none }

abbrev at_start : State Memory
at_start = record { mq = with_addresses memory cluster; world = empty }

abbrev state_after : Outcome (Bool × State Memory) → State Memory → State Memory
state_after (done (b, t)) s = t
state_after panicked s = s

memory-IsHealthy : (obj : AutoMq) → IsHealthy memory memory_laws operator background obj
memory-IsHealthy obj = (
  λ i m. (λ w. refl, λ w. refl, λ w. refl),
  λ i m. (λ w. refl, λ w. refl, λ port w. refl),
  λ w. refl,
  λ i svc m at. rw at,
)

-- The second broker, after the loop over both.
abbrev brokers_done : State Memory
brokers_done = state_after (sync_brokers memory operator background at_start) at_start

brokers_return : sync_brokers memory operator background at_start ≡ done (true, brokers_done)
unfolding sync_brokers range get_auto_mq_name show
brokers_return = refl

sync_brokers-stores_example :
    BrokerStored memory memory_laws operator background at_start.mq (pos 1) brokers_done.world
unfolding sync_brokers range get_auto_mq_name show
sync_brokers-stores_example =
    sync_brokers-stores memory memory_laws operator background at_start brokers_done true (pos 1)
      brokers_return (_, refl, refl) ((In-range (pos 0) (pos 2) (pos 1)).1 (omega arith))

abbrev controllers_done : State Memory
controllers_done = state_after (sync_controllers memory operator background at_start) at_start

controllers_return :
    sync_controllers memory operator background at_start ≡ done (true, controllers_done)
unfolding sync_controllers range get_auto_mq_name show
controllers_return = refl

sync_controllers-stores_example :
    ControllerStored memory memory_laws operator background at_start.mq
      (pos 0)
      controllers_done.world
unfolding sync_controllers range get_auto_mq_name show
sync_controllers-stores_example =
    sync_controllers-stores memory memory_laws operator background at_start controllers_done true
      (pos 0) controllers_return (_, refl, refl)
      ((In-range (pos 0) (pos 1) (pos 0)).1 (omega arith))

reconcile_total_example :
    (e : Option Err) × (w' : Memory) × (reconcile memory operator background cluster empty
      ≡ done (e, w'))
reconcile_total_example = reconcile_total memory memory_laws operator background cluster empty refl

abbrev with_bucket : State Memory
with_bucket = state_after (s3_service memory at_start) at_start

abbrev with_script : State Memory
with_script = state_after (script_configmap memory with_bucket) with_bucket

makes_bucket : s3_service memory at_start ≡ done (true, with_bucket)
unfolding s3_service new_bucket
makes_bucket = refl

writes_script : script_configmap memory with_bucket ≡ done (true, with_script)
unfolding s3_service new_bucket script_configmap
writes_script = refl

reconcile-converges_example :
    (e : Option Err) × (w' : Memory) × (reconcile memory operator background cluster empty
      ≡ done (e, w'))
    × ControllersStored memory memory_laws operator background cluster w'
    × BrokersStored memory memory_laws operator background cluster w'
    × BootstrapStored memory memory_laws cluster w'
reconcile-converges_example =
    reconcile-converges memory memory_laws operator background cluster empty with_bucket with_script
      (memory-IsHealthy cluster) makes_bucket writes_script

reconcile_ignores_image_example :
    reconcile memory operator background (with_image "other" cluster) empty
    ≡ reconcile memory operator background cluster empty
reconcile_ignores_image_example =
    reconcile_ignores_image memory "other" operator background cluster empty

reconcile_leaves_unhashed_example :
    (e : Option Err) × (w' : Memory) × (reconcile memory operator background cluster empty
      ≡ done (e, w'))
    × All (λ i. NoHash memory memory_laws (controller_key cluster i) w') (range (pos 0) (pos 1))
    × All (λ j. NoHash memory memory_laws (broker_key cluster j) w') (range (pos 0) (pos 2))
reconcile_leaves_unhashed_example =
    reconcile_leaves_unhashed memory memory_laws operator background cluster empty with_bucket
      with_script refl (memory-IsHealthy cluster) makes_bucket writes_script
