-- ===== src/Examples/Steady.antt =====
-- A cluster in memory that comes to rest: a reconciliation, and the status update after it.
use automq_operator.Base.{Bool, true, false, Option, none, some, [], ◌∷◌, ◌≡◌, refl, sym, ap, All}
use automq_operator.Base.Int.{pos, add32, range}
use automq_operator.Base.Decimal.{show}
use automq_operator.Kube.Objects.{key_of, Err, Result, ok, err}
use automq_operator.Kube.Memory.{Memory, memory}
use automq_operator.Kube.Memory.Lawful.{memory_laws, memory_status_laws}
use automq_operator.Controller.Healthy.{IsHealthy}
use automq_operator.Api.Types.{AutoMq, AutoMqSpec, ready}
use automq_operator.Storage.{new_bucket}
use automq_operator.Controller.Names.{get_auto_mq_name}
use automq_operator.Controller.State.{Reconciler, Context, State, Outcome, done, panicked}
use automq_operator.Controller.Brokers.{sync_brokers, sync_broker_scale}
use automq_operator.Controller.Bootstrap.{sync_kafka_bootstrap_service}
use automq_operator.Controller.Controllers.{sync_controllers, sync_controllers_scale}
use automq_operator.Controller.Pipeline.{
  s3_service, script_configmap, run_pipelines, with_addresses, sync_status, reconcile,
}
use automq_operator.Controller.Status.{status_reconcile}
use automq_operator.Controller.Status.Phase.{Counted, nil}
use automq_operator.Controller.Ready.{reconcile-ready}
use automq_operator.Examples.Objects.{cluster, spec, empty, running}

abbrev operator : Reconciler
operator = record { finalizer = "apps.cuisongliu.com/automq.finalizer"; mount_tz = false }

abbrev background : Context
background = record { hash_configmap = none }

-- One replica of each role is asked for.
abbrev small : AutoMq
small = record cluster { spec = spec (pos 1) (pos 1) }

-- In the cluster, one pod of each role runs.
abbrev before : Memory
before = record empty { mqs = λ key. some small; pods = running ∷ [] }

abbrev state_after : Outcome (Bool × State Memory) → State Memory → State Memory
state_after (done (b, t)) s = t
state_after panicked s = s

abbrev at_start : State Memory
at_start = record { mq = with_addresses memory small; world = before }

abbrev with_bucket : State Memory
with_bucket = state_after (s3_service memory at_start) at_start

abbrev with_script : State Memory
with_script = state_after (script_configmap memory with_bucket) with_bucket

abbrev world_after : Outcome (Option Err × Memory) → Memory → Memory
world_after (done (e, w)) v = w
world_after panicked v = v

abbrev after : Memory
after = world_after (reconcile memory operator background small before) before

abbrev fetched : Result AutoMq → AutoMq
fetched (ok o) = o
fetched (err e) = small

abbrev stored : AutoMq
stored = fetched (memory.get_auto_mq (key_of small.metadata) after).0

abbrev counted : Memory
counted = (status_reconcile memory (key_of small.metadata) after).1

memory-IsHealthy : (obj : AutoMq) → IsHealthy memory memory_laws operator background obj
memory-IsHealthy obj = (
  λ i m. (λ w. refl, λ w. refl, λ w. refl),
  λ i m. (λ w. refl, λ w. refl, λ port w. refl),
  λ w. refl,
  λ i svc m at. rw at,
)

makes_bucket : s3_service memory at_start ≡ done (true, with_bucket)
unfolding s3_service new_bucket
makes_bucket = refl

writes_script : script_configmap memory with_bucket ≡ done (true, with_script)
unfolding s3_service new_bucket script_configmap
writes_script = refl

reconciles : reconcile memory operator background small before ≡ done (none, after)
unfolding reconcile run_pipelines sync_status s3_service new_bucket script_configmap
    sync_controllers sync_controllers_scale sync_brokers sync_broker_scale
    sync_kafka_bootstrap_service range get_auto_mq_name show
reconciles = refl

fetches : memory.get_auto_mq (key_of small.metadata) after ≡ (ok stored, after)
unfolding reconcile run_pipelines sync_status s3_service new_bucket script_configmap
    sync_controllers sync_controllers_scale sync_brokers sync_broker_scale
    sync_kafka_bootstrap_service range get_auto_mq_name show
fetches = refl

lists : memory.list_pods "kafka" [] after ≡ (ok (running ∷ []), after)
unfolding reconcile run_pipelines sync_status s3_service new_bucket script_configmap
    sync_controllers sync_controllers_scale sync_brokers sync_broker_scale
    sync_kafka_bootstrap_service range get_auto_mq_name show
lists = refl

specifies : stored.spec ≡ small.spec
unfolding reconcile run_pipelines sync_status s3_service new_bucket script_configmap
    sync_controllers sync_controllers_scale sync_brokers sync_broker_scale
    sync_kafka_bootstrap_service range get_auto_mq_name show
specifies = refl

counts : status_reconcile memory (key_of small.metadata) after ≡ (none, counted)
unfolding reconcile run_pipelines sync_status s3_service new_bucket script_configmap
    sync_controllers sync_controllers_scale sync_brokers sync_broker_scale
    sync_kafka_bootstrap_service range get_auto_mq_name show status_reconcile
counts = refl

one_running : Counted (running ∷ []) 1
one_running = Counted.up (refl, ((λ _. refl), tt)) nil

reconcile-ready_example :
    (held : AutoMq) × (counted.mqs (key_of small.metadata) ≡ some held)
    × (held.status.phase ≡ ready)
    × (held.status.ready_pods ≡ add32 stored.spec.controller.replicas stored.spec.broker.replicas)
    × All (λ c. c.status ≡ "True") held.status.conditions
reconcile-ready_example =
    reconcile-ready memory memory_laws memory_status_laws operator background small before after
      after after after counted with_bucket with_script stored (running ∷ []) (running ∷ []) 1 1
      (memory-IsHealthy small) (tt, λ d m. elim m [ ]) makes_bucket writes_script reconciles fetches
      lists lists one_running one_running
      (sym (ap (λ (s : AutoMqSpec). s.controller.replicas) specifies))
      (sym (ap (λ (s : AutoMqSpec). s.broker.replicas) specifies)) counts
