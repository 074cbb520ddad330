-- ===== src/Controller/Status.antt =====
-- internal/controller/automq_status_controller.go: the status that a ticker writes every five seconds.
pub mod Phase
pub mod Frame
use automq_operator.Base.{
  ℕ, suc, String, Bool, true, false, not, Option, some, List, [], ◌∷◌, ◌==◌, ◌&&◌, ◌<>◌,
  if◌then◌else◌,
}
use automq_operator.Base.Int.{pos, wrap32, add32, eq_ℤ}
use automq_operator.Kube.Objects.{
  Key, Dict, Condition, Pod, PodCondition, Err, new_err, ignore_not_found, Result, ok, err,
}
use automq_operator.Kube.Env.{Env}
use automq_operator.Api.Types.{AutoMq, pending, error, ready, in_process, AutoMqPhase}
use automq_operator.Controller.Names.{broker_role, controller_role, get_auto_mq_label_map}
use automq_operator.Controller.Pipeline.{sync_status}

-- The loop over `pod.Status.Conditions`.
all_containers_ready : List PodCondition → Bool
all_containers_ready [] = true
all_containers_ready (c ∷ cs) =
    if c.type == "Ready" && not (c.status == "True") then false else all_containers_ready cs

count_running : ℕ → List Pod → ℕ
unfolding all_containers_ready
count_running n [] = n
count_running n (pod ∷ pods) =
    count_running
      (if pod.phase == "Running" && all_containers_ready pod.conditions then suc n else n) pods

-- The loop over `automq.Status.Conditions`.
all_true : List Condition → Bool
all_true [] = true
all_true (c ∷ cs) = if not (c.status == "True") then false else all_true cs

module _ {W : Type 0} (env : Env W) where
  running_num : Result (List Pod) × W → Result ℕ × W
  unfolding count_running
  running_num (err e, w) = (err (new_err ("error listing pods: " <> e.message)), w)
  running_num (ok pods, w) = (ok (count_running 0 pods), w)

  unfoldable pub get_pod_running_num : String → Dict → W → Result ℕ × W
  unfolding running_num
  get_pod_running_num namespace labels w = running_num (env.list_pods namespace labels w)

  abbrev pub with_phase : AutoMqPhase → AutoMq → AutoMq
  with_phase phase obj = record obj { status = record obj.status { phase = phase } }

  -- `automq.Status.ReadyPods = int32(c) + int32(b)`, and the test for the phase `Ready`. A count is
  -- an `int`, and `int32` takes its low 32 bits.
  count_ready : AutoMq → ℕ → ℕ → AutoMq
  count_ready obj c b = record obj {
    status = record obj.status {
      ready_pods = add32 (wrap32 (pos c)) (wrap32 (pos b));
      phase =
          if eq_ℤ (wrap32 (pos c)) obj.spec.controller.replicas
            && eq_ℤ (wrap32 (pos b)) obj.spec.broker.replicas
          then ready
          else obj.status.phase;
    };
  }

  broker_pods : AutoMq → ℕ → Result ℕ × W → Option Err × W
  unfolding count_ready sync_status
  broker_pods obj c (err e, w) = (some e, w)
  broker_pods obj c (ok b, w) = sync_status env (count_ready obj c b) w

  controller_pods : Key → AutoMq → Result ℕ × W → Option Err × W
  unfolding broker_pods get_pod_running_num
  controller_pods key obj (err e, w) = (some e, w)
  controller_pods key obj (ok c, w) =
      broker_pods obj c
        (get_pod_running_num obj.metadata.namespace (get_auto_mq_label_map key.name broker_role) w)

  -- The phase `Pending` that is assigned first is overwritten on both branches.
  phase_from : Key → AutoMq → W → Option Err × W
  unfolding controller_pods all_true
  phase_from key obj w =
      if all_true obj.status.conditions
      then controller_pods key (with_phase in_process obj) (
          get_pod_running_num obj.metadata.namespace
            (get_auto_mq_label_map key.name controller_role) w)
      else sync_status env (with_phase error obj) w

  status_of : Key → Result AutoMq × W → Option Err × W
  unfolding phase_from
  status_of key (err e, w) = (ignore_not_found e, w)
  status_of key (ok obj, w) = phase_from key (with_phase pending obj) w

  -- `obj` is read for its name and namespace only.
  unfoldable pub status_reconcile : Key → W → Option Err × W
  unfolding status_of
  status_reconcile key w = status_of key (env.get_auto_mq key w)
