-- ===== src/Controller/Status/Frame.antt =====
-- The status update touches none of the operator's objects.
use automq_operator.Base.{String, Bool, ℕ, List, Option, ◌≡◌, refl, ◌∙◌, if◌then◌else◌, true, false}
use automq_operator.Kube.Objects.{Kind, Key, Dict, Pod, Err, Result, ok, err}
use automq_operator.Kube.Env.{Env}
use automq_operator.Kube.Laws.{Laws}
use automq_operator.Api.Types.{AutoMq, error, in_process, pending}
use automq_operator.Controller.Names.{controller_role, get_auto_mq_label_map}
use automq_operator.Controller.Pipeline.{sync_status}
use automq_operator.Controller.Pipeline.Total.{sync_status-frame}
use automq_operator.Controller.Status.{
  running_num, get_pod_running_num, count_ready, with_phase, all_true, broker_pods, controller_pods,
  phase_from, status_of, status_reconcile,
}

module _ {W : Type 0} (env : Env W) (laws : Laws env) (k : Kind) (key : Key) where
  if-frame :
      (c : Bool) (x y : Option Err × W) (w : W)
      → laws.at k key x.1 ≡ laws.at k key w
      → laws.at k key y.1 ≡ laws.at k key w
      → laws.at k key (if c then x else y).1 ≡ laws.at k key w
  if-frame true x y w h h' = h
  if-frame false x y w h h' = h'

  running_num-frame :
      (got : Result (List Pod) × W) → laws.at k key (running_num env got).1 ≡ laws.at k key got.1
  unfolding running_num
  running_num-frame (ok pods, w) = refl
  running_num-frame (err e, w) = refl

  pods-frame :
      (namespace : String) (labels : Dict) (w : W)
      → laws.at k key (get_pod_running_num env namespace labels w).1 ≡ laws.at k key w
  unfolding get_pod_running_num
  pods-frame namespace labels w =
      running_num-frame (env.list_pods namespace labels w)
      ∙ laws.list_pods_frame namespace labels k key w

  broker_pods-frame :
      (obj : AutoMq) (c : ℕ) (got : Result ℕ × W)
      → laws.at k key (broker_pods env obj c got).1 ≡ laws.at k key got.1
  unfolding broker_pods
  broker_pods-frame obj c (ok b, w) = sync_status-frame env laws (count_ready env obj c b) w k key
  broker_pods-frame obj c (err e, w) = refl

  controller_pods-frame :
      (name : Key) (obj : AutoMq) (got : Result ℕ × W)
      → laws.at k key (controller_pods env name obj got).1 ≡ laws.at k key got.1
  unfolding controller_pods
  controller_pods-frame name obj (ok c, w) = broker_pods-frame obj c _ ∙ pods-frame _ _ w
  controller_pods-frame name obj (err e, w) = refl

  phase_from-frame :
      (name : Key) (obj : AutoMq) (w : W)
      → laws.at k key (phase_from env name obj w).1 ≡ laws.at k key w
  unfolding phase_from
  phase_from-frame name obj w =
      let labels = get_auto_mq_label_map name.name controller_role in
      let got = get_pod_running_num env obj.metadata.namespace labels w in
      if-frame (all_true obj.status.conditions)
        (controller_pods env name (with_phase env in_process obj) got)
        (sync_status env (with_phase env error obj) w) w
        (controller_pods-frame name (with_phase env in_process obj) got
          ∙ pods-frame obj.metadata.namespace labels w)
        (sync_status-frame env laws (with_phase env error obj) w k key)

  status_of-frame :
      (name : Key) (got : Result AutoMq × W)
      → laws.at k key (status_of env name got).1 ≡ laws.at k key got.1
  unfolding status_of
  status_of-frame name (ok obj, w) = phase_from-frame name (with_phase env pending obj) w
  status_of-frame name (err e, w) = refl

  pub status_reconcile-frame :
      (name : Key) (w : W) → laws.at k key (status_reconcile env name w).1 ≡ laws.at k key w
  unfolding status_reconcile
  status_reconcile-frame name w =
      status_of-frame name (env.get_auto_mq name w) ∙ laws.get_auto_mq_frame name k key w
