-- ===== src/Controller/Workload.antt =====
-- What the pods of both roles have in common: selectors, mounts, and what of the custom resource and of
-- the script does not reach them.
use automq_operator.Base.{
  String, Bool, true, false, none, some, List, ◌≡◌, ◌↔◌, refl, sym, ap, inl, inr, In, All, arith,
  map, eq_iff,
}
use automq_operator.Base.Int.{ℤ}
use automq_operator.Kube.Objects.{EnvVar, Deployment, Dict, lookup}
use automq_operator.Api.Types.{AutoMq}
use automq_operator.Controller.Names.{
  broker_role, controller_role, get_auto_mq_label_map, index_labels, controller_voters,
}
use automq_operator.Controller.State.{Reconciler, Context}
use automq_operator.Controller.Image.{with_image}
use automq_operator.Controller.Pods.{pod_volumes, pod_mounts}
use automq_operator.Base.Decimal.{show, show-injective}
use automq_operator.Controller.Brokers.{new_broker_service, new_broker_deployment}
use automq_operator.Controller.Controllers.{new_controller_service, new_controller_deployment}
use automq_operator.Controller.Bootstrap.{new_bootstrap_service}
use automq_operator.Controller.BrokerDeploy.{mutate_broker_deploy}
use automq_operator.Controller.ControllerDeploy.{mutate_controller_deploy}

-- The image of the custom resource reaches no deployment: two objects that differ in it alone ask for
-- the same deployments.
pub deployments_ignore_image :
    (r : Reconciler) (ctx : Context) (obj : AutoMq) (image : String) (i : ℤ) (envs : List EnvVar)
    (d : Deployment)
    → (mutate_broker_deploy r ctx (with_image image obj) i envs d
        ≡ mutate_broker_deploy r ctx obj i envs d)
      × (mutate_controller_deploy r ctx (with_image image obj) i envs d
          ≡ mutate_controller_deploy r ctx obj i envs d)
unfolding mutate_broker_deploy mutate_controller_deploy controller_voters
deployments_ignore_image r ctx obj image i envs d = (refl, refl)

-- Whatever the script, a context without its hash gives every pod the empty hash annotation.
pub empty_script_hash :
    (r : Reconciler) (ctx : Context) (obj : AutoMq) (i : ℤ) (envs : List EnvVar) (d : Deployment)
    → ctx.hash_configmap ≡ none
    → (lookup "configmap/script-hash" (mutate_broker_deploy r ctx obj i envs d).template.annotations
        ≡ some "")
      × (lookup "configmap/script-hash"
            (mutate_controller_deploy r ctx obj i envs d).template.annotations
          ≡ some "")
unfolding mutate_broker_deploy mutate_controller_deploy lookup
empty_script_hash r ctx obj i envs d h = (ground arith, ground arith)

-- A set of labels that a selector asks for is on the pods.
abbrev pub Selects : Dict → Dict → Type 0
Selects selector labels = All (λ l. lookup l.0 labels ≡ some l.1) selector

-- The labels of a broker's pods, and those of a controller's.
abbrev pub broker_pod_labels : Reconciler → Context → AutoMq → ℤ → List EnvVar → Deployment → Dict
broker_pod_labels r ctx obj i envs d = (mutate_broker_deploy r ctx obj i envs d).template.labels

abbrev pub controller_pod_labels :
    Reconciler → Context → AutoMq → ℤ → List EnvVar → Deployment → Dict
controller_pod_labels r ctx obj i envs d =
    (mutate_controller_deploy r ctx obj i envs d).template.labels

other_role : ¬ (some controller_role ≡ some broker_role)
other_role h = ground (arith, eq_iff controller_role broker_role, h)

-- What the selectors of one cluster select of the pods of its replica `j`: the service of a replica
-- selects the pods of that replica and of no other one of its role, and no pods of the other role. The
-- bootstrap service selects the pods of every broker and of no controller. The deployment of a replica
-- selects exactly the labels of its own pods.
pub selectors_exact :
    (r : Reconciler) (ctx : Context) (obj : AutoMq) (i j : ℤ) (envs : List EnvVar) (d : Deployment)
    → let broker = broker_pod_labels r ctx obj j envs d in
      let controller = controller_pod_labels r ctx obj j envs d in
      (Selects (new_broker_service obj i).selector broker ↔ (i ≡ j))
      × (Selects (new_controller_service obj i).selector controller ↔ (i ≡ j))
      × (¬ Selects (new_broker_service obj i).selector controller)
      × (¬ Selects (new_controller_service obj i).selector broker)
      × Selects (new_bootstrap_service obj).selector broker
      × (¬ Selects (new_bootstrap_service obj).selector controller)
      × ((new_broker_deployment obj j).selector ≡ some broker)
      × ((new_controller_deployment obj j).selector ≡ some controller)
unfolding mutate_broker_deploy mutate_controller_deploy index_labels get_auto_mq_label_map lookup
selectors_exact r ctx obj i j envs d = (
  (
    λ (_, (_, (_, (_, (e, _))))). show-injective i j (cc e),
    λ e. (refl, (refl, (refl, (refl, (ap some (ap show (sym e)), tt))))),
  ),
  (
    λ (_, (_, (_, (_, (e, _))))). show-injective i j (cc e),
    λ e. (refl, (refl, (refl, (refl, (ap some (ap show (sym e)), tt))))),
  ),
  λ (_, (_, (_, (e, _)))). other_role e,
  λ (_, (_, (_, (e, _)))). other_role (sym e),
  (refl, (refl, (refl, (refl, tt)))),
  λ (_, (_, (_, (e, _)))). other_role e,
  refl,
  refl,
)

-- Every mount of a pod's containers names a volume of the pod.
abbrev pub MountsResolve : Deployment → Type 0
MountsResolve d =
    All (λ c. All (λ m. In m.name (map (λ v. v.name) d.template.spec.volumes)) c.volume_mounts)
      d.template.spec.containers

mounts-In-volumes :
    (tz : Bool) (script claim : String)
    → All (λ m. In m.name (map (λ v. v.name) (pod_volumes tz script claim))) (pod_mounts tz claim)
mounts-In-volumes true script claim = (inr (inl refl), (inl refl, (inr (inr (inl refl)), tt)))
mounts-In-volumes false script claim = (inr (inl refl), (inl refl, tt))

-- In the deployments of both roles every mount names a volume of its pod, with the time zone and
-- without.
pub mounts_resolve :
    (r : Reconciler) (ctx : Context) (obj : AutoMq) (i : ℤ) (envs : List EnvVar) (d : Deployment)
    → MountsResolve (mutate_broker_deploy r ctx obj i envs d)
      × MountsResolve (mutate_controller_deploy r ctx obj i envs d)
unfolding mutate_broker_deploy mutate_controller_deploy
mounts_resolve r ctx obj i envs d =
    let good = mounts-In-volumes r.mount_tz obj.metadata.name d.metadata.name in
    ((good, tt), (good, tt))
