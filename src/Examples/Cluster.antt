-- ===== src/Examples/Cluster.antt =====
-- Names, node ids and workloads at concrete objects.
use automq_operator.Base.{true, none, some, [], ◌∷◌, ◌≡◌, refl, ◌≢◌, ◌↔◌, arith}
use automq_operator.Base.Int.{pos, range, In-range, add32, ◌+ℤ◌}
use automq_operator.Base.Decimal.{show}
use automq_operator.Kube.Objects.{Deployment}
use automq_operator.Controller.Names.{
  broker_role, controller_role, get_auto_mq_name, controller_voters,
}
use automq_operator.Controller.Replicas.{
  names_distinct, bootstrap_name, argument, node_ids_distinct,
}
use automq_operator.Controller.State.{Reconciler, Context}
use automq_operator.Controller.Requests.{new_deployment}
use automq_operator.Controller.BrokerDeploy.{broker_cmds, mutate_broker_deploy}
use automq_operator.Controller.ControllerDeploy.{controller_cmds, mutate_controller_deploy}
use automq_operator.Controller.Brokers.{new_broker_service, new_broker_deployment}
use automq_operator.Controller.Controllers.{new_controller_service, new_controller_deployment}
use automq_operator.Controller.Bootstrap.{new_bootstrap_service}
use automq_operator.Controller.Workload.{
  Selects, broker_pod_labels, controller_pod_labels, selectors_exact, MountsResolve, mounts_resolve,
}
use automq_operator.Examples.Objects.{cluster}

voters : controller_voters cluster ≡ "0@automq-controller-0.kafka.svc:9093" ∷ []
unfolding controller_voters range show
voters = refl

large_ids : add32 (pos 0) (pos 7) ≡ pos 7
unfolding add32 ◌+ℤ◌
large_ids = refl

names_distinct_example :
    ((get_auto_mq_name broker_role (some (pos 1)) ≡ get_auto_mq_name broker_role (some (pos 12)))
      ↔ (pos 1 ≡ pos 12))
    × ((get_auto_mq_name controller_role (some (pos 1))
          ≡ get_auto_mq_name controller_role (some (pos 12)))
        ↔ (pos 1 ≡ pos 12))
    × (get_auto_mq_name broker_role (some (pos 1))
        ≢ get_auto_mq_name controller_role (some (pos 12)))
    × (get_auto_mq_name broker_role (some (pos 1)) ≢ bootstrap_name)
    × (get_auto_mq_name controller_role (some (pos 1)) ≢ bootstrap_name)
names_distinct_example = names_distinct (pos 1) (pos 12)

node_ids_distinct_example :
    (argument "--node.id" (broker_cmds cluster (pos 0))
      ≢ argument "--node.id" (controller_cmds cluster (pos 0)))
    × ((argument "--node.id" (broker_cmds cluster (pos 0))
          ≡ argument "--node.id" (broker_cmds cluster (pos 1)))
        ↔ (pos 0 ≡ pos 1))
unfolding ◌+ℤ◌
node_ids_distinct_example =
    node_ids_distinct cluster (pos 0) (pos 0) (pos 1) (omega arith)
      ((In-range (pos 0) (pos 1) (pos 0)).1 (omega arith))
      ((In-range (pos 0) (pos 2) (pos 0)).1 (omega arith))
      ((In-range (pos 0) (pos 2) (pos 1)).1 (omega arith))

abbrev operator : Reconciler
operator = record { finalizer = "apps.cuisongliu.com/automq.finalizer"; mount_tz = true }

abbrev background : Context
background = record { hash_configmap = none }

abbrev bare : Deployment
bare = new_deployment "kafka" "automq-broker-0" []

mounts_resolve_example :
    MountsResolve (mutate_broker_deploy operator background cluster (pos 0) [] bare)
    × MountsResolve (mutate_controller_deploy operator background cluster (pos 0) [] bare)
mounts_resolve_example = mounts_resolve operator background cluster (pos 0) [] bare

selectors_exact_example :
    let broker = broker_pod_labels operator background cluster (pos 1) [] bare in
    let controller = controller_pod_labels operator background cluster (pos 1) [] bare in
    (Selects (new_broker_service cluster (pos 0)).selector broker ↔ (pos 0 ≡ pos 1))
    × (Selects (new_controller_service cluster (pos 0)).selector controller ↔ (pos 0 ≡ pos 1))
    × (¬ Selects (new_broker_service cluster (pos 0)).selector controller)
    × (¬ Selects (new_controller_service cluster (pos 0)).selector broker)
    × Selects (new_bootstrap_service cluster).selector broker
    × (¬ Selects (new_bootstrap_service cluster).selector controller)
    × ((new_broker_deployment cluster (pos 1)).selector ≡ some broker)
    × ((new_controller_deployment cluster (pos 1)).selector ≡ some controller)
selectors_exact_example = selectors_exact operator background cluster (pos 0) (pos 1) [] bare
