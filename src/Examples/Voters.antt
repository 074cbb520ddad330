-- ===== src/Examples/Voters.antt =====
-- The voters of a cluster, the node API, and the request for a deleted custom resource.
use automq_operator.Base.{String, some, none, List, [], ◌∷◌, ◌≡◌, ◌≢◌, ◌↔◌, refl, In, ◌<>◌, false}
use automq_operator.Base.Int.{ℤ, pos, range}
use automq_operator.Base.Decimal.{show}
use automq_operator.Kube.Objects.{ServicePort, NodeAddress, ok, key_of}
use automq_operator.Kube.Env.{Env}
use automq_operator.Kube.Memory.{Memory, memory}
use automq_operator.Kube.Memory.Lawful.{memory_laws, memory-IsReliable}
use automq_operator.Api.Types.{AutoMq}
use automq_operator.Controller.Names.{controller_voters}
use automq_operator.Controller.State.{Reconciler, Context, done}
use automq_operator.Controller.Apis.{json_message, text, get_node}
use automq_operator.Controller.Apis.Node.{FirstInternal, get_node_iff}
use automq_operator.Controller.Voters.{
  controller_service, address_in_cluster, controller_voters_iff,
}
use automq_operator.Controller.Reconcile.{Process, reconcile_request}
use automq_operator.Controller.Reconcile.Cleanup.{AllCleared}
use automq_operator.Controller.Reconcile.Deletion.{kept_finalizers, sent, deletion_completes}
use automq_operator.Examples.Objects.{cluster, empty}

controller_voters_iff_example :
    In "0@automq-controller-0.kafka.svc:9093" (controller_voters cluster) ↔ (
      (i : ℤ) × (port : ServicePort) × In i (range (pos 0) cluster.spec.controller.replicas)
      × In port (controller_service memory cluster i).ports
      × ("0@automq-controller-0.kafka.svc:9093"
          ≡ show i <> "@" <> address_in_cluster memory (controller_service memory cluster i) port))
controller_voters_iff_example =
    controller_voters_iff memory cluster "0@automq-controller-0.kafka.svc:9093"

abbrev node : List NodeAddress
node =
    record { type = "Hostname"; address = "worker" }
    ∷ record { type = "InternalIP"; address = "10.0.0.7" }
    ∷ []

abbrev with_node : Env Memory
with_node = record memory { get_node_addresses = λ name m. (ok node, m) }

get_node_iff_example :
    ((get_node with_node "worker" empty ≡ (text 200 "10.0.0.7", empty))
      ↔ (FirstInternal node "10.0.0.7" × (◌≢◌ {A = String} "10.0.0.7" "")))
    × ((get_node with_node "worker" empty ≡ (json_message 500 "node ip not found", empty))
        ↔ ((x : String) → FirstInternal node x → x ≡ ""))
get_node_iff_example = get_node_iff with_node "worker" "10.0.0.7" empty empty node refl

abbrev operator : Reconciler
operator = record { finalizer = "apps.cuisongliu.com/automq.finalizer"; mount_tz = false }

abbrev background : Context
background = record { hash_configmap = none }

abbrev deleted : AutoMq
deleted = record cluster {
  metadata = record cluster.metadata {
    finalizers = "apps.cuisongliu.com/automq.finalizer" ∷ [];
    deletion_timestamp = some 5;
  };
}

abbrev holding : Memory
holding = record empty { mqs = λ key. some deleted }

abbrev process : Process Memory
process = record { world = holding; tickers = [] }

abbrev left : Memory
left = (sent memory operator deleted holding).1.1

deletion_completes_example :
    (reconcile_request memory operator background (key_of deleted.metadata) process
      ≡ done ((sent memory operator deleted holding).0, record { world = left; tickers = [] }))
    × (¬ In operator.finalizer (kept_finalizers memory operator deleted))
    × AllCleared memory memory_laws deleted left
deletion_completes_example =
    deletion_completes memory memory_laws operator background (key_of deleted.metadata) process
      deleted holding 4 memory-IsReliable refl refl
