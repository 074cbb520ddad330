-- ===== src/Examples/Tickers.antt =====
-- A request in the cluster in memory.
use automq_operator.Base.{false, Option, none, [], ◌∷◌, ◌≡◌, refl, sym, subst, inl, In}
use automq_operator.Base.Int.{range}
use automq_operator.Base.Decimal.{show}
use automq_operator.Kube.Objects.{Err, key_of, deployment}
use automq_operator.Kube.Memory.{Memory, memory}
use automq_operator.Kube.Memory.Lawful.{memory_laws}
use automq_operator.Controller.State.{Reconciler, Context, Outcome, panicked, done}
use automq_operator.Controller.Names.{get_auto_mq_name}
use automq_operator.Controller.Brokers.{sync_broker_scale, sync_brokers}
use automq_operator.Controller.Bootstrap.{sync_kafka_bootstrap_service}
use automq_operator.Controller.Controllers.{sync_controllers_scale, sync_controllers}
use automq_operator.Controller.Pipeline.{s3_service, script_configmap, reconcile}
use automq_operator.Controller.Reconcile.{Process, reconcile_request}
use automq_operator.Controller.Reconcile.Tickers.{reconcile_request-tickers}
use automq_operator.Controller.Runs.{Run, request, tick, rest, tick_round, Run-frame}
use automq_operator.Examples.Objects.{cluster, hosting, elsewhere, elsewhere-not-IsNamed}

abbrev operator : Reconciler
operator = record { finalizer = "apps.cuisongliu.com/automq.finalizer"; mount_tz = false }

abbrev background : Context
background = record { hash_configmap = none }

abbrev started : Process Memory
started = record { world = hosting; tickers = [] }

abbrev ended :
    Outcome (Option Err × Process Memory)
    → Option Err × Process Memory
    → Option Err × Process Memory
ended (done x) y = x
ended panicked y = y

abbrev first_request : Option Err × Process Memory
first_request =
    ended (reconcile_request memory operator background (key_of cluster.metadata) started)
      (none, started)

requested :
    reconcile_request memory operator background (key_of cluster.metadata) started
    ≡ done first_request
unfolding reconcile_request reconcile s3_service script_configmap sync_controllers_scale
    sync_controllers range sync_broker_scale sync_brokers get_auto_mq_name show
    sync_kafka_bootstrap_service
requested = refl

reconcile_request-tickers_example : first_request.1.tickers ≡ key_of cluster.metadata ∷ []
reconcile_request-tickers_example =
    reconcile_request-tickers memory operator background (key_of cluster.metadata) started
      first_request.1 cluster hosting first_request.0 refl refl requested

-- A tick of the ticker that the request started.
abbrev after_tick : Process Memory
after_tick = record first_request.1 {
  world = tick_round memory (key_of cluster.metadata) first_request.1.world;
}

started_ticker : In (key_of cluster.metadata) first_request.1.tickers
started_ticker =
    subst (In (key_of cluster.metadata))
      (sym (
        reconcile_request-tickers memory operator background (key_of cluster.metadata) started
          first_request.1 cluster hosting first_request.0 refl refl requested))
      (inl refl)

one_tick : Run memory operator background [] first_request.1 after_tick
one_tick = tick (key_of cluster.metadata) started_ticker refl rest

Run-frame_example :
    after_tick.world.objects deployment elsewhere ≡ hosting.objects deployment elsewhere
Run-frame_example =
    Run-frame memory memory_laws operator background deployment elsewhere
      (request (key_of cluster.metadata) cluster hosting first_request.0 refl requested one_tick)
      (elsewhere-not-IsNamed, tt)
