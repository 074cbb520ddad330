-- ===== src/Controller/Bootstrap/Stored.antt =====
-- What `syncKafkaBootstrapService` leaves in the cluster.
use automq_operator.Base.{true, Option, none, some, ◌≡◌, refl, sym}
use automq_operator.Kube.Objects.{service, Err}
use automq_operator.Kube.Env.{Env}
use automq_operator.Kube.Laws.{Laws}
use automq_operator.Kube.Retry.{Stores, retry-Writes}
use automq_operator.Api.Types.{AutoMq}
use automq_operator.Controller.Names.{broker_role, get_auto_mq_label_map}
use automq_operator.Controller.State.{State, Returns}
use automq_operator.Controller.Conditions.{Reports}
use automq_operator.Controller.Rounds.{Keeps}
use automq_operator.Controller.Healthy.{TakesBootstrap}
use automq_operator.Controller.Requests.{mutate_service}
use automq_operator.Controller.Bootstrap.{
  bootstrap_key, bootstrap_ports, report_bootstrap, sync_kafka_bootstrap_service,
}

module _ {W : Type 0} (env : Env W) (laws : Laws env) where
  abbrev pub BootstrapStored : AutoMq → W → Type 0
  BootstrapStored obj = Stores env laws service (bootstrap_key obj) (
      mutate_service (get_auto_mq_label_map obj.metadata.name broker_role) (bootstrap_ports obj)
        "NodePort")

  report_bootstrap-metadata :
      (obj : AutoMq) (e : Option Err)
      → ((report_bootstrap env obj e).metadata ≡ obj.metadata)
        × ((report_bootstrap env obj e).spec ≡ obj.spec)
  unfolding report_bootstrap
  report_bootstrap-metadata obj none = (refl, refl)
  report_bootstrap-metadata obj (some e) = (refl, refl)

  report_bootstrap-Reports :
      (obj : AutoMq) (e : Option Err)
      → e ≡ none
      → Reports env "SyncBootstrapServiceReady" obj (report_bootstrap env obj e)
  unfolding report_bootstrap
  report_bootstrap-Reports obj none h = (_, refl, refl, refl)
  report_bootstrap-Reports obj (some e) h = cc

  -- The method does not panic, and touches only the bootstrap service.
  pub sync_kafka_bootstrap_service-Returns :
      (s : State W)
      → Returns (sync_kafka_bootstrap_service env s) (λ x.
        (x.0 ≡ true)
        × Keeps env laws (λ key. key ≡ bootstrap_key s.mq) s x.1
        × (TakesBootstrap env laws s.mq → BootstrapStored s.mq x.1.world)
        × (TakesBootstrap env laws s.mq → Reports env "SyncBootstrapServiceReady" s.mq x.1.mq))
  unfolding sync_kafka_bootstrap_service mutate_service
  sync_kafka_bootstrap_service-Returns s =
      let (touched, sure, stored) =
        retry-Writes env laws (TakesBootstrap env laws s.mq) service
          (mutate_service (get_auto_mq_label_map s.mq.metadata.name broker_role)
            (bootstrap_ports s.mq) "NodePort")
          _ s.world (λ b. refl) (λ takes. takes) in
      let (same, keeps) = report_bootstrap-metadata s.mq _ in
      (
        refl,
        (same, keeps, λ k key apart. touched k key (λ same. apart (sym same.1))),
        λ health. stored (sure health),
        λ health. report_bootstrap-Reports s.mq _ (sure health),
      )
