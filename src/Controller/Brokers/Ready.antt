-- ===== src/Controller/Brokers/Ready.antt =====
-- What `syncBrokers` leaves in the cluster.
use automq_operator.Base.{
  Bool, Option, none, some, List, [], ◌∷◌, ◌≡◌, refl, ap, ◌∙◌, ◌≢◌, subst, inl, inr, In,
}
use automq_operator.Base.Int.{ℤ, pos, range}
use automq_operator.Kube.Objects.{
  Kind, Key, service, deployment, persistent_volume_claim, Service, ServicePort, Condition, Result,
  ok, err,
}
use automq_operator.Kube.Env.{Env}
use automq_operator.Kube.Laws.{Laws}
use automq_operator.Kube.Retry.{Round}
use automq_operator.Controller.Conditions.{Reports}
use automq_operator.Controller.Healthy.{IsHealthy}
use automq_operator.Controller.Rounds.{
  Keeps, IsFailure, AnyErr, failed-not-IsTrue, Writes-Round, Round-from, on_error-Round, Rounds,
  Rounds-failed, Rounds-then,
}
use automq_operator.Api.Types.{AutoMq}
use automq_operator.Controller.Replicas.{names_distinct}
use automq_operator.Controller.State.{
  Reconciler, Context, State, Outcome, done, panicked, Returns, Returns-map, Returns-at, IsTrue,
}
use automq_operator.Controller.Requests.{mutate_service}
use automq_operator.Controller.Brokers.{
  broker_key, sync_broker_pvc, sync_broker_service, deploy_at_port, deploy_for_service,
  sync_broker_deploy, sync_broker_at, next_replica, sync_brokers_from, report_brokers, sync_brokers,
}
use automq_operator.Controller.Brokers.Stored.{
  ClaimStored, ServiceStored, BrokerStored, claim_lem, service_lem, deploy_lem, ClaimStored-kept,
  ServiceStored-kept, BrokerStored-kept,
}

module _ {W : Type 0} (env : Env W) (laws : Laws env) (r : Reconciler) (ctx : Context)
    (obj : AutoMq) where
  abbrev AddressStored : ℤ → W → Type 0
  AddressStored i w = ClaimStored env laws r ctx obj i w × ServiceStored env laws r ctx obj i w

  deploy_at_port-Returns :
      (i : ℤ) (w : W) (svc : Service) (ports : List ServicePort)
      → In i (range (pos 0) obj.spec.broker.replicas)
      → AddressStored i w
      → laws.at service (broker_key obj i) w ≡ some svc
      → svc.ports ≡ ports
      → ports ≢ []
      → Returns (deploy_at_port env r ctx obj i ports w) (
          Round env laws
            (IsHealthy env laws r ctx obj)
            AnyErr
            (broker_key obj i)
            w
            (BrokerStored env laws r ctx obj i))
  unfolding deploy_at_port
  deploy_at_port-Returns i w svc [] m stored at e h = absurd (h refl)
  deploy_at_port-Returns i w svc (p ∷ ps) m (claim, address) at e h =
      let key = broker_key obj i in
      Writes-Round env laws (IsHealthy env laws r ctx obj) key deployment _ w
        (BrokerStored env laws r ctx obj i) _
        (λ w' touched stored.
          let keeps =
            λ (k : Kind) (other : ¬ (deployment ≡ k)). touched k key (λ same. other same.0) in
          (
            ClaimStored-kept env laws r ctx obj i w w' (keeps persistent_volume_claim (λ h. cc h))
                claim,
            ServiceStored-kept env laws r ctx obj i w w' (keeps service (λ h. cc h)) address,
            (svc, p, ps, keeps service (λ h. cc h) ∙ at, e, stored),
          ))
        (deploy_lem env laws r ctx obj i p.node_port w m)

  deploy_for_service-Returns :
      (i : ℤ) (w : W) (got : Result Service × W)
      → In i (range (pos 0) obj.spec.broker.replicas)
      → AddressStored i w
      → ((k : Kind) (key : Key) → laws.at k key got.1 ≡ laws.at k key w)
      → ((svc : Service) → got.0 ≡ ok svc → laws.at service (broker_key obj i) w ≡ some svc)
      → (IsHealthy env laws r ctx obj
          → (svc : Service) → laws.at service (broker_key obj i) w ≡ some svc
          → got.0 ≡ ok svc)
      → Returns (deploy_for_service env r ctx obj i got) (
          Round env laws
            (IsHealthy env laws r ctx obj)
            AnyErr
            (broker_key obj i)
            w
            (BrokerStored env laws r ctx obj i))
  unfolding deploy_for_service mutate_service
  deploy_for_service-Returns i w (err e, w') m (claim, address) same found reads = (
    λ k key apart. same k key,
    λ health. cc (reads health address.1 address.3),
    λ fine. cc fine,
    λ x h. tt,
  )
  deploy_for_service-Returns i w (ok svc, w') m (claim, address) same found reads =
      let (b, held, named, at, holds) = address in
      let held_svc : held ≡ svc = cc (at, found svc refl) in
      let key = broker_key obj i in
      Round-from env laws (IsHealthy env laws r ctx obj) key AnyErr _ w w'
        (BrokerStored env laws r ctx obj i) (λ k key apart. same k key)
        (deploy_at_port-Returns i w' svc svc.ports m
          (
            ClaimStored-kept env laws r ctx obj i w w' (same persistent_volume_claim key) claim,
            ServiceStored-kept env laws r ctx obj i w w' (same service key) address,
          )
          (same service key ∙ found svc refl) refl
          (subst (λ (x : Service). x.ports ≢ []) held_svc
            (laws.holds_ports _ held holds (λ e. cc e))))

  sync_broker_deploy-Returns :
      (i : ℤ) (w : W)
      → In i (range (pos 0) obj.spec.broker.replicas)
      → AddressStored i w
      → Returns (sync_broker_deploy env r ctx obj i w) (
          Round env laws
            (IsHealthy env laws r ctx obj)
            AnyErr
            (broker_key obj i)
            w
            (BrokerStored env laws r ctx obj i))
  unfolding sync_broker_deploy
  sync_broker_deploy-Returns i w m stored =
      deploy_for_service-Returns i w (env.get service (broker_key obj i) w) m stored
        (λ k key. laws.get_frame service (broker_key obj i) k key w)
        (λ svc e. laws.get_done service (broker_key obj i) w svc e)
        (λ health svc at. health.3 i svc w at)

  -- A round of the loop does not panic.
  sync_broker_at-Returns :
      (i : ℤ) (w : W)
      → In i (range (pos 0) obj.spec.broker.replicas)
      → Returns (sync_broker_at env r ctx obj i w) (
          Round env laws
            (IsHealthy env laws r ctx obj)
            (IsFailure "SyncBrokerReady")
            (broker_key obj i)
            w
            (BrokerStored env laws r ctx obj i))
  unfolding sync_broker_at
  sync_broker_at-Returns i w m =
      let key = broker_key obj i in
      on_error-Round env laws (IsHealthy env laws r ctx obj) key "SyncBrokerReady"
        (done (sync_broker_pvc env obj i w)) _ _ w (ClaimStored env laws r ctx obj i)
        (BrokerStored env laws r ctx obj i) (λ e. (refl, refl))
        (Writes-Round env laws (IsHealthy env laws r ctx obj) key persistent_volume_claim _ w
          (ClaimStored env laws r ctx obj i) _ (λ w' touched stored. stored)
          (claim_lem env laws r ctx obj i w m))
        (λ w claim.
          on_error-Round env laws (IsHealthy env laws r ctx obj) key "SyncBrokerReady"
            (done (sync_broker_service env obj i w)) _ _ w (AddressStored i)
            (BrokerStored env laws r ctx obj i) (λ e. (refl, refl))
            (Writes-Round env laws (IsHealthy env laws r ctx obj) key service _ w (AddressStored i)
              _
              (λ w' touched stored. (
                ClaimStored-kept env laws r ctx obj i w w'
                    (touched persistent_volume_claim key (λ same. cc (same.0))) claim,
                stored,
              ))
              (service_lem env laws r ctx obj i w m))
            (λ w address.
              on_error-Round env laws (IsHealthy env laws r ctx obj) key "SyncBrokerReady"
                (sync_broker_deploy env r ctx obj i w) _ _ w (BrokerStored env laws r ctx obj i)
                (BrokerStored env laws r ctx obj i) (λ e. (refl, refl))
                (sync_broker_deploy-Returns i w m address)
                (λ w stored. (λ k key apart. refl, λ health. refl, λ fine. stored, λ c h. cc h))))

  abbrev BrokerRounds : List ℤ → W → Option Condition × W → Type 0
  BrokerRounds =
      Rounds env laws (IsHealthy env laws r ctx obj) "SyncBrokerReady" (broker_key obj)
        (BrokerStored env laws r ctx obj)

  broker_key-injective : (i j : ℤ) → broker_key obj i ≡ broker_key obj j → i ≡ j
  broker_key-injective i j e = (names_distinct i j).0.0 (ap (λ k. k.name) e)

  next_replica-Rounds :
      (i : ℤ) (is : List ℤ) (w : W) (o : Outcome (Option Condition × W))
      (next : W → Outcome (Option Condition × W))
      → Returns o (
          Round env laws
            (IsHealthy env laws r ctx obj)
            (IsFailure "SyncBrokerReady")
            (broker_key obj i)
            w
            (BrokerStored env laws r ctx obj i))
      → ((w' : W) → Returns (next w') (BrokerRounds is w'))
      → Returns (next_replica env o next) (BrokerRounds (i ∷ is) w)
  unfolding next_replica
  next_replica-Rounds i is w panicked next h rest = h
  next_replica-Rounds i is w (done (some c, w')) next h rest =
      Rounds-failed env laws (IsHealthy env laws r ctx obj) "SyncBrokerReady" (broker_key obj)
        (BrokerStored env laws r ctx obj) i is w w' c h
  next_replica-Rounds i is w (done (none, w')) next h rest =
      Returns-map (next w') (BrokerRounds is w') (BrokerRounds (i ∷ is) w)
        (λ x later.
          Rounds-then env laws (IsHealthy env laws r ctx obj) "SyncBrokerReady" (broker_key obj)
            (BrokerStored env laws r ctx obj) i is w w' x broker_key-injective
            (BrokerStored-kept env laws r ctx obj) h.0 (h.2 refl) later)
        (rest w')

  -- The loop does not panic.
  sync_brokers_from-Returns :
      (is : List ℤ) (w : W)
      → ((i : ℤ) → In i is → In i (range (pos 0) obj.spec.broker.replicas))
      → Returns (sync_brokers_from env r ctx obj is w) (BrokerRounds is w)
  unfolding sync_brokers_from
  sync_brokers_from-Returns [] w in_range =
      (λ k key apart. refl, λ health. refl, λ fine i m. absurd m, λ c h. cc h)
  sync_brokers_from-Returns (i ∷ is) w in_range =
      next_replica-Rounds i is w (sync_broker_at env r ctx obj i w) _
        (sync_broker_at-Returns i w (in_range i (inl refl)))
        (λ w'. sync_brokers_from-Returns is w' (λ j m. in_range j (inr m)))

  -- What is promised of `syncBrokers`: its condition tells whether the brokers are there.
  abbrev pub BrokersSynced : W → Bool × State W → Type 0
  BrokersSynced w x =
      Keeps env laws (λ key. (i : ℤ) × (key ≡ broker_key obj i)) (record { mq = obj; world = w })
        x.1
      × (IsHealthy env laws r ctx obj → Reports env "SyncBrokerReady" obj x.1.mq)
      × (IsTrue "SyncBrokerReady" x.1.mq
          → (i : ℤ) → In i (range (pos 0) obj.spec.broker.replicas)
          → BrokerStored env laws r ctx obj i x.1.world)

  report_brokers-Returns :
      (w : W) (o : Outcome (Option Condition × W))
      → Returns o (BrokerRounds (range (pos 0) obj.spec.broker.replicas) w)
      → Returns (report_brokers env obj o) (BrokersSynced w)
  unfolding report_brokers
  report_brokers-Returns w panicked h = h
  report_brokers-Returns w (done (some c, w')) h = (
    (refl, refl, λ k key apart. h.0 k key (λ i m e. apart (i, e))),
    λ health. cc (h.1 health),
    λ ready. absurd (failed-not-IsTrue env laws "SyncBrokerReady" c obj (h.3 c refl) ready),
  )
  report_brokers-Returns w (done (none, w')) h = (
    (refl, refl, λ k key apart. h.0 k key (λ i m e. apart (i, e))),
    λ health. (_, refl, refl, refl),
    λ ready i m. h.2 refl i m,
  )

module _ {W : Type 0} (env : Env W) (laws : Laws env) (r : Reconciler) (ctx : Context) where
  pub sync_brokers-Returns :
      (s : State W) → Returns (sync_brokers env r ctx s) (BrokersSynced env laws r ctx s.mq s.world)
  unfolding sync_brokers
  sync_brokers-Returns s = report_brokers-Returns env laws r ctx s.mq s.world _ (
      sync_brokers_from-Returns env laws r ctx s.mq (range (pos 0) s.mq.spec.broker.replicas)
        s.world (λ i m. m))

  -- If the condition SyncBrokerReady is true after `syncBrokers`, then the server holds, for each of the
  -- specified brokers, the claim, the service and the deployment that the code asks for, and the
  -- deployment advertises the first port of the service that the server holds.
  pub sync_brokers-stores :
      (s t : State W) (b : Bool) (i : ℤ)
      → sync_brokers env r ctx s ≡ done (b, t)
      → IsTrue "SyncBrokerReady" t.mq
      → In i (range (pos 0) s.mq.spec.broker.replicas)
      → BrokerStored env laws r ctx s.mq i t.world
  sync_brokers-stores s t b i e ready m =
      (Returns-at (sync_brokers env r ctx s) _ (b, t) (sync_brokers-Returns s) e).2 ready i m
