-- ===== src/Controller/Pipeline/Converges.antt =====
-- What a reconciliation leaves in a healthy cluster.
use automq_operator.Base.{true, Option, ◌≡◌, sym, ap, ◌∙◌, subst, In, inl, All, All-at, All-of_In}
use automq_operator.Base.Int.{ℤ, pos, range}
use automq_operator.Kube.Objects.{Kind, Key, Err, service}
use automq_operator.Kube.Env.{Env}
use automq_operator.Kube.Laws.{Laws}
use automq_operator.Kube.Retry.{Stores-kept}
use automq_operator.Api.Types.{AutoMq, AutoMqSpec}
use automq_operator.Controller.Replicas.{names_distinct}
use automq_operator.Controller.Healthy.{SameButStatus, IsHealthy, IsHealthy-same}
use automq_operator.Controller.Conditions.{Reports-IsTrue}
use automq_operator.Controller.State.{
  Reconciler, Context, State, done, Returns, Returns-at, Returns-map, Returns-done, Returns-true,
}
use automq_operator.Controller.Brokers.{broker_key, sync_broker_scale, sync_brokers}
use automq_operator.Controller.Bootstrap.{bootstrap_key, sync_kafka_bootstrap_service}
use automq_operator.Controller.Brokers.Answers.{sync_brokers-true}
use automq_operator.Controller.Brokers.Clean.{sync_broker_scale-Keeps}
use automq_operator.Controller.Brokers.Stored.{BrokerStored, BrokerStored-kept}
use automq_operator.Controller.Brokers.Ready.{BrokersSynced, sync_brokers-Returns}
use automq_operator.Controller.Bootstrap.Stored.{
  BootstrapStored, sync_kafka_bootstrap_service-Returns,
}
use automq_operator.Controller.Controllers.{
  controller_key, sync_controllers_scale, sync_controllers,
}
use automq_operator.Controller.Controllers.Answers.{sync_controllers-true}
use automq_operator.Controller.Controllers.Clean.{sync_controllers_scale-Keeps}
use automq_operator.Controller.Controllers.Stored.{ControllerStored, ControllerStored-kept}
use automq_operator.Controller.Controllers.Ready.{ControllersSynced, sync_controllers-Returns}
use automq_operator.Controller.Pipeline.{
  s3_service, script_configmap, pipelines, run_pipelines, with_addresses, reconcile,
}
use automq_operator.Controller.Pipeline.Steps.{
  replicas_on, continue_with-true, run_pipelines-replicas, finish-Returns,
}
use automq_operator.Controller.Pipeline.Same.{
  ControllerStored-same, BrokerStored-same, BootstrapStored-same,
}
use automq_operator.Controller.Pipeline.Total.{s3_service-Tame, script_configmap-Tame}

module _ {W : Type 0} (env : Env W) (laws : Laws env) (r : Reconciler) (ctx : Context)
    (obj : AutoMq) where
  -- The server holds the objects of every specified replica of a role.
  abbrev pub ControllersStored : W → Type 0
  ControllersStored w =
      All (λ i. ControllerStored env laws r ctx obj i w)
        (range (pos 0) obj.spec.controller.replicas)

  abbrev pub BrokersStored : W → Type 0
  BrokersStored w =
      All (λ j. BrokerStored env laws r ctx obj j w) (range (pos 0) obj.spec.broker.replicas)

  ControllersStored-kept :
      (w w' : W)
      → ((k : Kind) (i : ℤ)
          → laws.at k (controller_key obj i) w' ≡ laws.at k (controller_key obj i) w)
      → ControllersStored w
      → ControllersStored w'
  ControllersStored-kept w w' same h =
      All-of_In _ (range (pos 0) obj.spec.controller.replicas) (λ i m.
        ControllerStored-kept env laws r ctx obj i w w' (λ k. same k i)
          (All-at (λ i. ControllerStored env laws r ctx obj i w)
            (range (pos 0) obj.spec.controller.replicas) i h m))

  BrokersStored-kept :
      (w w' : W)
      → ((k : Kind) (j : ℤ) → laws.at k (broker_key obj j) w' ≡ laws.at k (broker_key obj j) w)
      → BrokersStored w
      → BrokersStored w'
  BrokersStored-kept w w' same h = All-of_In _ (range (pos 0) obj.spec.broker.replicas) (λ j m.
      BrokerStored-kept env laws r ctx obj j w w' (λ k. same k j)
        (All-at (λ j. BrokerStored env laws r ctx obj j w) (range (pos 0) obj.spec.broker.replicas)
          j h m))

  -- The rest of the pipeline in a healthy cluster.
  module _ (health : IsHealthy env laws r ctx obj) where
    abbrev At : State W → Type 0
    At s = SameButStatus s.mq obj

    abbrev AtController : State W → Type 0
    AtController s = At s × ControllersStored s.world

    abbrev AtBroker : State W → Type 0
    AtBroker s = AtController s × BrokersStored s.world

    abbrev AtBootstrap : State W → Type 0
    AtBootstrap s = AtBroker s × BootstrapStored env laws obj s.world

    after_controllers_scale :
        (s : State W) → At s → Returns (sync_controllers_scale env s) (λ x. (x.0 ≡ true) × At x.1)
    after_controllers_scale s (em, es) =
        Returns-map (sync_controllers_scale env s) _ _ (λ x h. (h.0, (h.1.0 ∙ em, h.1.1 ∙ es)))
          (sync_controllers_scale-Keeps env laws s)

    after_controllers :
        (s : State W)
        → At s
        → Returns (sync_controllers env r ctx s) (λ x. (x.0 ≡ true) × AtController x.1)
    after_controllers s (em, es) =
        let fine = IsHealthy-same env laws r ctx s.mq obj (em, es) health in
        Returns-map (sync_controllers env r ctx s)
          (λ x. (x.0 ≡ true) × ControllersSynced env laws r ctx s.mq s.world x)
          (λ x. (x.0 ≡ true) × AtController x.1)
          (λ x h.
            let (answer, (kept, ready, stored)) = h in
            (
              answer,
              (
                (kept.0 ∙ em, kept.1 ∙ es),
                All-of_In _ (range (pos 0) obj.spec.controller.replicas) (λ i m.
                    ControllerStored-same env laws r ctx obj s.mq i x.1.world (em, es)
                      (stored
                        (Reports-IsTrue env laws "SyncControllerReady" s.mq x.1.mq (ready fine)) i
                        (subst (λ (n : ℤ). In i (range (pos 0) n))
                          (sym (ap (λ (x : AutoMqSpec). x.controller.replicas) es)) m))),
              ),
            ))
          (Returns-true (sync_controllers env r ctx s) _ (sync_controllers-true env r ctx s)
            (sync_controllers-Returns env laws r ctx s (inl fine)))

    after_broker_scale :
        (s : State W)
        → AtController s
        → Returns (sync_broker_scale env s) (λ x. (x.0 ≡ true) × AtController x.1)
    after_broker_scale s ((em, es), stored) =
        Returns-map (sync_broker_scale env s) _ _
          (λ x h. (
            h.0,
            (
              (h.1.0 ∙ em, h.1.1 ∙ es),
              ControllersStored-kept s.world x.1.world
                  (λ k i.
                    h.1.2 k (controller_key obj i) (λ own.
                      (names_distinct own.0 i).2 (sym (ap (λ (key : Key). key.name) own.1))))
                  stored,
            ),
          ))
          (sync_broker_scale-Keeps env laws s)

    after_brokers :
        (s : State W)
        → AtController s
        → Returns (sync_brokers env r ctx s) (λ x. (x.0 ≡ true) × AtBroker x.1)
    after_brokers s ((em, es), held) =
        let fine = IsHealthy-same env laws r ctx s.mq obj (em, es) health in
        Returns-map (sync_brokers env r ctx s)
          (λ x. (x.0 ≡ true) × BrokersSynced env laws r ctx s.mq s.world x)
          (λ x. (x.0 ≡ true) × AtBroker x.1)
          (λ x h.
            let (answer, (kept, ready, stored)) = h in
            (
              answer,
              (
                (
                  (kept.0 ∙ em, kept.1 ∙ es),
                  ControllersStored-kept s.world x.1.world
                      (λ k i. kept.2 k (controller_key obj i) (λ own.
                        (names_distinct own.0 i).2 (sym (ap (λ (key : Key). key.name) own.1))))
                      held,
                ),
                All-of_In _ (range (pos 0) obj.spec.broker.replicas) (λ j m.
                    BrokerStored-same env laws r ctx obj s.mq j x.1.world (em, es)
                      (stored (Reports-IsTrue env laws "SyncBrokerReady" s.mq x.1.mq (ready fine)) j
                        (subst (λ (n : ℤ). In j (range (pos 0) n))
                          (sym (ap (λ (x : AutoMqSpec). x.broker.replicas) es)) m))),
              ),
            ))
          (Returns-true (sync_brokers env r ctx s) _ (sync_brokers-true env r ctx s)
            (sync_brokers-Returns env laws r ctx s))

    after_bootstrap :
        (s : State W)
        → AtBroker s
        → Returns (sync_kafka_bootstrap_service env s) (λ x. (x.0 ≡ true) × AtBootstrap x.1)
    after_bootstrap s (((em, es), held), held') =
        let fine = IsHealthy-same env laws r ctx s.mq obj (em, es) health in
        Returns-map (sync_kafka_bootstrap_service env s) _ _
          (λ x h. (
            h.0,
            (
              (
                (
                  (h.1.0 ∙ em, h.1.1 ∙ es),
                  ControllersStored-kept s.world x.1.world
                      (λ k i.
                        h.1.2 k (controller_key obj i)
                          (λ own. (names_distinct i i).4 (ap (λ (key : Key). key.name) own)))
                      held,
                ),
                BrokersStored-kept s.world x.1.world
                    (λ k j.
                      h.1.2 k (broker_key obj j)
                        (λ own. (names_distinct j j).3 (ap (λ (key : Key). key.name) own)))
                    held',
              ),
              BootstrapStored-same env laws r ctx obj s.mq x.1.world (em, es) (h.2 fine.2),
            ),
          ))
          (sync_kafka_bootstrap_service-Returns env laws s)

    after_script :
        (s : State W) → At s → Returns (run_pipelines env (replicas_on env r ctx) s) AtBootstrap
    unfolding run_pipelines
    after_script s same =
        continue_with-true env (sync_controllers_scale env s) _ At AtBootstrap
          (after_controllers_scale s same)
          (λ s same.
            continue_with-true env (sync_controllers env r ctx s) _ AtController AtBootstrap
              (after_controllers s same)
              (λ s held.
                continue_with-true env (sync_broker_scale env s) _ AtController AtBootstrap
                  (after_broker_scale s held)
                  (λ s held.
                    continue_with-true env (sync_brokers env r ctx s) _ AtBroker AtBootstrap
                      (after_brokers s held)
                      (λ s held.
                        continue_with-true env (sync_kafka_bootstrap_service env s) _ AtBootstrap
                          AtBootstrap (after_bootstrap s held) (λ s held. held)))))

  -- If the server takes the requests for the replicas and for the bootstrap service, reads of the
  -- brokers' services are up to date, and the bucket and the script are made, a reconciliation returns,
  -- and then the server holds, for every specified controller and every specified broker, its claim,
  -- service and deployment, and it holds the bootstrap service.
  pub reconcile-converges :
      (w : W) (t u : State W)
      → IsHealthy env laws r ctx obj
      → s3_service env (record { mq = with_addresses env obj; world = w }) ≡ done (true, t)
      → script_configmap env t ≡ done (true, u)
      → (e : Option Err) × (w' : W) × (reconcile env r ctx obj w ≡ done (e, w'))
        × ControllersStored w'
        × BrokersStored w'
        × BootstrapStored env laws obj w'
  unfolding reconcile
  reconcile-converges w t u health bucket script =
      let s : State W = record { mq = with_addresses env obj; world = w } in
      let at_t = Returns-at (s3_service env s) _ (true, t) (s3_service-Tame env laws s) bucket in
      let at_u =
        Returns-at (script_configmap env t) _ (true, u) (script_configmap-Tame env laws t) script in
      let (x, same, (v, (((_, held), held'), boot), kept)) =
        Returns-done (reconcile env r ctx obj w) _ (
          finish-Returns env laws (run_pipelines env (pipelines env r ctx) s) (AtBootstrap health) (
            subst (λ o. Returns o (AtBootstrap health))
              (sym (run_pipelines-replicas env r ctx s t u bucket script))
              (after_script health u (at_u.0 ∙ at_t.0, at_u.1 ∙ at_t.1)))) in
      (
        x.0,
        x.1,
        same,
        ControllersStored-kept v.world x.1 (λ k i. kept k (controller_key obj i)) held,
        BrokersStored-kept v.world x.1 (λ k j. kept k (broker_key obj j)) held',
        Stores-kept env laws service (bootstrap_key obj) _ v.world x.1
            (kept service (bootstrap_key obj)) boot,
      )
