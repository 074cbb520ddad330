-- ===== src/Controller/Pipeline/Stored.antt =====
-- The status that a reconciliation of a healthy cluster leaves on the server.
use automq_operator.Base.{
  String, true, Option, none, some, List, [], ◌∷◌, ◌≡◌, refl, sym, ap, ◌∙◌, subst, inl, inr, All,
  All-at,
}
use automq_operator.Kube.Objects.{Key, key_of, Err, Result, ok, err}
use automq_operator.Kube.Env.{Env}
use automq_operator.Kube.Laws.{Laws, StatusLaws}
use automq_operator.Kube.Retry.{retry-last}
use automq_operator.Api.Types.{AutoMq, AutoMqStatus}
use automq_operator.Controller.State.{
  Reconciler, Context, State, done, Returns, Returns-at, Returns-map, Returns-done, IsTrue,
}
use automq_operator.Controller.Healthy.{IsHealthy}
use automq_operator.Controller.Conditions.{
  own_types, IsManaged, Told, Told-then, IsManaged-conditions,
}
use automq_operator.Controller.Pipeline.{
  s3_service, script_configmap, pipelines, run_pipelines, with_replicas, with_addresses,
  update_status, sync_status, finish, reconcile,
}
use automq_operator.Controller.Pipeline.Steps.{run_pipelines-replicas}
use automq_operator.Controller.Pipeline.Reports.{
  s3_service-Reports, script_configmap-Reports, replica_steps, replica_steps-Reporting, types_after,
  At, run_pipelines-Told,
}
use automq_operator.Controller.Pipeline.Total.{s3_service-Tame, script_configmap-Tame}

-- The types of the conditions that are set before the replicas are looked at.
abbrev prepared : List String
prepared = "SyncConfigmapReady" ∷ "SyncS3ServiceReady" ∷ []

module _ {W : Type 0} (env : Env W) (laws : Laws env) (status : StatusLaws env) where
  -- The server holds this status for the custom resource.
  abbrev pub Holds : Key → AutoMqStatus → W → Type 0
  Holds key s w = (o : AutoMq) × (status.held key w ≡ some o) × (o.status ≡ s)

  update_status-Holds :
      (key : Key) (s : AutoMqStatus) (got : Result AutoMq × W) (w' : W)
      → ((o : AutoMq) → got.0 ≡ ok o → key_of o.metadata ≡ key)
      → update_status env s got ≡ (none, w')
      → Holds key s w'
  unfolding update_status
  update_status-Holds key s (err e, w) w' named h = cc (ap (λ (x : Option Err × W). x.0) h)
  update_status-Holds key s (ok o, w) w' named h =
      let (stored, held, same) =
        status.status_done (record o { status = s }) w (ap (λ (x : Option Err × W). x.0) h) in
      (
        stored,
        subst (λ x. status.held x w' ≡ some stored) (named o refl)
            (subst (λ x. status.held (key_of o.metadata) x ≡ some stored)
              (ap (λ (x : Option Err × W). x.1) h) held),
        same,
      )

  -- A status update that succeeds stores the status.
  pub sync_status-Holds :
      (obj : AutoMq) (w w' : W)
      → sync_status env obj w ≡ (none, w')
      → Holds (key_of obj.metadata) obj.status w'
  unfolding sync_status
  sync_status-Holds obj w w' h =
      let key = key_of obj.metadata in
      let (t, _, e) =
        retry-last env laws (λ _. Unit) (λ v. update_status env obj.status (env.get_auto_mq key v))
          w (λ _ _. tt) tt in
      update_status-Holds key obj.status (env.get_auto_mq key t) w'
        (λ o got. (status.read_done key t o got).1) (e ∙ h)

  done_same : {A : Type 0} {a b : A} → done a ≡ done b → a ≡ b
  done_same e = cc e

  Told-conditions :
      (mq : AutoMq)
      → Told env laws status
          ("SyncBootstrapServiceReady" ∷ "SyncBrokerReady" ∷ "SyncBrokerScale"
            ∷ "SyncControllerReady" ∷ "SyncControllerScale" ∷ "SyncConfigmapReady"
            ∷ "SyncS3ServiceReady" ∷ [])
          mq
      → All (λ c. c.status ≡ "True") mq.status.conditions
  Told-conditions mq
        (managed, (boot, (brokers, (scaled, (controllers, (scaled', (script, (bucket, _)))))))) =
      IsManaged-conditions env laws status mq managed (λ type own.
        All-at (λ type. IsTrue type mq) own_types type
          (bucket, (script, (scaled', (controllers, (scaled, (brokers, (boot, tt))))))) own)

  module _ (r : Reconciler) (ctx : Context) (obj : AutoMq) where
    -- All conditions are true at the end of the pipeline.
    run_pipelines-conditions :
        (w : W) (t u : State W)
        → IsHealthy env laws r ctx obj
        → IsManaged obj
        → s3_service env (record { mq = with_addresses env obj; world = w }) ≡ done (true, t)
        → script_configmap env t ≡ done (true, u)
        → Returns
            (run_pipelines env
              (pipelines env r ctx)
              (record { mq = with_addresses env obj; world = w }))
            (λ v.
              (v.mq.metadata ≡ obj.metadata) × All (λ c. c.status ≡ "True") v.mq.status.conditions)
    run_pipelines-conditions w t u health managed bucket script =
        let s : State W = record { mq = with_addresses env obj; world = w } in
        let at_t = Returns-at (s3_service env s) _ (true, t) (s3_service-Tame env laws s) bucket in
        let at_u =
          Returns-at (script_configmap env t) _ (true, u) (script_configmap-Tame env laws t)
            script in
        let made : At env laws status obj ("SyncS3ServiceReady" ∷ []) t = (
          (at_t.0, at_t.1),
          Told-then env laws status "SyncS3ServiceReady" [] s.mq t.mq (inl refl)
              (s3_service-Reports env s t bucket) (managed, tt),
        ) in
        let written : At env laws status obj prepared u = (
          (at_u.0 ∙ at_t.0, at_u.1 ∙ at_t.1),
          Told-then env laws status "SyncConfigmapReady" ("SyncS3ServiceReady" ∷ []) t.mq u.mq
              (inr (inl refl)) (script_configmap-Reports env t u script) made.1,
        ) in
        Returns-map (run_pipelines env (pipelines env r ctx) s) _ _
          (λ v (named, told). (named.0, Told-conditions v.mq told))
          (subst
            (λ o. Returns o (
              At env laws status obj
                (types_after env laws status (replica_steps env r ctx) prepared)))
            (sym (run_pipelines-replicas env r ctx s t u bucket script))
            (run_pipelines-Told env laws status obj (replica_steps env r ctx) prepared u
              (replica_steps-Reporting env laws status r ctx obj health) written))

    -- A reconciliation without an error has stored a status in which every condition is true.
    pub reconcile-Holds :
        (w w' : W) (t u : State W)
        → IsHealthy env laws r ctx obj
        → IsManaged obj
        → s3_service env (record { mq = with_addresses env obj; world = w }) ≡ done (true, t)
        → script_configmap env t ≡ done (true, u)
        → reconcile env r ctx obj w ≡ done (none, w')
        → (s : AutoMqStatus) × Holds (key_of obj.metadata) s w'
          × All (λ c. c.status ≡ "True") s.conditions
    unfolding reconcile finish
    reconcile-Holds w w' t u health managed bucket script ends =
        let (v, ran, (named, fine)) =
          Returns-done
            (run_pipelines env (pipelines env r ctx)
              (record { mq = with_addresses env obj; world = w }))
            _ (run_pipelines-conditions w t u health managed bucket script) in
        let obj' = with_replicas env v.mq in
        let ends' : done (sync_status env obj' v.world) ≡ done (none, w') =
          ap (finish env) (sym ran) ∙ ends in
        (
          obj'.status,
          subst (λ m. Holds (key_of m) obj'.status w') named
              (sync_status-Holds obj' v.world w' (done_same ends')),
          fine,
        )
