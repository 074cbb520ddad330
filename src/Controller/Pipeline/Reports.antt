-- ===== src/Controller/Pipeline/Reports.antt =====
-- The conditions that a reconciliation writes in a healthy cluster.
use automq_operator.Base.{
  String, Bool, true, Option, none, some, List, [], ◌∷◌, map, ◌≡◌, refl, sym, ap, ◌∙◌, inl, inr, In,
  All, arith,
}
use automq_operator.Kube.Objects.{Err, Result, ok, err}
use automq_operator.Kube.Env.{Env}
use automq_operator.Kube.Laws.{Laws, StatusLaws}
use automq_operator.Api.Types.{AutoMq}
use automq_operator.Storage.{S3Service}
use automq_operator.Defaults.{asset}
use automq_operator.Controller.State.{
  Reconciler, Context, State, Outcome, done, panicked, Method, Returns, Returns-map, Returns-true,
}
use automq_operator.Controller.Healthy.{SameButStatus, IsHealthy, IsHealthy-same}
use automq_operator.Controller.Conditions.{own_types, Reports, Told, Told-then}
use automq_operator.Controller.Brokers.{sync_broker_scale, sync_brokers}
use automq_operator.Controller.Bootstrap.{sync_kafka_bootstrap_service}
use automq_operator.Controller.Brokers.Answers.{sync_brokers-true}
use automq_operator.Controller.Bootstrap.Stored.{sync_kafka_bootstrap_service-Returns}
use automq_operator.Controller.Brokers.Ready.{sync_brokers-Returns}
use automq_operator.Controller.Controllers.{sync_controllers_scale, sync_controllers}
use automq_operator.Controller.Controllers.Answers.{sync_controllers-true}
use automq_operator.Controller.Controllers.Ready.{sync_controllers-Returns}
use automq_operator.Controller.Pipeline.{
  s3_service, make_bucket, after_bucket, script_configmap, script_from, after_script, run_pipelines,
}
use automq_operator.Controller.Pipeline.Steps.{continue_with-true}

abbrev mq_after : {W : Type 0} → AutoMq → Outcome (Bool × State W) → AutoMq
mq_after obj panicked = obj
mq_after obj (done (b, s)) = s.mq

module _ {W : Type 0} (env : Env W) where
  after_bucket-Reports :
      (obj : AutoMq) (e : Option Err) (w : W) (t : State W)
      → after_bucket env obj e w ≡ done (true, t)
      → Reports env "SyncS3ServiceReady" obj t.mq
  unfolding after_bucket
  after_bucket-Reports obj none w t h =
      (_, refl, refl, ap (λ (x : AutoMq). x.status.conditions) (sym (ap (mq_after obj) h)))
  after_bucket-Reports obj (some e) w t h = ground arith

  make_bucket-Reports :
      (obj : AutoMq) (sg : Result S3Service) (w : W) (t : State W)
      → make_bucket env obj sg w ≡ done (true, t)
      → Reports env "SyncS3ServiceReady" obj t.mq
  unfolding make_bucket
  make_bucket-Reports obj (ok sg) w t h = after_bucket-Reports obj _ _ t h
  make_bucket-Reports obj (err e) w t h = ground arith

  pub s3_service-Reports :
      (s t : State W)
      → s3_service env s ≡ done (true, t)
      → Reports env "SyncS3ServiceReady" s.mq t.mq
  unfolding s3_service
  s3_service-Reports s t h = make_bucket-Reports s.mq _ s.world t h

  after_script-Reports :
      (obj : AutoMq) (x : Option Err × W) (t : State W)
      → after_script env obj x ≡ done (true, t)
      → Reports env "SyncConfigmapReady" obj t.mq
  unfolding after_script
  after_script-Reports obj (none, w) t h =
      (_, refl, refl, ap (λ (x : AutoMq). x.status.conditions) (sym (ap (mq_after obj) h)))
  after_script-Reports obj (some e, w) t h = ground arith

  script_from-Reports :
      (obj : AutoMq) (text : Result String) (w : W) (t : State W)
      → script_from env obj text w ≡ done (true, t)
      → Reports env "SyncConfigmapReady" obj t.mq
  unfolding script_from
  script_from-Reports obj (ok text) w t h = after_script-Reports obj _ t h
  script_from-Reports obj (err e) w t h = ground arith

  pub script_configmap-Reports :
      (s t : State W)
      → script_configmap env s ≡ done (true, t)
      → Reports env "SyncConfigmapReady" s.mq t.mq
  unfolding script_configmap
  script_configmap-Reports s t h =
      script_from-Reports s.mq (asset env.up_sh "defaults/up.sh") s.world t h

  -- A method that answers true and reports that it succeeded, on an object that differs from `obj` in its
  -- status alone.
  abbrev pub Reporting : AutoMq → String × Method W → Type 0
  Reporting obj (type, f) =
      (s : State W)
      → SameButStatus s.mq obj
      → Returns (f s)
          (λ x. (x.0 ≡ true) × (SameButStatus x.1.mq s.mq × Reports env type s.mq x.1.mq))

  abbrev pub replica_steps : Reconciler → Context → List (String × Method W)
  replica_steps r ctx =
      ("SyncControllerScale", sync_controllers_scale env)
      ∷ ("SyncControllerReady", sync_controllers env r ctx)
      ∷ ("SyncBrokerScale", sync_broker_scale env)
      ∷ ("SyncBrokerReady", sync_brokers env r ctx)
      ∷ ("SyncBootstrapServiceReady", sync_kafka_bootstrap_service env)
      ∷ []

module _ {W : Type 0} (env : Env W) (laws : Laws env) (status : StatusLaws env) where
  pub replica_steps-Reporting :
      (r : Reconciler) (ctx : Context) (obj : AutoMq)
      → IsHealthy env laws r ctx obj
      → All (λ x. In x.0 own_types × Reporting env obj x) (replica_steps env r ctx)
  unfolding sync_controllers_scale sync_broker_scale
  replica_steps-Reporting r ctx obj health = (
    (inr (inr (inl refl)), λ s same. (refl, ((refl, refl), (_, refl, refl, refl)))),
    (
      (
        inr (inr (inr (inl refl))),
        λ s same.
            let fine = IsHealthy-same env laws r ctx s.mq obj same health in
            Returns-map (sync_controllers env r ctx s) _ _
              (λ x h. (h.0, ((h.1.0.0, h.1.0.1), h.1.1 fine)))
              (Returns-true (sync_controllers env r ctx s) _ (sync_controllers-true env r ctx s)
                (sync_controllers-Returns env laws r ctx s (inl fine))),
      ),
      (
        (inr (inr (inr (inr (inl refl)))), λ s same. (refl, ((refl, refl), (_, refl, refl, refl)))),
        (
          (
            inr (inr (inr (inr (inr (inl refl))))),
            λ s same.
                let fine = IsHealthy-same env laws r ctx s.mq obj same health in
                Returns-map (sync_brokers env r ctx s) _ _
                  (λ x h. (h.0, ((h.1.0.0, h.1.0.1), h.1.1 fine)))
                  (Returns-true (sync_brokers env r ctx s) _ (sync_brokers-true env r ctx s)
                    (sync_brokers-Returns env laws r ctx s)),
          ),
          (
            (
              inr (inr (inr (inr (inr (inr (inl refl)))))),
              λ s same.
                  let fine = IsHealthy-same env laws r ctx s.mq obj same health in
                  Returns-map (sync_kafka_bootstrap_service env s) _ _
                    (λ x h. (h.0, ((h.1.0, h.1.1), h.3 fine.2)))
                    (sync_kafka_bootstrap_service-Returns env laws s),
            ),
            tt,
          ),
        ),
      ),
    ),
  )

  abbrev pub types_after : List (String × Method W) → List String → List String
  types_after [] types = types
  types_after ((type, f) ∷ steps) types = types_after steps (type ∷ types)

  abbrev pub At : AutoMq → List String → State W → Type 0
  At obj types s = SameButStatus s.mq obj × Told env laws status types s.mq

  pub run_pipelines-Told :
      (obj : AutoMq) (steps : List (String × Method W)) (types : List String) (s : State W)
      → All (λ x. In x.0 own_types × Reporting env obj x) steps
      → At obj types s
      → Returns (run_pipelines env (map (λ x. x.1) steps) s) (At obj (types_after steps types))
  unfolding run_pipelines
  run_pipelines-Told obj [] types s h at = at
  run_pipelines-Told obj ((type, f) ∷ steps) types s ((own, h), hs) (named, told) =
      continue_with-true env (f s) _ (At obj (type ∷ types))
        (At obj (types_after steps (type ∷ types)))
        (Returns-map (f s) _ _
          (λ x (answer, (same, set)). (
            answer,
            (
              (same.0 ∙ named.0, same.1 ∙ named.1),
              Told-then env laws status type types s.mq x.1.mq own set told,
            ),
          ))
          (h s named))
        (λ t at. run_pipelines-Told obj steps (type ∷ types) t hs at)
