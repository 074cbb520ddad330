-- ===== src/Controller/Ready.antt =====
-- How a custom resource becomes Ready: a reconciliation of a healthy cluster reports its success in the
-- status, and the status update then counts the running pods.
use automq_operator.Base.{ℕ, true, none, some, List, ◌≡◌, refl, sym, ap, ◌∙◌, subst, All}
use automq_operator.Base.Int.{ℤ, pos, wrap32, add32}
use automq_operator.Kube.Objects.{Key, key_of, Pod, Result, ok}
use automq_operator.Kube.Env.{Env}
use automq_operator.Kube.Laws.{Laws, StatusLaws}
use automq_operator.Api.Types.{AutoMq, AutoMqStatus, ready, error}
use automq_operator.Controller.Names.{broker_role, controller_role, get_auto_mq_label_map}
use automq_operator.Controller.State.{Reconciler, Context, State, done}
use automq_operator.Controller.Healthy.{IsHealthy}
use automq_operator.Controller.Conditions.{IsManaged}
use automq_operator.Controller.Pipeline.{s3_service, script_configmap, with_addresses, reconcile}
use automq_operator.Controller.Pipeline.Stored.{sync_status-Holds, reconcile-Holds}
use automq_operator.Controller.Status.{status_reconcile, with_phase}
use automq_operator.Controller.Status.Phase.{
  Counted, Counted-same, status_reconcile-counts, status_reconcile-failed,
}

module _ {W : Type 0} (env : Env W) (laws : Laws env) (status : StatusLaws env) where
  -- The custom resource that the server holds is Ready, with this number of pods.
  abbrev HoldsReady : Key → ℤ → W → Type 0
  HoldsReady key pods w =
      (held : AutoMq) × (status.held key w ≡ some held)
      × (held.status.phase ≡ ready)
      × (held.status.ready_pods ≡ pods)
      × All (λ c. c.status ≡ "True") held.status.conditions

  status_reconcile-ready :
      (key : Key) (o : AutoMq) (w w₁ w₂ w₃ w₄ : W) (cs bs : List Pod) (c b : ℕ)
      → env.get_auto_mq key w ≡ (ok o, w₁)
      → All (λ c. c.status ≡ "True") o.status.conditions
      → env.list_pods o.metadata.namespace (get_auto_mq_label_map key.name controller_role) w₁
        ≡ (ok cs, w₂)
      → env.list_pods o.metadata.namespace (get_auto_mq_label_map key.name broker_role) w₂
        ≡ (ok bs, w₃)
      → Counted cs c
      → Counted bs b
      → wrap32 (pos c) ≡ o.spec.controller.replicas
      → wrap32 (pos b) ≡ o.spec.broker.replicas
      → status_reconcile env key w ≡ (none, w₄)
      → HoldsReady key (add32 o.spec.controller.replicas o.spec.broker.replicas) w₄
  status_reconcile-ready key o w w₁ w₂ w₃ w₄ cs bs c b got fine listed listed' live live' full full'
        ends =
      let (c', b', written, num, num', (meta, conditions, pods, phase, _), update) =
        status_reconcile-counts env key o w w₁ w₂ w₃ cs bs got fine listed listed' in
      let at_c : wrap32 (pos c') ≡ o.spec.controller.replicas =
        ap (λ (n : ℕ). wrap32 (pos n)) (Counted-same cs c' c num live) ∙ full in
      let at_b : wrap32 (pos b') ≡ o.spec.broker.replicas =
        ap (λ (n : ℕ). wrap32 (pos n)) (Counted-same bs b' b num' live') ∙ full' in
      let (held, at, same) = sync_status-Holds env laws status written w₃ w₄ (sym update ∙ ends) in
      let (_, named) = status.read_done key w o (ap (λ (x : Result AutoMq × W). x.0) got) in
      (
        held,
        subst (λ x. status.held x w₄ ≡ some held) (ap key_of meta ∙ named) at,
        ap (λ (x : AutoMqStatus). x.phase) same ∙ phase.1 (at_c, at_b),
        ap (λ (x : AutoMqStatus). x.ready_pods) same ∙ rw (pods, at_c, at_b) refl,
        rw (same, conditions) fine,
      )

  -- If the server has the custom resource with a condition that is not true, and the status update ends
  -- without an error, then the server holds it with the phase Error, and all else of its status is as it
  -- was fetched: the conditions, and the number of ready pods of an earlier update.
  pub status_reconcile-reports_error :
      (key : Key) (o : AutoMq) (w w₁ w₂ : W)
      → env.get_auto_mq key w ≡ (ok o, w₁)
      → ¬ All (λ c. c.status ≡ "True") o.status.conditions
      → status_reconcile env key w ≡ (none, w₂)
      → (held : AutoMq) × (status.held key w₂ ≡ some held)
        × (held.status ≡ record o.status { phase = error })
  status_reconcile-reports_error key o w w₁ w₂ got bad ends =
      let (held, at, same) =
        sync_status-Holds env laws status (with_phase env error o) w₁ w₂
          (sym (status_reconcile-failed env key o w w₁ got bad) ∙ ends) in
      let (_, named) = status.read_done key w o (ap (λ (x : Result AutoMq × W). x.0) got) in
      (held, subst (λ x. status.held x w₂ ≡ some held) named at, same)

  -- If the server takes the requests for the replicas and for the bootstrap service of a custom resource,
  -- reads of its brokers' services are up to date, its bucket and its script are made, it has no
  -- conditions but the operator's own, its reconciliation and the status update after it end without an
  -- error, and as many pods of both roles are up as the fetched object specifies, then the server holds
  -- it with the phase Ready, the sum of the specified replicas as its number of ready pods, and only true
  -- conditions.
  pub reconcile-ready :
      (r : Reconciler) (ctx : Context) (obj : AutoMq) (w w' w₁ w₂ w₃ w₄ : W) (t u : State W)
      (o : AutoMq) (cs bs : List Pod) (c b : ℕ)
      → IsHealthy env laws r ctx obj
      → IsManaged obj
      → s3_service env (record { mq = with_addresses env obj; world = w }) ≡ done (true, t)
      → script_configmap env t ≡ done (true, u)
      → reconcile env r ctx obj w ≡ done (none, w')
      → env.get_auto_mq (key_of obj.metadata) w' ≡ (ok o, w₁)
      → env.list_pods o.metadata.namespace
          (get_auto_mq_label_map obj.metadata.name controller_role)
          w₁
        ≡ (ok cs, w₂)
      → env.list_pods o.metadata.namespace (get_auto_mq_label_map obj.metadata.name broker_role) w₂
        ≡ (ok bs, w₃)
      → Counted cs c
      → Counted bs b
      → wrap32 (pos c) ≡ o.spec.controller.replicas
      → wrap32 (pos b) ≡ o.spec.broker.replicas
      → status_reconcile env (key_of obj.metadata) w' ≡ (none, w₄)
      → HoldsReady
          (key_of obj.metadata)
          (add32 o.spec.controller.replicas o.spec.broker.replicas)
          w₄
  reconcile-ready r ctx obj w w' w₁ w₂ w₃ w₄ t u o cs bs c b health managed bucket script ends got
        listed listed' live live' full full' counts =
      let key = key_of obj.metadata in
      let (s, (kept, at, same), fine) =
        reconcile-Holds env laws status r ctx obj w w' t u health managed bucket script ends in
      let (there, named) = status.read_done key w' o (ap (λ (x : Result AutoMq × W). x.0) got) in
      let is : kept ≡ o = cc (at, there) in
      status_reconcile-ready key o w' w₁ w₂ w₃ w₄ cs bs c b got
        (subst (λ (x : AutoMqStatus). All (λ c. c.status ≡ "True") x.conditions)
          (sym same ∙ ap (λ (x : AutoMq). x.status) is) fine)
        listed listed' live live' full full' counts
