-- ===== src/Controller/Controllers/Ready.antt =====
-- What `syncControllers` leaves in the cluster.
use automq_operator.Base.{
  Bool, true, false, ◌<>◌, Option, none, some, List, [], ◌∷◌, ◌≡◌, refl, ap, ◌⊎◌, inl, inr, In, All,
  All-of_In,
}
use automq_operator.Base.Int.{ℤ, pos, range}
use automq_operator.Kube.Objects.{service, deployment, persistent_volume_claim, Condition}
use automq_operator.Kube.Env.{Env}
use automq_operator.Kube.Laws.{Laws}
use automq_operator.Kube.Retry.{Round}
use automq_operator.Controller.Conditions.{Reports, Reports-IsTrue}
use automq_operator.Controller.Healthy.{IsHealthy}
use automq_operator.Controller.Rounds.{
  Keeps, IsFailure, failed-not-IsTrue, Writes-Round, on_error-Round, Rounds, Rounds-failed,
  Rounds-then,
}
use automq_operator.Api.Types.{AutoMq}
use automq_operator.Controller.Replicas.{names_distinct}
use automq_operator.Controller.State.{
  Reconciler, Context, State, Outcome, done, panicked, Returns, Returns-map, Ends, Ends-at,
  Ends-guard, Returns_of_Ends, set_condition, new_condition, IsTrue,
}
use automq_operator.Controller.Controllers.{
  controller_key, sync_controller_pvc, sync_controller_service, sync_controller_deploy,
  sync_controller_at, next_replica, sync_controllers_from, report_controllers, sync_controllers,
}
use automq_operator.Controller.Controllers.Stored.{
  ClaimStored, DeploymentStored, ControllerStored, claim_lem, service_lem, deploy_lem,
  ClaimStored-kept, DeploymentStored-kept, ControllerStored-kept,
}

module _ {W : Type 0} (env : Env W) (laws : Laws env) (r : Reconciler) (ctx : Context)
    (obj : AutoMq) where
  -- A round of the loop does not panic.
  sync_controller_at-Returns :
      (i : ℤ) (w : W)
      → In i (range (pos 0) obj.spec.controller.replicas)
      → Returns (sync_controller_at env r ctx obj i w) (
          Round env laws
            (IsHealthy env laws r ctx obj)
            (IsFailure "SyncControllerReady")
            (controller_key obj i)
            w
            (ControllerStored env laws r ctx obj i))
  unfolding sync_controller_at
  sync_controller_at-Returns i w m =
      let key = controller_key obj i in
      on_error-Round env laws (IsHealthy env laws r ctx obj) key "SyncControllerReady"
        (done (sync_controller_pvc env obj i w)) _ _ w (ClaimStored env laws r ctx obj i)
        (ControllerStored env laws r ctx obj i) (λ e. (refl, refl))
        (Writes-Round env laws (IsHealthy env laws r ctx obj) key persistent_volume_claim _ w
          (ClaimStored env laws r ctx obj i) _ (λ w' touched stored. stored)
          (claim_lem env laws r ctx obj i w m))
        (λ w claim.
          on_error-Round env laws (IsHealthy env laws r ctx obj) key "SyncControllerReady"
            (done (sync_controller_deploy env r ctx obj i w)) _ _ w
            (λ w'. ClaimStored env laws r ctx obj i w' × DeploymentStored env laws r ctx obj i w')
            (ControllerStored env laws r ctx obj i) (λ e. (refl, refl))
            (Writes-Round env laws (IsHealthy env laws r ctx obj) key deployment _ w
              (λ w'. ClaimStored env laws r ctx obj i w' × DeploymentStored env laws r ctx obj i w')
              _
              (λ w' touched stored. (
                ClaimStored-kept env laws r ctx obj i w w'
                    (touched persistent_volume_claim key (λ same. cc (same.0))) claim,
                stored,
              ))
              (deploy_lem env laws r ctx obj i w m))
            (λ w (claim, deployed).
              on_error-Round env laws (IsHealthy env laws r ctx obj) key "SyncControllerReady"
                (done (sync_controller_service env obj i w)) _ _ w
                (ControllerStored env laws r ctx obj i) (ControllerStored env laws r ctx obj i)
                (λ e. (refl, refl))
                (Writes-Round env laws (IsHealthy env laws r ctx obj) key service _ w
                  (ControllerStored env laws r ctx obj i) _
                  (λ w' touched stored. (
                    ClaimStored-kept env laws r ctx obj i w w'
                        (touched persistent_volume_claim key (λ same. cc (same.0))) claim,
                    stored,
                    DeploymentStored-kept env laws r ctx obj i w w'
                        (touched deployment key (λ same. cc (same.0))) deployed,
                  ))
                  (service_lem env laws r ctx obj i w m))
                (λ w stored. (λ k key apart. refl, λ health. refl, λ fine. stored, λ c h. cc h))))

  abbrev ControllerRounds : List ℤ → W → Option Condition × W → Type 0
  ControllerRounds =
      Rounds env laws (IsHealthy env laws r ctx obj) "SyncControllerReady" (controller_key obj)
        (ControllerStored env laws r ctx obj)

  controller_key-injective : (i j : ℤ) → controller_key obj i ≡ controller_key obj j → i ≡ j
  controller_key-injective i j e = (names_distinct i j).1.0 (ap (λ k. k.name) e)

  next_replica-Rounds :
      (i : ℤ) (is : List ℤ) (w : W) (o : Outcome (Option Condition × W))
      (next : W → Outcome (Option Condition × W))
      → Returns o (
          Round env laws
            (IsHealthy env laws r ctx obj)
            (IsFailure "SyncControllerReady")
            (controller_key obj i)
            w
            (ControllerStored env laws r ctx obj i))
      → ((w' : W) → Returns (next w') (ControllerRounds is w'))
      → Returns (next_replica env o next) (ControllerRounds (i ∷ is) w)
  unfolding next_replica
  next_replica-Rounds i is w panicked next h rest = h
  next_replica-Rounds i is w (done (some c, w')) next h rest =
      Rounds-failed env laws (IsHealthy env laws r ctx obj) "SyncControllerReady"
        (controller_key obj) (ControllerStored env laws r ctx obj) i is w w' c h
  next_replica-Rounds i is w (done (none, w')) next h rest =
      Returns-map (next w') (ControllerRounds is w') (ControllerRounds (i ∷ is) w)
        (λ x later.
          Rounds-then env laws (IsHealthy env laws r ctx obj) "SyncControllerReady"
            (controller_key obj) (ControllerStored env laws r ctx obj) i is w w' x
            controller_key-injective (ControllerStored-kept env laws r ctx obj) h.0 (h.2 refl)
            later)
        (rest w')

  -- The loop does not panic.
  sync_controllers_from-Returns :
      (is : List ℤ) (w : W)
      → ((i : ℤ) → In i is → In i (range (pos 0) obj.spec.controller.replicas))
      → Returns (sync_controllers_from env r ctx obj is w) (ControllerRounds is w)
  unfolding sync_controllers_from
  sync_controllers_from-Returns [] w in_range =
      (λ k key apart. refl, λ health. refl, λ fine i m. absurd m, λ c h. cc h)
  sync_controllers_from-Returns (i ∷ is) w in_range =
      next_replica-Rounds i is w (sync_controller_at env r ctx obj i w) _
        (sync_controller_at-Returns i w (in_range i (inl refl)))
        (λ w'. sync_controllers_from-Returns is w' (λ j m. in_range j (inr m)))

  -- What is promised of `syncControllers`: its condition tells whether the controllers are there.
  abbrev pub ControllersSynced : W → Bool × State W → Type 0
  ControllersSynced w x =
      Keeps env laws (λ key. (i : ℤ) × (key ≡ controller_key obj i))
        (record { mq = obj; world = w }) x.1
      × (IsHealthy env laws r ctx obj → Reports env "SyncControllerReady" obj x.1.mq)
      × (IsTrue "SyncControllerReady" x.1.mq
          → (i : ℤ) → In i (range (pos 0) obj.spec.controller.replicas)
          → ControllerStored env laws r ctx obj i x.1.world)

  -- Nothing makes the log of a failure panic.
  abbrev pub IsQuiet : Type 0
  IsQuiet = IsHealthy env laws r ctx obj ⊎ (env.odd_log_panics ≡ false)

  report_failure-Ends :
      (X : Type 0) (w w' : W) (c : Condition)
      → IsQuiet ⊎ X
      → ControllerRounds (range (pos 0) obj.spec.controller.replicas) w (some c, w')
      → Ends X (report_controllers env obj (done (some c, w'))) (ControllersSynced w)
  unfolding report_controllers
  report_failure-Ends X w w' c safe h =
      let synced : ControllersSynced w (true, record { mq = set_condition env c obj; world = w' }) =
        (
          (refl, refl, λ k key apart. h.0 k key (λ i m e. apart (i, e))),
          λ health. cc (h.1 health),
          λ ready.
              absurd (failed-not-IsTrue env laws "SyncControllerReady" c obj (h.3 c refl) ready),
        ) in
      Ends-guard X env.odd_log_panics _ (ControllersSynced w)
        (λ loud. elim safe [
          | inl (inl health) ↦ cc (h.1 health)
          | inl (inr quiet) ↦ cc (loud, quiet)
          | inr x ↦ x
        ])
        synced

  report_controllers-Ends :
      (X : Type 0) (w : W) (o : Outcome (Option Condition × W))
      → IsQuiet ⊎ X
      → Returns o (ControllerRounds (range (pos 0) obj.spec.controller.replicas) w)
      → Ends X (report_controllers env obj o) (ControllersSynced w)
  unfolding report_controllers
  report_controllers-Ends X w panicked safe h = absurd h
  report_controllers-Ends X w (done (some c, w')) safe h = report_failure-Ends X w w' c safe h
  report_controllers-Ends X w (done (none, w')) safe h = (
    (refl, refl, λ k key apart. h.0 k key (λ i m e. apart (i, e))),
    λ health. (_, refl, refl, refl),
    λ ready i m. h.2 refl i m,
  )

module _ {W : Type 0} (env : Env W) (laws : Laws env) (r : Reconciler) (ctx : Context) where
  -- The method panics only where its log of a failure does.
  pub sync_controllers-Ends :
      (X : Type 0) (s : State W)
      → IsQuiet env laws r ctx s.mq ⊎ X
      → Ends X (sync_controllers env r ctx s) (ControllersSynced env laws r ctx s.mq s.world)
  unfolding sync_controllers
  sync_controllers-Ends X s safe = report_controllers-Ends env laws r ctx s.mq X s.world _ safe (
      sync_controllers_from-Returns env laws r ctx s.mq
        (range (pos 0) s.mq.spec.controller.replicas) s.world (λ i m. m))

  pub sync_controllers-Returns :
      (s : State W)
      → IsQuiet env laws r ctx s.mq
      → Returns (sync_controllers env r ctx s) (ControllersSynced env laws r ctx s.mq s.world)
  sync_controllers-Returns s quiet =
      Returns_of_Ends (sync_controllers env r ctx s) _ (sync_controllers-Ends ⊥ s (inl quiet))

  -- If the condition SyncControllerReady is true after `syncControllers`, then the server holds, for each of the
  -- specified controllers, the claim, the service and the deployment that the code asks for.
  pub sync_controllers-stores :
      (s t : State W) (b : Bool) (i : ℤ)
      → sync_controllers env r ctx s ≡ done (b, t)
      → IsTrue "SyncControllerReady" t.mq
      → In i (range (pos 0) s.mq.spec.controller.replicas)
      → ControllerStored env laws r ctx s.mq i t.world
  sync_controllers-stores s t b i e ready m =
      (Ends-at Unit (sync_controllers env r ctx s) _ (b, t) (sync_controllers-Ends Unit s (inr tt))
          e).2
        ready i m

  abbrev report_done : AutoMq → W → State W
  report_done mq w = record {
    mq =
        set_condition env
          (new_condition mq "SyncControllerReady" "True" "ControllerReconciling" (
            "Controller resource for the custom resource (" <> mq.metadata.name
            <> ") has been created or update"))
          mq;
    world = w;
  }

  report_loud :
      (mq : AutoMq) (w : W) (o : Outcome (Option Condition × W))
      → env.odd_log_panics ≡ true
      → Returns o (ControllerRounds env laws r ctx mq (range (pos 0) mq.spec.controller.replicas) w)
      → (report_controllers env mq o ≡ panicked)
        ⊎ ((t : State W) × (report_controllers env mq o ≡ done (true, t))
            × IsTrue "SyncControllerReady" t.mq)
  unfolding report_controllers
  report_loud mq w panicked loud h = absurd h
  report_loud mq w (done (some c, w')) loud h = inl (rw loud)
  report_loud mq w (done (none, w')) loud h =
      let reported = report_done mq w' in
      inr (
        reported,
        refl,
        Reports-IsTrue env laws "SyncControllerReady" mq reported.mq (_, refl, refl, refl),
      )

  sync_controllers-loud :
      (s : State W)
      → env.odd_log_panics ≡ true
      → (sync_controllers env r ctx s ≡ panicked)
        ⊎ ((t : State W) × (sync_controllers env r ctx s ≡ done (true, t))
            × IsTrue "SyncControllerReady" t.mq)
  unfolding sync_controllers
  sync_controllers-loud s loud = report_loud s.mq s.world _ loud (
      sync_controllers_from-Returns env laws r ctx s.mq
        (range (pos 0) s.mq.spec.controller.replicas) s.world (λ i m. m))

  -- If the logger panics at a key without a value, as it does under the options that main sets by
  -- default, `syncControllers` never reports a failure: either it panics, or it answers true with the
  -- condition SyncControllerReady true, and then the server holds the claim, the service and the
  -- deployment of every specified controller.
  pub sync_controllers-panics_or_ready :
      (s : State W)
      → env.odd_log_panics ≡ true
      → (sync_controllers env r ctx s ≡ panicked)
        ⊎ ((t : State W) × (sync_controllers env r ctx s ≡ done (true, t))
            × IsTrue "SyncControllerReady" t.mq
            × All
                (λ i. ControllerStored env laws r ctx s.mq i t.world)
                (range (pos 0) s.mq.spec.controller.replicas))
  sync_controllers-panics_or_ready s loud = elim (sync_controllers-loud s loud) [
    | inl p ↦ inl p
    | inr (t, e, ready) ↦ inr (
      t,
      e,
      ready,
      All-of_In _ (range (pos 0) s.mq.spec.controller.replicas)
          (λ i m. sync_controllers-stores s t true i e ready m),
    )
  ]
