-- ===== src/Controller/Pipeline/Total.antt =====
-- A reconciliation returns, unless the log of a controller's failure panics, and touches only objects under the custom resource's names.
use automq_operator.Base.{
  String, Bool, true, false, Option, none, some, List, [], ◌∷◌, ◌≡◌, refl, sym, ap, ◌∙◌, subst, ◌⊎◌,
  inl, inr, All,
}
use automq_operator.Kube.Objects.{Kind, Key, key_of, config_map, Err, Result, ok, err}
use automq_operator.Defaults.{asset}
use automq_operator.Kube.Env.{Env}
use automq_operator.Kube.Laws.{Laws}
use automq_operator.Kube.Retry.{retry-keeps}
use automq_operator.Api.Types.{AutoMq, AutoMqStatus}
use automq_operator.Storage.{S3Service}
use automq_operator.Controller.State.{
  Reconciler, Context, State, Outcome, done, panicked, Method, Returns, Returns-map, Returns-done,
  Ends, Ends_of_Returns, Ends-map, Returns_of_Ends,
}
use automq_operator.Controller.Rounds.{Keeps}
use automq_operator.Controller.Brokers.{sync_broker_scale, sync_brokers}
use automq_operator.Controller.Bootstrap.{sync_kafka_bootstrap_service}
use automq_operator.Controller.Bootstrap.Stored.{sync_kafka_bootstrap_service-Returns}
use automq_operator.Controller.Brokers.Clean.{sync_broker_scale-Keeps}
use automq_operator.Controller.Brokers.Ready.{sync_brokers-Returns}
use automq_operator.Controller.Controllers.{sync_controllers_scale, sync_controllers}
use automq_operator.Controller.Controllers.Clean.{sync_controllers_scale-Keeps}
use automq_operator.Controller.Controllers.Ready.{sync_controllers-Ends}
use automq_operator.Controller.Pipeline.{
  s3_service, make_bucket, after_bucket, script_configmap, script_from, after_script, write_script,
  pipelines, continue_with, run_pipelines, with_replicas, with_addresses, update_status,
  sync_status, finish, reconcile,
}
use automq_operator.Controller.Reconcile.Cleanup.{IsNamed}

pub IsNamed-same :
    (a b : AutoMq) (key : Key)
    → key_of a.metadata ≡ key_of b.metadata
    → IsNamed a key
    → IsNamed b key
IsNamed-same a b key e h =
    subst
      (λ (x : Key).
        IsNamed
          (record b { metadata = record b.metadata { namespace = x.namespace; name = x.name } })
          key)
      e h

module _ {W : Type 0} (env : Env W) (laws : Laws env) where
  -- The objects under other names than the custom resource's stay as they are.
  abbrev pub Spared : AutoMq → W → W → Type 0
  Spared obj w w' = (k : Kind) (key : Key) → ¬ IsNamed obj key → laws.at k key w' ≡ laws.at k key w

  abbrev pub Kept : State W → State W → Type 0
  Kept s = Keeps env laws (IsNamed s.mq) s

  Kept-trans : (s t u : State W) → Kept s t → Kept t u → Kept s u
  Kept-trans s t u h k = (
    k.0 ∙ h.0,
    k.1 ∙ h.1,
    λ kind key apart.
        k.2 kind key (λ named. apart (IsNamed-same t.mq s.mq key (ap key_of h.0) named))
        ∙ h.2 kind key apart,
  )

  -- A method that returns and keeps what is not its own.
  abbrev pub Tame : Method W → Type 0
  Tame f = (s : State W) → Returns (f s) (λ x. Kept s x.1)

  after_bucket-Kept :
      (s : State W) (e : Option Err) (w : W)
      → Spared s.mq s.world w
      → Returns (after_bucket env s.mq e w) (λ x. Kept s x.1)
  unfolding after_bucket
  after_bucket-Kept s none w h = (refl, refl, h)
  after_bucket-Kept s (some e) w h = (refl, refl, h)

  make_bucket-Kept :
      (s : State W) (sg : Result S3Service)
      → Returns (make_bucket env s.mq sg s.world) (λ x. Kept s x.1)
  unfolding make_bucket
  make_bucket-Kept s (err e) = (refl, refl, λ k key apart. refl)
  make_bucket-Kept s (ok sg) =
      after_bucket-Kept s _ _ (λ k key apart. laws.create_bucket_frame sg.client _ k key s.world)

  pub s3_service-Tame : Tame (s3_service env)
  unfolding s3_service
  s3_service-Tame s = make_bucket-Kept s _

  write_script-Spared :
      (obj : AutoMq) (text : String) (v w : W)
      → Spared obj v w
      → Spared obj v (write_script env obj text w).1
  unfolding write_script
  write_script-Spared obj text v w h k key apart =
      laws.create_or_update_frame config_map _ _ k key w
        (λ same. apart (inr (inr (inr (sym same.1)))))
      ∙ h k key apart

  after_script-Kept :
      (s : State W) (x : Option Err × W)
      → Spared s.mq s.world x.1
      → Returns (after_script env s.mq x) (λ y. Kept s y.1)
  unfolding after_script
  after_script-Kept s (none, w) h = (refl, refl, h)
  after_script-Kept s (some e, w) h = (refl, refl, h)

  script_from-Kept :
      (s : State W) (text : Result String)
      → Returns (script_from env s.mq text s.world) (λ x. Kept s x.1)
  unfolding script_from
  script_from-Kept s (err e) = (refl, refl, λ k key apart. refl)
  script_from-Kept s (ok text) = after_script-Kept s _ (
      retry-keeps env laws (Spared s.mq s.world) (write_script env s.mq text) s.world
        (λ w h. write_script-Spared s.mq text s.world w h) (λ k key apart. refl))

  pub script_configmap-Tame : Tame (script_configmap env)
  unfolding script_configmap
  script_configmap-Tame s = script_from-Kept s (asset env.up_sh "defaults/up.sh")

  -- A method that keeps what is not its own, and panics only if `X` holds.
  abbrev Bounded : Type 0 → Method W → Type 0
  Bounded X f = (s : State W) → Ends X (f s) (λ x. Kept s x.1)

  Tame-Bounded : (X : Type 0) (f : Method W) → Tame f → Bounded X f
  Tame-Bounded X f h s = Ends_of_Returns X (f s) _ (h s)

  sync_controllers_scale-Tame : Tame (sync_controllers_scale env)
  sync_controllers_scale-Tame s =
      Returns-map (sync_controllers_scale env s) _ _
        (λ x h. (h.1.0, h.1.1, λ k key apart. h.1.2 k key (λ own. apart (inr (inl own)))))
        (sync_controllers_scale-Keeps env laws s)

  sync_broker_scale-Tame : Tame (sync_broker_scale env)
  sync_broker_scale-Tame s =
      Returns-map (sync_broker_scale env s) _ _
        (λ x h. (h.1.0, h.1.1, λ k key apart. h.1.2 k key (λ own. apart (inl own))))
        (sync_broker_scale-Keeps env laws s)

  sync_controllers-Bounded :
      (X : Type 0) (r : Reconciler) (ctx : Context)
      → (env.odd_log_panics ≡ false) ⊎ X
      → Bounded X (sync_controllers env r ctx)
  sync_controllers-Bounded X r ctx safe s =
      Ends-map X (sync_controllers env r ctx s) _ _
        (λ x h. (h.0.0, h.0.1, λ k key apart. h.0.2 k key (λ own. apart (inr (inl own)))))
        (sync_controllers-Ends env laws r ctx X s
          (elim safe [ inl quiet ↦ inl (inr quiet) | inr x ↦ inr x ]))

  sync_brokers-Tame : (r : Reconciler) (ctx : Context) → Tame (sync_brokers env r ctx)
  sync_brokers-Tame r ctx s =
      Returns-map (sync_brokers env r ctx s) _ _
        (λ x h. (h.0.0, h.0.1, λ k key apart. h.0.2 k key (λ own. apart (inl own))))
        (sync_brokers-Returns env laws r ctx s)

  sync_kafka_bootstrap_service-Tame : Tame (sync_kafka_bootstrap_service env)
  sync_kafka_bootstrap_service-Tame s =
      Returns-map (sync_kafka_bootstrap_service env s) _ _
        (λ x h. (h.1.0, h.1.1, λ k key apart. h.1.2 k key (λ own. apart (inr (inr (inl own))))))
        (sync_kafka_bootstrap_service-Returns env laws s)

  pipelines-Bounded :
      (X : Type 0) (r : Reconciler) (ctx : Context)
      → (env.odd_log_panics ≡ false) ⊎ X
      → All (Bounded X) (pipelines env r ctx)
  pipelines-Bounded X r ctx safe = (
    Tame-Bounded X _ s3_service-Tame,
    (
      Tame-Bounded X _ script_configmap-Tame,
      (
        Tame-Bounded X _ sync_controllers_scale-Tame,
        (
          sync_controllers-Bounded X r ctx safe,
          (
            Tame-Bounded X _ sync_broker_scale-Tame,
            (
              Tame-Bounded X _ (sync_brokers-Tame r ctx),
              (Tame-Bounded X _ sync_kafka_bootstrap_service-Tame, tt),
            ),
          ),
        ),
      ),
    ),
  )

  continue_with-Kept :
      (X : Type 0) (s : State W) (o : Outcome (Bool × State W)) (next : State W → Outcome (State W))
      → Ends X o (λ x. Kept s x.1)
      → ((t : State W) → Ends X (next t) (Kept t))
      → Ends X (continue_with env o next) (Kept s)
  unfolding continue_with
  continue_with-Kept X s panicked next h rest = h
  continue_with-Kept X s (done (false, t)) next h rest = h
  continue_with-Kept X s (done (true, t)) next h rest =
      Ends-map X (next t) (Kept t) (Kept s) (λ u later. Kept-trans s t u h later) (rest t)

  run_pipelines-Kept :
      (X : Type 0) (fs : List (Method W))
      → All (Bounded X) fs
      → (s : State W) → Ends X (run_pipelines env fs s) (Kept s)
  unfolding run_pipelines
  run_pipelines-Kept X [] h s = (refl, refl, λ k key apart. refl)
  run_pipelines-Kept X (f ∷ fs) (h, hs) s =
      continue_with-Kept X s (f s) _ (h s) (λ t. run_pipelines-Kept X fs hs t)

  update_status-frame :
      (status : AutoMqStatus) (got : Result AutoMq × W) (k : Kind) (key : Key)
      → laws.at k key (update_status env status got).1 ≡ laws.at k key got.1
  unfolding update_status
  update_status-frame status (err e, w) k key = refl
  update_status-frame status (ok obj, w) k key = laws.update_auto_mq_status_frame _ k key w

  -- The status update touches none of the objects.
  pub sync_status-frame :
      (obj : AutoMq) (w : W) (k : Kind) (key : Key)
      → laws.at k key (sync_status env obj w).1 ≡ laws.at k key w
  unfolding sync_status
  sync_status-frame obj w k key =
      retry-keeps env laws (λ v. laws.at k key v ≡ laws.at k key w) _ w
        (λ v h.
          update_status-frame obj.status _ k key
          ∙ laws.get_auto_mq_frame (key_of obj.metadata) k key v
          ∙ h)
        refl

  finish-Spared :
      (X : Type 0) (s : State W) (o : Outcome (State W))
      → Ends X o (Kept s)
      → Ends X (finish env o) (λ x. Spared s.mq s.world x.1)
  unfolding finish
  finish-Spared X s panicked h = h
  finish-Spared X s (done t) h =
      λ k key apart. sync_status-frame (with_replicas env t.mq) t.world k key ∙ h.2 k key apart

  -- A reconciliation panics only where the log of a controller's failure does.
  pub reconcile-Ends :
      (X : Type 0) (r : Reconciler) (ctx : Context) (obj : AutoMq) (w : W)
      → (env.odd_log_panics ≡ false) ⊎ X
      → Ends X (reconcile env r ctx obj w) (λ x. Spared obj w x.1)
  unfolding reconcile
  reconcile-Ends X r ctx obj w safe =
      let s : State W = record { mq = with_addresses env obj; world = w } in
      finish-Spared X s _
        (run_pipelines-Kept X (pipelines env r ctx) (pipelines-Bounded X r ctx safe) s)

  -- If the logger does not panic at a key without a value, a reconciliation returns: whatever errors the
  -- calls answer, none of its methods panics.
  pub reconcile_total :
      (r : Reconciler) (ctx : Context) (obj : AutoMq) (w : W)
      → env.odd_log_panics ≡ false
      → (e : Option Err) × (w' : W) × (reconcile env r ctx obj w ≡ done (e, w'))
  reconcile_total r ctx obj w quiet =
      let (x, same, spared) = Returns-done (reconcile env r ctx obj w) _ (
        Returns_of_Ends (reconcile env r ctx obj w) _ (reconcile-Ends ⊥ r ctx obj w (inl quiet))) in
      (x.0, x.1, same)
