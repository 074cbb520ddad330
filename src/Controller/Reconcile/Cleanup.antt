-- ===== src/Controller/Reconcile/Cleanup.antt =====
-- What the clean-up of a deleted object deletes, and what it leaves.
use automq_operator.Base.{
  Option, none, some, List, [], ◌∷◌, ◌++◌, ◌≡◌, refl, ◌∙◌, sym, ap, subst, inl, inr, In,
  In-append_left, In-append_right, of_In-append, All, All-at, All-of_In, ◌⊎◌, Bool-cases,
  if◌then◌else◌,
}
use automq_operator.Base.Int.{ℤ, pos, range}
use automq_operator.Kube.Objects.{
  Key, key_of, Kind, config_map, service, deployment, persistent_volume_claim, Err, is_not_found,
}
use automq_operator.Kube.Env.{Env}
use automq_operator.Kube.Laws.{Laws, IsReliable, IsCleaned}
use automq_operator.Api.Types.{AutoMq}
use automq_operator.Controller.Deletes.{
  Ref, Cleared, discard_all, discard_all-append, discard_all-other, discard_all-gone,
}
use automq_operator.Controller.Brokers.{broker_key}
use automq_operator.Controller.Bootstrap.{bootstrap_key}
use automq_operator.Controller.Brokers.Clean.{
  broker_refs, clean_broker-discards, In-broker_refs, bootstrap-In-broker_refs, of_In-broker_refs,
}
use automq_operator.Controller.Controllers.{controller_key}
use automq_operator.Controller.Controllers.Clean.{
  controller_refs, clean_controller-discards, In-controller_refs, of_In-controller_refs,
}
use automq_operator.Controller.Reconcile.{unless_failed, cleanup}
use automq_operator.Controller.Requests.{discard}

-- All the deletions of the clean-up, in their order.
abbrev map_ref : AutoMq → List Ref
map_ref obj = (config_map, key_of obj.metadata) ∷ []

abbrev others : AutoMq → List Ref
others obj = controller_refs obj ++ map_ref obj

all_refs : AutoMq → List Ref
all_refs obj = broker_refs obj ++ others obj

-- The names that the clean-up may delete.
abbrev pub IsNamed : AutoMq → Key → Type 0
IsNamed obj key =
    ((i : ℤ) × (key ≡ broker_key obj i))
    ⊎ (((i : ℤ) × (key ≡ controller_key obj i))
        ⊎ ((key ≡ bootstrap_key obj) ⊎ (key ≡ key_of obj.metadata)))

module _ {W : Type 0} (env : Env W) where
  -- The last deletion's error is returned unless it is NotFound.
  last_answer : Option Err → Option Err
  last_answer none = none
  last_answer (some e) = if is_not_found e then none else some e

  unless_failed-done :
      (answer : Option Err × W)
      → unless_failed answer (λ w. (none, w)) ≡ (last_answer answer.0, answer.1)
  unfolding last_answer
  unless_failed-done (none, w) = refl
  unless_failed-done (some e, w) = elim (Bool-cases (is_not_found e)) [
    | inl h ↦ rw h
    | inr h ↦ rw h
  ]

  -- The world in which the clean-up deletes the configuration map.
  before_last : AutoMq → W → W
  before_last obj w = discard_all env (controller_refs obj) (discard_all env (broker_refs obj) w)

  cleanup_lem :
      (obj : AutoMq) (w : W)
      → cleanup env obj w ≡ (
        last_answer (env.delete config_map (key_of obj.metadata) (before_last obj w)).0,
        (env.delete config_map (key_of obj.metadata) (before_last obj w)).1,
      )
  unfolding cleanup before_last
  cleanup_lem obj w =
      rw
        (
          clean_broker-discards env obj w,
          clean_controller-discards env obj (discard_all env (broker_refs obj) w),
        )
        (unless_failed-done (env.delete config_map (key_of obj.metadata) (before_last obj w)))

  -- Whatever the deletions answer, the clean-up makes them all.
  cleanup-discards :
      (obj : AutoMq) (w : W) → (cleanup env obj w).1 ≡ discard_all env (all_refs obj) w
  unfolding all_refs discard_all discard before_last
  cleanup-discards obj w =
      ap (λ (a : Option Err × W). a.1) (cleanup_lem obj w)
      ∙ sym (
          discard_all-append env (broker_refs obj) _ w
          ∙ discard_all-append env (controller_refs obj) _ (discard_all env (broker_refs obj) w))

of_map_ref : (obj : AutoMq) (r : Ref) → In r (map_ref obj) → IsNamed obj r.1
of_map_ref obj r (inl e) = inr (inr (inr (ap (λ r. r.1) e)))
of_map_ref obj r (inr m) = absurd m

-- Every request of the clean-up names a replica's object, the bootstrap service, or the map.
of_In-all_refs : (obj : AutoMq) (r : Ref) → In r (all_refs obj) → IsNamed obj r.1
unfolding all_refs
of_In-all_refs obj r m = elim (of_In-append r (broker_refs obj) (others obj) m) [
  | inl n ↦ elim (of_In-broker_refs obj r n) [ inl at_i ↦ inl at_i | inr e ↦ inr (inr (inl e)) ]
  | inr n ↦ elim (of_In-append r (controller_refs obj) (map_ref obj) n) [
    | inl k ↦ inr (inl (of_In-controller_refs obj r k))
    | inr k ↦ of_map_ref obj r k
  ]
]

module _ {W : Type 0} (env : Env W) (laws : Laws env) where
  -- Whatever the deletions answer, the clean-up leaves every object alone whose name is not that of
  -- a broker, a controller, the bootstrap service or the custom resource, in its namespace.
  pub cleanup-frame :
      (obj : AutoMq) (w : W) (k : Kind) (key : Key)
      → ¬ IsNamed obj key
      → laws.at k key (cleanup env obj w).1 ≡ laws.at k key w
  cleanup-frame obj w k key h = rw (cleanup-discards env obj w) (
      discard_all-other env laws (all_refs obj) k key w
        (λ r m same. h (subst (IsNamed obj) same.1 (of_In-all_refs obj r m))))

  gone :
      IsReliable env
      → (obj : AutoMq) (w : W) (r : Ref) → In r (all_refs obj)
      → laws.at r.0 r.1 (cleanup env obj w).1 ≡ none
  gone sure obj w r m =
      rw (cleanup-discards env obj w) (discard_all-gone env laws sure (all_refs obj) r w m)

  reliable_answer :
      IsReliable env → (key : Key) (w : W) → last_answer env (env.delete config_map key w).0 ≡ none
  unfolding last_answer
  reliable_answer sure key w = elim (sure config_map key w) [
    | inl fine ↦ rw fine
    | inr (e, failed, missing) ↦ rw (failed, missing)
  ]

  broker_gone :
      IsReliable env
      → (obj : AutoMq) (w : W) (i : ℤ) (k : Kind) → In i (range (pos 0) obj.status.broker_replicas)
      → IsCleaned k
      → laws.at k (broker_key obj i) (cleanup env obj w).1 ≡ none
  unfolding all_refs
  broker_gone sure obj w i k m c =
      gone sure obj w (k, broker_key obj i)
        (In-append_left _ (broker_refs obj) _ (In-broker_refs obj i k m c))

  -- What the clean-up is to leave: no service, deployment or claim of a broker or of a controller that
  -- the status counts, no bootstrap service, and no script map.
  abbrev pub AllCleared : AutoMq → W → Type 0
  AllCleared obj w =
      All (λ i. Cleared env laws (broker_key obj i) w) (range (pos 0) obj.status.broker_replicas)
      × All (λ j. Cleared env laws (controller_key obj j) w)
          (range (pos 0) obj.status.controller_replicas)
      × (laws.at service (bootstrap_key obj) w ≡ none)
      × (laws.at config_map (key_of obj.metadata) w ≡ none)

  -- With reliable deletions the clean-up answers nil, and it leaves no service, deployment or claim of
  -- any broker or controller that the status counts, no bootstrap service, and no script map.
  pub cleanup_complete :
      (obj : AutoMq) (w : W)
      → IsReliable env
      → ((cleanup env obj w).0 ≡ none) × AllCleared obj (cleanup env obj w).1
  unfolding all_refs
  cleanup_complete obj w sure =
      let controller_gone =
        λ (j : ℤ) (k : Kind) (m : In j (range (pos 0) obj.status.controller_replicas))
            (c : IsCleaned k).
          gone sure obj w (k, controller_key obj j)
            (In-append_right _ (broker_refs obj) (others obj)
              (In-append_left _ (controller_refs obj) _ (In-controller_refs obj j k m c))) in
      (
        ap (λ (a : Option Err × W). a.0) (cleanup_lem env obj w)
            ∙ reliable_answer sure (key_of obj.metadata) (before_last env obj w),
        (
          All-of_In _ (range (pos 0) obj.status.broker_replicas) (λ i m. (
            broker_gone sure obj w i service m (inl refl),
            broker_gone sure obj w i deployment m (inr (inl refl)),
            broker_gone sure obj w i persistent_volume_claim m (inr (inr refl)),
          )),
          All-of_In _ (range (pos 0) obj.status.controller_replicas) (λ j m. (
            controller_gone j service m (inl refl),
            controller_gone j deployment m (inr (inl refl)),
            controller_gone j persistent_volume_claim m (inr (inr refl)),
          )),
          gone sure obj w (service, bootstrap_key obj)
              (In-append_left _ (broker_refs obj) _ (bootstrap-In-broker_refs obj)),
          gone sure obj w (config_map, key_of obj.metadata)
              (In-append_right _ (broker_refs obj) (others obj) (
                In-append_right (config_map, key_of obj.metadata) (controller_refs obj)
                  (map_ref obj) (inl refl))),
        ),
      )

  -- A change that spares all objects keeps them away.
  pub AllCleared-kept :
      (obj : AutoMq) (w w' : W)
      → ((k : Kind) (key : Key) → laws.at k key w' ≡ laws.at k key w)
      → AllCleared obj w
      → AllCleared obj w'
  AllCleared-kept obj w w' same (brokers, controllers, bootstrap, script) =
      let kept = λ (key : Key) (h : Cleared env laws key w).
        let x : Cleared env laws key w' = (
          same service key ∙ h.0,
          same deployment key ∙ h.1,
          same persistent_volume_claim key ∙ h.2,
        ) in
        x in
      (
        All-of_In _ (range (pos 0) obj.status.broker_replicas) (λ i m. kept (broker_key obj i) (
            All-at (λ i. Cleared env laws (broker_key obj i) w)
              (range (pos 0) obj.status.broker_replicas) i brokers m)),
        All-of_In _ (range (pos 0) obj.status.controller_replicas) (λ j m.
            kept (controller_key obj j) (
              All-at (λ j. Cleared env laws (controller_key obj j) w)
                (range (pos 0) obj.status.controller_replicas) j controllers m)),
        same service (bootstrap_key obj) ∙ bootstrap,
        same config_map (key_of obj.metadata) ∙ script,
      )

  -- The resource names leave out the custom resource's name: the clean-up of one object deletes the
  -- brokers of another one in its namespace, at every index that its own status counts.
  pub cleanup-deletes_others :
      (a b : AutoMq) (w : W) (i : ℤ) (k : Kind)
      → IsReliable env
      → a.metadata.namespace ≡ b.metadata.namespace
      → In i (range (pos 0) a.status.broker_replicas)
      → IsCleaned k
      → laws.at k (broker_key b i) (cleanup env a w).1 ≡ none
  cleanup-deletes_others a b w i k sure same m c = rw (← same) (broker_gone sure a w i k m c)
