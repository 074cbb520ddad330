-- ===== src/Controller/Status/Phase.antt =====
-- The phase and the number of ready pods that the status update writes.
use automq_operator.Base.{
  ℕ, suc, String, true, List, [], ◌∷◌, ◌==◌, ◌≡◌, refl, ◌↔◌, All, arith, eq_iff, Bool-cases, inl,
  inr, sym, ap, ◌∙◌, ◌+◌, ◌&&◌, ◌⊎◌,
}
use mathlib.Core.Bool.{false≢true}
use native.Mathlib.Nat.{zero-add}
use automq_operator.Base.Int.{pos, wrap32, add32, eq_ℤ_iff}
use automq_operator.Kube.Objects.{Key, Dict, Condition, Pod, PodCondition, ok}
use automq_operator.Kube.Env.{Env}
use automq_operator.Api.Types.{AutoMq, error, ready, in_process}
use automq_operator.Controller.Names.{broker_role, controller_role, get_auto_mq_label_map}
use automq_operator.Controller.Pipeline.{sync_status}
use automq_operator.Controller.Status.{
  all_containers_ready, count_running, all_true, get_pod_running_num, with_phase, count_ready,
  status_reconcile,
}

-- A pod that runs, and none of whose conditions of type Ready has another status than True.
abbrev pub IsUp : Pod → Type 0
IsUp p = (p.phase ≡ "Running") × All (λ c. c.type ≡ "Ready" → c.status ≡ "True") p.conditions

all_containers_ready_iff :
    (cs : List PodCondition)
    → (all_containers_ready cs ≡ true) ↔ All (λ c. c.type ≡ "Ready" → c.status ≡ "True") cs
unfolding all_containers_ready
all_containers_ready_iff [] = (λ _. tt, λ _. refl)
all_containers_ready_iff (c ∷ cs) =
    ground (arith, eq_iff c.type "Ready", eq_iff c.status "True", all_containers_ready_iff cs)

-- `Counted pods n`: `n` of the pods are up.
pub data Counted : List Pod → ℕ → Type 0 where
  nil : Counted [] 0
  up : {p : Pod} {ps : List Pod} {n : ℕ} → IsUp p → Counted ps n → Counted (p ∷ ps) (suc n)
  down : {p : Pod} {ps : List Pod} {n : ℕ} → ¬ IsUp p → Counted ps n → Counted (p ∷ ps) n

all_true_iff : (cs : List Condition) → (all_true cs ≡ true) ↔ All (λ c. c.status ≡ "True") cs
unfolding all_true
all_true_iff [] = (λ _. tt, λ _. refl)
all_true_iff (c ∷ cs) = ground (arith, eq_iff c.status "True", all_true_iff cs)

IsUp-iff : (p : Pod) → ((p.phase == "Running" && all_containers_ready p.conditions) ≡ true) ↔ IsUp p
IsUp-iff p = ground (arith, eq_iff p.phase "Running", all_containers_ready_iff p.conditions)

count_running-counts :
    (n : ℕ) (ps : List Pod) → (m : ℕ) × Counted ps m × (count_running n ps ≡ n + m)
unfolding count_running
count_running-counts n [] = (0, nil, omega arith)
count_running-counts n (p ∷ ps) =
    elim (Bool-cases (p.phase == "Running" && all_containers_ready p.conditions)) [
      | inl e ↦
          let (m, counted, sum) = count_running-counts (suc n) ps in
          (suc m, up ((IsUp-iff p).0 e) counted, rw e (omega (arith, sum)))
      | inr e ↦
          let (m, counted, sum) = count_running-counts n ps in
          (m, down (λ h. false≢true (sym e ∙ (IsUp-iff p).1 h)) counted, rw e sum)
    ]

pub Counted-same : (ps : List Pod) (n m : ℕ) → Counted ps n → Counted ps m → n ≡ m
Counted-same _ _ _ nil nil = refl
Counted-same _ _ _ (up h x) (up h' y) = ap suc (Counted-same _ _ _ x y)
Counted-same _ _ _ (up h x) (down h' y) = absurd (h' h)
Counted-same _ _ _ (down h x) (up h' y) = absurd (h h')
Counted-same _ _ _ (down h x) (down h' y) = Counted-same _ _ _ x y

-- What the status update writes once it has counted the running pods: only the phase and the number of
-- ready pods change.
abbrev pub HasPhase : AutoMq → ℕ → ℕ → AutoMq → Type 0
HasPhase obj c b written =
    (written.metadata ≡ obj.metadata)
    × (written.status.conditions ≡ obj.status.conditions)
    × (written.status.ready_pods ≡ add32 (wrap32 (pos c)) (wrap32 (pos b)))
    × ((written.status.phase ≡ ready) ↔ (
        (wrap32 (pos c) ≡ obj.spec.controller.replicas)
        × (wrap32 (pos b) ≡ obj.spec.broker.replicas)))
    × ((written.status.phase ≡ ready) ⊎ (written.status.phase ≡ in_process))

module _ {W : Type 0} (env : Env W) where
  -- The number of running pods is the number of listed pods that are up.
  pub get_pod_running_num-counts :
      (namespace : String) (labels : Dict) (w w' : W) (ps : List Pod)
      → env.list_pods namespace labels w ≡ (ok ps, w')
      → (n : ℕ) × Counted ps n × (get_pod_running_num env namespace labels w ≡ (ok n, w'))
  unfolding get_pod_running_num
  get_pod_running_num-counts namespace labels w w' ps e =
      let (m, counted, sum) = count_running-counts 0 ps in
      (m, counted, rw e (rw (sum ∙ zero-add m)))

  count_ready-HasPhase :
      (obj : AutoMq) (c b : ℕ)
      → HasPhase obj c b (count_ready env (with_phase env in_process obj) c b)
  unfolding count_ready
  count_ready-HasPhase obj c b = (
    refl,
    refl,
    refl,
    ground (
      arith,
      eq_ℤ_iff (wrap32 (pos c)) obj.spec.controller.replicas,
      eq_ℤ_iff (wrap32 (pos b)) obj.spec.broker.replicas,
    ),
    ground arith,
  )

  -- If every condition of the fetched object is true and both listings succeed, the update writes the
  -- sum of the running pods of the two roles, and the phase: Ready exactly if both counts, as `int32`,
  -- are the specified ones, and InProcess otherwise.
  pub status_reconcile-counts :
      (key : Key) (obj : AutoMq) (w w₁ w₂ w₃ : W) (cs bs : List Pod)
      → env.get_auto_mq key w ≡ (ok obj, w₁)
      → All (λ c. c.status ≡ "True") obj.status.conditions
      → env.list_pods obj.metadata.namespace (get_auto_mq_label_map key.name controller_role) w₁
        ≡ (ok cs, w₂)
      → env.list_pods obj.metadata.namespace (get_auto_mq_label_map key.name broker_role) w₂
        ≡ (ok bs, w₃)
      → (c b : ℕ) × (written : AutoMq) × Counted cs c
        × Counted bs b
        × HasPhase obj c b written
        × (status_reconcile env key w ≡ sync_status env written w₃)
  unfolding status_reconcile
  status_reconcile-counts key obj w w₁ w₂ w₃ cs bs got fine listed listed' =
      let (c, counted, num) =
        get_pod_running_num-counts obj.metadata.namespace
          (get_auto_mq_label_map key.name controller_role) w₁ w₂ cs listed in
      let (b, counted', num') =
        get_pod_running_num-counts obj.metadata.namespace
          (get_auto_mq_label_map key.name broker_role) w₂ w₃ bs listed' in
      (
        c,
        b,
        count_ready env (with_phase env in_process obj) c b,
        counted,
        counted',
        count_ready-HasPhase obj c b,
        rw (got, (all_true_iff obj.status.conditions).1 fine, num, num'),
      )

  pub status_reconcile-failed :
      (key : Key) (obj : AutoMq) (w w' : W)
      → env.get_auto_mq key w ≡ (ok obj, w')
      → ¬ All (λ c. c.status ≡ "True") obj.status.conditions
      → status_reconcile env key w ≡ sync_status env (with_phase env error obj) w'
  unfolding status_reconcile
  status_reconcile-failed key obj w w' got bad =
      elim (Bool-cases (all_true obj.status.conditions)) [
        | inl e ↦ absurd (bad ((all_true_iff obj.status.conditions).0 e))
        | inr e ↦ rw (got, e)
      ]
