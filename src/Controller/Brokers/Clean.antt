-- ===== src/Controller/Brokers/Clean.antt =====
-- Which objects the clean-up and the scale-down of the brokers delete.
use automq_operator.Base.{
  none, List, [], ◌∷◌, ◌++◌, ◌≡◌, refl, sym, ◌∙◌, ap, ◌≢◌, inl, inr, In, In-append_left,
  In-append_right, of_In-append, ◌⊎◌, true, Bool-cases,
}
use automq_operator.Base.Int.{ℤ, pos, range, ltb_ℤ}
use automq_operator.Kube.Objects.{
  Key, Kind, service, deployment, stateful_set, persistent_volume_claim,
}
use automq_operator.Kube.Env.{Env}
use automq_operator.Kube.Laws.{Laws, IsCleaned}
use automq_operator.Api.Types.{AutoMq}
use automq_operator.Controller.State.{State, done, Returns}
use automq_operator.Controller.Rounds.{Keeps}
use automq_operator.Controller.Deletes.{Ref, discard_all, discard_all-append, discard_all-other}
use automq_operator.Controller.Brokers.{
  broker_key, clean_broker, clean_brokers_from, sync_broker_scale, scale_brokers_from,
}
use automq_operator.Controller.Bootstrap.{bootstrap_key}

-- The deletions for the replicas with the given indices, in the order of the loops.
clean_refs : AutoMq → List ℤ → List Ref
clean_refs obj [] = []
clean_refs obj (i ∷ is) =
    (service, broker_key obj i)
    ∷ (deployment, broker_key obj i)
    ∷ (persistent_volume_claim, broker_key obj i)
    ∷ clean_refs obj is

abbrev indices : AutoMq → List ℤ
indices obj = range (pos 0) obj.status.broker_replicas

abbrev bootstrap_ref : AutoMq → List Ref
bootstrap_ref obj = (service, bootstrap_key obj) ∷ []

unfoldable pub broker_refs : AutoMq → List Ref
unfolding clean_refs
broker_refs obj = clean_refs obj (indices obj) ++ bootstrap_ref obj

scale_refs : AutoMq → List ℤ → List Ref
scale_refs obj [] = []
scale_refs obj (i ∷ is) =
    (stateful_set, broker_key obj i)
    ∷ (service, broker_key obj i)
    ∷ (persistent_volume_claim, broker_key obj i)
    ∷ scale_refs obj is

module _ {W : Type 0} (env : Env W) where
  clean_brokers_from-discards :
      (obj : AutoMq) (is : List ℤ) (w : W)
      → clean_brokers_from env obj is w ≡ discard_all env (clean_refs obj is) w
  unfolding clean_brokers_from clean_refs discard_all
  clean_brokers_from-discards obj [] w = refl
  clean_brokers_from-discards obj (i ∷ is) w = clean_brokers_from-discards obj is _

  -- The clean-up of the brokers is the run of its deletions, and answers nil.
  pub clean_broker-discards :
      (obj : AutoMq) (w : W) → clean_broker env obj w ≡ (none, discard_all env (broker_refs obj) w)
  unfolding clean_broker broker_refs discard_all
  clean_broker-discards obj w =
      let is = range (pos 0) obj.status.broker_replicas in
      rw (clean_brokers_from-discards obj is w, discard_all-append env (clean_refs obj is))

  scale_brokers_from-discards :
      (obj : AutoMq) (is : List ℤ) (w : W)
      → scale_brokers_from env obj is w ≡ discard_all env (scale_refs obj is) w
  unfolding scale_brokers_from scale_refs discard_all
  scale_brokers_from-discards obj [] w = refl
  scale_brokers_from-discards obj (i ∷ is) w = scale_brokers_from-discards obj is _

scale_refs-kind :
    (obj : AutoMq) (is : List ℤ) (r : Ref) → In r (scale_refs obj is) → r.0 ≢ deployment
unfolding scale_refs
scale_refs-kind obj [] r m e = elim m [ ]
scale_refs-kind obj (i ∷ is) r (inl h) e = cc (ap (λ r. r.0) h)
scale_refs-kind obj (i ∷ is) r (inr (inl h)) e = cc (ap (λ r. r.0) h)
scale_refs-kind obj (i ∷ is) r (inr (inr (inl h))) e = cc (ap (λ r. r.0) h)
scale_refs-kind obj (i ∷ is) r (inr (inr (inr m))) e = scale_refs-kind obj is r m e

-- The loop's request for the object of a kind at an index is in the list.
In-clean_refs :
    (obj : AutoMq) (is : List ℤ) (i : ℤ) (k : Kind)
    → In i is
    → IsCleaned k
    → In (k, broker_key obj i) (clean_refs obj is)
unfolding clean_refs
In-clean_refs obj [] i k m c = elim m [ ]
In-clean_refs obj (j ∷ is) i k (inl e) (inl c) = inl (cc)
In-clean_refs obj (j ∷ is) i k (inl e) (inr (inl c)) = inr (inl (cc))
In-clean_refs obj (j ∷ is) i k (inl e) (inr (inr c)) = inr (inr (inl (cc)))
In-clean_refs obj (j ∷ is) i k (inr m) c = inr (inr (inr (In-clean_refs obj is i k m c)))

-- Every request of the loop names a replica's object.
of_In-clean_refs :
    (obj : AutoMq) (is : List ℤ) (r : Ref)
    → In r (clean_refs obj is)
    → (i : ℤ) × In i is × (r.1 ≡ broker_key obj i)
unfolding clean_refs
of_In-clean_refs obj [] r m = elim m [ ]
of_In-clean_refs obj (j ∷ is) r (inl e) = (j, inl refl, ap (λ r. r.1) e)
of_In-clean_refs obj (j ∷ is) r (inr (inl e)) = (j, inl refl, ap (λ r. r.1) e)
of_In-clean_refs obj (j ∷ is) r (inr (inr (inl e))) = (j, inl refl, ap (λ r. r.1) e)
of_In-clean_refs obj (j ∷ is) r (inr (inr (inr m))) =
    let (i, n, e) = of_In-clean_refs obj is r m in (i, inr n, e)

-- Every request of the clean-up names a broker's object or the bootstrap service.
pub of_In-broker_refs :
    (obj : AutoMq) (r : Ref)
    → In r (broker_refs obj)
    → ((i : ℤ) × (r.1 ≡ broker_key obj i)) ⊎ (r.1 ≡ bootstrap_key obj)
unfolding broker_refs
of_In-broker_refs obj r m =
    elim (of_In-append r (clean_refs obj (indices obj)) (bootstrap_ref obj) m) [
      | inl n ↦ let (i, _, e) = of_In-clean_refs obj (indices obj) r n in inl (i, e)
      | inr (inl e) ↦ inr (ap (λ r. r.1) e)
      | inr (inr n) ↦ absurd n
    ]

pub In-broker_refs :
    (obj : AutoMq) (i : ℤ) (k : Kind)
    → In i (range (pos 0) obj.status.broker_replicas)
    → IsCleaned k
    → In (k, broker_key obj i) (broker_refs obj)
unfolding broker_refs
In-broker_refs obj i k m c =
    In-append_left _ (clean_refs obj (indices obj)) _ (In-clean_refs obj (indices obj) i k m c)

pub bootstrap-In-broker_refs : (obj : AutoMq) → In (service, bootstrap_key obj) (broker_refs obj)
unfolding broker_refs
bootstrap-In-broker_refs obj =
    In-append_right (service, bootstrap_key obj) (clean_refs obj (indices obj)) (bootstrap_ref obj)
      (inl refl)

of_In-scale_refs :
    (obj : AutoMq) (is : List ℤ) (r : Ref)
    → In r (scale_refs obj is)
    → (i : ℤ) × In i is × (r.1 ≡ broker_key obj i)
unfolding scale_refs
of_In-scale_refs obj [] r m = elim m [ ]
of_In-scale_refs obj (j ∷ is) r (inl e) = (j, inl refl, ap (λ r. r.1) e)
of_In-scale_refs obj (j ∷ is) r (inr (inl e)) = (j, inl refl, ap (λ r. r.1) e)
of_In-scale_refs obj (j ∷ is) r (inr (inr (inl e))) = (j, inl refl, ap (λ r. r.1) e)
of_In-scale_refs obj (j ∷ is) r (inr (inr (inr m))) =
    let (i, n, e) = of_In-scale_refs obj is r m in (i, inr n, e)

module _ {W : Type 0} (env : Env W) (laws : Laws env) where
  scale_keeps_deployments :
      (obj : AutoMq) (is : List ℤ) (key : Key) (w : W)
      → laws.at deployment key (scale_brokers_from env obj is w) ≡ laws.at deployment key w
  scale_keeps_deployments obj is key w = rw (scale_brokers_from-discards env obj is w) (
      discard_all-other env laws (scale_refs obj is) deployment key w
        (λ r m same. scale_refs-kind obj is r m same.0))

  -- Scaling the brokers down always answers true, and leaves every deployment of every name as it
  -- is, those of the brokers above the specified count too.
  pub sync_broker_scale-keeps_deployments :
      (s : State W) (key : Key)
      → (t : State W) × (sync_broker_scale env s ≡ done (true, t))
        × (laws.at deployment key t.world ≡ laws.at deployment key s.world)
  unfolding sync_broker_scale
  sync_broker_scale-keeps_deployments s key = (
    _,
    refl,
    elim (Bool-cases (ltb_ℤ s.mq.spec.broker.replicas s.mq.status.broker_replicas)) [
      | inl more ↦ rw more (
          scale_keeps_deployments s.mq (range s.mq.spec.broker.replicas s.mq.status.broker_replicas)
            key s.world)
      | inr less ↦ rw less
    ],
  )

  scale_brokers_from-frame :
      (obj : AutoMq) (is : List ℤ) (k : Kind) (key : Key) (w : W)
      → ¬ ((i : ℤ) × (key ≡ broker_key obj i))
      → laws.at k key (scale_brokers_from env obj is w) ≡ laws.at k key w
  scale_brokers_from-frame obj is k key w apart = rw (scale_brokers_from-discards env obj is w) (
      discard_all-other env laws (scale_refs obj is) k key w
        (λ r m same. let (i, _, e) = of_In-scale_refs obj is r m in apart (i, sym same.1 ∙ e)))

  -- The scale-down touches only objects under the names of its role.
  pub sync_broker_scale-Keeps :
      (s : State W)
      → Returns
          (sync_broker_scale env s)
          (λ x. (x.0 ≡ true) × Keeps env laws (λ key. (i : ℤ) × (key ≡ broker_key s.mq i)) s x.1)
  unfolding sync_broker_scale
  sync_broker_scale-Keeps s = (
    refl,
    (
      refl,
      refl,
      λ k key apart.
          let lo = s.mq.spec.broker.replicas in
          let hi = s.mq.status.broker_replicas in
          elim (Bool-cases (ltb_ℤ lo hi)) [
            | inl more ↦ rw more (scale_brokers_from-frame s.mq (range lo hi) k key s.world apart)
            | inr less ↦ rw less
          ],
    ),
  )
