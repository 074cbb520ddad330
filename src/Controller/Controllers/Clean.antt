-- ===== src/Controller/Controllers/Clean.antt =====
-- Which objects the clean-up and the scale-down of the controllers delete.
use automq_operator.Base.{
  ◌⊎◌, subst, none, List, [], ◌∷◌, ◌≡◌, refl, ◌∙◌, sym, ap, inl, inr, In, true, arith, Bool-cases,
}
use automq_operator.Base.Int.{ℤ, pos, range, In-range, ◌≤ℤ◌, ◌<ℤ◌, ltb_ℤ}
use automq_operator.Kube.Objects.{Key, Kind, service, deployment, persistent_volume_claim}
use automq_operator.Kube.Env.{Env}
use automq_operator.Kube.Laws.{Laws, IsReliable, IsCleaned}
use automq_operator.Api.Types.{AutoMq}
use automq_operator.Controller.State.{State, done, Returns}
use automq_operator.Controller.Rounds.{Keeps}
use automq_operator.Controller.Deletes.{
  Ref, discard_all, discard_all-other, discard_all-gone, Ref-cases,
}
use automq_operator.Controller.Controllers.{
  controller_key, clean_controller, clean_controllers_from, sync_controllers_scale,
  scale_controllers_from,
}

-- The deletions for the replicas with the given indices, in the order of the loops.
clean_refs : AutoMq → List ℤ → List Ref
clean_refs obj [] = []
clean_refs obj (i ∷ is) =
    (service, controller_key obj i)
    ∷ (deployment, controller_key obj i)
    ∷ (persistent_volume_claim, controller_key obj i)
    ∷ clean_refs obj is

unfoldable pub controller_refs : AutoMq → List Ref
unfolding clean_refs
controller_refs obj = clean_refs obj (range (pos 0) obj.status.controller_replicas)

scale_refs : AutoMq → List ℤ → List Ref
scale_refs obj [] = []
scale_refs obj (i ∷ is) =
    (deployment, controller_key obj i)
    ∷ (service, controller_key obj i)
    ∷ (persistent_volume_claim, controller_key obj i)
    ∷ scale_refs obj is

module _ {W : Type 0} (env : Env W) where
  clean_controllers_from-discards :
      (obj : AutoMq) (is : List ℤ) (w : W)
      → clean_controllers_from env obj is w ≡ discard_all env (clean_refs obj is) w
  unfolding clean_controllers_from clean_refs discard_all
  clean_controllers_from-discards obj [] w = refl
  clean_controllers_from-discards obj (i ∷ is) w = clean_controllers_from-discards obj is _

  -- The clean-up of the controllers is the run of its deletions, and answers nil.
  pub clean_controller-discards :
      (obj : AutoMq) (w : W)
      → clean_controller env obj w ≡ (none, discard_all env (controller_refs obj) w)
  unfolding clean_controller controller_refs discard_all
  clean_controller-discards obj w =
      let is = range (pos 0) obj.status.controller_replicas in
      rw (clean_controllers_from-discards obj is w)

  scale_controllers_from-discards :
      (obj : AutoMq) (is : List ℤ) (w : W)
      → scale_controllers_from env obj is w ≡ discard_all env (scale_refs obj is) w
  unfolding scale_controllers_from scale_refs discard_all
  scale_controllers_from-discards obj [] w = refl
  scale_controllers_from-discards obj (i ∷ is) w = scale_controllers_from-discards obj is _

-- The loop's request for the object of a kind at an index is in the list.
In-clean_refs :
    (obj : AutoMq) (is : List ℤ) (i : ℤ) (k : Kind)
    → In i is
    → IsCleaned k
    → In (k, controller_key obj i) (clean_refs obj is)
unfolding clean_refs
In-clean_refs obj [] i k m c = elim m [ ]
In-clean_refs obj (j ∷ is) i k (inl e) (inl c) = inl (cc)
In-clean_refs obj (j ∷ is) i k (inl e) (inr (inl c)) = inr (inl (cc))
In-clean_refs obj (j ∷ is) i k (inl e) (inr (inr c)) = inr (inr (inl (cc)))
In-clean_refs obj (j ∷ is) i k (inr m) c = inr (inr (inr (In-clean_refs obj is i k m c)))

-- Every request of the loop names a replica's object.
of_In-clean_refs :
    (obj : AutoMq) (is : List ℤ) (r : Ref)
    → In r (clean_refs obj is)
    → (i : ℤ) × In i is × (r.1 ≡ controller_key obj i)
unfolding clean_refs
of_In-clean_refs obj [] r m = elim m [ ]
of_In-clean_refs obj (j ∷ is) r (inl e) = (j, inl refl, ap (λ r. r.1) e)
of_In-clean_refs obj (j ∷ is) r (inr (inl e)) = (j, inl refl, ap (λ r. r.1) e)
of_In-clean_refs obj (j ∷ is) r (inr (inr (inl e))) = (j, inl refl, ap (λ r. r.1) e)
of_In-clean_refs obj (j ∷ is) r (inr (inr (inr m))) =
    let (i, n, e) = of_In-clean_refs obj is r m in (i, inr n, e)

In-scale_refs :
    (obj : AutoMq) (is : List ℤ) (i : ℤ) (k : Kind)
    → In i is
    → IsCleaned k
    → In (k, controller_key obj i) (scale_refs obj is)
unfolding scale_refs
In-scale_refs obj [] i k m c = elim m [ ]
In-scale_refs obj (j ∷ is) i k (inl e) (inl c) = inr (inl (cc))
In-scale_refs obj (j ∷ is) i k (inl e) (inr (inl c)) = inl (cc)
In-scale_refs obj (j ∷ is) i k (inl e) (inr (inr c)) = inr (inr (inl (cc)))
In-scale_refs obj (j ∷ is) i k (inr m) c = inr (inr (inr (In-scale_refs obj is i k m c)))

of_In-scale_refs :
    (obj : AutoMq) (is : List ℤ) (r : Ref)
    → In r (scale_refs obj is)
    → (i : ℤ) × In i is × IsCleaned r.0 × (r.1 ≡ controller_key obj i)
unfolding scale_refs
of_In-scale_refs obj [] r m = elim m [ ]
of_In-scale_refs obj (j ∷ is) r (inl e) =
    (j, inl refl, inr (inl (ap (λ r. r.0) e)), ap (λ r. r.1) e)
of_In-scale_refs obj (j ∷ is) r (inr (inl e)) =
    (j, inl refl, inl (ap (λ r. r.0) e), ap (λ r. r.1) e)
of_In-scale_refs obj (j ∷ is) r (inr (inr (inl e))) =
    (j, inl refl, inr (inr (ap (λ r. r.0) e)), ap (λ r. r.1) e)
of_In-scale_refs obj (j ∷ is) r (inr (inr (inr m))) =
    let (i, n, c, e) = of_In-scale_refs obj is r m in (i, inr n, c, e)

-- Every request of the clean-up names a controller's object.
pub of_In-controller_refs :
    (obj : AutoMq) (r : Ref) → In r (controller_refs obj) → (i : ℤ) × (r.1 ≡ controller_key obj i)
unfolding controller_refs
of_In-controller_refs obj r m = let (i, _, e) = of_In-clean_refs obj _ r m in (i, e)

pub In-controller_refs :
    (obj : AutoMq) (i : ℤ) (k : Kind)
    → In i (range (pos 0) obj.status.controller_replicas)
    → IsCleaned k
    → In (k, controller_key obj i) (controller_refs obj)
unfolding controller_refs
In-controller_refs obj i k m c = In-clean_refs obj _ i k m c

-- The object of a controller whose index is at least the specified count and below the one in the status.
abbrev pub IsScaledAway : AutoMq → Kind → Key → Type 0
IsScaledAway obj k key =
    IsCleaned k
    × ((i : ℤ) × (obj.spec.controller.replicas ≤ℤ i)
        × (i <ℤ obj.status.controller_replicas)
        × (key ≡ controller_key obj i))

module _ {W : Type 0} (env : Env W) (laws : Laws env) where
  -- What the scale-down does to the object of a kind under a key, from the world `w` to `w'`.
  abbrev pub ScalesExactly : AutoMq → Kind → Key → W → W → Type 0
  ScalesExactly obj k key w w' =
      (IsScaledAway obj k key × (laws.at k key w' ≡ none))
      ⊎ ((¬ IsScaledAway obj k key) × (laws.at k key w' ≡ laws.at k key w))

  scale_refs-ScalesExactly :
      (obj : AutoMq) (k : Kind) (key : Key) (w : W)
      → IsReliable env
      → ScalesExactly obj k key w (
          discard_all env
            (scale_refs obj (range obj.spec.controller.replicas obj.status.controller_replicas))
            w)
  scale_refs-ScalesExactly obj k key w sure =
      let is = range obj.spec.controller.replicas obj.status.controller_replicas in
      let in_range = In-range obj.spec.controller.replicas obj.status.controller_replicas in
      elim (Ref-cases k key (scale_refs obj is)) [
        | inl m ↦
            let (i, n, c, e) = of_In-scale_refs obj is (k, key) m in
            inl (
              (c, (i, ((in_range i).0 n).0, ((in_range i).0 n).1, e)),
              discard_all-gone env laws sure (scale_refs obj is) (k, key) w m,
            )
        | inr apart ↦ inr (
          λ (c, (i, lo, hi, e)). apart (
              subst (λ x. In (k, x) (scale_refs obj is)) (sym e)
                (In-scale_refs obj is i k ((in_range i).1 (lo, hi)) c)),
          discard_all-other env laws (scale_refs obj is) k key w (λ r m same.
              let is_r : r ≡ (k, key) = λ t. (same.0 t, same.1 t) in
              apart (subst (λ x. In x (scale_refs obj is)) is_r m)),
        )
      ]

  -- With reliable deletions, scaling the controllers down answers true; the services, deployments and
  -- claims of the controllers whose index is at least the specified count and below the one in the status
  -- are gone, and every other object, of whatever kind and name, is as it was.
  pub sync_controllers_scale-exact :
      (s : State W) (k : Kind) (key : Key)
      → IsReliable env
      → (t : State W) × (sync_controllers_scale env s ≡ done (true, t))
        × ScalesExactly s.mq k key s.world t.world
  unfolding sync_controllers_scale
  sync_controllers_scale-exact s k key sure =
      let lo = s.mq.spec.controller.replicas in
      let hi = s.mq.status.controller_replicas in
      (
        _,
        refl,
        elim (Bool-cases (ltb_ℤ lo hi)) [
          | inl more ↦
              rw (more, scale_controllers_from-discards env s.mq (range lo hi) s.world)
                (scale_refs-ScalesExactly s.mq k key s.world sure)
          | inr less ↦ rw less (inr (λ (c, (i, above, below, e)). absurd (ground arith), refl))
        ],
      )

  scale_controllers_from-frame :
      (obj : AutoMq) (is : List ℤ) (k : Kind) (key : Key) (w : W)
      → ¬ ((i : ℤ) × (key ≡ controller_key obj i))
      → laws.at k key (scale_controllers_from env obj is w) ≡ laws.at k key w
  scale_controllers_from-frame obj is k key w apart =
      rw (scale_controllers_from-discards env obj is w) (
        discard_all-other env laws (scale_refs obj is) k key w
          (λ r m same. let (i, _, _, e) = of_In-scale_refs obj is r m in apart (i, sym same.1 ∙ e)))

  -- The scale-down touches only objects under the names of its role.
  pub sync_controllers_scale-Keeps :
      (s : State W)
      → Returns (sync_controllers_scale env s) (λ x.
        (x.0 ≡ true) × Keeps env laws (λ key. (i : ℤ) × (key ≡ controller_key s.mq i)) s x.1)
  unfolding sync_controllers_scale
  sync_controllers_scale-Keeps s = (
    refl,
    (
      refl,
      refl,
      λ k key apart.
          let lo = s.mq.spec.controller.replicas in
          let hi = s.mq.status.controller_replicas in
          elim (Bool-cases (ltb_ℤ lo hi)) [
            | inl more ↦
                rw more (scale_controllers_from-frame s.mq (range lo hi) k key s.world apart)
            | inr less ↦ rw less
          ],
    ),
  )
