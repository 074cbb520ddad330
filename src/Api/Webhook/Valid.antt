-- ===== src/Api/Webhook/Valid.antt =====
-- What the validating webhook accepts.
use automq_operator.Base.{
  String, Option, none, some, ◌≡◌, refl, ◌≢◌, ◌↔◌, List, [], ◌∷◌, false, arith, eq_iff, nat_eq,
  length,
}
use automq_operator.Base.Int.{eq_ℤ_iff}
use automq_operator.Kube.Objects.{items}
use automq_operator.Api.Types.{AffinitySpec, AutoMq}
use automq_operator.Api.Webhook.{untyped, validate, validate_update, validate_affinity}

-- A part of the affinity is absent or names its type.
abbrev pub IsTyped {ℓ} : {A : Type ℓ} → (A → String) → Option A → Type 0
IsTyped type none = Unit
IsTyped type (some a) = type a ≢ ""

abbrev pub IsTypedAffinity : Option AffinitySpec → Type 0
IsTypedAffinity none = Unit
IsTypedAffinity (some a) =
    IsTyped (λ p. p.type) a.pod_anti_affinity
    × IsTyped (λ p. p.type) a.pod_affinity
    × IsTyped (λ p. p.type) a.node_affinity

-- The required fields are there.
pub record IsValid (r : AutoMq) : Type 0 where
  pub endpoint : r.spec.s3.endpoint ≢ ""
  pub region : r.spec.s3.region ≢ ""
  pub bucket : r.spec.s3.bucket ≢ ""
  pub cluster_id : r.spec.cluster_id ≢ ""
  pub image : r.spec.image ≢ ""
  pub controller_jvm : items r.spec.controller.jvm_options ≢ []
  pub broker_jvm : items r.spec.broker.jvm_options ≢ []
  pub affinity : IsTypedAffinity r.spec.controller.affinity

module _ {ℓ} {A : Type ℓ} (type : A → String) where
  untyped_iff : (o : Option A) → (untyped type o ≡ false) ↔ IsTyped type o
  untyped_iff none = (λ _. tt, λ _. refl)
  untyped_iff (some a) = ground (arith, eq_iff (type a) "")

validate_affinity_iff : (a : Option AffinitySpec) → (validate_affinity a ≡ none) ↔ IsTypedAffinity a
unfolding validate_affinity
validate_affinity_iff none = (λ _. tt, λ _. refl)
validate_affinity_iff (some a) = ground (
  arith,
  untyped_iff (λ p. p.type) a.pod_anti_affinity,
  untyped_iff (λ p. p.type) a.pod_affinity,
  untyped_iff (λ p. p.type) a.node_affinity,
)

no_items : (l : List String) → (nat_eq (length l) 0 ≡ false) ↔ (l ≢ [])
no_items [] = ground arith
no_items (x ∷ l) = ground arith

-- Validation accepts exactly the objects whose required fields are there.
pub validate_iff : (r : AutoMq) → (validate r ≡ none) ↔ IsValid r
unfolding validate
validate_iff r = ground (
  arith,
  eq_iff r.spec.s3.endpoint "",
  eq_iff r.spec.s3.region "",
  eq_iff r.spec.s3.bucket "",
  eq_iff r.spec.cluster_id "",
  eq_iff r.spec.image "",
  no_items (items r.spec.controller.jvm_options),
  no_items (items r.spec.broker.jvm_options),
  validate_affinity_iff r.spec.controller.affinity,
)

-- The fields that an update may not change.
pub record SameFixed (r old : AutoMq) : Type 0 where
  pub endpoint : r.spec.s3.endpoint ≡ old.spec.s3.endpoint
  pub region : r.spec.s3.region ≡ old.spec.s3.region
  pub bucket : r.spec.s3.bucket ≡ old.spec.s3.bucket
  pub cluster_id : r.spec.cluster_id ≡ old.spec.cluster_id
  pub replicas : r.spec.controller.replicas ≡ old.spec.controller.replicas

-- An update is accepted exactly if the new object is valid and keeps the immutable fields.
pub validate_update_iff :
    (r old : AutoMq) → (validate_update r old ≡ none) ↔ (SameFixed r old × IsValid r)
unfolding validate_update
validate_update_iff r old = ground (
  arith,
  eq_iff r.spec.s3.endpoint old.spec.s3.endpoint,
  eq_iff r.spec.s3.region old.spec.s3.region,
  eq_iff r.spec.s3.bucket old.spec.s3.bucket,
  eq_iff r.spec.cluster_id old.spec.cluster_id,
  eq_ℤ_iff r.spec.controller.replicas old.spec.controller.replicas,
  validate_iff r,
)
