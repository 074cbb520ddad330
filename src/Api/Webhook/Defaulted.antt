-- ===== src/Api/Webhook/Defaulted.antt =====
-- What the defaulting webhook does to an object that is then validated.
use automq_operator.Base.{
  String, none, some, ◌≡◌, refl, ap, ◌≢◌, ◌↔◌, List, [], ◌∷◌, false, arith, eq_iff, ◌==◌,
}
use automq_operator.Base.Int.{ℤ, pos, eq_ℤ_iff}
use automq_operator.Kube.Objects.{Slice, items}
use automq_operator.Api.Types.{AutoMq, default_image_name}
use automq_operator.Api.Webhook.{or_default, or_options, or_one, default, validate}
use automq_operator.Api.Webhook.Valid.{IsTypedAffinity, validate_iff}

or_default-ne : (s d : String) → (d == "") ≡ false → or_default s d ≢ ""
or_default-ne s d h = ground (arith, eq_iff s "", eq_iff d "")

or_options-ne :
    (s : Slice String) (o : String) (d : List String)
    → (items (or_options s (o ∷ d)) ≢ []) ↔ (s ≢ some [])
or_options-ne none o d = ground arith
or_options-ne (some l) o d = ground arith

or_one-ne-zero : (r : ℤ) → or_one r ≢ pos 0
or_one-ne-zero r = ground (arith, eq_ℤ_iff r (pos 0))

-- No replica count is 0 after defaulting.
pub default-replicas :
    (r : AutoMq)
    → ((default r).spec.controller.replicas ≢ pos 0) × ((default r).spec.broker.replicas ≢ pos 0)
unfolding default
default-replicas r =
    (or_one-ne-zero r.spec.controller.replicas, or_one-ne-zero r.spec.broker.replicas)

-- Every field that has a default is set; an empty slice of options is set.
pub record IsComplete (r : AutoMq) : Type 0 where
  pub image : r.spec.image ≢ ""
  pub region : r.spec.s3.region ≢ ""
  pub bucket : r.spec.s3.bucket ≢ ""
  pub cluster_id : r.spec.cluster_id ≢ ""
  pub controller_jvm : r.spec.controller.jvm_options ≢ none
  pub controller_replicas : r.spec.controller.replicas ≢ pos 0
  pub broker_jvm : r.spec.broker.jvm_options ≢ none
  pub broker_replicas : r.spec.broker.replicas ≢ pos 0

or_default-eq_iff : (s d : String) → (d == "") ≡ false → (or_default s d ≡ s) ↔ (s ≢ "")
or_default-eq_iff s d h = ground (arith, eq_iff s "", eq_iff d "")

or_options-eq_iff : (s : Slice String) (d : List String) → (or_options s d ≡ s) ↔ (s ≢ none)
or_options-eq_iff none d = ground arith
or_options-eq_iff (some l) d = ground arith

or_one-eq_iff : (r : ℤ) → (or_one r ≡ r) ↔ (r ≢ pos 0)
or_one-eq_iff r = ground (arith, eq_ℤ_iff r (pos 0))

-- Defaulting leaves an object as it is exactly if every field that has a default is set: it keeps what
-- is given, and fills in what is not.
pub default-same_iff : (r : AutoMq) → (default r ≡ r) ↔ IsComplete r
unfolding default
default-same_iff r = (
  λ e. record {
    image = (or_default-eq_iff r.spec.image _ refl).0 (ap (λ (x : AutoMq). x.spec.image) e);
    region =
        (or_default-eq_iff r.spec.s3.region _ refl).0 (ap (λ (x : AutoMq). x.spec.s3.region) e);
    bucket =
        (or_default-eq_iff r.spec.s3.bucket _ refl).0 (ap (λ (x : AutoMq). x.spec.s3.bucket) e);
    cluster_id =
        (or_default-eq_iff r.spec.cluster_id _ refl).0 (ap (λ (x : AutoMq). x.spec.cluster_id) e);
    controller_jvm =
        (or_options-eq_iff r.spec.controller.jvm_options _).0
          (ap (λ (x : AutoMq). x.spec.controller.jvm_options) e);
    controller_replicas =
        (or_one-eq_iff r.spec.controller.replicas).0
          (ap (λ (x : AutoMq). x.spec.controller.replicas) e);
    broker_jvm =
        (or_options-eq_iff r.spec.broker.jvm_options _).0
          (ap (λ (x : AutoMq). x.spec.broker.jvm_options) e);
    broker_replicas =
        (or_one-eq_iff r.spec.broker.replicas).0 (ap (λ (x : AutoMq). x.spec.broker.replicas) e);
  },
  λ c.
      rw
        (
          (or_default-eq_iff r.spec.image _ refl).1 c.image,
          (or_default-eq_iff r.spec.s3.region _ refl).1 c.region,
          (or_default-eq_iff r.spec.s3.bucket _ refl).1 c.bucket,
          (or_default-eq_iff r.spec.cluster_id _ refl).1 c.cluster_id,
          (or_options-eq_iff r.spec.controller.jvm_options _).1 c.controller_jvm,
          (or_options-eq_iff r.spec.broker.jvm_options _).1 c.broker_jvm,
          (or_one-eq_iff r.spec.controller.replicas).1 c.controller_replicas,
          (or_one-eq_iff r.spec.broker.replicas).1 c.broker_replicas,
        )
        refl,
)

-- After defaulting, validation asks only for the S3 endpoint, for JVM options that are not given as
-- an empty list, and for the types of the controller's affinity.
pub validate-default_iff :
    (r : AutoMq)
    → (validate (default r) ≡ none) ↔ (
        (r.spec.s3.endpoint ≢ "")
        × (r.spec.controller.jvm_options ≢ some [])
        × (r.spec.broker.jvm_options ≢ some [])
        × IsTypedAffinity r.spec.controller.affinity)
unfolding default
validate-default_iff r = (
  λ h.
      let v = (validate_iff (default r)).0 h in
      (
        v.endpoint,
        (or_options-ne r.spec.controller.jvm_options _ _).0 v.controller_jvm,
        (or_options-ne r.spec.broker.jvm_options _ _).0 v.broker_jvm,
        v.affinity,
      ),
  λ h. (validate_iff (default r)).1 (record {
    endpoint = h.0;
    region = or_default-ne r.spec.s3.region "us-east-1" refl;
    bucket = or_default-ne r.spec.s3.bucket "ko3" refl;
    cluster_id = or_default-ne r.spec.cluster_id "rZdE0DjZSrqy96PXrMUZVw" refl;
    image = or_default-ne r.spec.image default_image_name refl;
    controller_jvm = (or_options-ne r.spec.controller.jvm_options _ _).1 h.1;
    broker_jvm = (or_options-ne r.spec.broker.jvm_options _ _).1 h.2;
    affinity = h.3;
  }),
)
