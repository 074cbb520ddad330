-- ===== src/Api/Webhook.antt =====
-- api/v1beta1/automq_webhook.go: the defaulting and the validating webhook. A method on the pointer
-- that changes the object returns the new object; an error is its text, and the warnings, which are
-- always nil, are left out.
pub mod Valid
pub mod Defaulted
pub mod Admission
use automq_operator.Base.{
  ℕ, String, Bool, true, false, Option, none, some, List, [], ◌∷◌, not, ◌==◌, nat_eq, length,
  if◌then◌else◌,
}
use automq_operator.Base.Int.{ℤ, pos, eq_ℤ}
use automq_operator.Kube.Objects.{Slice, items}
use automq_operator.Api.Types.{
  S3Spec, AffinitySpec, ControllerSpec, BrokerSpec, AutoMqSpec, AutoMq, default_image_name,
}

abbrev or_default : String → String → String
or_default given default = if given == "" then default else given

-- `if jvmOptions == nil { … }`: an empty slice that is not nil stays.
abbrev or_options : Slice String → List String → Slice String
or_options none default = some default
or_options (some l) default = some l

abbrev or_one : ℤ → ℤ
or_one replicas = if eq_ℤ replicas (pos 0) then pos 1 else replicas

default_s3 : S3Spec → S3Spec
default_s3 s = record s {
  region = or_default s.region "us-east-1";
  bucket = or_default s.bucket "ko3";
}

default_controller : ControllerSpec → ControllerSpec
default_controller c = record c {
  jvm_options = or_options c.jvm_options ("-Xms1g" ∷ "-Xmx1g" ∷ "-XX:MetaspaceSize=96m" ∷ []);
  replicas = or_one c.replicas;
}

default_broker : BrokerSpec → BrokerSpec
default_broker b = record b {
  jvm_options =
      or_options b.jvm_options
        ("-Xms1g" ∷ "-Xmx1g" ∷ "-XX:MetaspaceSize=96m" ∷ "-XX:MaxDirectMemorySize=1G" ∷ []);
  replicas = or_one b.replicas;
}

default_spec : AutoMqSpec → AutoMqSpec
unfolding default_s3 default_controller default_broker
default_spec s = record s {
  image = or_default s.image default_image_name;
  s3 = default_s3 s.s3;
  cluster_id = or_default s.cluster_id "rZdE0DjZSrqy96PXrMUZVw";
  controller = default_controller s.controller;
  broker = default_broker s.broker;
}

unfoldable pub default : AutoMq → AutoMq
unfolding default_spec
default r = record r { spec = default_spec r.spec }

-- `if test { return fmt.Errorf(message) }`, then the rest.
abbrev reject_if : Bool → String → Option String → Option String
reject_if true message rest = some message
reject_if false message rest = rest

-- `Affinity.X != nil` and then `Affinity.X.Type == ""`.
abbrev untyped {ℓ} : {A : Type ℓ} → (A → String) → Option A → Bool
untyped type none = false
untyped type (some a) = type a == ""

-- the three tests under `r.Spec.Controller.Affinity != nil`
validate_affinity : Option AffinitySpec → Option String
validate_affinity none = none
validate_affinity (some a) =
    reject_if (untyped (λ p. p.type) a.pod_anti_affinity)
      "field controller.affinity.podAntiAffinity.type is required"
      (reject_if (untyped (λ p. p.type) a.pod_affinity)
        "field controller.affinity.podAffinity.type is required"
        (reject_if (untyped (λ p. p.type) a.node_affinity)
          "field controller.affinity.nodeAffinity.type is required" none))

unfoldable pub validate : AutoMq → Option String
unfolding validate_affinity
validate r = reject_if (r.spec.s3.endpoint == "") "field s3.Endpoint is required" (
    reject_if (r.spec.s3.region == "") "field s3.Region is required" (
      reject_if (r.spec.s3.bucket == "") "field s3.Bucket is required" (
        reject_if (r.spec.cluster_id == "") "field clusterID is required" (
          reject_if (r.spec.image == "") "field image is required" (
            reject_if (nat_eq (length (items r.spec.controller.jvm_options)) 0)
              "field controller.jvmOptions is required"
              (reject_if (nat_eq (length (items r.spec.broker.jvm_options)) 0)
                "field broker.jvmOptions is required"
                (validate_affinity r.spec.controller.affinity)))))))

unfoldable pub validate_create : AutoMq → Option String
validate_create r = validate r

unfoldable pub validate_update : AutoMq → AutoMq → Option String
validate_update r old =
    reject_if (not (r.spec.s3.endpoint == old.spec.s3.endpoint)) "field s3.Endpoint is immutable" (
      reject_if (not (r.spec.s3.region == old.spec.s3.region)) "field s3.Region is immutable" (
        reject_if (not (r.spec.s3.bucket == old.spec.s3.bucket)) "field s3.Bucket is immutable" (
          reject_if (not (r.spec.cluster_id == old.spec.cluster_id)) "field clusterID is immutable"
            (reject_if (not (eq_ℤ r.spec.controller.replicas old.spec.controller.replicas))
              "field controller.replicas is immutable" (validate r)))))

unfoldable pub validate_delete : AutoMq → Option String
validate_delete r = none
