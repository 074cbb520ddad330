-- ===== src/Examples/Webhook.antt =====
-- The webhook at concrete objects.
use automq_operator.Base.{none, some, [], ◌≡◌, refl, ◌≢◌, ◌↔◌}
use automq_operator.Base.Int.{pos}
use automq_operator.Api.Types.{AutoMq}
use automq_operator.Api.Webhook.{default, validate, validate_update, validate_create}
use automq_operator.Api.Webhook.Valid.{
  IsValid, IsTypedAffinity, SameFixed, validate_iff, validate_update_iff,
}
use automq_operator.Api.Webhook.Defaulted.{IsComplete, default-same_iff, validate-default_iff}
use automq_operator.Api.Webhook.Admission.{
  Stored, created, updated, HasReplicas, Stored-IsValid, Stored-SameFixed,
}
use automq_operator.Examples.Objects.{cluster, spec}

abbrev bigger : AutoMq
bigger = record cluster { spec = spec (pos 1) (pos 5) }

abbrev moved : AutoMq
moved = record cluster { spec = spec (pos 3) (pos 2) }

accepts : validate cluster ≡ none
unfolding validate
accepts = refl

rejects_controllers : validate_update moved cluster ≡ some "field controller.replicas is immutable"
unfolding validate_update validate
rejects_controllers = refl

accepts_brokers : validate_update (default bigger) (default cluster) ≡ none
unfolding validate_update validate default
accepts_brokers = refl

creates : validate_create (default cluster) ≡ none
unfolding validate_create validate default
creates = refl

history : Stored (default cluster) (default bigger)
history =
    updated bigger (default bigger) (created cluster (default cluster) refl creates) refl
      accepts_brokers

validate_iff_example : (validate cluster ≡ none) ↔ IsValid cluster
validate_iff_example = validate_iff cluster

validate_update_iff_example :
    (validate_update moved cluster ≡ none) ↔ (SameFixed moved cluster × IsValid moved)
validate_update_iff_example = validate_update_iff moved cluster

default-same_iff_example : (default cluster ≡ cluster) ↔ IsComplete cluster
default-same_iff_example = default-same_iff cluster

validate-default_iff_example : (validate (default cluster) ≡ none) ↔ (
    (cluster.spec.s3.endpoint ≢ "")
    × (cluster.spec.controller.jvm_options ≢ some [])
    × (cluster.spec.broker.jvm_options ≢ some [])
    × IsTypedAffinity cluster.spec.controller.affinity)
validate-default_iff_example = validate-default_iff cluster

Stored-IsValid_example : IsValid (default bigger) × HasReplicas (default bigger)
Stored-IsValid_example = Stored-IsValid history

Stored-SameFixed_example : SameFixed (default bigger) (default cluster)
Stored-SameFixed_example = Stored-SameFixed history
