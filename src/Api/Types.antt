-- ===== src/Api/Types.antt =====
-- api/v1beta1/automq_types.go, with the image names of defaults/images.go. The JSON tags and the
-- schema markers are left out: a value of these types need not meet the markers.
use automq_operator.Base.{String, Bool, Option, some, List}
use automq_operator.Base.Int.{ℤ}
use automq_operator.Kube.Objects.{
  Slice, EnvVar, ResourceRequirements, ObjectMeta, Condition, Affinity, no_affinity,
}

abbrev pub default_image_name : String
default_image_name = "automqinc/automq:1.2.0"

abbrev pub busybox_image_name : String
busybox_image_name = "busybox:1.36.1"

pub record S3Spec : Type 0 where
  pub endpoint : String
  pub region : String
  pub access_key_id : String
  pub secret_access_key : String
  pub bucket : String
  pub enable_path_style : Bool

pub record NodeSelector : Type 0 where
  pub key : String
  pub values : Slice String

pub record NodeAffinity : Type 0 where
  pub type : String
  pub node_selector : Slice NodeSelector
  pub weight : ℤ

pub record PodAffinity : Type 0 where
  pub type : String
  pub weight : ℤ

pub record PodAntiAffinity : Type 0 where
  pub type : String
  pub weight : ℤ

pub record AffinitySpec : Type 0 where
  pub node_affinity : Option NodeAffinity
  pub pod_anti_affinity : Option PodAntiAffinity
  pub pod_affinity : Option PodAffinity

-- The conversion is not implemented in the source: it returns the empty affinity, for nil too.
unfoldable pub to_k8s_affinity : Option AffinitySpec → Option Affinity
to_k8s_affinity in_spec = some no_affinity

pub record ControllerSpec : Type 0 where
  pub replicas : ℤ
  pub jvm_options : Slice String
  pub envs : Slice EnvVar
  pub resource : ResourceRequirements
  pub affinity : Option AffinitySpec
  pub storage_class : String

pub record BrokerSpec : Type 0 where
  pub replicas : ℤ
  pub jvm_options : Slice String
  pub envs : Slice EnvVar
  pub resource : ResourceRequirements
  pub affinity : Option AffinitySpec
  pub storage_class : String

pub record MetricsSpec : Type 0 where
  pub enable : Bool
  pub import_dashboard : Bool

pub record AutoMqSpec : Type 0 where
  pub s3 : S3Spec
  pub cluster_id : String
  pub image : String
  pub node_port : ℤ
  pub metrics : MetricsSpec
  pub controller : ControllerSpec
  pub broker : BrokerSpec

pub data AutoMqPhase : Type 0 where
  unset pending error ready in_process : AutoMqPhase

pub record AutoMqStatus : Type 0 where
  pub phase : AutoMqPhase
  pub conditions : List Condition
  pub ready_pods : ℤ
  pub controller_replicas : ℤ
  pub broker_replicas : ℤ
  pub controller_addresses : List String
  pub bootstrap_internal_address : String

pub record AutoMq : Type 0 where
  pub metadata : ObjectMeta
  pub spec : AutoMqSpec
  pub status : AutoMqStatus
