-- ===== src/Kube/Objects.antt =====
-- The API objects, with the fields that the operator's Go code reads or writes. Their types are
-- those of k8s.io/api and k8s.io/apimachinery; a map is an association list, a pointer and a slice
-- that may be nil are an `Option`.
use automq_operator.Base.{ℕ, String, Bool, Option, none, some, List, [], ◌∷◌, ◌==◌, if◌then◌else◌}
use automq_operator.Base.Int.{ℤ}

-- A slice: `none` is nil, which is not the empty slice.
abbrev pub Slice : Type 0 → Type 0
Slice A = Option (List A)

-- What ranging over a slice visits.
abbrev pub items : {A : Type 0} → Slice A → List A
items none = []
items (some l) = l

abbrev pub Dict : Type 0
Dict = List (String × String)

-- `m[k] = v`
unfoldable pub put : String → String → Dict → Dict
put k v [] = (k, v) ∷ []
put k v ((j, w) ∷ m) = if j == k then (k, v) ∷ m else (j, w) ∷ put k v m

unfoldable pub lookup : String → Dict → Option String
lookup k [] = none
lookup k ((j, v) ∷ m) = if j == k then some v else lookup k m

-- A quantity is known by the text that `resource.ParseQuantity` reads it from: the code only passes
-- quantities on.
pub data Quantity : Type 0 where
  parse_quantity : String → Quantity

pub record ResourceRequirements : Type 0 where
  pub limits : Option (List (String × Quantity))
  pub requests : Option (List (String × Quantity))

abbrev pub no_resources : ResourceRequirements
no_resources = record { limits = none; requests = none }

pub data EnvVarSource : Type 0 where
  field_ref : (field_path : String) → EnvVarSource
  other_source : (text : String) → EnvVarSource

pub record EnvVar : Type 0 where
  pub name : String
  pub value : String
  pub value_from : Option EnvVarSource

-- `time` is the deletion time in some unit; the zero time is `some 0`.
pub record ObjectMeta : Type 0 where
  pub name : String
  pub namespace : String
  pub resource_version : String
  pub generation : ℤ
  pub labels : Dict
  pub finalizers : List String
  pub deletion_timestamp : Option ℕ

pub record Key : Type 0 where
  pub namespace : String
  pub name : String

-- `client.ObjectKeyFromObject`
abbrev pub key_of : ObjectMeta → Key
key_of m = record { namespace = m.namespace; name = m.name }

-- The metadata of `&v1.Service{}` after `Namespace` and `Name` are assigned.
abbrev pub new_meta : String → String → ObjectMeta
new_meta namespace name = record {
  name = name;
  namespace = namespace;
  resource_version = "";
  generation = ℤ.pos 0;
  labels = [];
  finalizers = [];
  deletion_timestamp = none;
}

pub record ConfigMap : Type 0 where
  pub metadata : ObjectMeta
  pub entries : Dict

pub record PersistentVolumeClaim : Type 0 where
  pub metadata : ObjectMeta
  pub access_modes : List String
  pub resources : ResourceRequirements
  pub storage_class_name : Option String

pub record ServicePort : Type 0 where
  pub name : String
  pub port : ℤ
  pub target_port : String
  pub protocol : String
  pub node_port : ℤ

pub record Service : Type 0 where
  pub metadata : ObjectMeta
  pub selector : Dict
  pub ports : List ServicePort
  pub service_type : String

pub data VolumeSource : Type 0 where
  config_map_volume : (name : String) (default_mode : ℕ) → VolumeSource
  claim_volume : (claim_name : String) → VolumeSource
  host_path : (path : String) → VolumeSource

pub record Volume : Type 0 where
  pub name : String
  pub source : VolumeSource

pub record VolumeMount : Type 0 where
  pub name : String
  pub mount_path : String
  pub sub_path : String
  pub read_only : Bool

pub record ContainerPort : Type 0 where
  pub name : String
  pub container_port : ℤ
  pub protocol : String

-- A probe of a TCP socket, by the port's name.
pub record Probe : Type 0 where
  pub tcp_port : String
  pub initial_delay_seconds : ℤ
  pub timeout_seconds : ℤ
  pub period_seconds : ℤ
  pub success_threshold : ℤ
  pub failure_threshold : ℤ
  pub termination_grace_period_seconds : Option ℤ

-- `pre_stop` is the command of `Lifecycle.PreStop.Exec`, `privileged` that of `SecurityContext`.
pub record Container : Type 0 where
  pub name : String
  pub image : String
  pub command : List String
  pub env : List EnvVar
  pub volume_mounts : List VolumeMount
  pub pre_stop : Option (List String)
  pub liveness_probe : Option Probe
  pub ports : List ContainerPort
  pub image_pull_policy : String
  pub privileged : Option Bool
  pub resources : ResourceRequirements

-- `v1.Affinity`: the empty one is all that the code builds.
pub data Affinity : Type 0 where
  no_affinity : Affinity

pub record PodSpec : Type 0 where
  pub host_network : Bool
  pub termination_grace_period_seconds : Option ℤ
  pub init_containers : List Container
  pub affinity : Option Affinity
  pub volumes : List Volume
  pub containers : List Container

pub record PodTemplate : Type 0 where
  pub labels : Dict
  pub annotations : Dict
  pub spec : PodSpec

pub record Deployment : Type 0 where
  pub metadata : ObjectMeta
  pub selector : Option Dict
  pub strategy_type : String
  pub template : PodTemplate

-- The code only deletes objects of this kind.
pub record StatefulSet : Type 0 where
  pub metadata : ObjectMeta

pub data Kind : Type 0 where
  config_map service deployment stateful_set persistent_volume_claim : Kind

abbrev pub Object : Kind → Type 0
Object config_map = ConfigMap
Object service = Service
Object deployment = Deployment
Object stateful_set = StatefulSet
Object persistent_volume_claim = PersistentVolumeClaim

abbrev pub meta_of : (k : Kind) → Object k → ObjectMeta
meta_of config_map o = o.metadata
meta_of service o = o.metadata
meta_of deployment o = o.metadata
meta_of stateful_set o = o.metadata
meta_of persistent_volume_claim o = o.metadata

abbrev pub kind_eq : Kind → Kind → Bool
kind_eq config_map config_map = Bool.true
kind_eq service service = Bool.true
kind_eq deployment deployment = Bool.true
kind_eq stateful_set stateful_set = Bool.true
kind_eq persistent_volume_claim persistent_volume_claim = Bool.true
kind_eq _ _ = Bool.false

-- `metav1.Condition`, without the time of its last transition.
pub record Condition : Type 0 where
  pub type : String
  pub status : String
  pub observed_generation : ℤ
  pub reason : String
  pub message : String

-- `meta.FindStatusCondition`
abbrev pub find_condition : List Condition → String → Option Condition
find_condition [] type = none
find_condition (c ∷ cs) type = if c.type == type then some c else find_condition cs type

pub record PodCondition : Type 0 where
  pub type : String
  pub status : String

pub record Pod : Type 0 where
  pub phase : String
  pub conditions : List PodCondition

pub record NodeAddress : Type 0 where
  pub type : String
  pub address : String

-- An `error`: what `apierrors` tells of it, and its text.
pub data Reason : Type 0 where
  not_found conflict other : Reason

pub record Err : Type 0 where
  pub reason : Reason
  pub message : String

abbrev pub is_not_found : Err → Bool
is_not_found e = elim e.reason [ not_found ↦ Bool.true | _ ↦ Bool.false ]

-- `errors.New` and `fmt.Errorf`
abbrev pub new_err : String → Err
new_err message = record { reason = other; message = message }

-- `client.IgnoreNotFound`
abbrev pub ignore_not_found : Err → Option Err
ignore_not_found e = if is_not_found e then none else some e

pub data Result {ℓ} (A : Type ℓ) : Type ℓ where
  ok : A → Result A
  err : Err → Result A
