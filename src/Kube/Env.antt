-- ===== src/Kube/Env.antt =====
-- What the operator calls and does not implement, as a parameter of the model: the client of
-- sigs.k8s.io/controller-runtime, `controllerutil` and `retry`, `meta.SetStatusCondition`, the AWS SDK,
-- the text of the embedded script and the environment. `W` is the world that the calls read and change: the
-- cluster, the object store, and what else decides how a call comes out.
use automq_operator.Base.{String, Bool, Option, List}
use automq_operator.Kube.Objects.{Key, Kind, Object, Dict, Pod, Condition, Err, Result, NodeAddress}
use automq_operator.Api.Types.{AutoMq}
use automq_operator.Storage.{AwsConfig}

pub record Env (W : Type 0) : Type 1 where
  -- `client.Client`
  pub get : (k : Kind) → Key → W → Result (Object k) × W
  pub delete : Kind → Key → W → Option Err × W
  pub list_pods : (namespace : String) (labels : Dict) → W → Result (List Pod) × W
  pub get_node_addresses : (name : String) → W → Result (List NodeAddress) × W
  pub get_auto_mq : Key → W → Result AutoMq × W
  -- Update writes the server's answer back into the object that it is given.
  pub update_auto_mq : AutoMq × W → Option Err × (AutoMq × W)
  pub update_auto_mq_status : AutoMq → W → Option Err × W
  -- `controllerutil.CreateOrUpdate` works on the object that it is given.
  pub create_or_update :
      (k : Kind) → (mutate : Object k → Object k) → Object k × W → Option Err × (Object k × W)
  -- `retry.RetryOnConflict(retry.DefaultRetry, f)`: `S` is what the closure `f` may change.
  pub retry_on_conflict : (S : Type 0) → (S → Option Err × S) → S → Option Err × S
  pub contains_finalizer : List String → String → Bool
  pub add_finalizer : List String → String → List String
  pub remove_finalizer : List String → String → List String
  pub set_status_condition : List Condition → Condition → List Condition
  -- the AWS SDK
  pub load_default_config : AwsConfig → Option Err
  pub create_bucket : AwsConfig → (bucket : String) → W → Option Err × W
  -- the text of defaults/up.sh, as it is embedded, `hash.Hash` and `os.Getenv("OPERATOR_APIS_IP")`
  pub up_sh : String
  pub hash : String → String
  pub operator_apis_ip : String
  -- Whether the logger panics when it is given a key without a value: zapr reports that by DPanic, which
  -- panics if zap's option Development is set, as it is by default in cmd/main.go.
  pub odd_log_panics : Bool
