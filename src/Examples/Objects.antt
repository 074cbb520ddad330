-- ===== src/Examples/Objects.antt =====
-- A custom resource with one controller and two brokers, and a cluster in memory that holds it.
use automq_operator.Base.{
  String, true, false, none, some, List, [], ◌∷◌, ◌≢◌, inl, inr, ap, arith, eq_iff,
}
use automq_operator.Base.Int.{ℤ, pos}
use automq_operator.Kube.Objects.{Key, Condition, new_meta, no_resources, Pod}
use automq_operator.Kube.Memory.{Memory}
use automq_operator.Controller.Reconcile.Cleanup.{IsNamed}
use automq_operator.Api.Types.{AutoMq, AutoMqSpec, AutoMqStatus, unset}

abbrev pub spec : ℤ → ℤ → AutoMqSpec
spec controllers brokers = record {
  s3 = record {
    endpoint = "minio:9000";
    region = "us-east-1";
    access_key_id = "admin";
    secret_access_key = "minio123";
    bucket = "ko3";
    enable_path_style = true;
  };
  cluster_id = "rZdE0DjZSrqy96PXrMUZVw";
  image = "automqinc/automq:1.2.0";
  node_port = pos 32009;
  metrics = record { enable = true; import_dashboard = false };
  controller = record {
    replicas = controllers;
    jvm_options = some ("-Xms1g" ∷ []);
    envs = none;
    resource = no_resources;
    affinity = none;
    storage_class = "";
  };
  broker = record {
    replicas = brokers;
    jvm_options = some ("-Xms1g" ∷ []);
    envs = none;
    resource = no_resources;
    affinity = none;
    storage_class = "";
  };
}

abbrev pub status : ℤ → ℤ → List Condition → AutoMqStatus
status controllers brokers conditions = record {
  phase = unset;
  conditions = conditions;
  ready_pods = pos 0;
  controller_replicas = controllers;
  broker_replicas = brokers;
  controller_addresses = [];
  bootstrap_internal_address = "";
}

-- One controller and two brokers are asked for, and as many are counted.
abbrev pub cluster : AutoMq
cluster = record {
  metadata = new_meta "kafka" "one";
  spec = spec (pos 1) (pos 2);
  status = status (pos 1) (pos 2) [];
}

-- Three controllers and two brokers run where one of each is asked for.
abbrev pub shrinking : AutoMq
shrinking = record {
  metadata = new_meta "kafka" "one";
  spec = spec (pos 1) (pos 1);
  status = status (pos 3) (pos 2) [];
}

-- Another cluster in the same namespace.
abbrev pub neighbour : AutoMq
neighbour = record cluster { metadata = new_meta "kafka" "two" }

abbrev pub running : Pod
running = record { phase = "Running"; conditions = record { type = "Ready"; status = "True" } ∷ [] }

abbrev pub empty : Memory
empty = record { objects = λ k key. none; mqs = λ key. none; pods = []; buckets = [] }

-- A cluster in which every key names `cluster`, and one pod runs.
abbrev pub hosting : Memory
hosting = record empty { mqs = λ key. some cluster; pods = running ∷ [] }

-- A name in another namespace.
abbrev pub elsewhere : Key
elsewhere = record { namespace = "default"; name = "one" }

default_not_kafka : ◌≢◌ {A = String} "default" "kafka"
default_not_kafka = ground (arith, eq_iff "default" "kafka")

pub elsewhere-not-IsNamed : ¬ IsNamed cluster elsewhere
elsewhere-not-IsNamed (inl (i, e)) = default_not_kafka (ap (λ (k : Key). k.namespace) e)
elsewhere-not-IsNamed (inr (inl (i, e))) = default_not_kafka (ap (λ (k : Key). k.namespace) e)
elsewhere-not-IsNamed (inr (inr (inl e))) = default_not_kafka (ap (λ (k : Key). k.namespace) e)
elsewhere-not-IsNamed (inr (inr (inr e))) = default_not_kafka (ap (λ (k : Key). k.namespace) e)
