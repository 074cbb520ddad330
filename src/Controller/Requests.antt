-- ===== src/Controller/Requests.antt =====
-- The requests that both roles make to the cluster in the same words.
use automq_operator.Base.{String, false, none, some, List, [], ◌∷◌, ◌==◌, if◌then◌else◌}
use automq_operator.Kube.Objects.{
  Kind, Key, Dict, new_meta, parse_quantity, no_resources, Service, ServicePort,
  PersistentVolumeClaim, Deployment,
}
use automq_operator.Kube.Env.{Env}

-- `_ = r.Client.Delete(ctx, obj)`: the error is dropped.
unfoldable pub discard : {W : Type 0} → Env W → Kind → Key → W → W
discard env k key w = (env.delete k key w).1

abbrev pub new_claim : String → String → PersistentVolumeClaim
new_claim namespace name = record {
  metadata = new_meta namespace name;
  access_modes = [];
  resources = no_resources;
  storage_class_name = none;
}

-- The selector is assigned before `CreateOrUpdate`, outside the function that it is passed.
abbrev pub new_service : String → String → Dict → Service
new_service namespace name selector = record {
  metadata = new_meta namespace name;
  selector = selector;
  ports = [];
  service_type = "";
}

abbrev pub new_deployment : String → String → Dict → Deployment
new_deployment namespace name selector = record {
  metadata = new_meta namespace name;
  selector = some selector;
  strategy_type = "";
  template = record {
    labels = [];
    annotations = [];
    spec = record {
      host_network = false;
      termination_grace_period_seconds = none;
      init_containers = [];
      affinity = none;
      volumes = [];
      containers = [];
    };
  };
}

-- `storage, _ := resource.ParseQuantity("100Gi")`
unfoldable pub mutate_claim : Dict → String → PersistentVolumeClaim → PersistentVolumeClaim
mutate_claim labels storage_class pvc = record pvc {
  metadata = record pvc.metadata { labels = labels };
  access_modes = "ReadWriteOnce" ∷ [];
  resources = record { limits = none; requests = some (("storage", parse_quantity "100Gi") ∷ []) };
  storage_class_name = if storage_class == "" then pvc.storage_class_name else some storage_class;
}

unfoldable pub mutate_service : Dict → List ServicePort → String → Service → Service
mutate_service labels ports service_type svc = record svc {
  metadata = record svc.metadata { labels = labels };
  ports = ports;
  service_type = service_type;
}
