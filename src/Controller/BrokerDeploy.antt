-- ===== src/Controller/BrokerDeploy.antt =====
-- The deployment that `syncBrokerDeploy` of internal/controller/automq_controller_b.go asks for.
use automq_operator.Base.{String, false, none, some, List, [], ◌∷◌, join, ◌<>◌}
use automq_operator.Base.Int.{ℤ, pos, add32}
use automq_operator.Base.Decimal.{show}
use automq_operator.Kube.Objects.{items, EnvVar, Container, PodSpec, Deployment}
use automq_operator.Api.Types.{AutoMq, default_image_name, to_k8s_affinity}
use automq_operator.Controller.Names.{
  broker_role, get_auto_mq_label_map, index_labels, controller_voters,
}
use automq_operator.Controller.State.{Reconciler, Context}
use automq_operator.Controller.Pods.{
  sysctl_container, env_value, env_field, s3_arguments, pod_volumes, pod_mounts, pod_env,
  pod_annotations, tcp_probe, stop_command,
}

-- The environment variables that the code builds from the object and the service's node port.
unfoldable pub broker_envs : String → AutoMq → ℤ → List EnvVar
unfolding join
broker_envs apis_ip obj node_port =
    env_field "NAMESPACE_NAME" "metadata.namespace"
    ∷ env_field "POD_NAME" "metadata.name"
    ∷ env_field "NODE_NAME" "spec.nodeName"
    ∷ env_field "POD_IP" "status.podIP"
    ∷ env_value "KAFKA_S3_ACCESS_KEY" obj.spec.s3.access_key_id
    ∷ env_value "KAFKA_S3_SECRET_KEY" obj.spec.s3.secret_access_key
    ∷ env_value "KAFKA_HEAP_OPTS" (join (items obj.spec.broker.jvm_options) " ")
    ∷ env_value "KAFKA_CFG_AUTOBALANCER_REPORTER_NETWORK_IN_CAPACITY" "5120"
    ∷ env_value "KAFKA_CFG_AUTOBALANCER_REPORTER_NETWORK_OUT_CAPACITY" "5120"
    ∷ env_value "KAFKA_CFG_AUTOBALANCER_REPORTER_METRICS_REPORTING_INTERVAL_MS" "5000"
    ∷ env_value "NODEPORT_DEFAULT_PORT" (show node_port)
    ∷ env_value "OPERATOR_APIS_ADDR" ("http://" <> apis_ip <> ":" <> show (pos 9090))
    ∷ []

-- The command line of the start script.
unfoldable pub broker_cmds : AutoMq → ℤ → List String
unfolding join
broker_cmds obj index =
    "/opt/kafka/scripts/mq-start.sh"
    ∷ "up"
    ∷ "--process.roles"
    ∷ "broker"
    ∷ "--node.id"
    ∷ show (add32 index obj.spec.controller.replicas)
    ∷ "--cluster.id"
    ∷ obj.spec.cluster_id
    ∷ "--controller.quorum.voters"
    ∷ join (controller_voters obj) ","
    ∷ s3_arguments obj.spec.s3

broker_container : Reconciler → AutoMq → ℤ → List EnvVar → String → Container
unfolding join broker_cmds
broker_container r obj index envs claim = record {
  name = broker_role;
  image = default_image_name;
  command = "/bin/bash" ∷ "-c" ∷ join (broker_cmds obj index) " \\\n" ∷ [];
  env = pod_env obj envs obj.spec.broker.envs;
  volume_mounts = pod_mounts r.mount_tz claim;
  pre_stop = some stop_command;
  liveness_probe = some (tcp_probe broker_role);
  ports = record { name = broker_role; container_port = pos 9092; protocol = "TCP" } ∷ [];
  image_pull_policy = "IfNotPresent";
  privileged = none;
  resources = obj.spec.broker.resource;
}

broker_pod : Reconciler → AutoMq → ℤ → List EnvVar → String → PodSpec
unfolding broker_container to_k8s_affinity
broker_pod r obj index envs claim = record {
  host_network = false;
  termination_grace_period_seconds = some (pos 120);
  init_containers = sysctl_container ∷ [];
  affinity = to_k8s_affinity obj.spec.broker.affinity;
  volumes = pod_volumes r.mount_tz obj.metadata.name claim;
  containers = broker_container r obj index envs claim ∷ [];
}

-- The function that is passed to `CreateOrUpdate`: it leaves the selector as it finds it.
unfoldable pub mutate_broker_deploy :
    Reconciler → Context → AutoMq → ℤ → List EnvVar → Deployment → Deployment
unfolding broker_pod
mutate_broker_deploy r ctx obj index envs deploy = record deploy {
  metadata = record deploy.metadata {
    labels = get_auto_mq_label_map obj.metadata.name broker_role;
  };
  strategy_type = "RollingUpdate";
  template = record {
    labels = index_labels obj.metadata.name broker_role index;
    annotations = pod_annotations obj ctx.hash_configmap;
    spec = broker_pod r obj index envs deploy.metadata.name;
  };
}
