-- ===== src/Controller/ControllerDeploy.antt =====
-- The deployment that `syncControllerDeploy` of internal/controller/automq_controller_c.go asks for.
use automq_operator.Base.{String, false, none, some, List, [], ◌∷◌, join}
use automq_operator.Base.Int.{ℤ, pos}
use automq_operator.Base.Decimal.{show}
use automq_operator.Kube.Objects.{items, EnvVar, Container, PodSpec, Deployment}
use automq_operator.Api.Types.{AutoMq, default_image_name, to_k8s_affinity}
use automq_operator.Controller.Names.{
  controller_role, get_auto_mq_label_map, index_labels, controller_voters,
}
use automq_operator.Controller.State.{Reconciler, Context}
use automq_operator.Controller.Pods.{
  sysctl_container, env_value, env_field, s3_arguments, pod_volumes, pod_mounts, pod_env,
  pod_annotations, tcp_probe, stop_command,
}

-- The environment variables that the code builds.
unfoldable pub controller_envs : AutoMq → List EnvVar
unfolding join
controller_envs obj =
    env_field "NAMESPACE_NAME" "metadata.namespace"
    ∷ env_field "POD_NAME" "metadata.name"
    ∷ env_field "POD_IP" "status.podIP"
    ∷ env_value "KAFKA_S3_ACCESS_KEY" obj.spec.s3.access_key_id
    ∷ env_value "KAFKA_S3_SECRET_KEY" obj.spec.s3.secret_access_key
    ∷ env_value "KAFKA_HEAP_OPTS" (join (items obj.spec.controller.jvm_options) " ")
    ∷ []

-- The command line of the start script.
unfoldable pub controller_cmds : AutoMq → ℤ → List String
unfolding join
controller_cmds obj index =
    "/opt/kafka/scripts/mq-start.sh"
    ∷ "up"
    ∷ "--process.roles"
    ∷ "controller"
    ∷ "--node.id"
    ∷ show index
    ∷ "--cluster.id"
    ∷ obj.spec.cluster_id
    ∷ "--controller.quorum.voters"
    ∷ join (controller_voters obj) ","
    ∷ s3_arguments obj.spec.s3

controller_container : Reconciler → AutoMq → ℤ → List EnvVar → String → Container
unfolding join controller_cmds
controller_container r obj index envs claim = record {
  name = controller_role;
  image = default_image_name;
  command = "/bin/bash" ∷ "-c" ∷ join (controller_cmds obj index) " \\\n" ∷ [];
  env = pod_env obj envs obj.spec.controller.envs;
  volume_mounts = pod_mounts r.mount_tz claim;
  pre_stop = some stop_command;
  liveness_probe = some (tcp_probe controller_role);
  ports = record { name = controller_role; container_port = pos 9093; protocol = "TCP" } ∷ [];
  image_pull_policy = "IfNotPresent";
  privileged = none;
  resources = obj.spec.controller.resource;
}

controller_pod : Reconciler → AutoMq → ℤ → List EnvVar → String → PodSpec
unfolding controller_container to_k8s_affinity
controller_pod r obj index envs claim = record {
  host_network = false;
  termination_grace_period_seconds = some (pos 120);
  init_containers = sysctl_container ∷ [];
  affinity = to_k8s_affinity obj.spec.controller.affinity;
  volumes = pod_volumes r.mount_tz obj.metadata.name claim;
  containers = controller_container r obj index envs claim ∷ [];
}

-- The function that is passed to `CreateOrUpdate`: it leaves the selector as it finds it.
unfoldable pub mutate_controller_deploy :
    Reconciler → Context → AutoMq → ℤ → List EnvVar → Deployment → Deployment
unfolding controller_pod
mutate_controller_deploy r ctx obj index envs deploy = record deploy {
  metadata = record deploy.metadata {
    labels = get_auto_mq_label_map obj.metadata.name controller_role;
  };
  strategy_type = "RollingUpdate";
  template = record {
    labels = index_labels obj.metadata.name controller_role index;
    annotations = pod_annotations obj ctx.hash_configmap;
    spec = controller_pod r obj index envs deploy.metadata.name;
  };
}
