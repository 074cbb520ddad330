-- ===== src/Controller/Pods.antt =====
-- The parts of the pods: internal/controller/init_contrainer.go, and the values that the methods
-- `syncBrokerDeploy` and `syncControllerDeploy` build in the same words.
use automq_operator.Base.{
  String, Bool, true, false, Option, none, some, List, [], ◌∷◌, ◌++◌, join, show_bool,
  if◌then◌else◌,
}
use automq_operator.Base.Int.{pos}
use automq_operator.Kube.Objects.{
  Slice, items, Dict, parse_quantity, EnvVar, field_ref, Volume, config_map_volume, claim_volume,
  host_path, VolumeMount, Probe, Container,
}
use automq_operator.Api.Types.{AutoMq, S3Spec, busybox_image_name}

abbrev pub sysctls : List String
sysctls =
    "sysctl -w fs.inotify.max_user_watches=8000000" ∷ "sysctl -w fs.file-max=40265318"
    ∷ "sysctl -w fs.inotify.max_user_instances=12800"
    ∷ "sysctl -w fs.inotify.max_queued_events=8000000" ∷ "sysctl -w net.core.somaxconn=65535"
    ∷ "sysctl -w net.ipv4.ip_local_port_range=\"1024 65535\"" ∷ "sysctl -w net.ipv4.tcp_tw_reuse=1"
    ∷ "sysctl -w net.ipv4.tcp_fin_timeout=10" ∷ "sysctl -w net.ipv4.tcp_keepalive_intvl=75"
    ∷ "sysctl -w net.ipv4.tcp_keepalive_probes=9" ∷ "sysctl -w net.ipv4.tcp_keepalive_time=7200"
    ∷ "ulimit -a" ∷ "mkdir -p /etc/security"
    ∷ "echo \"* - nofile 1048576\" >> /etc/security/limits.conf"
    ∷ "echo \"* - nproc 1048576\" >> /etc/security/limits.conf"
    ∷ "echo \"root - nofile 1048576\" >> /etc/security/limits.conf"
    ∷ "echo \"root - nproc 1048576\" >> /etc/security/limits.conf" ∷ []

unfoldable pub sysctl_container : Container
unfolding join
sysctl_container = record {
  name = "sysctl";
  image = busybox_image_name;
  command = "sh" ∷ "-c" ∷ join sysctls "\n" ∷ [];
  env = [];
  volume_mounts = [];
  pre_stop = none;
  liveness_probe = none;
  ports = [];
  image_pull_policy = "IfNotPresent";
  privileged = some true;
  resources = record {
    limits = some (("cpu", parse_quantity "500m") ∷ ("memory", parse_quantity "256Mi") ∷ []);
    requests = some (("cpu", parse_quantity "10m") ∷ ("memory", parse_quantity "64Mi") ∷ []);
  };
}

abbrev pub env_value : String → String → EnvVar
env_value name value = record { name = name; value = value; value_from = none }

abbrev pub env_field : String → String → EnvVar
env_field name path = record { name = name; value = ""; value_from = some (field_ref path) }

-- The arguments that both roles pass to the start script after the quorum voters.
abbrev pub s3_arguments : S3Spec → List String
s3_arguments s3 =
    "--s3.bucket"
    ∷ s3.bucket
    ∷ "--s3.endpoint"
    ∷ s3.endpoint
    ∷ "--s3.region"
    ∷ s3.region
    ∷ "--s3.path.style"
    ∷ show_bool s3.enable_path_style
    ∷ []

-- The script volume and the data volume, and the host's time zone if it is mounted. The mode is 0755.
abbrev pub pod_volumes : Bool → String → String → List Volume
pod_volumes mount_tz script claim =
    record { name = "script"; source = config_map_volume script 493 }
    ∷ record { name = claim; source = claim_volume claim }
    ∷ (if mount_tz then record { name = "k8tz"; source = host_path "/etc/localtime" } ∷ [] else [])

abbrev pub pod_mounts : Bool → String → List VolumeMount
pod_mounts mount_tz claim =
    record { name = claim; mount_path = "/data/kafka"; sub_path = ""; read_only = false }
    ∷ record {
      name = "script";
      mount_path = "/opt/kafka/scripts/mq-start.sh";
      sub_path = "up.sh";
      read_only = false;
    }
    ∷ (if mount_tz
        then record {
          name = "k8tz";
          mount_path = "/etc/localtime";
          sub_path = "";
          read_only = false;
        }
          ∷ []
        else [])

-- The environment: what the role sets, then the exporter, then what the user gives.
abbrev pub pod_env : AutoMq → List EnvVar → Slice EnvVar → List EnvVar
pod_env obj envs given =
    envs
    ++ ((if obj.spec.metrics.enable
          then env_value "KAFKA_CFG_S3_TELEMETRY_METRICS_EXPORTER_URI"
              "prometheus://?host=0.0.0.0&port=9090"
            ∷ []
          else [])
        ++ items given)

-- `ctx.Value(ctxKey("hash-configmap")).(string)`, or "" if the context has none.
abbrev pub hash_or_empty : Option String → String
hash_or_empty none = ""
hash_or_empty (some hash) = hash

abbrev pub pod_annotations : AutoMq → Option String → Dict
pod_annotations obj hash =
    ("configmap/script-hash", hash_or_empty hash)
    ∷ (if obj.spec.metrics.enable
        then ("prometheus.io/scrape", "true")
          ∷ ("prometheus.io/port", "9090")
          ∷ ("prometheus.io/path", "/metrics")
          ∷ []
        else [])

abbrev pub tcp_probe : String → Probe
tcp_probe port = record {
  tcp_port = port;
  initial_delay_seconds = pos 20;
  timeout_seconds = pos 10;
  period_seconds = pos 30;
  success_threshold = pos 1;
  failure_threshold = pos 4;
  termination_grace_period_seconds = none;
}

abbrev pub stop_command : List String
stop_command = "bash" ∷ "-c" ∷ "/opt/kafka/kafka/bin/kafka-server-stop.sh" ∷ []
