-- ===== src/Storage.antt =====
-- internal/pkg/storage: how the S3 client is made and configured. The calls of the S3 API are the SDK's.
pub mod Backoff
pub mod Address
pub mod Operations
pub mod Paths
pub mod Rewrite
use automq_operator.Base.{
  ℕ, String, Bool, Option, none, some, ◌||◌, ◌==◌, ◌<>◌, starts_with, if◌then◌else◌,
}
use automq_operator.Base.Int.{ℤ, pos, mul32}
use automq_operator.Kube.Objects.{Err, new_err, Result, ok, err}

-- The limits are pointers: `none` asks for the default.
pub record Config : Type 0 where
  pub type : String
  pub key : String
  pub secret : String
  pub region : String
  pub endpoint : String
  pub max_backoff_delay : Option ℤ
  pub max_retry_attempts : Option ℤ

-- The settings of the HTTP client, times in seconds.
pub record HttpClient : Type 0 where
  pub proxy_from_environment : Bool
  pub dial_timeout : ℕ
  pub dial_keep_alive : ℕ
  pub max_idle_conns : ℕ
  pub max_idle_conns_per_host : ℕ
  pub idle_conn_timeout : ℕ
  pub tls_handshake_timeout : ℕ
  pub expect_continue_timeout : ℕ
  pub response_header_timeout : ℕ
  pub disable_compression : Bool
  pub disable_keep_alives : Bool
  pub insecure_skip_verify : Bool
  pub timeout : ℕ

unfoldable pub get_http_client : HttpClient
get_http_client = record {
  proxy_from_environment = Bool.true;
  dial_timeout = 90;
  dial_keep_alive = 30;
  max_idle_conns = 2000;
  max_idle_conns_per_host = 2000;
  idle_conn_timeout = 90;
  tls_handshake_timeout = 90;
  expect_continue_timeout = 90;
  response_header_timeout = 90;
  disable_compression = Bool.false;
  disable_keep_alives = Bool.false;
  insecure_skip_verify = Bool.true;
  timeout = 90;
}

-- What `awsConfig` hands to the SDK: the endpoint and the signing region of the resolver, the static
-- credentials and the retryer's limits, the delay in nanoseconds.
pub record AwsConfig : Type 0 where
  pub url : String
  pub signing_region : String
  pub key : String
  pub secret : String
  pub max_attempts : ℤ
  pub max_backoff_delay : ℤ
  pub use_path_style : Bool
  pub http_client : HttpClient

abbrev or_value : Option ℤ → ℤ → ℤ
or_value none default = default
or_value (some n) default = n

-- `time.Duration(*cfg.MaxBackoffDelay*1000*1000)`: the product is one of `int32`.
unfoldable pub aws_config : Config → AwsConfig
unfolding get_http_client
aws_config cfg = record {
  url = cfg.endpoint;
  signing_region = cfg.region;
  key = cfg.key;
  secret = cfg.secret;
  max_attempts = or_value cfg.max_retry_attempts (pos 10);
  max_backoff_delay = mul32 (mul32 (or_value cfg.max_backoff_delay (pos 20)) (pos 1000)) (pos 1000);
  use_path_style = Bool.true;
  http_client = get_http_client;
}

-- The type `s3Service`.
pub record S3Service : Type 0 where
  pub client : AwsConfig
  pub cfg : Config
  pub http_cli : HttpClient

-- `config.LoadDefaultConfig` decides whether there is a client.
unfoldable pub new_s3_service : (AwsConfig → Option Err) → Config → Result S3Service
new_s3_service load cfg = elim (load (aws_config cfg)) [
  | some e ↦ err e
  | none ↦ ok (record { client = aws_config cfg; cfg = cfg; http_cli = get_http_client })
]

unfoldable pub new_s3_bucket_service : (AwsConfig → Option Err) → Config → Result S3Service
new_s3_bucket_service load cfg = elim (load (aws_config cfg)) [
  | some e ↦ err e
  | none ↦ ok (record { client = aws_config cfg; cfg = cfg; http_cli = get_http_client })
]

abbrev with_scheme : Config → Config
with_scheme cfg =
    if starts_with cfg.endpoint "http"
    then cfg
    else record cfg { endpoint = "http://" <> cfg.endpoint }

unfoldable pub new_bucket : (AwsConfig → Option Err) → Config → Result S3Service
unfolding new_s3_bucket_service
new_bucket load cfg =
    if cfg.type == "" || cfg.type == "s3"
    then new_s3_bucket_service load (with_scheme cfg)
    else err (new_err ("not support this s3 type: " <> cfg.type))

-- `NewStorage`: the same service, behind the interface for objects.
unfoldable pub new_storage : (AwsConfig → Option Err) → Config → Result S3Service
unfolding new_s3_service
new_storage load cfg =
    if cfg.type == "" || cfg.type == "s3"
    then new_s3_service load (with_scheme cfg)
    else err (new_err ("not support this s3 type: " <> cfg.type))
