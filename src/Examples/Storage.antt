-- ===== src/Examples/Storage.antt =====
-- The S3 client's configuration, addresses and listings at concrete inputs.
use automq_operator.Base.{
  true, ℕ, ◌+◌, ◌%◌, ◌==◌, false, if◌then◌else◌, String, none, some, [], ◌∷◌, ◌≡◌, ◌≢◌, ◌↔◌, ◌≤◌,
  ◌*◌, refl, arith, eq_iff,
}
use automq_operator.Base.Int.{pos}
use automq_operator.Kube.Objects.{Result, ok, err, new_err}
use automq_operator.Storage.{Config, aws_config, S3Service, get_http_client}
use automq_operator.Storage.Backoff.{backoff_exact}
use automq_operator.Storage.Address.{get_bucket_key_from_s3}
use automq_operator.Storage.Address.RoundTrip.{get_bucket_key_round_trip}
use automq_operator.Storage.Operations.{ListObjectsOutput, S3Api, list_objects}
use automq_operator.Storage.Rewrite.{
  Rewriter, answered, head_object_from_address, head_object_from_new_uris,
}
use automq_operator.Storage.Rewrite.ReadsBack.{rewritten_reads_back}

abbrev config : Config
config = record {
  type = "s3";
  key = "admin";
  secret = "minio123";
  region = "us-east-1";
  endpoint = "http://minio:9000";
  max_backoff_delay = some (pos 20000);
  max_retry_attempts = none;
}

-- The 20 seconds that the comment names do not fit.
backoff_exact_example :
    ((aws_config config).max_backoff_delay ≡ pos (20000 * 1000000)) ↔ (20000 ≤ 2147)
backoff_exact_example = backoff_exact config 20000 refl

abbrev path_of : String → Result String
path_of address = ok "/ko3/log"

bucket_not_empty : ◌≢◌ {A = String} "ko3" ""
bucket_not_empty = ground (arith, eq_iff "ko3" "")

key_not_empty : ◌≢◌ {A = String} "log" ""
key_not_empty = ground (arith, eq_iff "log" "")

get_bucket_key_round_trip_example :
    get_bucket_key_from_s3 path_of "http://minio:9000/ko3/log" ≡ ok ("ko3", "log")
get_bucket_key_round_trip_example =
    get_bucket_key_round_trip path_of "http://minio:9000/ko3/log" "ko3" "log" refl
      (refl, (refl, (refl, tt))) (refl, (refl, (refl, tt))) bucket_not_empty key_not_empty

-- The page of the objects, which is truncated, and the page of the prefixes, which is not.
abbrev objects_page : ListObjectsOutput
objects_page = record {
  contents = some "a/log" ∷ some "b" ∷ [];
  common_prefixes = [];
  is_truncated = some true;
  next_marker = none;
}

abbrev prefixes_page : ListObjectsOutput
prefixes_page = record {
  contents = [];
  common_prefixes = some "a/" ∷ [];
  is_truncated = some false;
  next_marker = none;
}

-- A store with one bucket, whose listing of objects takes more than a page.
abbrev store : S3Api (Unit {0})
store = record {
  create_bucket = λ cfg bucket w. (none, w);
  delete_bucket = λ cfg bucket w. (none, w);
  list_buckets = λ cfg w. (ok (some "ko3" ∷ []), w);
  put_object = λ cfg bucket key body metadata w. (none, w);
  get_object = λ cfg bucket key w. (err (new_err "no such key"), w);
  head_object = λ cfg bucket key w. (none, w);
  delete_object = λ cfg bucket key w. (none, w);
  list_objects = λ cfg bucket prefix delimiter w.
      (ok (elim delimiter [ none ↦ objects_page | some d ↦ prefixes_page ]), w);
}

abbrev client : S3Service
client = record { client = aws_config config; cfg = config; http_cli = get_http_client }

-- An address is its path behind the host; the number that is drawn is the world.
abbrev rewriter : Rewriter ℕ
rewriter = record {
  parse =
      λ address. if address == "http://minio:9000/ko3/log" then ok "/ko3/log" else ok "/ko3_v1/log";
  intn = λ n w. (w % n, w + 1);
}

ne : (s t : String) → (s == t) ≡ false → s ≢ t
ne s t h = ground (arith, eq_iff s t)

rewritten_reads_back_example :
    (head_object_from_new_uris rewriter "http://minio:9000/ko3/log" "v1" ""
        ("minio-0:9000" ∷ "minio-1:9000" ∷ [])
        1
      ≡ (answered (ok "http://minio-1:9000/ko3_v1/log"), 2))
    × (head_object_from_address rewriter "http://minio-1:9000/ko3_v1/log" ≡ ok ("ko3_v1", "log"))
rewritten_reads_back_example =
    rewritten_reads_back rewriter "http://minio:9000/ko3/log" "ko3" "log" "v1" "minio-1:9000"
      ("minio-0:9000" ∷ "minio-1:9000" ∷ []) 1 1 2 refl
      (refl, ne "ko3" "" refl, ne "ko3" "." refl, ne "ko3" ".." refl)
      (refl, ne "log" "" refl, ne "log" "." refl, ne "log" ".." refl)
      (refl, ne "minio-1:9000" "" refl, ne "minio-1:9000" "." refl, ne "minio-1:9000" ".." refl)
      refl refl refl refl
