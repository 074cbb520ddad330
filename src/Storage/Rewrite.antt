-- ===== src/Storage/Rewrite.antt =====
-- internal/pkg/storage/s3.go: `HeadObjectFromAddress` and `HeadObjectFromNewURIs`.
pub mod ReadsBack
use automq_operator.Base.{
  ℕ, zero, suc, String, Option, none, some, List, [], ◌∷◌, ◌==◌, ◌<>◌, if◌then◌else◌, length,
}
use automq_operator.Kube.Objects.{Result, ok, err}
use automq_operator.Storage.Address.{get_bucket_key_from_s3}
use automq_operator.Storage.Paths.{path_join}

-- `url.Parse`, for the path, and `rand.Intn`, whose source of numbers is in the world.
pub record Rewriter (W : Type 0) : Type 0 where
  pub parse : String → Result String
  pub intn : ℕ → W → ℕ × W

-- `rand.Intn(0)` and an index that is out of range panic.
pub data Rewritten : Type 0 where
  answered : Result String → Rewritten
  panicked : Rewritten

abbrev pub get_elem? : List String → ℕ → Option String
get_elem? [] i = none
get_elem? (x ∷ xs) zero = some x
get_elem? (x ∷ xs) (suc i) = get_elem? xs i

abbrev pub target_bucket : String → String → String
target_bucket bucket insert_bucket =
    if insert_bucket == "" then bucket else bucket <> "_" <> insert_bucket

rewritten : String → String → String → String → Option String → Rewritten
unfolding path_join
rewritten bucket object insert_bucket insert_object none = panicked
rewritten bucket object insert_bucket insert_object (some uri) = answered (
    ok (
      "http://"
      <> path_join (uri ∷ target_bucket bucket insert_bucket ∷ insert_object ∷ object ∷ [])))

module _ {W : Type 0} (env : Rewriter W) where
  unfoldable pub head_object_from_address : String → Result (String × String)
  unfolding get_bucket_key_from_s3
  head_object_from_address address = get_bucket_key_from_s3 env.parse address

  pick : List String → W → Option String × W
  pick [] w = (none, w)
  pick (uri ∷ uris) w =
      let (i, w') = env.intn (suc (length uris)) w in (get_elem? (uri ∷ uris) i, w')

  from_address : String → String → List String → Result (String × String) → W → Rewritten × W
  unfolding pick rewritten
  from_address insert_bucket insert_object uris (err e) w = (answered (err e), w)
  from_address insert_bucket insert_object uris (ok (bucket, object)) w =
      let (uri, w') = pick uris w in (rewritten bucket object insert_bucket insert_object uri, w')

  unfoldable pub head_object_from_new_uris :
      String → String → String → List String → W → Rewritten × W
  unfolding from_address head_object_from_address
  head_object_from_new_uris address insert_bucket insert_object uris w =
      from_address insert_bucket insert_object uris (head_object_from_address address) w
