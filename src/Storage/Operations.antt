-- ===== src/Storage/Operations.antt =====
-- internal/pkg/storage/s3.go: the operations on buckets and objects. `S3Api` is the client of the SDK;
-- a name that it answers is a pointer, `none` for nil.
pub mod Listing
use automq_operator.Base.{
  ℕ, String, Bool, true, false, Option, none, some, List, [], ◌∷◌, ◌++◌, ◌≡◌, ◌↔◌, refl, map,
  length, ◌==◌, if◌then◌else◌, In, inl, inr, ◌≢◌, arith,
}
use automq_operator.Base.Int.{pos}
use automq_operator.Base.Decimal.{show}
use automq_operator.Kube.Objects.{Err, Result, ok, err, Dict}
use automq_operator.Storage.{AwsConfig, S3Service}

-- A page of a listing: the keys of the contents, the common prefixes, whether names are left out at the
-- end, and the name to go on behind.
pub record ListObjectsOutput : Type 0 where
  pub contents : List (Option String)
  pub common_prefixes : List (Option String)
  pub is_truncated : Option Bool
  pub next_marker : Option String

pub record S3Api (W : Type 0) : Type 0 where
  pub create_bucket : AwsConfig → (bucket : String) → W → Option Err × W
  pub delete_bucket : AwsConfig → (bucket : String) → W → Option Err × W
  pub list_buckets : AwsConfig → W → Result (List (Option String)) × W
  pub put_object :
      AwsConfig → (bucket key : String) (body : List ℕ) (metadata : Dict) → W → Option Err × W
  -- the whole body, as `io.ReadAll` reads it
  pub get_object : AwsConfig → (bucket key : String) → W → Result (List ℕ) × W
  pub head_object : AwsConfig → (bucket key : String) → W → Option Err × W
  pub delete_object : AwsConfig → (bucket key : String) → W → Option Err × W
  pub list_objects :
      AwsConfig
      → (bucket : String) (prefix delimiter : Option String) → W
      → Result ListObjectsOutput × W

-- How the loops end: `*p` of a nil pointer panics.
pub data Listed : Type 0 where
  listed : List String → Listed
  failed : Err → Listed
  panicked : Listed

-- `for _, p := range ps { l = append(l, *p) }`
collect : List (Option String) → List String → Listed
collect [] l = listed l
collect (none ∷ ps) l = panicked
collect (some s ∷ ps) l = collect ps (l ++ s ∷ [])

-- `if prefix != "" { ptrPrefix = &prefix }`
abbrev pub prefix_of : String → Option String
prefix_of prefix = if prefix == "" then none else some prefix

names_of : Result (List (Option String)) → Listed
unfolding collect
names_of (err e) = failed e
names_of (ok ps) = collect ps []

-- The code reads neither `IsTruncated` nor `NextMarker`.
contents_of : Result ListObjectsOutput → Listed
unfolding collect
contents_of (err e) = failed e
contents_of (ok resp) = collect resp.contents []

prefixes_of : Result ListObjectsOutput → Listed
unfolding collect
prefixes_of (err e) = failed e
prefixes_of (ok resp) = collect resp.common_prefixes []

module _ {W : Type 0} (api : S3Api W) where
  unfoldable pub mk_bucket : S3Service → String → W → Option Err × W
  mk_bucket s bucket w = api.create_bucket s.client bucket w

  unfoldable pub upload : S3Service → String → String → List ℕ → W → Option Err × W
  upload s bucket key body w =
      api.put_object s.client bucket key body (("Content-Length", show (pos (length body))) ∷ []) w

  unfoldable pub download : S3Service → String → String → W → Result (List ℕ) × W
  download s bucket key w = api.get_object s.client bucket key w

  -- The answer, and the error.
  unfoldable pub head_object : S3Service → String → String → W → (Bool × Option Err) × W
  head_object s bucket key w =
      let (e, w') = api.head_object s.client bucket key w in
      (elim e [ none ↦ (true, none) | some x ↦ (false, some x) ], w')

  unfoldable pub list_objects : S3Service → String → String → W → Listed × W
  unfolding contents_of
  list_objects s bucket prefix w =
      let (got, w') = api.list_objects s.client bucket (prefix_of prefix) none w in
      (contents_of got, w')

  unfoldable pub list_prefix : S3Service → String → String → W → Listed × W
  unfolding prefixes_of
  list_prefix s bucket prefix w =
      let (got, w') = api.list_objects s.client bucket (prefix_of prefix) (some "/") w in
      (prefixes_of got, w')

  unfoldable pub delete_object : S3Service → String → String → W → Option Err × W
  delete_object s bucket key w = api.delete_object s.client bucket key w

  unfoldable pub list_buckets : S3Service → W → Listed × W
  unfolding names_of
  list_buckets s w = let (got, w') = api.list_buckets s.client w in (names_of got, w')

  unfoldable pub delete_bucket : S3Service → String → W → Option Err × W
  delete_bucket s bucket w = api.delete_bucket s.client bucket w
