-- ===== src/Storage/Rewrite/ReadsBack.antt =====
-- The rewritten address of an object names the object in the target bucket.
use automq_operator.Base.{
  ℕ, String, some, List, [], ◌∷◌, ◌≡◌, ◌≢◌, refl, ap, ◌∙◌, ◌<>◌, ◌==◌, arith, Bool-cases, inl, inr,
  length,
}
use automq_operator.Base.Pieces.{occurrences, occurrences-append}
use automq_operator.Kube.Objects.{ok}
use automq_operator.Storage.Address.RoundTrip.{LacksSlash, get_bucket_key_round_trip}
use automq_operator.Storage.Paths.{slash}
use automq_operator.Storage.Paths.Cleaning.{IsName, append-ne-nil, path_join-names}
use automq_operator.Storage.Rewrite.{
  Rewriter, answered, get_elem?, target_bucket, rewritten, head_object_from_address, pick,
  from_address, head_object_from_new_uris,
}

LacksSlash-of_occurrences : (s : String) → occurrences slash s ≡ 0 → LacksSlash s
LacksSlash-of_occurrences String.[] h = tt
LacksSlash-of_occurrences (String.◌∷◌ c s) h =
    (ground arith, LacksSlash-of_occurrences s (ground arith))

abbrev underscore : ℕ
underscore = b'_'

ne_of_occurrences : (x : ℕ) (s t : String) → occurrences x t ≡ 0 → occurrences x s ≢ 0 → s ≢ t
ne_of_occurrences x s t h n e = n (ap (occurrences x) e ∙ h)

suffixed-IsName :
    (bucket suffix : String)
    → IsName bucket
    → occurrences slash suffix ≡ 0
    → IsName (bucket <> "_" <> suffix)
suffixed-IsName bucket suffix h k =
    let marked : occurrences underscore (bucket <> "_" <> suffix) ≢ 0 = λ e. absurd (
      omega (
        arith,
        e,
        occurrences-append underscore bucket ("_" <> suffix),
        occurrences-append underscore "_" suffix,
      )) in
    (
      omega (
        arith,
        h.0,
        k,
        occurrences-append slash bucket ("_" <> suffix),
        occurrences-append slash "_" suffix,
      ),
      append-ne-nil bucket ("_" <> suffix) h.1,
      ne_of_occurrences underscore _ "." refl marked,
      ne_of_occurrences underscore _ ".." refl marked,
    )

target-IsName :
    (bucket insert_bucket : String)
    → IsName bucket
    → occurrences slash insert_bucket ≡ 0
    → IsName (target_bucket bucket insert_bucket)
target-IsName bucket insert_bucket h k = elim (Bool-cases (insert_bucket == "")) [
  | inl e ↦ rw e h
  | inr e ↦ rw e (suffixed-IsName bucket insert_bucket h k)
]

abbrev pub new_address : String → String → String → String
new_address uri bucket key = "http://" <> uri <> "/" <> bucket <> "/" <> key

module _ {W : Type 0} (env : Rewriter W) where
  pick-some :
      (uris : List String) (uri : String) (i : ℕ) (w w' : W)
      → env.intn (length uris) w ≡ (i, w')
      → get_elem? uris i ≡ some uri
      → pick env uris w ≡ (some uri, w')
  unfolding pick
  pick-some [] uri i w w' drawn got = cc
  pick-some (u ∷ uris) uri i w w' drawn got = rw (drawn, got) refl

  -- If the address's path is a slash, a bucket, a slash and a key, and the address that is drawn from
  -- the list is a plain name, such as a host with a port, then without an object to insert the new
  -- address has, behind the one drawn, the target bucket and the key: the bucket itself, or the bucket,
  -- an underscore and the bucket to insert. Where the new address's path is read as such, the bucket
  -- and the key that are read back from it are the target bucket and the key.
  pub rewritten_reads_back :
      (address bucket key insert_bucket uri : String) (uris : List String) (i : ℕ) (w w' : W)
      → env.parse address ≡ ok ("/" <> bucket <> "/" <> key)
      → IsName bucket
      → IsName key
      → IsName uri
      → occurrences slash insert_bucket ≡ 0
      → env.intn (length uris) w ≡ (i, w')
      → get_elem? uris i ≡ some uri
      → env.parse (new_address uri (target_bucket bucket insert_bucket) key)
        ≡ ok ("/" <> target_bucket bucket insert_bucket <> "/" <> key)
      → (head_object_from_new_uris env address insert_bucket "" uris w
          ≡ (answered (ok (new_address uri (target_bucket bucket insert_bucket) key)), w'))
        × (head_object_from_address env (new_address uri (target_bucket bucket insert_bucket) key)
            ≡ ok (target_bucket bucket insert_bucket, key))
  unfolding head_object_from_new_uris from_address head_object_from_address rewritten
  rewritten_reads_back address bucket key insert_bucket uri uris i w w' parsed hb hk hu hi drawn got
        parsed' =
      let target = target_bucket bucket insert_bucket in
      let ht : IsName target = target-IsName bucket insert_bucket hb hi in
      (
        rw
            (
              get_bucket_key_round_trip env.parse address bucket key parsed
                  (LacksSlash-of_occurrences bucket hb.0) (LacksSlash-of_occurrences key hk.0) hb.1
                  hk.1,
              pick-some uris uri i w w' drawn got,
              path_join-names uri target "" key hu ht hk (inr refl),
            )
            refl,
        get_bucket_key_round_trip env.parse (new_address uri target key) target key parsed'
            (LacksSlash-of_occurrences target ht.0) (LacksSlash-of_occurrences key hk.0) ht.1 hk.1,
      )
