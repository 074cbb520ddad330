-- ===== src/Storage/Address/RoundTrip.antt =====
-- The bucket and the key are read back from the path that they form.
use automq_operator.Base.{String, false, ◌≡◌, ◌≢◌, refl, sym, ap, ◌∙◌, ◌<>◌, arith}
use automq_operator.Kube.Objects.{Result, ok}
use automq_operator.Storage.Address.{
  is_slash, is_empty, split, trim_right, trim_left, trim, from_path, from_url,
  get_bucket_key_from_s3,
}
use text.Mathlib.TextLemmas.{cons-append, nil-append}

abbrev pub LacksSlash : String → Type 0
LacksSlash String.[] = Unit {0}
LacksSlash (String.◌∷◌ c s) = (is_slash c ≡ false) × LacksSlash s

split-file : (f : String) → LacksSlash f → split f ≡ ("", f)
unfolding split
split-file String.[] h = refl
split-file (String.◌∷◌ c f) (h, hs) = rw (split-file f hs, h)

slash-not_empty : (a : String) → is_empty (a <> "/") ≡ false
slash-not_empty String.[] = refl
slash-not_empty (String.◌∷◌ c a) = rw cons-append

slash_cons : (s : String) → "/" <> s ≡ String.◌∷◌ "/" s
slash_cons s = cons-append "/" "" s ∙ ap (String.◌∷◌ "/") (nil-append s)

split-append : (a f : String) → LacksSlash f → split (a <> "/" <> f) ≡ (a <> "/", f)
unfolding split
split-append String.[] f h = rw (nil-append, slash_cons, split-file f h)
split-append (String.◌∷◌ c a) f h =
    rw (cons-append, split-append a f h, slash-not_empty a) (rw cons-append)

trim_right-slash : (a : String) → LacksSlash a → trim_right (a <> "/") ≡ a
unfolding trim_right
trim_right-slash String.[] h = refl
trim_right-slash (String.◌∷◌ c a) (h, hs) =
    rw (cons-append, trim_right-slash a hs, h) (ground arith)

trim_left-kept : (a : String) → LacksSlash a → trim_left a ≡ a
unfolding trim_left
trim_left-kept String.[] h = refl
trim_left-kept (String.◌∷◌ c a) (h, hs) = rw h

trim-slashes : (a : String) → LacksSlash a → a ≢ "" → trim (String.◌∷◌ "/" (a <> "/")) ≡ a
unfolding trim trim_right trim_left
trim-slashes String.[] h n = absurd (n refl)
trim-slashes (String.◌∷◌ c a) h n =
    rw (trim_right-slash (String.◌∷◌ c a) h) (trim_left-kept (String.◌∷◌ c a) h)

not_empty : (s : String) → s ≢ "" → is_empty s ≡ false
not_empty String.[] h = absurd (h refl)
not_empty (String.◌∷◌ c s) h = refl

-- If a URL's path is a slash, a bucket, a slash and a key, of which neither the bucket nor the key is
-- empty or holds a slash, then the bucket and the key are read back from the address.
pub get_bucket_key_round_trip :
    (parse : String → Result String) (address bucket key : String)
    → parse address ≡ ok ("/" <> bucket <> "/" <> key)
    → LacksSlash bucket
    → LacksSlash key
    → bucket ≢ ""
    → key ≢ ""
    → get_bucket_key_from_s3 parse address ≡ ok (bucket, key)
unfolding get_bucket_key_from_s3 from_url from_path
get_bucket_key_round_trip parse address bucket key e hb hk nb nk =
    let path : "/" <> bucket <> "/" <> key ≡ String.◌∷◌ "/" bucket <> "/" <> key =
      slash_cons (bucket <> "/" <> key) ∙ sym (cons-append "/" bucket ("/" <> key)) in
    let dir : String.◌∷◌ "/" bucket <> "/" ≡ String.◌∷◌ "/" (bucket <> "/") =
      cons-append "/" bucket "/" in
    rw
      (
        e,
        path,
        split-append (String.◌∷◌ "/" bucket) key hk,
        dir,
        trim-slashes bucket hb nb,
        not_empty key nk,
      )
      (rw (cons-append "/" bucket ("/" <> key)))
