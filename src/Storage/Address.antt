-- ===== src/Storage/Address.antt =====
-- internal/pkg/storage/s3.go: `getBucketKeyFromS3`, with what it uses of the packages `path` and
-- `strings`.
pub mod RoundTrip
use automq_operator.Base.{String, Bool, true, false, ◌&&◌, nat_eq, if◌then◌else◌, ◌==◌}
use automq_operator.Kube.Objects.{Result, ok, err, new_err}
use Prim.Native.Char.{Char, code}
use Prim.Native.String

abbrev pub is_slash : Char → Bool
is_slash c = nat_eq (code c) 47

abbrev pub is_empty : String → Bool
is_empty String.[] = true
is_empty (String.◌∷◌ c s) = false

-- `path.Split`: the text up to the last slash, with it, and the rest.
unfoldable pub split : String → String × String
split String.[] = ("", "")
split (String.◌∷◌ c s) =
    let (dir, file) = split s in
    if is_empty dir
    then (if is_slash c then ("/", file) else ("", String.◌∷◌ c file))
    else (String.◌∷◌ c dir, file)

-- `strings.Trim(s, "/")`
unfoldable pub trim_right : String → String
trim_right String.[] = ""
trim_right (String.◌∷◌ c s) =
    let rest = trim_right s in if is_empty rest && is_slash c then "" else String.◌∷◌ c rest

unfoldable pub trim_left : String → String
trim_left String.[] = ""
trim_left (String.◌∷◌ c s) = let rest = trim_left s in if is_slash c then rest else String.◌∷◌ c s

unfoldable pub trim : String → String
unfolding trim_left trim_right
trim s = trim_left (trim_right s)

from_path : String → Result (String × String)
unfolding split trim
from_path p =
    let (dir, file) = split p in
    if is_empty p
    then err (new_err "path is empty")
    else if is_empty dir
    then err (new_err "path is invalid")
    else if is_empty file
    then err (new_err "path is invalid")
    else ok (trim dir, file)

from_url : Result String → Result (String × String)
unfolding from_path
from_url (err e) = err e
from_url (ok p) = from_path p

-- `parse` is `url.Parse`, of whose answer only the path is read.
unfoldable pub get_bucket_key_from_s3 : (String → Result String) → String → Result (String × String)
unfolding from_url
get_bucket_key_from_s3 parse address = from_url (parse address)
