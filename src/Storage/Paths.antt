-- ===== src/Storage/Paths.antt =====
-- What internal/pkg/storage/s3.go uses of the package `path`: `path.Join`, with `path.Clean`.
pub mod Cleaning
use automq_operator.Base.{
  ℕ, String, Bool, true, false, List, [], ◌∷◌, ◌||◌, ◌==◌, ◌<>◌, if◌then◌else◌, join, nat_eq,
}
use automq_operator.Base.Pieces.{split_on}
use mathlib.Core.List.{reverse}
use Prim.Native.Char.{code}
use Prim.Native.String

abbrev pub slash : ℕ
slash = b'/'

abbrev is_rooted : String → Bool
is_rooted String.[] = false
is_rooted (String.◌∷◌ c s) = nat_eq (code c) slash

-- An element ".." takes the last one away; at the start of a relative path it stays.
abbrev up : Bool → List String → List String
up rooted [] = if rooted then [] else ".." ∷ []
up rooted (top ∷ stack) = if top == ".." then ".." ∷ top ∷ stack else stack

resolve : Bool → List String → String → List String
resolve rooted stack part =
    if part == "" || part == "."
    then stack
    else if part == ".."
    then up rooted stack
    else part ∷ stack

-- The elements read so far stand in `stack`, the last one first.
clean_from : Bool → List String → List String → List String
unfolding resolve
clean_from rooted stack [] = stack
clean_from rooted stack (part ∷ parts) = clean_from rooted (resolve rooted stack part) parts

clean : String → String
unfolding clean_from split_on join
clean path =
    let kept = join (reverse (clean_from (is_rooted path) [] (split_on slash path))) "/" in
    if is_rooted path then "/" <> kept else if kept == "" then "." else kept

-- The buffer of `path.Join`: a slash goes before every element once there is text.
join_from : String → List String → String
join_from buf [] = buf
join_from buf (e ∷ es) = join_from (if buf == "" then e else buf <> "/" <> e) es

unfoldable pub path_join : List String → String
unfolding join_from clean
path_join es = let buf = join_from "" es in if buf == "" then "" else clean buf
