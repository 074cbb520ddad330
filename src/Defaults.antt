-- ===== src/Defaults.antt =====
-- defaults/zz_generated_bindata.go: `Asset`, which looks a name up in the table of the embedded files.
pub mod Generate
use automq_operator.Base.{String, List, [], ◌∷◌, ◌<>◌, ◌==◌, if◌then◌else◌, nat_eq}
use automq_operator.Kube.Objects.{Result, ok, err, new_err}
use Prim.Native.Char.{code}

-- `strings.Replace(name, "\\", "/", -1)`
canonical_name : String → String
canonical_name String.[] = ""
canonical_name (String.◌∷◌ c s) =
    let rest = canonical_name s in
    if nat_eq (code c) b'\\' then String.◌∷◌ "/" rest else String.◌∷◌ c rest

-- `_bindata`, from the script's text: the functions that read an entry return no error.
abbrev bindata : String → List (String × String)
bindata up_sh = ("defaults/up.sh", up_sh) ∷ []

find_asset : String → String → List (String × String) → Result String
find_asset name key [] = err (new_err ("Asset " <> name <> " not found"))
find_asset name key ((k, text) ∷ rest) = if k == key then ok text else find_asset name key rest

unfoldable pub asset : String → String → Result String
unfolding canonical_name find_asset
asset up_sh name = find_asset name (canonical_name name) (bindata up_sh)
