-- ===== src/Defaults/Generate.antt =====
-- gen/bindata/main.go: the program that generates defaults/zz_generated_bindata.go. The library
-- go-bindata and the logger are parameters.
use automq_operator.Base.{String, Bool, true, Option, none, some, List, [], ◌∷◌, ◌≡◌, refl, map}
use automq_operator.Kube.Objects.{Err}
use automq_operator.Defaults.{bindata}

-- `bindata.Config`, as far as it is set.
pub record BindataConfig : Type 0 where
  pub input : List String
  pub package_name : String
  pub no_compress : Bool
  pub no_mem_copy : Bool
  pub output : String

abbrev pub config : BindataConfig
config = record {
  input = "defaults/up.sh" ∷ [];
  package_name = "defaults";
  no_compress = true;
  no_mem_copy = true;
  output = "defaults/zz_generated_bindata.go";
}

-- What `bindata.Translate` and `logger.Fatal` do to the world; the latter ends the program.
pub record Tools (W : Type 0) : Type 0 where
  pub translate : BindataConfig → W → Option Err × W
  pub fatal : Err → W → W

unfoldable pub after_translate : {W : Type 0} → Tools W → Option Err × W → W
after_translate tools (some e, w) = tools.fatal e w
after_translate tools (none, w) = w

unfoldable pub gen_bin_data : {W : Type 0} → Tools W → W → W
unfolding after_translate
gen_bin_data tools w = after_translate tools (tools.translate config w)

-- The embedded table has an entry for every input, and no other.
bindata-inputs : (text : String) → map (λ (e : String × String). e.0) (bindata text) ≡ config.input
bindata-inputs text = refl
