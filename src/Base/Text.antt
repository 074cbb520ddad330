-- ===== src/Base/Text.antt =====
-- What the code uses of the packages `strings`, `fmt` and `strconv`, but for decimal text.
use Prim.Native.String.{String}
use Prim.Native.String
use mathlib.Core.Bool.{Bool, true, false}
use mathlib.Core.Option.{none, some}
use mathlib.Core.List.{List, [], ◌∷◌}
use text.Mathlib.Text.{find?}

-- `+` on strings
infixr 65 ◌<>◌
abbrev pub ◌<>◌ : String → String → String
s <> t = String.◌++◌ s t

-- `strings.Join(l, sep)`
unfoldable pub join : List String → String → String
join [] sep = ""
join (s ∷ []) sep = s
join (s ∷ t ∷ rest) sep = s <> sep <> join (t ∷ rest) sep

-- `strings.Contains(s, t)`
unfoldable pub contains : String → String → Bool
contains s t = elim (find? s t) [ none ↦ false | some i ↦ true ]

-- the verb `%t`
abbrev pub show_bool : Bool → String
show_bool true = "true"
show_bool false = "false"
