-- ===== src/Base/Pieces.antt =====
-- What the code uses of the package `strings` on separators of one character.
use automq_operator.Base.Tests.{nat_eq, if◌then◌else◌, Bool-cases}
use automq_operator.Base.Lists.{length}
use automq_operator.Base.Text.{◌<>◌}
use Prim.Native.Char.{Char, code}
use Prim.Native.Nat.{ℕ, suc, ◌+◌}
use Prim.Native.String.{String}
use mathlib.Core.Path.{◌≡◌, refl, ap, ◌∙◌}
use mathlib.Core.Logic.{◌≢◌, inl, inr}
use mathlib.Core.List.{List, [], ◌∷◌}
use native.Mathlib.Omega.{arith}
use text.Mathlib.TextLemmas.{cons-append, nil-append}

abbrev pub colon : ℕ
colon = b':'

abbrev pub letter_v : ℕ
letter_v = b'v'

abbrev pub extend_first : Char → List String → List String
extend_first c [] = String.◌∷◌ c "" ∷ []
extend_first c (p ∷ ps) = String.◌∷◌ c p ∷ ps

-- `strings.Split(s, sep)`
unfoldable pub split_on : ℕ → String → List String
split_on sep String.[] = "" ∷ []
split_on sep (String.◌∷◌ c s) =
    let rest = split_on sep s in if nat_eq (code c) sep then "" ∷ rest else extend_first c rest

-- `strings.ReplaceAll(s, c, "")`
unfoldable pub remove : ℕ → String → String
remove x String.[] = ""
remove x (String.◌∷◌ c s) =
    let rest = remove x s in if nat_eq (code c) x then rest else String.◌∷◌ c rest

-- How often a character occurs.
abbrev pub occurrences : ℕ → String → ℕ
occurrences x String.[] = 0
occurrences x (String.◌∷◌ c s) = let n = occurrences x s in if nat_eq (code c) x then suc n else n

pub split_on-ne-nil : (sep : ℕ) (s : String) → split_on sep s ≢ []
unfolding split_on
split_on-ne-nil sep String.[] e = cc
split_on-ne-nil sep (String.◌∷◌ c s) e = ground arith

length-extend_first :
    (c : Char) (ps : List String) → ps ≢ [] → length (extend_first c ps) ≡ length ps
length-extend_first c [] h = absurd (h refl)
length-extend_first c (p ∷ ps) h = refl

-- There is one piece more than there are separators.
pub length-split_on : (sep : ℕ) (s : String) → length (split_on sep s) ≡ suc (occurrences sep s)
unfolding split_on
length-split_on sep String.[] = refl
length-split_on sep (String.◌∷◌ c s) = elim (Bool-cases (nat_eq (code c) sep)) [
  | inl e ↦ rw e (ap suc (length-split_on sep s))
  | inr e ↦ rw e (length-extend_first c _ (split_on-ne-nil sep s) ∙ length-split_on sep s)
]

pub split_on-lacks : (sep : ℕ) (s : String) → occurrences sep s ≡ 0 → split_on sep s ≡ s ∷ []
unfolding split_on
split_on-lacks sep String.[] h = refl
split_on-lacks sep (String.◌∷◌ c s) h = elim (Bool-cases (nat_eq (code c) sep)) [
  | inl e ↦ ground arith
  | inr e ↦ rw (e, split_on-lacks sep s (ground arith)) refl
]

pub occurrences-append :
    (x : ℕ) (a b : String) → occurrences x (a <> b) ≡ occurrences x a + occurrences x b
occurrences-append x String.[] b = rw nil-append (omega arith)
occurrences-append x (String.◌∷◌ c a) b = rw cons-append (ground (arith, occurrences-append x a b))

-- The first piece ends at the first separator.
pub split_on-append :
    (c : Char) (a b : String)
    → occurrences (code c) a ≡ 0
    → split_on (code c) (a <> String.◌∷◌ c b) ≡ a ∷ split_on (code c) b
unfolding split_on
split_on-append c String.[] b h = rw nil-append (ground arith)
split_on-append c (String.◌∷◌ d a) b h = elim (Bool-cases (nat_eq (code d) (code c))) [
  | inl e ↦ ground arith
  | inr e ↦ rw (cons-append, e, split_on-append c a b (ground arith)) refl
]

pub separator_cons : (c : Char) (b : String) → String.◌∷◌ c "" <> b ≡ String.◌∷◌ c b
separator_cons c b = cons-append c "" b ∙ ap (String.◌∷◌ c) (nil-append b)

-- A text with one separator has the two pieces around it.
pub split_on-two :
    (a b : String)
    → occurrences colon a ≡ 0
    → occurrences colon b ≡ 0
    → split_on colon (a <> ":" <> b) ≡ a ∷ b ∷ []
split_on-two a b h k =
    rw (separator_cons ":" b)
      (split_on-append ":" a b h ∙ ap (λ l. a ∷ l) (split_on-lacks colon b k))
