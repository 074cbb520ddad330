-- ===== src/Base/Int.antt =====
-- Signed integers over the native numbers: Go's `int`, and `int32` with its wrap-around. The
-- library's ℤ stands on the unary numbers.
use automq_operator.Base.Tests.{ltb, nat_eq, if◌then◌else◌, Bool-cases}
use automq_operator.Base.Lists.{length, In}
use Prim.Native.Nat.{ℕ, zero, suc, ◌+◌, ◌-◌, ◌*◌, ◌%◌, ◌^◌, ◌≤◌, ◌<◌}
use mathlib.Core.Path.{◌≡◌, refl, ap, ◌∙◌}
use mathlib.Core.Logic.{◌↔◌, ◌⊎◌, inl, inr, ◌≢◌}
use mathlib.Core.Bool.{Bool, true}
use mathlib.Core.List.{List, [], ◌∷◌}
use native.Mathlib.Omega.{arith}

-- `negsuc n` is -(n + 1).
pub data ℤ : Type 0 where
  pos : ℕ → ℤ
  negsuc : ℕ → ℤ

abbrev pub pos_part : ℤ → ℕ
pos_part (pos n) = n
pos_part (negsuc n) = 0

abbrev pub neg_part : ℤ → ℕ
neg_part (pos n) = 0
neg_part (negsuc n) = suc n

-- a - b, as an integer
abbrev pub sub_ℕ : ℕ → ℕ → ℤ
sub_ℕ a b = if ltb a b then negsuc (b - a - 1) else pos (a - b)

infixl 65 ◌+ℤ◌
infix 50 ◌≤ℤ◌ ◌<ℤ◌
unfoldable pub ◌+ℤ◌ : ℤ → ℤ → ℤ
a +ℤ b = sub_ℕ (pos_part a + pos_part b) (neg_part a + neg_part b)

abbrev pub ◌≤ℤ◌ : ℤ → ℤ → Type 0
a ≤ℤ b = pos_part a + neg_part b ≤ pos_part b + neg_part a

abbrev pub ◌<ℤ◌ : ℤ → ℤ → Type 0
a <ℤ b = pos_part a + neg_part b < pos_part b + neg_part a

abbrev pub ltb_ℤ : ℤ → ℤ → Bool
ltb_ℤ a b = ltb (pos_part a + neg_part b) (pos_part b + neg_part a)

abbrev pub eq_ℤ : ℤ → ℤ → Bool
eq_ℤ a b = nat_eq (pos_part a + neg_part b) (pos_part b + neg_part a)

pub eq_of_parts : (a b : ℤ) → pos_part a + neg_part b ≡ pos_part b + neg_part a → a ≡ b
eq_of_parts a b h = ground arith

pub eq_ℤ_iff : (a b : ℤ) → (eq_ℤ a b ≡ true) ↔ (a ≡ b)
eq_ℤ_iff a b =
    (λ h. eq_of_parts a b (ground arith), λ h. ground (arith, ap pos_part h, ap neg_part h))

pub +ℤ_parts :
    (a b : ℤ)
    → pos_part (a +ℤ b) + neg_part a + neg_part b ≡ neg_part (a +ℤ b) + pos_part a + pos_part b
unfolding ◌+ℤ◌
+ℤ_parts a b = ground arith

-- `i++`
abbrev pub succ : ℤ → ℤ
succ (pos n) = pos (suc n)
succ (negsuc zero) = pos 0
succ (negsuc (suc n)) = negsuc n

pub succ_parts : (a : ℤ) → pos_part (succ a) + neg_part a ≡ suc (pos_part a + neg_part (succ a))
succ_parts (pos n) = omega arith
succ_parts (negsuc zero) = omega arith
succ_parts (negsuc (suc n)) = omega arith

-- The two's complement reading of the low 32 bits: Go's conversion to `int32`.
abbrev pub wrap32 : ℤ → ℤ
wrap32 (pos n) = sub_ℕ ((n + 2 ^ 31) % 2 ^ 32) (2 ^ 31)
wrap32 (negsuc n) = sub_ℕ (2 ^ 31) (suc ((n + 2 ^ 31) % 2 ^ 32))

-- The values of an `int32`.
abbrev pub IsInt32 : ℤ → Type 0
IsInt32 a = (pos_part a < 2 ^ 31) × (neg_part a ≤ 2 ^ 31)

unfoldable pub add32 : ℤ → ℤ → ℤ
add32 a b = wrap32 (a +ℤ b)

infixl 70 ◌*ℤ◌
unfoldable pub ◌*ℤ◌ : ℤ → ℤ → ℤ
a *ℤ b =
    sub_ℕ (pos_part a * pos_part b + neg_part a * neg_part b)
      (pos_part a * neg_part b + neg_part a * pos_part b)

unfoldable pub mul32 : ℤ → ℤ → ℤ
mul32 a b = wrap32 (a *ℤ b)

pub wrap32_of_IsInt32 : (a : ℤ) → IsInt32 a → wrap32 a ≡ a
wrap32_of_IsInt32 (pos n) h = ground arith
wrap32_of_IsInt32 (negsuc n) h = ground arith

pub wrap32-IsInt32 : (a : ℤ) → IsInt32 (wrap32 a)
wrap32-IsInt32 (pos n) = ground arith
wrap32-IsInt32 (negsuc n) = ground arith

-- The values that the counter of `for i := lo; i < hi; i++` takes.
pub count_up : ℕ → ℤ → List ℤ
count_up zero i = []
count_up (suc n) i = i ∷ count_up n (succ i)

unfoldable pub range : ℤ → ℤ → List ℤ
unfolding count_up
range lo hi = count_up (pos_part hi + neg_part lo - (pos_part lo + neg_part hi)) lo

length-count_up : (n : ℕ) (i : ℤ) → length (count_up n i) ≡ n
unfolding count_up
length-count_up zero i = refl
length-count_up (suc n) i = ap suc (length-count_up n (succ i))

pub length-range :
    (lo hi : ℤ) → length (range lo hi) ≡ pos_part hi + neg_part lo - (pos_part lo + neg_part hi)
unfolding range
length-range lo hi = length-count_up _ lo

In-count_up :
    (n : ℕ) (lo i : ℤ)
    → In i (count_up n lo) ↔ ((lo ≤ℤ i) × (pos_part i + neg_part lo < pos_part lo + neg_part i + n))
unfolding count_up
In-count_up zero lo i = (λ h. absurd h, λ h. absurd (omega arith))
In-count_up (suc n) lo i =
    ground (arith, In-count_up n (succ lo) i, succ_parts lo, eq_of_parts i lo)

-- The counter takes exactly the values from `lo` up to, and without, `hi`.
pub In-range : (lo hi i : ℤ) → In i (range lo hi) ↔ ((lo ≤ℤ i) × (i <ℤ hi))
unfolding range
In-range lo hi i = (
  λ m. let (a, b) = (In-count_up _ lo i).0 m in (a, omega arith),
  λ h. (In-count_up _ lo i).1 (h.0, omega arith),
)

pub In-cases : (i : ℤ) (is : List ℤ) → In i is ⊎ ((j : ℤ) → In j is → i ≢ j)
In-cases i [] = inr (λ j m. absurd m)
In-cases i (j ∷ is) = elim (Bool-cases (eq_ℤ i j)) [
  | inl e ↦ inl (inl ((eq_ℤ_iff i j).0 e))
  | inr e ↦ elim (In-cases i is) [
    | inl m ↦ inl (inr m)
    | inr apart ↦
        inr λ k m same. elim m [
          | inl h ↦ cc (e, (eq_ℤ_iff i j).1 (same ∙ h))
          | inr h ↦ apart k h same
        ]
  ]
]
