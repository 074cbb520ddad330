-- ===== src/Base/Decimal.antt =====
-- Decimal text: the verb `%d` of `fmt.Sprintf`, and `strconv.Itoa`.
use automq_operator.Base.Tests.{ltb, nat_eq, if◌then◌else◌, Bool-cases}
use automq_operator.Base.Int.{ℤ, pos, negsuc}
use Prim.Native.Nat.{ℕ, zero, suc, ◌+◌, ◌-◌, ◌*◌, ◌/◌, ◌%◌, ◌<◌}
use Prim.Native.Char.{Char, code}
use Prim.Native.String.{String, [], ◌∷◌}
use mathlib.Core.Path.{◌≡◌, refl, ap, sym, ◌∙◌}
use mathlib.Core.Logic.{inl, inr, ◌≢◌}
use mathlib.Core.Bool.{Bool, true, false, ◌&&◌, false≢true}
use native.Mathlib.Omega.{arith}

digit : ℕ → Char
digit zero = "0"
digit (suc zero) = "1"
digit (suc (suc zero)) = "2"
digit (suc (suc (suc zero))) = "3"
digit (suc (suc (suc (suc zero)))) = "4"
digit (suc (suc (suc (suc (suc zero))))) = "5"
digit (suc (suc (suc (suc (suc (suc zero)))))) = "6"
digit (suc (suc (suc (suc (suc (suc (suc zero))))))) = "7"
digit (suc (suc (suc (suc (suc (suc (suc (suc zero)))))))) = "8"
digit (suc (suc (suc (suc (suc (suc (suc (suc (suc n))))))))) = "9"

code-digit : (n : ℕ) → n < 10 → code (digit n) ≡ 48 + n
unfolding digit
code-digit zero h = refl
code-digit (suc zero) h = refl
code-digit (suc (suc zero)) h = refl
code-digit (suc (suc (suc zero))) h = refl
code-digit (suc (suc (suc (suc zero)))) h = refl
code-digit (suc (suc (suc (suc (suc zero))))) h = refl
code-digit (suc (suc (suc (suc (suc (suc zero)))))) h = refl
code-digit (suc (suc (suc (suc (suc (suc (suc zero))))))) h = refl
code-digit (suc (suc (suc (suc (suc (suc (suc (suc zero)))))))) h = refl
code-digit (suc (suc (suc (suc (suc (suc (suc (suc (suc zero))))))))) h = refl
code-digit (suc (suc (suc (suc (suc (suc (suc (suc (suc (suc n)))))))))) h = absurd (omega arith)

-- Each round puts one digit in front; `suc n` rounds are enough for `n`.
digits_from : ℕ → ℕ → String → String
digits_from zero n acc = acc
digits_from (suc fuel) n acc =
    let more = digits_from fuel (n / 10) (digit (n % 10) ∷ acc) in
    if ltb n 10 then digit (n % 10) ∷ acc else more

unfoldable pub show_ℕ : ℕ → String
unfolding digits_from digit
show_ℕ n = digits_from (suc n) n ""

unfoldable pub show : ℤ → String
unfolding show_ℕ
show (pos n) = show_ℕ n
show (negsuc n) = "-" ∷ show_ℕ (suc n)

-- The number that a text of digits stands for, read after the number `v`.
value : ℕ → String → ℕ
value v [] = v
value v (c ∷ s) = value (v * 10 + (code c - 48)) s

value-digits_from :
    (fuel n : ℕ) (acc : String) → n < fuel → value 0 (digits_from fuel n acc) ≡ value n acc
unfolding digits_from value
value-digits_from zero n acc h = elim h [ ]
value-digits_from (suc fuel) n acc h = elim (Bool-cases (ltb n 10)) [
  | inl small ↦ rw small (ap (λ k. value k acc) (ground (arith, code-digit (n % 10))))
  | inr big ↦ rw big (
      value-digits_from fuel (n / 10) (digit (n % 10) ∷ acc) (ground arith)
      ∙ ap (λ k. value k acc) (omega (arith, code-digit (n % 10) (omega arith))))
]

value-show_ℕ : (n : ℕ) → value 0 (show_ℕ n) ≡ n
unfolding show_ℕ value
value-show_ℕ n = value-digits_from (suc n) n "" (omega arith)

pub show_ℕ-injective : (m n : ℕ) → show_ℕ m ≡ show_ℕ n → m ≡ n
show_ℕ-injective m n e = sym (value-show_ℕ m) ∙ ap (value 0) e ∙ value-show_ℕ n

-- Whether a text begins with a digit.
pub begins_with_digit : String → Bool
begins_with_digit [] = false
begins_with_digit (c ∷ s) = ltb 47 (code c) && ltb (code c) 58

begins-digits_from :
    (fuel n : ℕ) (acc : String) → n < fuel → begins_with_digit (digits_from fuel n acc) ≡ true
unfolding digits_from begins_with_digit
begins-digits_from zero n acc h = elim h [ ]
begins-digits_from (suc fuel) n acc h = elim (Bool-cases (ltb n 10)) [
  | inl small ↦ rw small (ground (arith, code-digit (n % 10)))
  | inr big ↦ rw big (begins-digits_from fuel (n / 10) (digit (n % 10) ∷ acc) (ground arith))
]

pub begins-show_ℕ : (n : ℕ) → begins_with_digit (show_ℕ n) ≡ true
unfolding show_ℕ
begins-show_ℕ n = begins-digits_from (suc n) n "" (omega arith)

sign_not_digit : (s t : String) → begins_with_digit s ≡ true → s ≢ "-" ∷ t
unfolding begins_with_digit
sign_not_digit s t h e = cc (h, ap begins_with_digit e)

-- Different integers have different decimal texts.
pub show-injective : (i j : ℤ) → show i ≡ show j → i ≡ j
unfolding show
show-injective (pos m) (pos n) e = ap pos (show_ℕ-injective m n e)
show-injective (pos m) (negsuc n) e =
    absurd (sign_not_digit (show_ℕ m) (show_ℕ (suc n)) (begins-show_ℕ m) e)
show-injective (negsuc m) (pos n) e =
    absurd (sign_not_digit (show_ℕ n) (show_ℕ (suc m)) (begins-show_ℕ n) (sym e))
show-injective (negsuc m) (negsuc n) e =
    ap negsuc (ground (arith, show_ℕ-injective (suc m) (suc n) (cc)))

abbrev begins_with_minus : String → Bool
begins_with_minus [] = false
begins_with_minus (c ∷ s) = nat_eq 45 (code c)

pub show-ne-bootstrap : (i : ℤ) → show i ≢ "bootstrap"
unfolding show begins_with_digit
show-ne-bootstrap (pos n) e = false≢true (sym (ap begins_with_digit e) ∙ begins-show_ℕ n)
show-ne-bootstrap (negsuc n) e = false≢true (sym (ap begins_with_minus e))
