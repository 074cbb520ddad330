-- ===== src/Storage/Backoff.antt =====
-- The longest delay between two attempts of the S3 client.
use automq_operator.Base.{ℕ, some, ◌≡◌, ap, ◌↔◌, ◌*◌, ◌^◌, ◌<◌, ◌≤◌, arith, subst}
use automq_operator.Base.Int.{ℤ, pos, ◌*ℤ◌, mul32, IsInt32, wrap32_of_IsInt32, wrap32-IsInt32}
use automq_operator.Storage.{Config, aws_config}

pos-times : (a b : ℕ) → pos a *ℤ pos b ≡ pos (a * b)
unfolding ◌*ℤ◌
pos-times a b = ground arith

mul32_small : (a b : ℕ) → a * b < 2 ^ 31 → mul32 (pos a) (pos b) ≡ pos (a * b)
unfolding mul32
mul32_small a b h = rw pos-times (wrap32_of_IsInt32 (pos (a * b)) (omega arith))

mul32-IsInt32 : (a b : ℤ) → IsInt32 (mul32 a b)
unfolding mul32
mul32-IsInt32 a b = wrap32-IsInt32 (a *ℤ b)

-- A delay of `d` milliseconds reaches the retryer as that many nanoseconds exactly if it is at most
-- 2147: longer ones wrap in the 32-bit product.
pub backoff_exact :
    (cfg : Config) (d : ℕ)
    → cfg.max_backoff_delay ≡ some (pos d)
    → ((aws_config cfg).max_backoff_delay ≡ pos (d * 1000000)) ↔ (d ≤ 2147)
unfolding aws_config
backoff_exact cfg d e = (
  λ h.
      let bound : IsInt32 (aws_config cfg).max_backoff_delay = mul32-IsInt32 _ _ in
      let bound' : IsInt32 (pos (d * 1000000)) = subst IsInt32 h bound in omega (arith, bound'.0),
  λ h.
      rw (e, mul32_small d 1000 (omega arith), mul32_small (d * 1000) 1000 (omega arith))
        (ap pos (omega arith)),
)
