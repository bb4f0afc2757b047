-- ===== src/Crc/Mask.antt =====
-- The masking of stored checksums.
use go_durable_engine.Prelude.{ℕ, ◌+◌, ◌-◌, ◌*◌, ◌/◌, ◌%◌, ◌^◌, ◌≡◌, refl, arith, IsUint32}
use go_durable_engine.Prelude.Bits.{bit_or_disjoint}
use go_durable_engine.Crc.{mask_delta, mask, unmask}

mask_sum :
    (crc : ℕ)
    → IsUint32 crc
    → mask crc ≡ (crc / 2 ^ 15 + crc % 2 ^ 15 * 2 ^ 17 + mask_delta) % 2 ^ 32
unfolding mask
mask_sum crc h =
    let high : crc * 2 ^ 17 % 2 ^ 32 ≡ crc % 2 ^ 15 * 2 ^ 17 = omega arith in
    rw (high, bit_or_disjoint 17 (crc / 2 ^ 15) (crc % 2 ^ 15) (omega arith))

-- The rotation back, on the number `r` that is left when the constant is taken off.
unmask_sum :
    (m r : ℕ) → r ≡ (m + 2 ^ 32 - mask_delta) % 2 ^ 32 → unmask m ≡ r / 2 ^ 17 + r % 2 ^ 17 * 2 ^ 15
unfolding unmask
unmask_sum m r e =
    let high : r * 2 ^ 15 % 2 ^ 32 ≡ r % 2 ^ 17 * 2 ^ 15 = omega arith in
    rw (← e) (rw (high, bit_or_disjoint 15 (r / 2 ^ 17) (r % 2 ^ 17) (omega arith)))

-- Masking and unmasking undo one another on every uint32.
unmask-mask : (crc : ℕ) → IsUint32 crc → (unmask (mask crc) ≡ crc) × (mask (unmask crc) ≡ crc)
unmask-mask crc h = (
  omega (
    arith,
    mask_sum crc h,
    unmask_sum (mask crc) ((mask crc + 2 ^ 32 - mask_delta) % 2 ^ 32) refl,
  ),
  omega (arith, mask_sum (unmask crc), unmask_sum crc ((crc + 2 ^ 32 - mask_delta) % 2 ^ 32) refl),
)
