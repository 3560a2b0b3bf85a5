-- ===== src/Machine/I64.antt =====
-- Rust's `i64`. A sum wraps around as it does in a release build (a debug build panics where this
-- wraps). The program adds a timestamp and a configured delay, in src/state/state.rs.
use torc_scheduler.Prelude.{ℕ, ◌+◌, ◌-◌, ◌%◌, ◌^◌, ◌<◌, ◌≡◌, arith, ltb, if◌then◌else◌}
use torc_scheduler.Prelude.Int.{ℤ, pos, negsuc, pos_part, neg_part, ◌+ℤ◌}

-- The values of the type: -2^63 ≤ a < 2^63.
abbrev pub InRange : ℤ → Type 0
InRange a = (pos_part a < 2 ^ 63) × (neg_part a < 2 ^ 63 + 1)

-- The value modulo 2^64, which is also `as u64`, and the signed value of such a pattern.
unfoldable pub to_bits : ℤ → ℕ
to_bits (pos n) = n % 2 ^ 64
to_bits (negsuc n) = 2 ^ 64 - 1 - n % 2 ^ 64

of_bits : ℕ → ℤ
of_bits b = if ltb b (2 ^ 63) then pos b else negsuc (2 ^ 64 - 1 - b)

unfoldable pub add_i64 : ℤ → ℤ → ℤ
unfolding to_bits of_bits
add_i64 a b = of_bits ((to_bits a + to_bits b) % 2 ^ 64)

-- A sum that fits is the integer sum.
pub add_i64-eq-+ℤ : (a b : ℤ) → InRange a → InRange b → InRange (a +ℤ b) → add_i64 a b ≡ a +ℤ b
unfolding add_i64 ◌+ℤ◌
add_i64-eq-+ℤ a b ha hb hs = ground arith

-- A sum of two values of the type is a value of the type, also where it wraps.
pub add_i64-InRange : (a b : ℤ) → InRange (add_i64 a b)
unfolding add_i64
add_i64-InRange a b = ground arith

-- Past the largest value the sum is 2^64 too small.
pub add_i64_wraps :
    (m n : ℕ)
    → m < 2 ^ 63
    → n < 2 ^ 63
    → 2 ^ 63 - 1 < m + n
    → add_i64 (pos m) (pos n) ≡ negsuc (2 ^ 64 - 1 - (m + n))
unfolding add_i64
add_i64_wraps m n hm hn h = ground arith
