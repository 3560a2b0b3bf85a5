-- ===== src/Machine/F64.antt =====
-- Rust's `f64`, as its 64-bit pattern. The program stores, copies and compares such numbers with
-- `<`, and writes three of them down (src/utils/mod.rs, src/scheduler/scheduler_impl.rs); it
-- computes with none.
use torc_scheduler.Prelude.{
  ℕ, ◌+◌, ◌%◌, ◌^◌, ◌≡◌, refl, Bool, true, false, not, ◌&&◌, arith, ltb, leb, if◌then◌else◌,
}

pub record F64 : Type 0 where
  pub bits : ℕ
  pub fits : ltb bits (2 ^ 64) ≡ true

-- The pattern without its sign bit: the values of one sign are ordered by it.
abbrev magnitude : F64 → ℕ
magnitude x = x.bits % 2 ^ 63

abbrev is_negative : F64 → Bool
is_negative x = leb (2 ^ 63) x.bits

abbrev pub is_nan : F64 → Bool
is_nan x = ltb 0x7ff0_0000_0000_0000 (magnitude x)

-- Neither infinite nor not a number.
abbrev pub is_finite : F64 → Bool
is_finite x = ltb (magnitude x) 0x7ff0_0000_0000_0000

-- IEEE 754 `<`: false if either side is not a number; -0.0 and 0.0 are equal.
unfoldable pub lt_f64 : F64 → F64 → Bool
lt_f64 x y =
    not (is_nan x)
    && not (is_nan y)
    && (if is_negative x
        then (if is_negative y
            then ltb (magnitude y) (magnitude x)
            else ltb 0 (magnitude x + magnitude y))
        else (if is_negative y then false else ltb (magnitude x) (magnitude y)))

abbrev pub zero_f64 : F64
zero_f64 = record { bits = 0; fits = refl }

-- `DEFAULT_MEMORY`, 128.0
abbrev pub default_memory : F64
default_memory = record { bits = 0x4060_0000_0000_0000; fits = refl }

-- `DEFAULT_CPU`, 0.2
abbrev pub default_cpu : F64
default_cpu = record { bits = 0x3fc9_9999_9999_999a; fits = refl }

pub lt_f64_irrefl : (x : F64) → lt_f64 x x ≡ false
unfolding lt_f64
lt_f64_irrefl x = ground arith

-- A comparison that fails between numbers is a comparison the other way round that holds, or a tie.
pub lt_f64_asymm : (x y : F64) → lt_f64 x y ≡ true → lt_f64 y x ≡ false
unfolding lt_f64
lt_f64_asymm x y h = ground arith

small-lt-large : lt_f64 default_cpu default_memory ≡ true
unfolding lt_f64
small-lt-large = refl
