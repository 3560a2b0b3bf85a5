-- ===== src/Background/Overflow.antt =====
-- The sum of a timestamp and a configured delay in src/state/state.rs, past the end of `i64`.
use torc_scheduler.Background.{is_overdue}
use torc_scheduler.Machine.I64.{InRange, add_i64-eq-+ℤ, add_i64_wraps}
use torc_scheduler.Prelude.{ℕ, ◌+◌, ◌-◌, ◌^◌, ◌<◌, ◌≡◌, ap, ◌∙◌, true, arith}
use torc_scheduler.Prelude.Int.{ℤ, pos, negsuc, ◌+ℤ◌, ltb_ℤ}

-- Between values of `i64` whose sum is one, the test compares the integer sum with the clock.
pub is_overdue-eq-ltb_ℤ :
    (stamp delay now : ℤ)
    → InRange stamp
    → InRange delay
    → InRange (stamp +ℤ delay)
    → is_overdue stamp delay now ≡ ltb_ℤ (stamp +ℤ delay) now
is_overdue-eq-ltb_ℤ stamp delay now hs hd h =
    ap (λ a. ltb_ℤ a now) (add_i64-eq-+ℤ stamp delay hs hd h)

negative_is_less : (k now : ℕ) → ltb_ℤ (negsuc k) (pos now) ≡ true
negative_is_less k now = ground arith

-- For a timestamp and a delay that are not negative and whose sum passes the largest i64, the test
-- of the cleaning thread is true at every time since 1970, since the sum wraps around.
pub is_overdue_wraps :
    (stamp delay now : ℕ)
    → stamp < 2 ^ 63
    → delay < 2 ^ 63
    → 2 ^ 63 - 1 < stamp + delay
    → is_overdue (pos stamp) (pos delay) (pos now) ≡ true
is_overdue_wraps stamp delay now hs hd h =
    ap (λ a. ltb_ℤ a (pos now)) (add_i64_wraps stamp delay hs hd h)
    ∙ negative_is_less (2 ^ 64 - 1 - (stamp + delay)) now
