-- ===== src/Stdlib/Timers/Delay.antt =====
-- timers/index.ts: the delays that reach Node.
use workflow_engine.Prelude.{ℕ, ◌≤◌, ◌≡◌, false, leb, nat_eq, arith, if◌then◌else◌}
use workflow_engine.Stdlib.Timers.{
  Numeric, not_finite, negative, number, normalise_delay, int32_max,
}

-- Whatever delay the guest gives, Node gets a delay of 31 bits; a whole number is passed on as it is
-- if it is within them, and is 0 otherwise.
pub normalise_delay-int32_max :
    (raw : Numeric) (n : ℕ)
    → (normalise_delay raw ≤ int32_max)
      × (normalise_delay (number n false) ≡ (if leb n int32_max then n else 0))
unfolding normalise_delay
normalise_delay-int32_max not_finite n = (omega arith, ground arith)
normalise_delay-int32_max negative n = (omega arith, ground arith)
normalise_delay-int32_max (number k f) n = (ground arith, ground arith)
