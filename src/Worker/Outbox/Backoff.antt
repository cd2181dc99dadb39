-- ===== src/Worker/Outbox/Backoff.antt =====
-- The retry delays of the publisher.
use serviq.Common.{ℕ, zero, suc, ◌+◌, ◌-◌, ◌^◌, ◌≤◌, arith}
use native.Mathlib.Numerals.{unary_clauses}
use serviq.Worker.Outbox.{publisher_backoff_seconds}

pow_grows : (a k : ℕ) → 2 ^ a ≤ 2 ^ (a + k)
pow_grows a zero = simp unary_clauses (omega arith)
pow_grows a (suc k) = simp unary_clauses (omega (arith, pow_grows a k))

-- From the first attempt on, the retry delay is between five seconds and five minutes, and never
-- falls as attempts grow.
pub publisher_backoff-bounds :
    (n m : ℕ)
    → 1 ≤ n
    → n ≤ m
    → (5 ≤ publisher_backoff_seconds n)
      × (publisher_backoff_seconds n ≤ publisher_backoff_seconds m)
      × (publisher_backoff_seconds m ≤ 300)
unfolding publisher_backoff_seconds
publisher_backoff-bounds n m low up =
    ground (arith, low, up, pow_grows (n - 1) (m - n), pow_grows 0 (n - 1))
