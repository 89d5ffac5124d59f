-- ===== src/Scim/Http/Delay/Bounds.antt =====
-- The delay for a Retry-After header that is a count of seconds.
use scimtest.Prelude.{
  ℕ, suc, ◌+◌, ◌*◌, ◌-◌, ◌≤◌, ◌<◌, String, some, ◌≡◌, arith, trim_space, leb, if◌then◌else◌, ◌/◌,
}
use scimtest.Prelude.Int.{pos, negsuc, mul64, add64}
use scimtest.Scim.Http.{GoLibrary, Http}
use scimtest.Scim.Http.Delay.{second, retry_after_delay, rate_limit_retry_delay, retry_seconds}

mul64-seconds : (n : ℕ) → n ≤ 9_223_372_036 → mul64 (pos n) (pos second) ≡ pos (n * second)
unfolding mul64
mul64-seconds n h = ground arith

-- The wrap-around: too many seconds are a negative number of nanoseconds.
mul64-overflow :
    (n : ℕ)
    → 9_223_372_036 < n
    → n ≤ 18_446_744_073
    → mul64 (pos n) (pos second) ≡ negsuc (0xffffffffffffffff - n * second)
unfolding mul64
mul64-overflow n h k = ground arith

mul64-negative :
    (n : ℕ) → n < 9_223_372_036 → mul64 (negsuc n) (pos second) ≡ negsuc (suc n * second - 1)
unfolding mul64
mul64-negative n h = ground arith

module _ (lib : GoLibrary) {W : Type 0} (http : Http W) where
  -- The delay that rateLimitRetryDelay computes for a Retry-After header of n seconds is n seconds
  -- for n up to 9223372036. From there the nanoseconds no longer fit 64 bits, and for n up to
  -- 18446744073 the delay that it computes is 0.
  pub rate_limit_retry_delay-seconds :
      (header : String) (attempt : ℕ) (w : W) (n : ℕ)
      → lib.atoi (trim_space header) ≡ some (pos n)
      → n ≤ 18_446_744_073
      → rate_limit_retry_delay lib http header attempt w
        ≡ (if leb n 9_223_372_036 then pos (n * second) else pos 0)
  unfolding rate_limit_retry_delay retry_after_delay
  rate_limit_retry_delay-seconds header attempt w n read h =
      rw (read, rate_limit_retry_delay, retry_after_delay)
        (ground (arith, mul64-seconds n, mul64-overflow n))

-- The seconds that the text of a delay names cover the delay and are less than one second more, for
-- every delay up to one second short of the largest.
retry_seconds_bounds :
    (d : ℕ)
    → d < 0x7fffffffffffffff - second
    → (s : ℕ) × (retry_seconds (pos d) ≡ pos s) × (d ≤ s * second) × (s * second < d + second)
unfolding retry_seconds add64
retry_seconds_bounds d h = ((d + 999_999_999) / second, ground arith, omega arith, omega arith)
