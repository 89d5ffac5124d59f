-- ===== src/Scim/Http/Delay.antt =====
-- The wait after a rate limit: retryAfterDelay, rateLimitRetryDelay, fallbackRateLimitDelay,
-- ParseRetryAfter and humanRetryAfter. A delay is a time.Duration, 64 bits of nanoseconds.
pub mod Bounds
use scimtest.Prelude.{
  ℕ, suc, ◌-◌, ◌*◌, ◌/◌, ◌^◌, String, ◌||◌, Option, none, some, ltb, ◌==◌, if◌then◌else◌,
  trim_space, concat, has_prefix,
}
use scimtest.Prelude.Int.{ℤ, pos, negsuc, leb_ℤ, ltb_ℤ, eqb_ℤ, mul64, add64}
use scimtest.Scim.Http.{GoLibrary, Http}

-- time.Second
abbrev pub second : ℕ
second = 1_000_000_000

-- maxSCIMRateLimitRetries
abbrev pub max_scim_rate_limit_retries : ℕ
max_scim_rate_limit_retries = 3

-- maxAutomaticRateLimitDelay
abbrev pub max_automatic_rate_limit_delay : ℤ
max_automatic_rate_limit_delay = pos 30_000_000_000

-- Integer division in Go drops the fraction.
abbrev quot : ℤ → ℕ → ℤ
quot (pos n) d = pos (n / d)
quot (negsuc n) d = if ltb (suc n) d then pos 0 else negsuc (suc n / d - 1)

-- An attempt is never negative here.
unfoldable pub fallback_rate_limit_delay : ℕ → ℤ
fallback_rate_limit_delay attempt =
    let attempt' =
      if ltb max_scim_rate_limit_retries attempt then max_scim_rate_limit_retries else attempt in
    pos (2 ^ attempt' * second)

-- The seconds of a delay, rounded up.
unfoldable pub retry_seconds : ℤ → ℤ
unfolding add64
retry_seconds delay = quot (add64 delay (pos (second - 1))) second

module _ (lib : GoLibrary) where
  unfoldable pub human_retry_after : ℤ → String
  unfolding retry_seconds
  human_retry_after delay =
      let seconds = retry_seconds delay in
      if leb_ℤ seconds (pos 1)
      then "1 second"
      else if ltb_ℤ seconds (pos 60)
      then concat (lib.itoa seconds) " seconds"
      else if ltb_ℤ seconds (pos 3600)
      then (let minutes = quot (add64 seconds (pos 59)) 60 in
          if eqb_ℤ minutes (pos 1) then "1 minute" else concat (lib.itoa minutes) " minutes")
      else if ltb_ℤ seconds (pos 86400)
      then (let hours = quot (add64 seconds (pos 3599)) 3600 in
          if eqb_ℤ hours (pos 1) then "1 hour" else concat (lib.itoa hours) " hours")
      else (let days = quot (add64 seconds (pos 86399)) 86400 in
          if eqb_ℤ days (pos 1) then "1 day" else concat (lib.itoa days) " days")

  module _ {W : Type 0} (http : Http W) where
    -- `time.Duration(seconds) * time.Second` wraps around.
    unfoldable pub retry_after_delay : String → W → Option ℤ
    unfolding mul64
    retry_after_delay value w = elim (lib.atoi value) [
      | some seconds ↦ some (mul64 seconds (pos second))
      | none ↦ http.until value w
    ]

    unfoldable pub rate_limit_retry_delay : String → ℕ → W → ℤ
    unfolding retry_after_delay fallback_rate_limit_delay
    rate_limit_retry_delay value attempt w = elim (retry_after_delay (trim_space value) w) [
      | some delay ↦ if leb_ℤ delay (pos 0) then pos 0 else delay
      | none ↦ fallback_rate_limit_delay attempt
    ]

    delay_phrase : ℤ → String
    unfolding human_retry_after
    delay_phrase delay =
        if leb_ℤ delay (pos 0) then "now" else concat "in " (human_retry_after delay)

    unfoldable pub parse_retry_after : String → W → String
    unfolding retry_after_delay delay_phrase
    parse_retry_after header w =
        let value = trim_space header in
        if value == ""
        then ""
        else if value == "now" || has_prefix value "in " || has_prefix value "after "
        then value
        else elim (retry_after_delay value w) [
          | some delay ↦ delay_phrase delay
          | none ↦ elim (lib.parse_duration value) [
            | some delay ↦ delay_phrase delay
            | none ↦ concat "after " value
          ]
        ]
