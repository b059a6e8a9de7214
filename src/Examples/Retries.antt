-- ===== src/Examples/Retries.antt =====
-- Retry advice of servers.
use agent_vigilo.Prelude.{ℕ, ◌+◌, ◌*◌, ◌≤◌, ◌≡◌, refl, true, Option, none, some}
use agent_vigilo.Prelude.Text.{
  trim, trim_start, trim_end, Text, codes, is_whitespace, is_ascii_digit,
}
use agent_vigilo.Retry.{
  retry_delay_exceeded, nanos, digits_value, parse_unsigned, retryable_status, status_kind,
  seconds_limit, not_before, http,
}
use agent_vigilo.Retry.Bounds.{http-bounds}

-- No text is a date.
abbrev no_dates : Text → Option ℕ
no_dates s = none

http-bounds_example :
    (retryable_status 503 ≡ true)
    × ((http no_dates 503 (some (codes " 60 ")) 5 600).retryable ≡ true)
    × (5 ≤ 60_000_000_005)
    × (60_000_000_005 ≤ 5 + 600 * nanos)
unfolding http retryable_status not_before seconds_limit trim trim_start trim_end digits_value
    parse_unsigned is_whitespace is_ascii_digit
http-bounds_example = http-bounds no_dates 503 (some (codes " 60 ")) 5 600 60_000_000_005 refl

-- Advice beyond the limit makes the failure terminal.
excess_refused : (http no_dates 429 (some (codes "601")) 5 600).kind ≡ retry_delay_exceeded
unfolding http retryable_status status_kind not_before seconds_limit trim trim_start trim_end
    digits_value parse_unsigned is_whitespace is_ascii_digit
excess_refused = refl
