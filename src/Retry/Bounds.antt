-- ===== src/Retry/Bounds.antt =====
-- What a server's advice can do to the time of a retry.
use agent_vigilo.Prelude.{ℕ, ◌+◌, ◌*◌, ◌≤◌, ◌≡◌, true, Option, none, some, arith, ok}
use agent_vigilo.Prelude.Text.{Text}
use agent_vigilo.Retry.{nanos, retryable_status, date_limit, seconds_limit, not_before, http}

module _ (parse_http_date : Text → Option ℕ) where
  -- An advised time lies between now and the limit.
  not_before_bounds :
      (header : Text) (now max_delay t : ℕ)
      → not_before parse_http_date header now max_delay ≡ ok (some t)
      → (now ≤ t) × (t ≤ now + max_delay * nanos)
  unfolding not_before seconds_limit date_limit
  not_before_bounds header now max_delay t h = (ground arith, ground arith)

  -- A failure that carries an advised time has a status that can be retried, is itself still
  -- retryable, and its time lies between now and the configured limit.
  pub http-bounds :
      (status : ℕ) (retry_after : Option Text) (now max_delay t : ℕ)
      → (http parse_http_date status retry_after now max_delay).retry_not_before ≡ some t
      → (retryable_status status ≡ true)
        × ((http parse_http_date status retry_after now max_delay).retryable ≡ true)
        × (now ≤ t)
        × (t ≤ now + max_delay * nanos)
  unfolding http
  http-bounds status none now max_delay t h = absurd (ground arith)
  http-bounds status (some header) now max_delay t h =
      let advised : not_before parse_http_date header now max_delay ≡ ok (some t) = ground arith in
      let bounds = not_before_bounds header now max_delay t advised in
      (ground arith, ground arith, bounds.0, bounds.1)
