-- ===== src/Retry.antt =====
-- vigilo/src/agent_client/failure.rs: the failures of a call of an agent, and the reading of the
-- `Retry-After` header. Times are nanoseconds since 1970. The parser of HTTP dates is a parameter, and
-- the message is left out, which no decision reads.
use agent_vigilo.Prelude.{
  ℕ, ◌+◌, ◌-◌, ◌*◌, ◌^◌, max, Bool, false, not, ◌&&◌, ◌||◌, Option, none, some, [], ◌∷◌, ltb, ◌==◌,
  if◌then◌else◌, is_empty, all, any, Result, ok, err,
}
use agent_vigilo.Prelude.Text.{trim, Text, byte_len, is_ascii_digit}
pub mod Bounds

pub data Kind : Type 0 where
  configuration authentication rate_limited http_status timeout : Kind
  transport body_limit invalid_response retry_delay_exceeded : Kind

pub record Failure : Type 0 where
  pub kind : Kind
  pub status : Option ℕ
  pub retryable : Bool
  pub retry_not_before : Option ℕ
  pub retry_delay_secs : Option ℕ

abbrev pub nanos : ℕ
nanos = 1_000_000_000

unfoldable pub digits_value : ℕ → Text → ℕ
digits_value n [] = n
digits_value n (c ∷ s) = digits_value (n * 10 + (c - b'0')) s

abbrev drop_plus : Text → Text
drop_plus [] = []
drop_plus (c ∷ s) = if c == b'+' then s else c ∷ s

-- `parse` of an unsigned integer of some bits, which takes one leading plus sign.
unfoldable pub parse_unsigned : ℕ → Text → Option ℕ
parse_unsigned bits s =
    let digits = drop_plus s in
    let value = digits_value 0 digits in
    if not (is_empty digits) && all is_ascii_digit digits && ltb value (2 ^ bits)
    then some value
    else none

-- `Failure::terminal`.
unfoldable pub terminal : Kind → Failure
terminal kind = record {
  kind = kind;
  status = none;
  retryable = false;
  retry_not_before = none;
  retry_delay_secs = none;
}

unfoldable pub with_status : Failure → ℕ → Failure
with_status r s = record r { status = some s }

unfoldable pub retryable_status : ℕ → Bool
retryable_status s = any (λ code. s == code) (408 ∷ 425 ∷ 429 ∷ 500 ∷ 502 ∷ 503 ∷ 504 ∷ [])

unfoldable pub status_kind : ℕ → Kind
status_kind s =
    if (s == 401) || (s == 403)
    then authentication
    else (if s == 429 then rate_limited else http_status)

module _ (parse_http_date : Text → Option ℕ) where
  -- A date in the past means now.
  unfoldable pub date_limit : ℕ → ℕ → ℕ → Result (Unit {0}) (Option ℕ)
  date_limit now max_delay date =
      let time = max date now in
      if ltb (now + max_delay * nanos) time then err tt else ok (some time)

  unfoldable pub seconds_limit : ℕ → ℕ → Option ℕ → Result (Unit {0}) (Option ℕ)
  seconds_limit now max_delay none = err tt
  seconds_limit now max_delay (some seconds) =
      if ltb max_delay seconds then err tt else ok (some (now + seconds * nanos))

  abbrev on_date : ℕ → ℕ → Option ℕ → Result (Unit {0}) (Option ℕ)
  on_date now max_delay none = ok none
  on_date now max_delay (some date) = date_limit now max_delay date

  unfoldable pub not_before : Text → ℕ → ℕ → Result (Unit {0}) (Option ℕ)
  not_before header now max_delay =
      let value = trim header in
      if not (is_empty value) && all is_ascii_digit value
      then seconds_limit now max_delay (parse_unsigned 64 value)
      else if ltb 128 (byte_len value)
      then ok none
      else on_date now max_delay (parse_http_date value)

  abbrev apply_advice : Failure → Text → Result (Unit {0}) (Option ℕ) → Failure
  apply_advice r header (ok none) = record r { retry_not_before = none }
  apply_advice r header (ok (some time)) = record r {
    retry_not_before = some time;
    retry_delay_secs = parse_unsigned 32 (trim header);
  }
  apply_advice r header (err e) = record r { kind = retry_delay_exceeded; retryable = false }

  abbrev advise : Failure → Option Text → ℕ → ℕ → Failure
  advise r none now max_delay = r
  advise r (some header) now max_delay = apply_advice r header (not_before header now max_delay)

  -- `Failure::http`.
  unfoldable pub http : ℕ → Option Text → ℕ → ℕ → Failure
  http status retry_after now max_delay =
      let result : Failure = record {
        kind = status_kind status;
        status = some status;
        retryable = retryable_status status;
        retry_not_before = none;
        retry_delay_secs = none;
      } in
      if not result.retryable then result else advise result retry_after now max_delay
