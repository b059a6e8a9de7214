-- ===== src/Breaker.antt =====
-- vigilo/src/circuit_breaker.rs: keyed circuit breakers. Instants and durations are nanoseconds on one
-- clock. The mutex makes each method one step. The map of entries is a function from keys. Two things
-- of the standard library are parameters, in `Jitter`: the value of `DefaultHasher`, whose algorithm
-- is not specified, and `Duration::mul_f64` by a percentage.
use agent_vigilo.Prelude.{
  ℕ, ◌+◌, ◌-◌, ◌*◌, ◌%◌, ◌^◌, min, Bool, true, false, not, Option, none, some, ltb, leb, ◌==◌,
  if◌then◌else◌, Result, ok, err, ◌>>=◌, ◌>>◌, ensure,
}
use agent_vigilo.Prelude.Text.{Text, text_eq}
pub mod Invariant
pub mod Backoff
pub mod Exclusion
pub mod Frame

pub record Config : Type 0 where
  pub enabled : Bool
  pub failure_threshold : ℕ
  pub initial_open : ℕ
  pub max_open : ℕ
  pub jitter_percent : ℕ

pub data ConfigError : Type 0 where
  threshold_zero initial_zero max_below_initial : ConfigError

abbrev pub default_jitter_percent : ℕ
default_jitter_percent = 20

-- `Config::new`.
unfoldable pub new_config : Bool → ℕ → ℕ → ℕ → Result ConfigError Config
new_config enabled failure_threshold initial_open max_open = do
  ensure (not (failure_threshold == 0)) threshold_zero
  ensure (not (initial_open == 0)) initial_zero
  ensure (not (ltb max_open initial_open)) max_below_initial
  ok (record {
    enabled = enabled;
    failure_threshold = failure_threshold;
    initial_open = initial_open;
    max_open = max_open;
    jitter_percent = default_jitter_percent;
  })

pub data FailureImpact : Type 0 where
  available unavailable : FailureImpact

pub record CircuitOpen : Type 0 where
  pub retry_after : ℕ

pub data CircuitTransition : Type 0 where
  opened : ℕ → CircuitTransition
  closed : CircuitTransition

pub record CircuitPermit : Type 0 where
  pub key : Text
  pub generation : ℕ
  pub probe : Bool

-- `open_until` is `Open { retry_at }`, and `half_open` is `HalfOpen { probe_until }`.
pub data CircuitState : Type 0 where
  closed : CircuitState
  open_until : ℕ → CircuitState
  half_open : ℕ → CircuitState

pub record CircuitEntry : Type 0 where
  pub state : CircuitState
  pub generation : ℕ
  pub consecutive_failures : ℕ
  pub open_for : ℕ

unfoldable pub new_entry : ℕ → CircuitEntry
new_entry initial_open = record {
  state = closed;
  generation = 0;
  consecutive_failures = 0;
  open_for = initial_open;
}

pub record CircuitBreakers : Type 0 where
  pub config : Config
  pub jitter_seed : ℕ
  pub entries : Text → Option CircuitEntry

-- `CircuitBreakers::new`, with the random seed.
unfoldable pub new_breakers : Config → ℕ → CircuitBreakers
new_breakers config seed = record { config = config; jitter_seed = seed; entries = λ key. none }

pub record Jitter : Type 0 where
  pub finish : ℕ → Text → ℕ → ℕ
  pub mul_percent : ℕ → ℕ → ℕ

abbrev pub u64_mod : ℕ
u64_mod = 2 ^ 64

abbrev pub u32_max : ℕ
u32_max = 4_294_967_295

-- `Duration::MAX`, in nanoseconds.
abbrev pub duration_max : ℕ
duration_max = 18_446_744_073_709_551_615_999_999_999

abbrev pub wrapping_succ : ℕ → ℕ
wrapping_succ n = (n + 1) % u64_mod

abbrev pub or_new : ℕ → Option CircuitEntry → CircuitEntry
or_new initial none = new_entry initial
or_new initial (some e) = e

unfoldable pub put : CircuitBreakers → Text → CircuitEntry → CircuitBreakers
put b key e = record b { entries = λ k. if text_eq key k then some e else b.entries k }

abbrev pub permit : Text → CircuitEntry → Bool → CircuitPermit
permit key e probe = record { key = key; generation = e.generation; probe = probe }

module _ (j : Jitter) where
  unfoldable pub jittered_open_for : CircuitBreakers → Text → CircuitEntry → ℕ
  jittered_open_for b key e =
      if b.config.jitter_percent == 0
      then e.open_for
      else j.mul_percent e.open_for
          (100 - j.finish b.jitter_seed key e.generation % (b.config.jitter_percent + 1))

  abbrev next_generation : CircuitEntry → CircuitEntry
  next_generation e = record e { generation = wrapping_succ e.generation }

  -- The two arms of `acquire` that hand out a probe.
  unfoldable pub grant_probe :
      CircuitBreakers → Text → ℕ → CircuitEntry → CircuitBreakers × Result CircuitOpen CircuitPermit
  grant_probe b key now e =
      let e' = next_generation e in
      let e'' = record e' { state = half_open (now + jittered_open_for b key e') } in
      (put b key e'', ok (permit key e'' true))

  unfoldable pub admit :
      CircuitBreakers
      → Text
      → ℕ
      → CircuitEntry
      → CircuitState
      → CircuitBreakers × Result CircuitOpen CircuitPermit
  admit b key now e closed = (put b key e, ok (permit key e false))
  admit b key now e (open_until retry_at) =
      if ltb now retry_at
      then (put b key e, err (record { retry_after = retry_at - now }))
      else grant_probe b key now e
  admit b key now e (half_open probe_until) =
      if leb probe_until now
      then grant_probe b key now e
      else (put b key e, err (record { retry_after = probe_until - now }))

  unfoldable pub acquire :
      CircuitBreakers → Text → ℕ → CircuitBreakers × Result CircuitOpen CircuitPermit
  acquire b key now =
      let e = or_new b.config.initial_open (b.entries key) in
      if b.config.enabled
      then admit b key now e e.state
      else (b, ok (record { key = key; generation = 0; probe = false }))

  unfoldable pub succeed :
      CircuitBreakers
      → CircuitPermit
      → Option CircuitEntry
      → CircuitBreakers × Option CircuitTransition
  succeed b p none = (b, none)
  succeed b p (some e) =
      let e' = record e { consecutive_failures = 0; open_for = b.config.initial_open } in
      if e.generation == p.generation
      then (if p.probe
          then (
            put b p.key (record e' { generation = wrapping_succ e.generation; state = closed }),
            some closed,
          )
          else (put b p.key e', none))
      else (b, none)

  unfoldable pub record_success :
      CircuitBreakers → CircuitPermit → CircuitBreakers × Option CircuitTransition
  record_success b p = if b.config.enabled then succeed b p (b.entries p.key) else (b, none)

  -- The end of `record_failure`: a new generation, and the circuit opens.
  unfoldable pub trip :
      CircuitBreakers → Text → ℕ → CircuitEntry → CircuitBreakers × Option CircuitTransition
  trip b key now e =
      let e' = next_generation e in
      let open_for = jittered_open_for b key e' in
      (put b key (record e' { state = open_until (now + open_for) }), some (opened open_for))

  unfoldable pub fail_entry :
      CircuitBreakers
      → Text
      → ℕ
      → CircuitEntry
      → CircuitState
      → CircuitBreakers × Option CircuitTransition
  fail_entry b key now e closed =
      let e' = record e { consecutive_failures = min (e.consecutive_failures + 1) u32_max } in
      if ltb e'.consecutive_failures b.config.failure_threshold
      then (put b key e', none)
      else trip b key now e'
  fail_entry b key now e (half_open probe_until) =
      trip b key now
        (record e { open_for = min (min (e.open_for * 2) duration_max) b.config.max_open })
  fail_entry b key now e (open_until retry_at) = (b, none)

  unfoldable pub fail :
      CircuitBreakers
      → CircuitPermit
      → ℕ
      → Option CircuitEntry
      → CircuitBreakers × Option CircuitTransition
  fail b p now none = (b, none)
  fail b p now (some e) =
      if e.generation == p.generation then fail_entry b p.key now e e.state else (b, none)

  unfoldable pub record_failure :
      CircuitBreakers
      → CircuitPermit
      → ℕ
      → FailureImpact
      → CircuitBreakers × Option CircuitTransition
  record_failure b p now available = record_success b p
  record_failure b p now unavailable =
      if b.config.enabled then fail b p now (b.entries p.key) else (b, none)
