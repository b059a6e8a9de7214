-- ===== src/Breaker/Invariant.antt =====
-- What holds of the breakers between two calls.
use agent_vigilo.Prelude.{
  ℕ, ◌+◌, ◌≤◌, ◌<◌, min, ◌≡◌, refl, inl, inr, Option, none, some, List, [], ◌∷◌, arith, ltb, leb,
  ◌==◌, Bool-cases, Option-cases,
}
use agent_vigilo.Prelude.Text.{Text, text_eq}
use agent_vigilo.Breaker.{
  Config, FailureImpact, available, unavailable, CircuitPermit, CircuitState, closed, open_until,
  half_open, CircuitEntry, new_entry, CircuitBreakers, Jitter, u64_mod, u32_max, duration_max,
  or_new, put, grant_probe, admit, acquire, succeed, record_success, trip, fail_entry, fail,
  record_failure,
}

pub record IsConfig (c : Config) : Type 0 where
  pub threshold : 0 < c.failure_threshold
  pub initial : 0 < c.initial_open
  pub ordered : c.initial_open ≤ c.max_open
  pub representable : c.max_open ≤ duration_max

pub record IsEntry (c : Config) (e : CircuitEntry) : Type 0 where
  pub low : c.initial_open ≤ e.open_for
  pub high : e.open_for ≤ c.max_open
  pub counting : e.state ≡ closed → e.consecutive_failures < c.failure_threshold
  pub generation : e.generation < u64_mod

abbrev pub IsValid : CircuitBreakers → Type 0
IsValid b = (key : Text) (e : CircuitEntry) → b.entries key ≡ some e → IsEntry b.config e

new_entry-IsEntry : (c : Config) → IsConfig c → IsEntry c (new_entry c.initial_open)
unfolding new_entry
new_entry-IsEntry c v = ground arith

put-IsValid :
    (b : CircuitBreakers) (key : Text) (e : CircuitEntry)
    → IsValid b
    → IsEntry b.config e
    → IsValid (put b key e)
unfolding put
put-IsValid b key e v w k d h = elim (Bool-cases (text_eq key k)) [
  | inl same ↦ let s : e ≡ d = ground arith in rw (← s) w
  | inr other ↦ v k d (ground arith)
]

pub or_new-IsEntry :
    (b : CircuitBreakers) (key : Text)
    → IsConfig b.config
    → IsValid b
    → IsEntry b.config (or_new b.config.initial_open (b.entries key))
or_new-IsEntry b key c v = elim (Option-cases (b.entries key)) [
  | inl absent ↦ rw absent (new_entry-IsEntry b.config c)
  | inr (e, present) ↦ rw present (v key e present)
]

module _ (j : Jitter) where
  grant_probe-IsValid :
      (b : CircuitBreakers) (key : Text) (now : ℕ) (e : CircuitEntry)
      → IsValid b
      → IsEntry b.config e
      → IsValid (grant_probe j b key now e).0
  unfolding grant_probe
  grant_probe-IsValid b key now e v w = put-IsValid b key _ v (ground arith)

  admit-IsValid :
      (b : CircuitBreakers) (key : Text) (now : ℕ) (e : CircuitEntry) (s : CircuitState)
      → IsValid b
      → IsEntry b.config e
      → IsValid (admit j b key now e s).0
  unfolding admit
  admit-IsValid b key now e closed v w = put-IsValid b key e v w
  admit-IsValid b key now e (open_until t) v w = elim (Bool-cases (ltb now t)) [
    | inl early ↦ rw early (put-IsValid b key e v w)
    | inr late ↦ rw late (grant_probe-IsValid b key now e v w)
  ]
  admit-IsValid b key now e (half_open t) v w = elim (Bool-cases (leb t now)) [
    | inl late ↦ rw late (grant_probe-IsValid b key now e v w)
    | inr early ↦ rw early (put-IsValid b key e v w)
  ]

  pub acquire-IsValid :
      (b : CircuitBreakers) (key : Text) (now : ℕ)
      → IsConfig b.config
      → IsValid b
      → IsValid (acquire j b key now).0
  unfolding acquire
  acquire-IsValid b key now c v = elim (Bool-cases b.config.enabled) [
    | inl enabled ↦ simp enabled (admit-IsValid b key now _ _ v (or_new-IsEntry b key c v))
    | inr disabled ↦ simp disabled v
  ]

  succeed-IsValid :
      (b : CircuitBreakers) (p : CircuitPermit) (o : Option CircuitEntry)
      → IsConfig b.config
      → IsValid b
      → ((e : CircuitEntry) → o ≡ some e → IsEntry b.config e)
      → IsValid (succeed j b p o).0
  unfolding succeed
  succeed-IsValid b p none c v w = v
  succeed-IsValid b p (some e) c v w =
      let old = w e refl in
      elim (Bool-cases (e.generation == p.generation)) [
        | inl current ↦ rw current (elim (Bool-cases p.probe) [
          | inl probe ↦ rw probe (put-IsValid b p.key _ v (ground arith))
          | inr plain ↦ rw plain (put-IsValid b p.key _ v (ground arith))
        ])
        | inr stale ↦ rw stale v
      ]

  pub record_success-IsValid :
      (b : CircuitBreakers) (p : CircuitPermit)
      → IsConfig b.config
      → IsValid b
      → IsValid (record_success j b p).0
  unfolding record_success
  record_success-IsValid b p c v = elim (Bool-cases b.config.enabled) [
    | inl enabled ↦ simp enabled (succeed-IsValid b p _ c v (λ e h. v p.key e h))
    | inr disabled ↦ simp disabled v
  ]

  trip-IsValid :
      (b : CircuitBreakers) (key : Text) (now : ℕ) (e : CircuitEntry)
      → IsValid b
      → b.config.initial_open ≤ e.open_for
      → e.open_for ≤ b.config.max_open
      → IsValid (trip j b key now e).0
  unfolding trip
  trip-IsValid b key now e v lo hi = put-IsValid b key _ v (ground arith)

  fail_entry-IsValid :
      (b : CircuitBreakers) (key : Text) (now : ℕ) (e : CircuitEntry) (s : CircuitState)
      → e.state ≡ s
      → IsConfig b.config
      → IsValid b
      → IsEntry b.config e
      → IsValid (fail_entry j b key now e s).0
  unfolding fail_entry
  fail_entry-IsValid b key now e closed st c v w =
      elim (Bool-cases
        (ltb (min (e.consecutive_failures + 1) u32_max) b.config.failure_threshold)) [
          | inl few ↦ rw few (put-IsValid b key _ v (ground arith))
          | inr many ↦ rw many (trip-IsValid b key now _ v w.low w.high)
        ]
  fail_entry-IsValid b key now e (half_open t) st c v w =
      trip-IsValid b key now _ v (omega (arith, w.low, c.ordered, c.representable)) (omega arith)
  fail_entry-IsValid b key now e (open_until t) st c v w = v

  fail-IsValid :
      (b : CircuitBreakers) (p : CircuitPermit) (now : ℕ) (o : Option CircuitEntry)
      → IsConfig b.config
      → IsValid b
      → ((e : CircuitEntry) → o ≡ some e → IsEntry b.config e)
      → IsValid (fail j b p now o).0
  unfolding fail
  fail-IsValid b p now none c v w = v
  fail-IsValid b p now (some e) c v w = elim (Bool-cases (e.generation == p.generation)) [
    | inl current ↦ rw current (fail_entry-IsValid b p.key now e e.state refl c v (w e refl))
    | inr stale ↦ rw stale v
  ]

  pub record_failure-IsValid :
      (b : CircuitBreakers) (p : CircuitPermit) (now : ℕ) (impact : FailureImpact)
      → IsConfig b.config
      → IsValid b
      → IsValid (record_failure j b p now impact).0
  unfolding record_failure
  record_failure-IsValid b p now available c v = record_success-IsValid b p c v
  record_failure-IsValid b p now unavailable c v = elim (Bool-cases b.config.enabled) [
    | inl enabled ↦ simp enabled (fail-IsValid b p now _ c v (λ e h. v p.key e h))
    | inr disabled ↦ simp disabled v
  ]

-- The calls of the three methods.
pub data Call : Type 0 where
  acquires : Text → ℕ → Call
  succeeds : CircuitPermit → Call
  fails : CircuitPermit → ℕ → FailureImpact → Call

abbrev pub call_key : Call → Text
call_key (acquires key now) = key
call_key (succeeds p) = p.key
call_key (fails p now impact) = p.key

module _ (j : Jitter) where
  unfoldable pub call : CircuitBreakers → Call → CircuitBreakers
  call b (acquires key now) = (acquire j b key now).0
  call b (succeeds p) = (record_success j b p).0
  call b (fails p now impact) = (record_failure j b p now impact).0

  unfoldable pub calls : CircuitBreakers → List Call → CircuitBreakers
  calls b [] = b
  calls b (c ∷ cs) = calls (call b c) cs
