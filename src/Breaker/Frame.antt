-- ===== src/Breaker/Frame.antt =====
-- What a call leaves alone: the configuration, and every other key.
use agent_vigilo.Prelude.{
  ℕ, ◌+◌, min, ◌≡◌, refl, ◌∙◌, inl, inr, false, Option, none, some, List, [], ◌∷◌, ltb, leb, ◌==◌,
  Bool-cases, All,
}
use agent_vigilo.Prelude.Text.{Text, text_eq}
use agent_vigilo.Breaker.{
  Config, FailureImpact, available, unavailable, CircuitPermit, CircuitState, closed, open_until,
  half_open, CircuitEntry, new_breakers, CircuitBreakers, Jitter, put, grant_probe, admit, acquire,
  succeed, record_success, trip, fail_entry, fail, record_failure,
}
use agent_vigilo.Breaker.Invariant.{
  IsConfig, IsValid, acquire-IsValid, record_success-IsValid, record_failure-IsValid, Call,
  acquires, succeeds, fails, call_key, call, calls,
}

-- The same configuration and the same entries but at one key.
pub record Frames (key : Text) (b b' : CircuitBreakers) : Type 0 where
  pub config : b'.config ≡ b.config
  pub others : (k : Text) → text_eq key k ≡ false → b'.entries k ≡ b.entries k

Frames-refl : (key : Text) (b : CircuitBreakers) → Frames key b b
Frames-refl key b = record { config = refl; others = λ k h. refl }

put-Frames : (key : Text) (b : CircuitBreakers) (e : CircuitEntry) → Frames key b (put b key e)
unfolding put
put-Frames key b e = record { config = refl; others = λ k h. rw h }

module _ (j : Jitter) where
  admit-Frames :
      (b : CircuitBreakers) (key : Text) (now : ℕ) (e : CircuitEntry) (s : CircuitState)
      → Frames key b (admit j b key now e s).0
  unfolding admit grant_probe
  admit-Frames b key now e closed = put-Frames key b _
  admit-Frames b key now e (open_until t) = elim (Bool-cases (ltb now t)) [
    | inl early ↦ rw early (put-Frames key b _)
    | inr late ↦ rw late (put-Frames key b _)
  ]
  admit-Frames b key now e (half_open t) = elim (Bool-cases (leb t now)) [
    | inl late ↦ rw late (put-Frames key b _)
    | inr early ↦ rw early (put-Frames key b _)
  ]

  pub acquire-Frames :
      (b : CircuitBreakers) (key : Text) (now : ℕ) → Frames key b (acquire j b key now).0
  unfolding acquire
  acquire-Frames b key now = elim (Bool-cases b.config.enabled) [
    | inl enabled ↦ simp enabled (admit-Frames b key now _ _)
    | inr disabled ↦ simp disabled (Frames-refl key b)
  ]

  succeed-Frames :
      (b : CircuitBreakers) (p : CircuitPermit) (o : Option CircuitEntry)
      → Frames p.key b (succeed j b p o).0
  unfolding succeed
  succeed-Frames b p none = Frames-refl p.key b
  succeed-Frames b p (some e) = elim (Bool-cases (e.generation == p.generation)) [
    | inl current ↦ rw current (elim (Bool-cases p.probe) [
      | inl probe ↦ simp probe (put-Frames p.key b _)
      | inr plain ↦ simp plain (put-Frames p.key b _)
    ])
    | inr stale ↦ rw stale (Frames-refl p.key b)
  ]

  pub record_success-Frames :
      (b : CircuitBreakers) (p : CircuitPermit) → Frames p.key b (record_success j b p).0
  unfolding record_success
  record_success-Frames b p = elim (Bool-cases b.config.enabled) [
    | inl enabled ↦ simp enabled (succeed-Frames b p _)
    | inr disabled ↦ simp disabled (Frames-refl p.key b)
  ]

  fail_entry-Frames :
      (b : CircuitBreakers) (key : Text) (now : ℕ) (e : CircuitEntry) (s : CircuitState)
      → Frames key b (fail_entry j b key now e s).0
  unfolding fail_entry trip
  fail_entry-Frames b key now e closed =
      let few = ltb (min (e.consecutive_failures + 1) 4_294_967_295) b.config.failure_threshold in
      elim (Bool-cases few) [
        | inl h ↦ rw h (put-Frames key b _)
        | inr h ↦ rw h (put-Frames key b _)
      ]
  fail_entry-Frames b key now e (half_open t) = put-Frames key b _
  fail_entry-Frames b key now e (open_until t) = Frames-refl key b

  fail-Frames :
      (b : CircuitBreakers) (p : CircuitPermit) (now : ℕ) (o : Option CircuitEntry)
      → Frames p.key b (fail j b p now o).0
  unfolding fail
  fail-Frames b p now none = Frames-refl p.key b
  fail-Frames b p now (some e) = elim (Bool-cases (e.generation == p.generation)) [
    | inl current ↦ rw current (fail_entry-Frames b p.key now e _)
    | inr stale ↦ rw stale (Frames-refl p.key b)
  ]

  pub record_failure-Frames :
      (b : CircuitBreakers) (p : CircuitPermit) (now : ℕ) (impact : FailureImpact)
      → Frames p.key b (record_failure j b p now impact).0
  unfolding record_failure
  record_failure-Frames b p now available = record_success-Frames b p
  record_failure-Frames b p now unavailable = elim (Bool-cases b.config.enabled) [
    | inl enabled ↦ simp enabled (fail-Frames b p now _)
    | inr disabled ↦ simp disabled (Frames-refl p.key b)
  ]

  pub call-Frames : (b : CircuitBreakers) (c : Call) → Frames (call_key c) b (call j b c)
  unfolding call
  call-Frames b (acquires key now) = acquire-Frames b key now
  call-Frames b (succeeds p) = record_success-Frames b p
  call-Frames b (fails p now impact) = record_failure-Frames b p now impact

  call-IsValid :
      (b : CircuitBreakers) (c : Call) → IsConfig b.config → IsValid b → IsValid (call j b c)
  unfolding call
  call-IsValid b (acquires key now) v w = acquire-IsValid j b key now v w
  call-IsValid b (succeeds p) v w = record_success-IsValid j b p v w
  call-IsValid b (fails p now impact) v w = record_failure-IsValid j b p now impact v w

  calls-IsValid-from :
      (cs : List Call) (b : CircuitBreakers)
      → IsConfig b.config
      → IsValid b
      → IsValid (calls j b cs)
  unfolding calls
  calls-IsValid-from [] b v w = w
  calls-IsValid-from (c ∷ cs) b v w =
      calls-IsValid-from cs (call j b c) (rw (call-Frames b c).config v) (call-IsValid b c v w)

  -- After any calls on fresh breakers with an accepted configuration, every entry's open duration
  -- lies between the initial and the maximal one, its generation fits 64 bits, and a closed entry
  -- has fewer consecutive failures than the threshold.
  pub calls-IsValid :
      (c : Config) (seed : ℕ) (cs : List Call)
      → IsConfig c
      → IsValid (calls j (new_breakers c seed) cs)
  unfolding new_breakers
  calls-IsValid c seed cs v = calls-IsValid-from cs _ v (λ key e h. absurd (cc))

  -- Calls on other keys leave an entry as it is: a dependency that fails does not open the circuit
  -- of another one.
  pub calls_other_keys :
      (cs : List Call) (b : CircuitBreakers) (key : Text)
      → All (λ c. text_eq (call_key c) key ≡ false) cs
      → (calls j b cs).entries key ≡ b.entries key
  unfolding calls
  calls_other_keys [] b key h = refl
  calls_other_keys (c ∷ cs) b key (h, hs) =
      calls_other_keys cs (call j b c) key hs ∙ (call-Frames b c).others key h
