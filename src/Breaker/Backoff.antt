-- ===== src/Breaker/Backoff.antt =====
-- When the circuit opens, and how long it stays open.
use agent_vigilo.Prelude.{
  ℕ, suc, ◌+◌, ◌*◌, ◌^◌, ◌≤◌, ◌<◌, min, ◌≡◌, refl, ap, ◌∙◌, true, none, some, List, [], ◌∷◌, arith,
  length, ok,
}
use agent_vigilo.Prelude.Text.{Text}
use native.Mathlib.Nat.{pow-suc}
use agent_vigilo.Breaker.{
  unavailable, CircuitPermit, closed, opened, open_until, half_open, CircuitEntry, CircuitBreakers,
  Jitter, u32_max, duration_max, wrapping_succ, put, jittered_open_for, trip, fail_entry, fail,
  acquire, record_failure,
}
use agent_vigilo.Breaker.Exclusion.{current, probe_entry, acquire_probe, put_self, put_config}

module _ (j : Jitter) where
  -- Failures reported one after the other with the same permit's key and generation.
  unfoldable pub fail_at : CircuitBreakers → CircuitPermit → List ℕ → CircuitBreakers
  fail_at b p [] = b
  fail_at b p (t ∷ ts) = fail_at (record_failure j b p t unavailable).0 p ts

  -- A closed circuit in use: the entry that a permit was given for.
  pub record IsCounting (b : CircuitBreakers) (p : CircuitPermit) (e : CircuitEntry) : Type 0 where
    pub enabled : b.config.enabled ≡ true
    pub found : b.entries p.key ≡ some e
    pub is_closed : e.state ≡ closed
    pub issued : e.generation ≡ p.generation

  closed_failure :
      (b : CircuitBreakers) (p : CircuitPermit) (e : CircuitEntry) (now : ℕ)
      → IsCounting b p e
      → b.config.failure_threshold ≤ u32_max
      → e.consecutive_failures + 1 < b.config.failure_threshold
      → (record_failure j b p now unavailable)
        ≡ (put b p.key (record e { consecutive_failures = e.consecutive_failures + 1 }), none)
  unfolding record_failure fail fail_entry
  closed_failure b p e now c top few = ground (arith, c.enabled, c.found, c.is_closed, c.issued)

  last_failure :
      (b : CircuitBreakers) (p : CircuitPermit) (e : CircuitEntry) (now : ℕ)
      → IsCounting b p e
      → b.config.failure_threshold ≤ u32_max
      → b.config.failure_threshold ≤ e.consecutive_failures + 1
      → (d : ℕ) × (e' : CircuitEntry) × (record_failure j b p now unavailable
          ≡ (put b p.key e', some (opened d)))
        × (e'.state ≡ open_until (now + d))
        × (e'.open_for ≡ e.open_for)
        × (e'.generation ≡ wrapping_succ e.generation)
  unfolding record_failure fail fail_entry trip
  last_failure b p e now c top many =
      let e₁ = record e { consecutive_failures = min (e.consecutive_failures + 1) u32_max } in
      let e₂ = record e₁ { generation = wrapping_succ e.generation } in
      let d = jittered_open_for j b p.key e₂ in
      (
        d,
        record e₂ { state = open_until (now + d) },
        ground (arith, c.enabled, c.found, c.is_closed, c.issued),
        refl,
        refl,
        refl,
      )

  fail_at_nil : (b : CircuitBreakers) (p : CircuitPermit) → fail_at b p [] ≡ b
  unfolding fail_at
  fail_at_nil b p = refl

  fail_at_step :
      (b b₁ : CircuitBreakers) (p : CircuitPermit) (t : ℕ) (ts : List ℕ)
      → record_failure j b p t unavailable ≡ (b₁, none)
      → fail_at b p (t ∷ ts) ≡ fail_at b₁ p ts
  unfolding fail_at
  fail_at_step b b₁ p t ts h = rw h

  below_threshold :
      (ts : List ℕ) (b : CircuitBreakers) (p : CircuitPermit) (e : CircuitEntry)
      → IsCounting b p e
      → b.config.failure_threshold ≤ u32_max
      → e.consecutive_failures + length ts < b.config.failure_threshold
      → ((fail_at b p ts).config ≡ b.config)
        × IsCounting
            (fail_at b p ts)
            p
            (record e { consecutive_failures = e.consecutive_failures + length ts })
  below_threshold [] b p e c top few =
      let same : e ≡ record e { consecutive_failures = e.consecutive_failures + 0 } =
        ground arith in
      rw fail_at_nil (refl, rw (← same) c)
  below_threshold (t ∷ ts) b p e c top few =
      let e₁ = record e { consecutive_failures = e.consecutive_failures + 1 } in
      let b₁ = put b p.key e₁ in
      let failed = closed_failure b p e t c top (omega arith) in
      let c₁ : IsCounting b₁ p e₁ = record {
        enabled = rw (put_config b p.key e₁) c.enabled;
        found = put_self b p.key e₁;
        is_closed = c.is_closed;
        issued = c.issued;
      } in
      let pc = put_config b p.key e₁ in
      let (config, rest) = below_threshold ts b₁ p e₁ c₁ (rw pc top) (rw pc (omega arith)) in
      let sum : e.consecutive_failures + 1 + length ts ≡ e.consecutive_failures + suc (length ts) =
        omega arith in
      rw (fail_at_step b b₁ p t ts failed) (config ∙ pc, rw (← sum) rest)

  -- In a closed circuit in use with no failure counted, fewer failures than the threshold leave it
  -- closed, and the failure that reaches the threshold opens it for the reported duration and makes
  -- every permit given before stale.
  pub opens_at_threshold :
      (b : CircuitBreakers) (p : CircuitPermit) (e : CircuitEntry) (ts : List ℕ) (now : ℕ)
      → IsCounting b p e
      → b.config.failure_threshold ≤ u32_max
      → e.consecutive_failures ≡ 0
      → length ts + 1 ≡ b.config.failure_threshold
      → IsCounting (fail_at b p ts) p (record e { consecutive_failures = length ts })
        × ((d : ℕ) × (e' : CircuitEntry) × (record_failure j (fail_at b p ts) p now unavailable
              ≡ (put (fail_at b p ts) p.key e', some (opened d)))
            × (e'.state ≡ open_until (now + d))
            × (e'.generation ≡ wrapping_succ e.generation))
  opens_at_threshold b p e ts now c top zero_failures full =
      let (config, before) = below_threshold ts b p e c top (omega arith) in
      let count : e.consecutive_failures + length ts ≡ length ts = omega arith in
      let counted : IsCounting (fail_at b p ts) p (record e { consecutive_failures = length ts }) =
        rw count at before in
      let (d, e', r, s, o, g) =
        last_failure (fail_at b p ts) p (record e { consecutive_failures = length ts }) now counted
          (rw config top) (rw config (omega arith)) in
      (counted, (d, e', r, s, g))

  -- Failed probes of one key: each is granted, and each reports that the dependency is unavailable.
  pub data FailedProbes (b : CircuitBreakers) (key : Text) : CircuitBreakers → ℕ → Type 0 where
    none_yet : FailedProbes b key b 0
    again :
        {b₁ : CircuitBreakers} {n : ℕ} (b₂ : CircuitBreakers) (p : CircuitPermit) (now later : ℕ)
        → FailedProbes b key b₁ n
        → acquire j b₁ key now ≡ (b₂, ok p)
        → p.probe ≡ true
        → FailedProbes b key (record_failure j b₂ p later unavailable).0 (suc n)

  half_open_failure :
      (b : CircuitBreakers) (p : CircuitPermit) (e : CircuitEntry) (until now : ℕ)
      → b.config.enabled ≡ true
      → b.entries p.key ≡ some e
      → e.state ≡ half_open until
      → e.generation ≡ p.generation
      → (d : ℕ) × (e' : CircuitEntry) × (record_failure j b p now unavailable
          ≡ (put b p.key e', some (opened d)))
        × (e'.state ≡ open_until (now + d))
        × (e'.open_for ≡ min (min (e.open_for * 2) duration_max) b.config.max_open)
  unfolding record_failure fail fail_entry trip
  half_open_failure b p e until now on found state issued =
      let e₁ = record e { open_for = min (min (e.open_for * 2) duration_max) b.config.max_open } in
      let e₂ = record e₁ { generation = wrapping_succ e.generation } in
      let d = jittered_open_for j b p.key e₂ in
      (d, record e₂ { state = open_until (now + d) }, ground arith, refl, refl)

  -- A failed probe opens the circuit again, for twice the open duration up to the maximum.
  pub failed_probe :
      (b : CircuitBreakers) (key : Text) (e : CircuitEntry) (b₂ : CircuitBreakers)
      (p : CircuitPermit) (now later : ℕ)
      → b.entries key ≡ some e
      → acquire j b key now ≡ (b₂, ok p)
      → p.probe ≡ true
      → let b₃ = (record_failure j b₂ p later unavailable).0 in
        (b₃.config ≡ b.config)
        × (d : ℕ) × (e' : CircuitEntry) × (b₃.entries key ≡ some e')
        × (e'.state ≡ open_until (later + d))
        × (e'.open_for ≡ min (min (e.open_for * 2) duration_max) b.config.max_open)
  failed_probe b key e b₂ p now later found h probe =
      let (on, made, granted) = acquire_probe j b key now b₂ p h probe in
      let e₁ = probe_entry j b key now in
      let pc : b₂.config ≡ b.config = rw made (put_config b key e₁) in
      let k : p.key ≡ key = rw granted refl in
      let (d, e', r, s, o) =
        half_open_failure b₂ p e₁ _ later (rw pc on) (rw (made, k) (put_self b key e₁)) refl
          (rw granted refl) in
      let same : (current b key).open_for ≡ e.open_for = rw found refl in
      (
        rw r (put_config b₂ p.key e' ∙ pc),
        d,
        e',
        rw (r, k) (put_self b₂ key e'),
        s,
        o ∙ rw (pc, same) refl,
      )

  double_capped :
      (x n top : ℕ)
      → top ≤ duration_max
      → min (min (min (x * 2 ^ n) top * 2) duration_max) top ≡ min (x * 2 ^ suc n) top
  double_capped x n top h =
      let e : x * 2 ^ suc n ≡ x * 2 ^ n * 2 = ap (λ (t : ℕ). x * t) (pow-suc 2 n) ∙ regroup in
      omega arith
    where
      regroup : x * (2 ^ n * 2) ≡ x * 2 ^ n * 2
      regroup = omega arith

  -- After `n` failed probes in a row the open duration is the one before them, doubled `n` times
  -- and capped at the maximum.
  pub backoff_doubles :
      (b : CircuitBreakers) (key : Text) (e : CircuitEntry) (b' : CircuitBreakers) (n : ℕ)
      → b.entries key ≡ some e
      → e.open_for ≤ b.config.max_open
      → b.config.max_open ≤ duration_max
      → FailedProbes b key b' n
      → (b'.config ≡ b.config)
        × (e' : CircuitEntry) × (b'.entries key ≡ some e')
        × (e'.open_for ≡ min (e.open_for * 2 ^ n) b.config.max_open)
  backoff_doubles b key e b' n found le top none_yet = (refl, e, found, omega arith)
  backoff_doubles b key e b' n found le top
        (again {b₁ = b₁} {n = m} b₂ p now later before h probe) =
      let (config, e₁, found₁, o₁) = backoff_doubles b key e b₁ m found le top before in
      let (config', d, e', found', s, o') = failed_probe b₁ key e₁ b₂ p now later found₁ h probe in
      (
        config' ∙ config,
        e',
        found',
        o' ∙ rw (o₁, config) (double_capped e.open_for m b.config.max_open top),
      )
