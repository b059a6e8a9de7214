-- ===== src/Breaker/Exclusion.antt =====
-- A half-open circuit lets one probe through, and what was handed out before it counts no more.
use agent_vigilo.Prelude.{
  ℕ, ◌+◌, ◌-◌, ◌<◌, ◌≡◌, refl, sym, ap, ◌∙◌, ◌≢◌, inl, inr, true, false, none, some, List, [], ◌∷◌,
  arith, Bool-cases, All, ok, err,
}
use agent_vigilo.Prelude.Text.{Text, text_eq, text_eq_refl, text_eq→eq}
use agent_vigilo.Breaker.{
  FailureImpact, available, unavailable, CircuitPermit, CircuitState, closed, open_until, half_open,
  CircuitEntry, CircuitBreakers, Jitter, wrapping_succ, or_new, put, permit, jittered_open_for,
  grant_probe, admit, acquire, succeed, record_success, fail, record_failure,
}
use mathlib.Core.Path.{subst}
use agent_vigilo.Breaker.Invariant.{
  IsConfig, IsValid, or_new-IsEntry, Call, acquires, succeeds, fails, call_key, call, calls,
}
use agent_vigilo.Breaker.Frame.{call-Frames}

abbrev pub current : CircuitBreakers → Text → CircuitEntry
current b key = or_new b.config.initial_open (b.entries key)

pub put_self :
    (b : CircuitBreakers) (key : Text) (e : CircuitEntry) → (put b key e).entries key ≡ some e
unfolding put
put_self b key e = rw (text_eq_refl key)

pub put_config :
    (b : CircuitBreakers) (key : Text) (e : CircuitEntry) → (put b key e).config ≡ b.config
unfolding put
put_config b key e = refl

module _ (j : Jitter) where
  -- The entry that a granted probe leaves.
  abbrev pub probe_entry : CircuitBreakers → Text → ℕ → CircuitEntry
  probe_entry b key now =
      let e = current b key in
      let e' = record e { generation = wrapping_succ e.generation } in
      record e' { state = half_open (now + jittered_open_for j b key e') }

  admit_probe :
      (b : CircuitBreakers) (key : Text) (now : ℕ) (s : CircuitState) (b' : CircuitBreakers)
      (p : CircuitPermit)
      → admit j b key now (current b key) s ≡ (b', ok p)
      → p.probe ≡ true
      → (b' ≡ put b key (probe_entry b key now)) × (p ≡ permit key (probe_entry b key now) true)
  unfolding admit grant_probe
  admit_probe b key now closed b' p h probe = ground arith
  admit_probe b key now (open_until t) b' p h probe = ground arith
  admit_probe b key now (half_open t) b' p h probe = ground arith

  pub acquire_probe :
      (b : CircuitBreakers) (key : Text) (now : ℕ) (b' : CircuitBreakers) (p : CircuitPermit)
      → acquire j b key now ≡ (b', ok p)
      → p.probe ≡ true
      → (b.config.enabled ≡ true)
        × (b' ≡ put b key (probe_entry b key now))
        × (p ≡ permit key (probe_entry b key now) true)
  unfolding acquire
  acquire_probe b key now b' p h probe =
      let on : b.config.enabled ≡ true = ground arith in
      let granted : admit j b key now (current b key) (current b key).state ≡ (b', ok p) =
        ground arith in
      let (x, y) = admit_probe b key now (current b key).state b' p granted probe in (on, x, y)

  -- A permit of another generation than the entry's changes nothing, whatever it reports.
  stale_permit :
      (b : CircuitBreakers) (q : CircuitPermit) (e : CircuitEntry) (now : ℕ)
      (impact : FailureImpact)
      → b.entries q.key ≡ some e
      → e.generation ≢ q.generation
      → (record_success j b q ≡ (b, none)) × (record_failure j b q now impact ≡ (b, none))
  unfolding record_success record_failure succeed fail
  stale_permit b q e now available h ne = (ground arith, ground arith)
  stale_permit b q e now unavailable h ne = (ground arith, ground arith)

  -- Until the deadline of a granted probe a call for the key is refused, with the time that is
  -- left, and the entry stays.
  one_probe_at :
      (b : CircuitBreakers) (key : Text) (e : CircuitEntry) (until now : ℕ)
      → b.config.enabled ≡ true
      → b.entries key ≡ some e
      → e.state ≡ half_open until
      → now < until
      → acquire j b key now ≡ (put b key e, err (record { retry_after = until - now }))
  unfolding acquire admit
  one_probe_at b key e until now on h s lt = ground arith

  -- Calls that do not report the probe: of other keys, before the deadline, or with a permit of
  -- another generation.
  abbrev pub IsBeside : Text → ℕ → ℕ → Call → Type 0
  IsBeside key generation until (acquires k now) = text_eq k key ≡ true → now < until
  IsBeside key generation until (succeeds q) = text_eq q.key key ≡ true → q.generation ≢ generation
  IsBeside key generation until (fails q now impact) =
      text_eq q.key key ≡ true → q.generation ≢ generation

  -- The breaker is on, and the entry of the key is the given one.
  record Holds (key : Text) (e : CircuitEntry) (b : CircuitBreakers) : Type 0 where
    enabled : b.config.enabled ≡ true
    found : b.entries key ≡ some e

  Holds-other :
      (key : Text) (e : CircuitEntry) (b : CircuitBreakers) (c : Call)
      → Holds key e b
      → text_eq (call_key c) key ≡ false
      → Holds key e (call j b c)
  Holds-other key e b c w other = record {
    enabled = ap (λ x. x.enabled) (call-Frames j b c).config ∙ w.enabled;
    found = (call-Frames j b c).others key other ∙ w.found;
  }

  Holds-beside :
      (key : Text) (e : CircuitEntry) (until : ℕ) (b : CircuitBreakers) (c : Call)
      → e.state ≡ half_open until
      → Holds key e b
      → IsBeside key e.generation until c
      → text_eq (call_key c) key ≡ true
      → Holds key e (call j b c)
  unfolding call
  Holds-beside key e until b (acquires k now) s w beside same =
      let here : k ≡ key = text_eq→eq k key same in
      let refused =
        one_probe_at b k e until now w.enabled (ap b.entries here ∙ w.found) s (beside same) in
      let left : call j b (acquires k now) ≡ put b k e = ap (λ r. r.0) refused in
      record {
        enabled = rw (left, put_config b k e) w.enabled;
        found = rw (left, ← here) (put_self b k e);
      }
  Holds-beside key e until b (succeeds q) s w beside same =
      let here : b.entries q.key ≡ some e = ap b.entries (text_eq→eq q.key key same) ∙ w.found in
      let (kept, _) = stale_permit b q e 0 available here (λ g. beside same (sym g)) in
      subst (Holds key e) (sym (ap (λ r. r.0) kept)) w
  Holds-beside key e until b (fails q now impact) s w beside same =
      let here : b.entries q.key ≡ some e = ap b.entries (text_eq→eq q.key key same) ∙ w.found in
      let (_, kept) = stale_permit b q e now impact here (λ g. beside same (sym g)) in
      subst (Holds key e) (sym (ap (λ r. r.0) kept)) w

  Holds-calls :
      (key : Text) (e : CircuitEntry) (until : ℕ) (cs : List Call) (b : CircuitBreakers)
      → e.state ≡ half_open until
      → All (IsBeside key e.generation until) cs
      → Holds key e b
      → Holds key e (calls j b cs)
  unfolding calls
  Holds-calls key e until [] b s beside w = w
  Holds-calls key e until (c ∷ cs) b s (first, rest) w =
      let w' : Holds key e (call j b c) = elim (Bool-cases (text_eq (call_key c) key)) [
        | inl same ↦ Holds-beside key e until b c s w first same
        | inr other ↦ Holds-other key e b c w other
      ] in
      Holds-calls key e until cs (call j b c) s rest w'

  -- On valid breakers a probe was granted, and any calls follow that do not report it: calls for
  -- its key before its deadline, calls for other keys, and reports with permits of other
  -- generations. Then the entry is still the one that the probe left, half open until its deadline,
  -- and the next call for the key before the deadline is refused with the time that is left. The
  -- permits of the generation before the probe's are among the permits that change nothing.
  pub probe_excludes :
      (b : CircuitBreakers) (key : Text) (now : ℕ) (b' : CircuitBreakers) (p : CircuitPermit)
      (cs : List Call) (later until : ℕ)
      → IsConfig b.config
      → IsValid b
      → acquire j b key now ≡ (b', ok p)
      → p.probe ≡ true
      → until
        ≡ now
          + jittered_open_for j b key
              (record (current b key) { generation = wrapping_succ (current b key).generation })
      → All (IsBeside key p.generation until) cs
      → later < until
      → ((calls j b' cs).entries key ≡ some (probe_entry b key now))
        × ((probe_entry b key now).state ≡ half_open until)
        × ((acquire j (calls j b' cs) key later).1 ≡ err (record { retry_after = until - later }))
        × (p.generation ≢ (current b key).generation)
  probe_excludes b key now b' p cs later until c v h probe deadline beside lt =
      let (on, made, granted) = acquire_probe b key now b' p h probe in
      let e = probe_entry b key now in
      let old = or_new-IsEntry b key c v in
      let state : e.state ≡ half_open until = ap (λ t. half_open t) (sym deadline) in
      let issued : p.generation ≡ e.generation = ap (λ x. x.generation) granted in
      let start : Holds key e b' = record {
        enabled = rw (made, put_config b key e) on;
        found = rw made (put_self b key e);
      } in
      let w =
        Holds-calls key e until cs b' state
          (subst (λ g. All (IsBeside key g until) cs) issued beside) start in
      (
        w.found,
        state,
        ap (λ r. r.1) (one_probe_at (calls j b' cs) key e until later w.enabled w.found state lt),
        λ same. absurd (ground (arith, old.generation, issued)),
      )
