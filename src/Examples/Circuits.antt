-- ===== src/Examples/Circuits.antt =====
-- A circuit breaker in runs of a few calls, in nanoseconds.
use agent_vigilo.Prelude.{
  ℕ, ◌+◌, ◌-◌, ◌*◌, ◌/◌, ◌^◌, min, ◌≡◌, ◌≢◌, refl, inl, inr, true, false, none, some, List, [], ◌∷◌,
  arith, if◌then◌else◌, Bool-cases, ok, err,
}
use mathlib.Core.Path.{subst}
use agent_vigilo.Prelude.Text.{Text, codes, text_eq}
use agent_vigilo.Breaker.{
  Config, unavailable, opened, CircuitPermit, closed, open_until, half_open, CircuitEntry,
  CircuitBreakers, new_breakers, Jitter, wrapping_succ, put, jittered_open_for, grant_probe, admit,
  acquire, trip, fail_entry, fail, record_failure,
}
use agent_vigilo.Breaker.Invariant.{
  IsConfig, IsEntry, IsValid, Call, acquires, succeeds, fails, calls,
}
use agent_vigilo.Breaker.Frame.{calls-IsValid, calls_other_keys}
use agent_vigilo.Breaker.Exclusion.{probe_entry, probe_excludes}
use agent_vigilo.Breaker.Backoff.{
  fail_at, IsCounting, opens_at_threshold, none_yet, again, backoff_doubles,
}

-- No jitter is taken off: the hash is 0.
abbrev jitter : Jitter
jitter = record {
  finish = λ seed key generation. 0;
  mul_percent = λ duration percent. duration * percent / 100;
}

abbrev config : Config
config = record {
  enabled = true;
  failure_threshold = 2;
  initial_open = 10;
  max_open = 35;
  jitter_percent = 20;
}

config_valid : IsConfig config
config_valid = record {
  threshold = omega arith;
  initial = omega arith;
  ordered = omega arith;
  representable = omega arith;
}

abbrev key : Text
key = codes "k"

abbrev other : Text
other = codes "o"

abbrev first_permit : CircuitPermit
first_permit = record { key = key; generation = 0; probe = false }

abbrev run : List Call
run =
    acquires key 1
    ∷ fails first_permit 2 unavailable
    ∷ fails first_permit 3 unavailable
    ∷ acquires key 4
    ∷ acquires key 20
    ∷ []

calls-IsValid_example : IsValid (calls jitter (new_breakers config 0) run)
calls-IsValid_example = calls-IsValid jitter config 0 run config_valid

calls_other_keys_example :
    (calls jitter (new_breakers config 0) run).entries other ≡ (new_breakers config 0).entries other
unfolding text_eq
calls_other_keys_example =
    calls_other_keys jitter run (new_breakers config 0) other
      (refl, (refl, (refl, (refl, (refl, tt)))))

-- One entry, for `key`.
abbrev holding : CircuitEntry → CircuitBreakers
holding e = record {
  config = config;
  jitter_seed = 0;
  entries = λ k. if text_eq key k then some e else none;
}

abbrev opened_entry : CircuitEntry
opened_entry = record {
  state = open_until 13;
  generation = 1;
  consecutive_failures = 2;
  open_for = 10;
}

abbrev probing : CircuitBreakers
probing = (acquire jitter (holding opened_entry) key 13).0

abbrev probe_permit : CircuitPermit
probe_permit = record { key = key; generation = 2; probe = true }

probe_granted : acquire jitter (holding opened_entry) key 13 ≡ (probing, ok probe_permit)
unfolding acquire admit grant_probe text_eq
probe_granted = refl

holding-IsValid : (e : CircuitEntry) → IsEntry config e → IsValid (holding e)
holding-IsValid e v k d h = elim (Bool-cases (text_eq key k)) [
  | inl same ↦ (let s : e ≡ d = ground arith in subst (λ x. IsEntry config x) s v)
  | inr different ↦ absurd (ground arith)
]

abbrev closed_entry : CircuitEntry
closed_entry = record { state = closed; generation = 0; consecutive_failures = 0; open_for = 10 }

opened_valid : IsEntry config opened_entry
opened_valid = record {
  low = omega arith;
  high = omega arith;
  counting = λ h. absurd (ground arith);
  generation = omega arith;
}

-- A report of the generation before, a call before the deadline, and a failure of another key.
abbrev beside : List Call
beside =
    succeeds (record { key = key; generation = 1; probe = false })
    ∷ acquires key 14
    ∷ fails (record { key = other; generation = 0; probe = false }) 15 unavailable
    ∷ []

probe_excludes_example :
    ((calls jitter probing beside).entries key
      ≡ some (probe_entry jitter (holding opened_entry) key 13))
    × ((probe_entry jitter (holding opened_entry) key 13).state ≡ half_open 23)
    × ((acquire jitter (calls jitter probing beside) key 15).1
        ≡ err (record { retry_after = 23 - 15 }))
    × (probe_permit.generation ≢ opened_entry.generation)
unfolding text_eq jittered_open_for
probe_excludes_example =
    probe_excludes jitter (holding opened_entry) key 13 probing probe_permit beside 15 23
      config_valid (holding-IsValid opened_entry opened_valid) probe_granted refl refl
      (λ h e. absurd (omega (arith, e)), (λ h. omega arith, (λ h. absurd (cc h), tt))) (omega arith)

first-IsCounting : IsCounting jitter (holding closed_entry) first_permit closed_entry
unfolding text_eq
first-IsCounting = record { enabled = refl; found = refl; is_closed = refl; issued = refl }

opens_at_threshold_example :
    let b = fail_at jitter (holding closed_entry) first_permit (2 ∷ []) in
    IsCounting jitter b first_permit (record closed_entry { consecutive_failures = 1 })
    × ((d : ℕ) × (e' : CircuitEntry) × (record_failure jitter b first_permit 3 unavailable
          ≡ (put b key e', some (opened d)))
        × (e'.state ≡ open_until (3 + d))
        × (e'.generation ≡ wrapping_succ 0))
opens_at_threshold_example =
    opens_at_threshold jitter (holding closed_entry) first_permit closed_entry (2 ∷ []) 3
      first-IsCounting (omega arith) refl refl

abbrev after_probe : CircuitBreakers
after_probe = (record_failure jitter probing probe_permit 15 unavailable).0

backoff_doubles_example :
    (after_probe.config ≡ config)
    × (e' : CircuitEntry) × (after_probe.entries key ≡ some e')
    × (e'.open_for ≡ min (10 * 2 ^ 1) 35)
unfolding text_eq
backoff_doubles_example =
    backoff_doubles jitter (holding opened_entry) key opened_entry after_probe 1 refl (omega arith)
      (omega arith) (again probing probe_permit 13 15 none_yet probe_granted refl)

-- The second failure opens the circuit for 10 nanoseconds.
second_failure :
    (record_failure jitter
      (fail_at jitter (holding closed_entry) first_permit (2 ∷ []))
      first_permit
      3
      unavailable).1
    ≡ some (opened 10)
unfolding fail_at record_failure fail fail_entry trip jittered_open_for put text_eq
second_failure = refl
