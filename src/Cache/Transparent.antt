-- ===== src/Cache/Transparent.antt =====
-- `Scope::read` of vigilo/src/case_reader/cache.rs against a read without a cache.
use agent_vigilo.Prelude.{
  ℕ, ◌≡◌, refl, sym, ◌∙◌, inl, inr, not, arith, ltb, Option, none, some, List, Result, ok, ◌>>=◌,
  ◌>>◌, ensure, Result-cases, >>=-eq-ok, >>-eq-ok, ensure-eq-ok,
}
use agent_vigilo.Prelude.Text.{Text}
use agent_vigilo.Storage.Limits.{FormatLimits}
use agent_vigilo.Storage.Object.{ObjectRef, validate_ref, verify}
use agent_vigilo.Cache.{
  ReadError, cancelled, deadline_exceeded, Budget, validate_budget, lift_error, State, Events,
  lookup, read_bytes, begin_read, prove_bytes, read, read_cached, Reachable, looked_up, admitted,
}
use agent_vigilo.Cache.Invariant.{Reachable-IsValid, hit_sourced, keep_file_total}

module _ (blake3_hex : List ℕ → Text) (stores : Text → ObjectRef → Result ReadError (List ℕ)) where
  proven_same :
      (binding : Text) (hit : Option (List ℕ)) (reference : ObjectRef) (limits : FormatLimits)
      (budget : Budget) (events : Events)
      → ((cached : List ℕ)
          → hit ≡ some cached
          → read_bytes blake3_hex (stores binding) none reference ≡ ok cached)
      → events.interrupted ≡ none
      → prove_bytes blake3_hex (stores binding) hit reference limits budget events
        ≡ prove_bytes blake3_hex (stores binding) none reference limits budget events
  unfolding prove_bytes
  proven_same binding none reference limits budget events known calm = refl
  proven_same binding (some cached) reference limits budget events known calm =
      rw (calm, known cached refl) refl

  module _ (entry_size : ℕ) (encoded_len : ObjectRef → Result ReadError ℕ) where
    -- A read of the owner that a binding names, through the cache.
    abbrev pub through_cache :
        Text
        → ObjectRef
        → FormatLimits
        → Budget
        → Events
        → State
        → Result ReadError (List ℕ) × Option (Text × State)
    through_cache binding reference limits budget events s =
        read_cached blake3_hex (stores binding) entry_size encoded_len reference limits budget
          events (some (binding, s))

    -- The same read without a cache.
    abbrev pub without_cache :
        Text → ObjectRef → FormatLimits → Budget → Events → Result ReadError (List ℕ)
    without_cache binding reference limits budget events =
        (read_cached blake3_hex (stores binding) entry_size encoded_len reference limits budget
          events none).0

    -- What a read through the cache tests besides fetching the bytes, around any way to fetch them.
    abbrev pub tested :
        ObjectRef
        → FormatLimits
        → Budget
        → Events
        → Result ReadError (List ℕ)
        → Result ReadError (List ℕ)
    tested reference limits budget events fetched = do
      validate_budget budget events.now events.later
      lift_error (validate_ref reference limits)
      ensure (not events.cancelled_before) cancelled
      bytes ← fetched
      verified ← lift_error (verify blake3_hex reference bytes limits)
      ensure (not events.cancelled_after) cancelled
      ensure (ltb events.last_now budget.deadline) deadline_exceeded
      ok bytes

    tested_bytes :
        (reference : ObjectRef) (limits : FormatLimits) (budget : Budget) (events : Events)
        (fetched : Result ReadError (List ℕ)) {bytes : List ℕ}
        → tested reference limits budget events fetched ≡ ok bytes
        → fetched ≡ ok bytes
    tested_bytes reference limits budget events fetched {bytes} h =
        let (checked, h1) = >>-eq-ok (validate_budget budget events.now events.later) _ h in
        let (valid, h2) = >>-eq-ok (lift_error (validate_ref reference limits)) _ h1 in
        let (going, h3) = ensure-eq-ok (not events.cancelled_before) _ _ h2 in
        let (found, got, h4) = >>=-eq-ok fetched _ h3 in
        let (verified, proof, h5) =
          >>=-eq-ok (lift_error (verify blake3_hex reference found limits)) _ h4 in
        let (still, h6) = ensure-eq-ok (not events.cancelled_after) _ _ h5 in
        let (early, h7) = ensure-eq-ok (ltb events.last_now budget.deadline) _ _ h6 in got ∙ h7

    tested_parts :
        (binding : Text) (reference : ObjectRef) (limits : FormatLimits) (budget : Budget)
        (events : Events)
        → (begin_read blake3_hex (stores binding) reference limits budget events
            >> prove_bytes blake3_hex (stores binding) none reference limits budget events)
          ≡ tested reference limits budget events
              (without_cache binding reference limits budget events)
    unfolding begin_read prove_bytes read_cached
    tested_parts binding reference limits budget events = ground arith

    read_same :
        (binding : Text) (reference : ObjectRef) (limits : FormatLimits) (budget : Budget)
        (events : Events) {s : State}
        → Reachable blake3_hex stores entry_size encoded_len s
        → events.interrupted ≡ none
        → ((n : ℕ) × (encoded_len reference ≡ ok n))
        → let cached = through_cache binding reference limits budget events s in
          (cached.0 ≡ (
            begin_read blake3_hex (stores binding) reference limits budget events
            >> prove_bytes blake3_hex (stores binding) none reference limits budget events))
          × ((after : State) × (cached.1 ≡ some (binding, after))
              × Reachable blake3_hex stores entry_size encoded_len after)
    unfolding read read_cached
    read_same binding reference limits budget events {s} r calm encodes =
        let store = stores binding in
        let same =
          proven_same binding (lookup binding reference s).0 reference limits budget events
            (λ hit.
              hit_sourced blake3_hex stores binding reference s
                (Reachable-IsValid blake3_hex stores entry_size encoded_len r))
            calm in
        let looked = looked_up binding reference r in
        elim (Result-cases (begin_read blake3_hex store reference limits budget events)) [
          | inl (why, refused) ↦ rw (read_cached, read, refused) (refl, (s, refl, r))
          | inr (started, passed) ↦
              elim (Result-cases (
                prove_bytes blake3_hex store (lookup binding reference s).0 reference limits budget
                  events)) [
                    | inl (why, failed) ↦
                        rw (read_cached, read, passed, failed)
                          (sym failed ∙ same, ((lookup binding reference s).1, refl, looked))
                    | inr (bytes, proven) ↦
                        let (after, done) =
                          keep_file_total blake3_hex stores entry_size encoded_len binding reference
                            bytes looked encodes in
                        let kept =
                          admitted binding reference limits budget events bytes r proven looked
                            done in
                        rw (read_cached, read, passed, proven, done)
                          (sym proven ∙ same, (after, refl, kept))
                  ]
        ]

    -- Every owner has a store of its own. When no cancellation or deadline ends a fetch, a read of
    -- an owner through the cache, in any state that the readers of all owners reach, returns
    -- exactly what the tests of the read make of the read without a cache from the owner's store,
    -- an error included; so bytes that it returns are those that the read without a cache returns,
    -- never another owner's. It leaves a state that readers reach again. The JSON of a reference
    -- must be encodable.
    pub read_refines :
        (binding : Text) (reference : ObjectRef) (limits : FormatLimits) (budget : Budget)
        (events : Events) {s : State}
        → Reachable blake3_hex stores entry_size encoded_len s
        → events.interrupted ≡ none
        → ((n : ℕ) × (encoded_len reference ≡ ok n))
        → let bare = without_cache binding reference limits budget events in
          let cached = through_cache binding reference limits budget events s in
          (cached.0 ≡ tested reference limits budget events bare)
          × ((bytes : List ℕ) → cached.0 ≡ ok bytes → bare ≡ ok bytes)
          × ((after : State) × (cached.1 ≡ some (binding, after))
              × Reachable blake3_hex stores entry_size encoded_len after)
    read_refines binding reference limits budget events {s} r calm encodes =
        let bare = without_cache binding reference limits budget events in
        let (same, left) = read_same binding reference limits budget events r calm encodes in
        let equal = same ∙ tested_parts binding reference limits budget events in
        (equal, λ bytes h. tested_bytes reference limits budget events bare (sym equal ∙ h), left)
