-- ===== src/Cache/Invariant.antt =====
-- The bounds and the contents of the read cache of vigilo/src/case_reader/cache.rs, which hold
-- whatever the order of the lookups and the admissions of its readers.
use agent_vigilo.Prelude.{
  ℕ, ◌+◌, ◌≤◌, ◌≡◌, refl, sym, ap, ◌∙◌, inl, inr, true, false, not, ◌&&◌, Option, none, some, List,
  [], ◌∷◌, ◌++◌, arith, ltb, leb, Bool-cases, option_eq, and-eq-true, length, any, All,
  length-append, Result, ok, >>=-eq-ok,
}
use agent_vigilo.Prelude.Text.{Text, text_eq, byte_len, text_eq→eq}
use mathlib.Core.Path.{subst}
use agent_vigilo.Storage.Limits.{FormatLimits}
use agent_vigilo.Storage.Object.{HashScheme, blake3, ObjectRef, ref_eq}
use agent_vigilo.Storage.Object.Integrity.{format_eq→eq}
use agent_vigilo.Cache.{
  ReadError, Budget, capacity, max_file, max_entries, Entry, State, Events, entry_is, lookup,
  push_file, keep_file, read_bytes, prove_bytes, lift_error, Reachable, created, looked_up,
  admitted,
}
use agent_vigilo.Cache.Entries.{
  total, total-append, clash, AreDistinct, All-append, All-behind, AreDistinct-behind,
  AreDistinct-push, any-false, lookup-cases, rotate-All, rotate-AreDistinct, rotate-total,
  rotate-length,
}
use agent_vigilo.Cache.Room.{make_room-fits}

option_eq→eq : (a b : Option Text) → option_eq text_eq a b ≡ true → a ≡ b
option_eq→eq none none h = refl
option_eq→eq (some s) (some t) h = ap (λ x. some x) (text_eq→eq s t h)
option_eq→eq none (some t) h = cc
option_eq→eq (some s) none h = cc

hash_scheme_unique : (a b : HashScheme) → a ≡ b
hash_scheme_unique blake3 blake3 = refl

ref_eq→eq : (a b : ObjectRef) → ref_eq a b ≡ true → a ≡ b
unfolding ref_eq
ref_eq→eq a b h =
    let storage_alias_eq : a.storage_alias ≡ b.storage_alias = text_eq→eq _ _ (ground arith) in
    let key_eq : a.key ≡ b.key = text_eq→eq _ _ (ground arith) in
    let schema_eq : a.schema ≡ b.schema = format_eq→eq _ _ (ground arith) in
    let digest_eq : a.digest ≡ b.digest = text_eq→eq _ _ (ground arith) in
    let byte_count_eq : a.byte_count ≡ b.byte_count = ground arith in
    let revision_eq : a.revision ≡ b.revision = option_eq→eq _ _ (ground arith) in
    λ i. record {
      storage_alias = storage_alias_eq i;
      key = key_eq i;
      schema = schema_eq i;
      hash_scheme = hash_scheme_unique a.hash_scheme b.hash_scheme i;
      digest = digest_eq i;
      byte_count = byte_count_eq i;
      revision = revision_eq i;
    }

module _ (blake3_hex : List ℕ → Text) (stores : Text → ObjectRef → Result ReadError (List ℕ)) where
  -- The store of the entry's owner has its bytes under its reference, and they are few enough.
  unfoldable pub IsSourced : Entry → Type 0
  IsSourced e =
      (read_bytes blake3_hex (stores e.binding) none e.reference ≡ ok e.bytes)
      × (length e.bytes ≤ max_file)

  -- The charge is that of the entries and within the capacity, the entries are at most 256 with keys
  -- that differ, and the store of its owner has the bytes of each.
  unfoldable pub IsValid : State → Type 0
  IsValid s =
      (s.charged ≡ total s.entries)
      × (s.charged ≤ capacity)
      × (length s.entries ≤ max_entries)
      × AreDistinct s.entries
      × All IsSourced s.entries

  lookup-IsValid :
      (binding : Text) (reference : ObjectRef) (s : State)
      → IsValid s
      → IsValid ((lookup binding reference s).1)
  unfolding IsValid
  lookup-IsValid binding reference s (c, fits, few, d, u) =
      elim (lookup-cases binding reference s) [
        | inl miss ↦ rw miss (c, fits, few, d, u)
        | inr (front, e, back, split, is, hit) ↦ rw hit (
          c ∙ ap total split ∙ sym (rotate-total front e back),
          fits,
          subst (λ n. n ≤ max_entries) (ap length split ∙ sym (rotate-length front e back)) few,
          rotate-AreDistinct front e back (subst AreDistinct split d),
          rotate-All IsSourced front e back (subst (All IsSourced) split u),
        )
      ]

  -- What a hit hands out is what the store has.
  pub hit_sourced :
      (binding : Text) (reference : ObjectRef) (s : State) {bytes : List ℕ}
      → IsValid s
      → (lookup binding reference s).0 ≡ some bytes
      → read_bytes blake3_hex (stores binding) none reference ≡ ok bytes
  unfolding IsValid IsSourced entry_is
  hit_sourced binding reference s {bytes} (c, fits, few, d, u) h =
      elim (lookup-cases binding reference s) [
        | inl miss ↦ cc (ap (λ p. p.0) miss)
        | inr (front, e, back, split, is, hit) ↦
            let same : e.bytes ≡ bytes = cc (ap (λ p. p.0) hit) in
            let (own, small) =
              (All-behind IsSourced front (e ∷ back) (subst (All IsSourced) split u)).0 in
            let (key, asked) = and-eq-true (text_eq e.binding binding) _ is in
            cc (ref_eq→eq e.reference reference asked, text_eq→eq e.binding binding key)
      ]

  read_bytes-again :
      (binding : Text) (interrupted : Option ReadError) (reference : ObjectRef) {bytes : List ℕ}
      → read_bytes blake3_hex (stores binding) interrupted reference ≡ ok bytes
      → read_bytes blake3_hex (stores binding) none reference ≡ ok bytes
  unfolding read_bytes
  read_bytes-again binding none reference h = h
  read_bytes-again binding (some why) reference h = cc

  -- Behind the proof, the bytes are those that the store has.
  pub proven_sourced :
      (binding : Text) (hit : Option (List ℕ)) (reference : ObjectRef) (limits : FormatLimits)
      (budget : Budget) (events : Events) {bytes : List ℕ}
      → ((cached : List ℕ)
          → hit ≡ some cached
          → read_bytes blake3_hex (stores binding) none reference ≡ ok cached)
      → prove_bytes blake3_hex (stores binding) hit reference limits budget events ≡ ok bytes
      → read_bytes blake3_hex (stores binding) none reference ≡ ok bytes
  unfolding prove_bytes lift_error
  proven_sourced binding none reference limits budget events {bytes} known h =
      let (fetched, got, rest) =
        >>=-eq-ok (read_bytes blake3_hex (stores binding) events.interrupted reference) _ h in
      let same : fetched ≡ bytes = ground arith in
      read_bytes-again binding events.interrupted reference (cc)
  proven_sourced binding (some cached) reference limits budget events {bytes} known h =
      let same : cached ≡ bytes = ground arith in known cached refl ∙ ap (λ b. ok b) same

  push_file-IsValid :
      (binding : Text) (reference : ObjectRef) (bytes : List ℕ) (charge : ℕ) (s : State)
      {after : State}
      → IsValid s
      → read_bytes blake3_hex (stores binding) none reference ≡ ok bytes
      → length bytes ≤ max_file
      → charge ≤ capacity
      → any (entry_is binding reference) s.entries ≡ false
      → push_file binding reference bytes charge s ≡ ok after
      → IsValid after
  unfolding IsValid IsSourced push_file total
  push_file-IsValid binding reference bytes charge s {after} (c, fits, few, d, u) own small room new
        h =
      let (dropped, kept, made, split, below, count) = make_room-fits charge s.entries room in
      let e : Entry = record {
        binding = binding;
        reference = reference;
        bytes = bytes;
        charge = charge;
      } in
      let result : after ≡ record { entries = kept ++ e ∷ []; charged = total kept + charge } =
        ground (arith, made, c) in
      subst IsValid (sym result) (
        omega (arith, total-append kept (e ∷ [])),
        below,
        omega (arith, length-append kept (e ∷ [])),
        AreDistinct-push kept e (AreDistinct-behind dropped kept (subst AreDistinct split d)) (
            All-behind (λ f. clash e f ≡ false) dropped kept
              (subst (All (λ f. clash e f ≡ false)) split
                (any-false (entry_is binding reference) s.entries new))),
        All-append IsSourced kept (e ∷ [])
            (All-behind IsSourced dropped kept (subst (All IsSourced) split u)) ((own, small), tt),
      )

  push_file_total :
      (binding : Text) (reference : ObjectRef) (bytes : List ℕ) (charge : ℕ) (s : State)
      → IsValid s
      → charge ≤ capacity
      → (after : State) × (push_file binding reference bytes charge s ≡ ok after)
  unfolding IsValid push_file
  push_file_total binding reference bytes charge s (c, fits, few, d, u) room =
      let (dropped, kept, made, split, below, count) = make_room-fits charge s.entries room in
      (
        record {
          entries =
              kept
              ++ record { binding = binding; reference = reference; bytes = bytes; charge = charge }
                ∷ [];
          charged = total kept + charge;
        },
        rw (c, made) refl,
      )

  module _ (entry_size : ℕ) (encoded_len : ObjectRef → Result ReadError ℕ) where
    keep_file-IsValid :
        (binding : Text) (reference : ObjectRef) (bytes : List ℕ) (s : State) {after : State}
        → IsValid s
        → read_bytes blake3_hex (stores binding) none reference ≡ ok bytes
        → keep_file entry_size encoded_len binding reference bytes s ≡ ok after
        → IsValid after
    unfolding keep_file
    keep_file-IsValid binding reference bytes s {after} v own h =
        elim (Bool-cases (ltb max_file (length bytes))) [
          | inl large ↦ let same : s ≡ after = ground arith in subst IsValid same v
          | inr small ↦
              let (n, encoded, rest) = >>=-eq-ok (encoded_len reference) _ (rw small at h) in
              let charge = length bytes + n + byte_len binding + entry_size in
              elim (Bool-cases
                (leb charge capacity && not (any (entry_is binding reference) s.entries))) [
                  | inl fresh ↦
                      push_file-IsValid binding reference bytes charge s v own (ground arith)
                        (ground arith) (ground arith) (rw fresh at rest)
                  | inr known ↦ let same : s ≡ after = ground arith in subst IsValid same v
                ]
        ]

    -- Whatever the order in which readers look up and admit files: the charge of the cache is the
    -- sum of the charges of its entries and at most 8 MiB, the entries are at most 256, of at most
    -- 1 MiB each and with keys that differ, and the store of its owner has the bytes of each entry
    -- under its reference.
    pub Reachable-IsValid :
        {s : State} → Reachable blake3_hex stores entry_size encoded_len s → IsValid s
    unfolding IsValid total AreDistinct
    Reachable-IsValid created = (refl, omega arith, omega arith, tt, tt)
    Reachable-IsValid (looked_up {s} binding reference r) =
        lookup-IsValid binding reference s (Reachable-IsValid r)
    Reachable-IsValid
          (admitted {s} {before} {after} binding reference limits budget events bytes r proven r'
            h) =
        keep_file-IsValid binding reference bytes s (Reachable-IsValid r')
          (proven_sourced binding (lookup binding reference before).0 reference limits budget events
            (λ cached. hit_sourced binding reference before (Reachable-IsValid r)) proven)
          h

    -- No admission into a cache that readers reach panics: the eviction never runs out of entries and
    -- never takes more charge away than there is.
    pub keep_file_total :
        (binding : Text) (reference : ObjectRef) (bytes : List ℕ) {s : State}
        → Reachable blake3_hex stores entry_size encoded_len s
        → ((n : ℕ) × (encoded_len reference ≡ ok n))
        → (after : State) × (keep_file entry_size encoded_len binding reference bytes s ≡ ok after)
    unfolding keep_file
    keep_file_total binding reference bytes {s} r (n, encoded) =
        elim (Bool-cases (ltb max_file (length bytes))) [
          | inl large ↦ (s, rw large refl)
          | inr small ↦
              let charge = length bytes + n + byte_len binding + entry_size in
              elim (Bool-cases
                (leb charge capacity && not (any (entry_is binding reference) s.entries))) [
                  | inl fresh ↦
                      let (after, made) =
                        push_file_total binding reference bytes charge s (Reachable-IsValid r)
                          (ground arith) in
                      (after, rw (small, encoded, fresh) made)
                  | inr known ↦ (s, rw (small, encoded, known) refl)
                ]
        ]
