-- ===== src/Cache.antt =====
-- vigilo/src/case_reader/cache.rs: the cache of verified files that the shard contexts of one worker
-- share, with `Budget::validate` of vigilo/src/blob_storage.rs and `read_bytes` of
-- vigilo/src/dataset_ingestion.rs, by which a reader checks its budget and fetches a file that is
-- not cached. The store, BLAKE3, the JSON length of a reference and the size of an entry in memory
-- are parameters; the clock, the cancellations and an interrupted fetch are events of one read.
use agent_vigilo.Prelude.{
  take, ℕ, ◌+◌, ◌-◌, ◌*◌, ◌≡◌, Bool, not, ◌&&◌, ◌||◌, Option, none, some, List, [], ◌∷◌, ◌++◌, ltb,
  leb, ◌==◌, if◌then◌else◌, length, any, Result, ok, err, ◌>>=◌, ◌>>◌, ensure, ok_or,
}
use agent_vigilo.Prelude.Text.{Text, text_eq, byte_len}
use agent_vigilo.Storage.Limits.{StorageError, FormatLimits}
use agent_vigilo.Storage.Object.{ObjectRef, ref_eq, validate_ref, verify}
pub mod Entries
pub mod Invariant
pub mod Transparent
pub mod Room

pub data ReadError : Type 0 where
  invalid_budget cancelled deadline_exceeded spool_changed store_failure : ReadError
  not_encodable panicked : ReadError
  rejected : StorageError → ReadError

-- `Budget`, with times and durations in nanoseconds.
pub record Budget : Type 0 where
  pub deadline : ℕ
  pub requests : ℕ
  pub no_progress : ℕ

abbrev second_nanos : ℕ
second_nanos = 1_000_000_000

-- The two readings of the clock that the validation makes.
unfoldable pub validate_budget : Budget → ℕ → ℕ → Result ReadError (Unit {0})
validate_budget b now later =
    if (b.requests == 0)
      || ltb 32 b.requests
      || (b.no_progress == 0)
      || ltb (120 * second_nanos) b.no_progress
      || leb b.deadline now
      || ltb (600 * second_nanos) (b.deadline - later)
    then err invalid_budget
    else ok tt

abbrev pub capacity : ℕ
capacity = 8_388_608

abbrev pub max_file : ℕ
max_file = 1_048_576

abbrev pub max_entries : ℕ
max_entries = 256

pub record Entry : Type 0 where
  pub binding : Text
  pub reference : ObjectRef
  pub bytes : List ℕ
  pub charge : ℕ

pub record State : Type 0 where
  pub entries : List Entry
  pub charged : ℕ

abbrev pub empty_cache : State
empty_cache = record { entries = []; charged = 0 }

-- What happens around one read: three readings of the clock, the two tests of the cancellation, and
-- a cancellation or a deadline that ends the fetch.
pub record Events : Type 0 where
  pub now : ℕ
  pub later : ℕ
  pub last_now : ℕ
  pub cancelled_before : Bool
  pub cancelled_after : Bool
  pub interrupted : Option ReadError

unfoldable pub entry_is : Text → ObjectRef → Entry → Bool
entry_is binding reference e = text_eq e.binding binding && ref_eq e.reference reference

-- `position` and `remove`: the first entry of a key, and the entries without it.
unfoldable pub remove_first : Text → ObjectRef → List Entry → Option (Entry × List Entry)
remove_first binding reference [] = none
remove_first binding reference (e ∷ es) =
    let rest = remove_first binding reference es in
    if entry_is binding reference e
    then some (e, es)
    else elim rest [ none ↦ none | some (found, others) ↦ some (found, e ∷ others) ]

-- A hit moves its entry to the back and copies the bytes.
unfoldable pub lookup : Text → ObjectRef → State → Option (List ℕ) × State
lookup binding reference s = elim (remove_first binding reference s.entries) [
  | none ↦ (none, s)
  | some (e, others) ↦ (some e.bytes, record { entries = others ++ e ∷ []; charged = s.charged })
]

-- The loop that evicts from the front; `expect` and the subtraction panic.
unfoldable pub make_room : ℕ → ℕ → List Entry → Option (List Entry × ℕ)
make_room charge charged [] = if ltb capacity (charged + charge) then none else some ([], charged)
make_room charge charged (old ∷ es) =
    let rest = make_room charge (charged - old.charge) es in
    if ltb capacity (charged + charge) || leb max_entries (length (old ∷ es))
    then if leb old.charge charged then rest else none
    else some (old ∷ es, charged)

-- The entry at the back, behind the eviction.
unfoldable pub push_file : Text → ObjectRef → List ℕ → ℕ → State → Result ReadError State
push_file binding reference bytes charge s = do
  (es, charged) ← ok_or (make_room charge s.charged s.entries) panicked
  ok (record {
    entries =
        es
        ++ record { binding = binding; reference = reference; bytes = bytes; charge = charge } ∷ [];
    charged = charged + charge;
  })

unfoldable pub lift_error {ℓ} : {A : Type ℓ} → Result StorageError A → Result ReadError A
lift_error (err why) = err (rejected why)
lift_error (ok a) = ok a

module _ (entry_size : ℕ) (encoded_len : ObjectRef → Result ReadError ℕ) where
  -- The last part of a read, under the lock.
  unfoldable pub keep_file : Text → ObjectRef → List ℕ → State → Result ReadError State
  keep_file binding reference bytes s =
      if ltb max_file (length bytes)
      then ok s
      else encoded_len reference >>= λ n.
          let charge = length bytes + n + byte_len binding + entry_size in
          if leb charge capacity && not (any (entry_is binding reference) s.entries)
          then push_file binding reference bytes charge s
          else ok s

module _ (blake3_hex : List ℕ → Text) (store : ObjectRef → Result ReadError (List ℕ)) where
  -- `store.read` and the copy of its spool, with one byte more than the reference names.
  unfoldable pub read_bytes : Option ReadError → ObjectRef → Result ReadError (List ℕ)
  read_bytes (some why) reference = err why
  read_bytes none reference = do
    spool ← store reference
    let bytes = take (reference.byte_count + 1) spool
    ensure ((length bytes == reference.byte_count) && text_eq (blake3_hex bytes) reference.digest)
        spool_changed
    ok bytes

  unfoldable pub begin_read :
      ObjectRef → FormatLimits → Budget → Events → Result ReadError (Unit {0})
  begin_read reference limits budget events = do
    validate_budget budget events.now events.later
    lift_error (validate_ref reference limits)
    ensure (not events.cancelled_before) cancelled

  -- The bytes of a hit or of the store, behind the proof and the tests that both pass.
  unfoldable pub prove_bytes :
      Option (List ℕ) → ObjectRef → FormatLimits → Budget → Events → Result ReadError (List ℕ)
  prove_bytes hit reference limits budget events = do
    bytes ← elim hit [ some bytes ↦ ok bytes | none ↦ read_bytes events.interrupted reference ]
    verified ← lift_error (verify blake3_hex reference bytes limits)
    ensure (not events.cancelled_after) cancelled
    ensure (ltb events.last_now budget.deadline) deadline_exceeded
    ok bytes

  module _ (entry_size : ℕ) (encoded_len : ObjectRef → Result ReadError ℕ) where
    -- `Scope::read`, when no other reader comes between.
    unfoldable pub read :
        Text
        → ObjectRef
        → FormatLimits
        → Budget
        → Events
        → State
        → Result ReadError (List ℕ) × State
    read binding reference limits budget events s =
        elim (begin_read reference limits budget events) [
          | err why ↦ (err why, s)
          | ok started ↦
              let (hit, s') = lookup binding reference s in
              elim (prove_bytes hit reference limits budget events) [
                | err why ↦ (err why, s')
                | ok bytes ↦ elim (keep_file entry_size encoded_len binding reference bytes s') [
                  | err why ↦ (err why, s')
                  | ok s'' ↦ (ok bytes, s'')
                ]
              ]
        ]

    -- `read_cached` of vigilo/src/case_reader.rs: through the cache of an owner, or straight from
    -- the store.
    unfoldable pub read_cached :
        ObjectRef
        → FormatLimits
        → Budget
        → Events
        → Option (Text × State)
        → Result ReadError (List ℕ) × Option (Text × State)
    read_cached reference limits budget events none =
        (read_bytes events.interrupted reference, none)
    read_cached reference limits budget events (some (binding, s)) =
        let (bytes, after) = read binding reference limits budget events s in
        (bytes, some (binding, after))

-- The states of the cache while readers come and go: the lock makes a lookup and an admission one step
-- each, and any steps of other readers lie between them. Every owner has a store of its own, which
-- its binding names.
module _ (blake3_hex : List ℕ → Text) (stores : Text → ObjectRef → Result ReadError (List ℕ)) where
  pub data Reachable (entry_size : ℕ) (encoded_len : ObjectRef → Result ReadError ℕ)
      : State → Type 0 where
    created : Reachable entry_size encoded_len empty_cache
    looked_up :
        {s : State} (binding : Text) (reference : ObjectRef)
        → Reachable entry_size encoded_len s
        → Reachable entry_size encoded_len ((lookup binding reference s).1)
    admitted :
        {s before after : State} (binding : Text) (reference : ObjectRef) (limits : FormatLimits)
        (budget : Budget) (events : Events) (bytes : List ℕ)
        → Reachable entry_size encoded_len before
        → prove_bytes blake3_hex
            (stores binding)
            ((lookup binding reference before).0)
            reference
            limits
            budget
            events
          ≡ ok bytes
        → Reachable entry_size encoded_len s
        → keep_file entry_size encoded_len binding reference bytes s ≡ ok after
        → Reachable entry_size encoded_len after
