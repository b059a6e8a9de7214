-- ===== src/Examples/Caches.antt =====
-- The read cache at concrete inputs.
use agent_vigilo.Prelude.{
  take, ℕ, ◌≡◌, refl, sym, ap, false, none, some, List, [], ◌∷◌, Result, ok, err, if◌then◌else◌,
}
use mathlib.Core.Path.{subst}
use agent_vigilo.Prelude.Text.{
  Text, codes, byte_len, is_ascii_alphanumeric, is_control, text_eq, is_ascii_digit,
}
use agent_vigilo.Storage.Limits.{
  default_limits, case_batch, validate_digest, byte_limit, format_eq, validate_batch_limits,
  validate_limits,
}
use agent_vigilo.Storage.Object.{
  ObjectRef, validate_ref, split_slash, is_plain_part, validate_revision, ref_eq, verify,
}
use agent_vigilo.Examples.Objects.{object, hex_digest}
use agent_vigilo.Cache.{
  ReadError, deadline_exceeded, Budget, State, empty_cache, Events, read, read_cached, lookup,
  remove_first, begin_read, lift_error, prove_bytes, keep_file, entry_is, push_file, make_room,
  read_bytes, Reachable, created, validate_budget,
}
use agent_vigilo.Cache.Invariant.{IsValid, Reachable-IsValid}
use agent_vigilo.Cache.Transparent.{without_cache, through_cache, tested, read_refines}

-- The store of one owner has the file, and other stores have other bytes under its reference.
abbrev stores : Text → ObjectRef → Result ReadError (List ℕ)
stores binding reference =
    if text_eq binding (codes "owner") then ok (1 ∷ 2 ∷ 3 ∷ []) else ok (9 ∷ [])

abbrev store : ObjectRef → Result ReadError (List ℕ)
store = stores (codes "owner")

abbrev encoded_len : ObjectRef → Result ReadError ℕ
encoded_len reference = ok 300

abbrev reader : Text
reader = codes "owner"

abbrev batch : ObjectRef
batch = object case_batch

abbrev budget : Budget
budget = record { deadline = 500; requests = 3; no_progress = 15_000_000_000 }

abbrev calm : Events
calm = record {
  now = 1;
  later = 2;
  last_now = 3;
  cancelled_before = false;
  cancelled_after = false;
  interrupted = none;
}

abbrev warm : State
warm = (read hex_digest store 104 encoded_len reader batch default_limits budget calm empty_cache).1

-- The second read is a hit.
warm-hit : (lookup reader batch warm).0 ≡ some (1 ∷ 2 ∷ 3 ∷ [])
unfolding lookup remove_first read begin_read validate_budget lift_error validate_ref byte_len
    is_ascii_alphanumeric is_control split_slash is_plain_part text_eq validate_digest
    is_ascii_digit byte_limit validate_revision prove_bytes keep_file entry_is push_file make_room
    read_bytes take format_eq validate_batch_limits validate_limits ref_eq verify
warm-hit = refl

late :
    (read hex_digest store 104 encoded_len reader batch default_limits budget
      (record calm { last_now = 500 })
      warm).0
    ≡ err deadline_exceeded
unfolding lookup remove_first read begin_read validate_budget lift_error validate_ref byte_len
    is_ascii_alphanumeric is_control split_slash is_plain_part text_eq validate_digest
    is_ascii_digit byte_limit validate_revision prove_bytes keep_file entry_is push_file make_room
    read_bytes take format_eq validate_batch_limits validate_limits ref_eq verify
late = refl

warm-Reachable : Reachable hex_digest stores 104 encoded_len warm
unfolding read_cached
warm-Reachable =
    let (equal, bytes, (after, left, reached)) =
      read_refines hex_digest stores 104 encoded_len reader batch default_limits budget calm created
        refl (300, refl) in
    let same : warm ≡ after = ap (λ o. elim o [ none ↦ warm | some p ↦ p.1 ]) left in
    subst (Reachable hex_digest stores 104 encoded_len) (sym same) reached

read_refines_example :
    let bare =
      without_cache hex_digest stores 104 encoded_len reader batch default_limits budget calm in
    let cached =
      through_cache hex_digest stores 104 encoded_len reader batch default_limits budget calm
        warm in
    (cached.0 ≡ tested hex_digest stores 104 encoded_len batch default_limits budget calm bare)
    × ((bytes : List ℕ) → cached.0 ≡ ok bytes → bare ≡ ok bytes)
    × ((after : State) × (cached.1 ≡ some (reader, after))
        × Reachable hex_digest stores 104 encoded_len after)
read_refines_example =
    read_refines hex_digest stores 104 encoded_len reader batch default_limits budget calm
      warm-Reachable refl (300, refl)

Reachable-IsValid_example : IsValid hex_digest stores warm
Reachable-IsValid_example = Reachable-IsValid hex_digest stores 104 encoded_len warm-Reachable
