-- ===== src/Storage/Object/Integrity.antt =====
-- What a proof of integrity says: `ObjectRef::verify` and `ObjectRef::for_bytes` of
-- vigilo/src/contracts/case_storage/formats.rs.
use agent_vigilo.Prelude.{
  ℕ, ◌≤◌, ◌<◌, ◌≡◌, true, List, arith, ==_refl, length, ok, >>-eq-ok, ensure-true,
}
use agent_vigilo.Prelude.Text.{Text, text_eq→eq, text_eq_refl}
use agent_vigilo.Storage.Limits.{
  reference_schema, FormatLimits, StorageFormat, format_eq, byte_limit,
}
use agent_vigilo.Storage.Object.{
  ObjectRef, VerifiedObject, validate_ref, verify, for_bytes, require,
}

pub format_eq→eq : (a b : StorageFormat) → format_eq a b ≡ true → a ≡ b
unfolding format_eq
format_eq→eq a b h = ground arith

pub byte_count_bounds :
    (r : ObjectRef) (limits : FormatLimits)
    → validate_ref r limits ≡ ok tt
    → (0 < r.byte_count) × (r.byte_count ≤ byte_limit r.schema limits)
unfolding validate_ref
byte_count_bounds r limits h = ground arith

pub require-eq-ok :
    (r : ObjectRef) (expected : StorageFormat) (limits : FormatLimits)
    → require r expected limits ≡ ok tt
    → (validate_ref r limits ≡ ok tt) × (r.schema ≡ expected)
unfolding require
require-eq-ok r expected limits h =
    let (v, t) = >>-eq-ok (validate_ref r limits) _ h in
    (v, format_eq→eq r.schema expected (ensure-true _ reference_schema t))

module _ (blake3_hex : List ℕ → Text) where
  -- A successful verification hands back the very bytes and the very reference, the digest and the
  -- length of the bytes are those of the reference, and the bytes are not empty and within the
  -- limit of their format.
  pub verify_sound :
      (r : ObjectRef) (bytes : List ℕ) (limits : FormatLimits) {v : VerifiedObject}
      → verify blake3_hex r bytes limits ≡ ok v
      → (v.reference ≡ r)
        × (v.bytes ≡ bytes)
        × (blake3_hex bytes ≡ r.digest)
        × (length bytes ≡ r.byte_count)
        × (0 < length bytes)
        × (length bytes ≤ byte_limit r.schema limits)
  unfolding verify
  verify_sound r bytes limits h =
      ground (arith, byte_count_bounds r limits, text_eq→eq (blake3_hex bytes) r.digest)

  -- An admitted object verifies against the reference made for it.
  pub verify-for_bytes :
      (storage_alias key : Text) (schema : StorageFormat) (bytes : List ℕ) (limits : FormatLimits)
      {r : ObjectRef}
      → for_bytes blake3_hex storage_alias key schema bytes limits ≡ ok r
      → verify blake3_hex r bytes limits ≡ ok (record { reference = r; bytes = bytes })
  unfolding verify for_bytes
  verify-for_bytes storage_alias key schema bytes limits h =
      ground (arith, text_eq_refl (blake3_hex bytes), ==_refl (length bytes))
