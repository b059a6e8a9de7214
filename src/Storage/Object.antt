-- ===== src/Storage/Object.antt =====
-- `ObjectRef` of vigilo/src/contracts/case_storage/formats.rs: its validation, and the reference and
-- the proof that are made for encoded bytes. The BLAKE3 digest in hexadecimal is a parameter.
use agent_vigilo.Prelude.{
  ℕ, Bool, false, not, ◌&&◌, ◌||◌, Option, none, some, List, [], ◌∷◌, leb, ltb, ◌==◌, if◌then◌else◌,
  all, any, length, is_empty, option_eq, Result, ok, ◌>>◌, ensure,
}
use agent_vigilo.Prelude.Text.{Text, codes, text_eq, byte_len, is_control, is_ascii_alphanumeric}
use agent_vigilo.Storage.Limits.{
  StorageError, bad_alias, bad_key, bad_byte_count, bad_revision, byte_count_mismatch,
  digest_mismatch, reference_schema, FormatLimits, StorageFormat, format_eq, byte_limit,
  validate_limits, validate_digest,
}
pub mod Integrity

pub data HashScheme : Type 0 where
  blake3 : HashScheme

pub record ObjectRef : Type 0 where
  pub storage_alias : Text
  pub key : Text
  pub schema : StorageFormat
  pub hash_scheme : HashScheme
  pub digest : Text
  pub byte_count : ℕ
  pub revision : Option Text

-- `s.split('/')`: the parts between the separators, at least one.
unfoldable pub split_slash : Text → List Text
split_slash [] = [] ∷ []
split_slash (c ∷ s) = add (split_slash s)
  where
    add : List Text → List Text
    add [] = (c ∷ []) ∷ []
    add (part ∷ parts) = if c == b'/' then [] ∷ part ∷ parts else (c ∷ part) ∷ parts

abbrev starts_with_slash : Text → Bool
starts_with_slash [] = false
starts_with_slash (c ∷ s) = c == b'/'

-- One of the characters that a key may not contain.
abbrev is_forbidden : ℕ → Bool
is_forbidden c = (c == b':') || (c == b'?') || (c == b'#') || (c == 0x5c)

unfoldable pub is_plain_part : Text → Bool
is_plain_part p = not (is_empty p) && not (text_eq p (codes ".")) && not (text_eq p (codes ".."))

unfoldable pub validate_revision : Option Text → Result StorageError (Unit {0})
validate_revision none = ok tt
validate_revision (some r) =
    ensure (not (is_empty r) && leb (byte_len r) 1024 && not (any is_control r)) bad_revision

unfoldable pub validate_ref : ObjectRef → FormatLimits → Result StorageError (Unit {0})
validate_ref r limits = do
  ensure
      (not (is_empty r.storage_alias)
        && leb (byte_len r.storage_alias) 128
        && all (λ b. is_ascii_alphanumeric b || (b == b'_') || (b == b'-')) r.storage_alias)
      bad_alias
  ensure
      (not (is_empty r.key)
        && leb (byte_len r.key) 1024
        && not (starts_with_slash r.key)
        && not (any is_forbidden r.key)
        && not (any is_control r.key)
        && all is_plain_part (split_slash r.key))
      bad_key
  validate_digest r.digest
  ensure (ltb 0 r.byte_count && leb r.byte_count (byte_limit r.schema limits)) bad_byte_count
  validate_revision r.revision

unfoldable pub require : ObjectRef → StorageFormat → FormatLimits → Result StorageError (Unit {0})
require r expected limits = do
  validate_ref r limits
  ensure (format_eq r.schema expected) reference_schema

-- The derived `PartialEq` of references.
unfoldable pub ref_eq : ObjectRef → ObjectRef → Bool
ref_eq a b =
    text_eq a.storage_alias b.storage_alias
    && text_eq a.key b.key
    && format_eq a.schema b.schema
    && text_eq a.digest b.digest
    && (a.byte_count == b.byte_count)
    && option_eq text_eq a.revision b.revision

-- The proof that bytes belong to a reference.
pub record VerifiedObject : Type 0 where
  pub reference : ObjectRef
  pub bytes : List ℕ

module _ (blake3_hex : List ℕ → Text) where
  unfoldable pub verify : ObjectRef → List ℕ → FormatLimits → Result StorageError VerifiedObject
  verify r bytes limits = do
    validate_limits limits
    validate_ref r limits
    ensure (length bytes == r.byte_count) byte_count_mismatch
    ensure (text_eq (blake3_hex bytes) r.digest) digest_mismatch
    ok (record { reference = r; bytes = bytes })

  unfoldable pub for_bytes :
      Text → Text → StorageFormat → List ℕ → FormatLimits → Result StorageError ObjectRef
  for_bytes storage_alias key schema bytes limits =
      let reference : ObjectRef = record {
        storage_alias = storage_alias;
        key = key;
        schema = schema;
        hash_scheme = blake3;
        digest = blake3_hex bytes;
        byte_count = length bytes;
        revision = none;
      } in
      do validate_limits limits; validate_ref reference limits; ok reference
