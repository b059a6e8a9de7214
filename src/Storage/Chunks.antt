-- ===== src/Storage/Chunks.antt =====
-- `RunChunkPage` of vigilo/src/contracts/case_storage/formats.rs, its validation, and its binding to
-- a leaf entry of the run's index. A UUID is a number.
use agent_vigilo.Prelude.{
  ℕ, ◌+◌, Bool, not, ◌&&◌, Option, none, some, List, [], ◌∷◌, leb, ◌==◌, is_none_or, length,
  get_elem?, is_empty, any, Result, ok, ◌>>=◌, ◌>>◌, ensure, ok_or,
}
use agent_vigilo.Prelude.Int.{ℤ, pos, ◌+ℤ◌, ◌-ℤ◌, leb_ℤ, eqb_ℤ, to_i32}
use agent_vigilo.Prelude.Text.{Text, byte_len, is_blank}
use agent_vigilo.Storage.Limits.{
  StorageError, int_conversion, chunk_page_count, nonconsecutive_chunks, chunk_too_long, chunk_gap,
  duplicate_chunk, bad_profile_group, not_run_leaf, missing_chunk, chunk_page_mismatch,
  FormatLimits, StorageFormat, run_chunks, schema, range, shard, validate_digest,
}
use agent_vigilo.Storage.Index.{IndexPage, kind_eq, chunks, validate_page}
pub mod Consecutive

pub record RunChunk : Type 0 where
  pub chunk_index : ℤ
  pub chunk_id : ℕ
  pub run_shard : ℤ
  pub ordinal_start : ℤ
  pub ordinal_end : ℤ
  pub profile_group_id : Text
  pub case_projection_hash : Text

pub record RunChunkPage : Type 0 where
  pub schema : StorageFormat
  pub run_id : ℕ
  pub chunk_index_start : ℤ
  pub chunk_index_end : ℤ
  pub chunks : List RunChunk

abbrev pub contains_id : List ℕ → ℕ → Bool
contains_id ids id = any (λ i. i == id) ids

-- The body of the loop of `RunChunkPage::validate`, at one chunk.
unfoldable pub check_chunk : ℤ → ℕ → List ℕ → Option ℤ → RunChunk → Result StorageError (Unit {0})
check_chunk start index ids previous_end c = do
  i ← ok_or (to_i32 index) int_conversion
  ensure (eqb_ℤ c.chunk_index (start +ℤ i)) nonconsecutive_chunks
  range c.ordinal_start c.ordinal_end
  ensure (leb_ℤ (c.ordinal_end -ℤ c.ordinal_start) (pos 100)) chunk_too_long
  ensure (is_none_or (λ end. eqb_ℤ end c.ordinal_start) previous_end) chunk_gap
  shard c.run_shard
  ensure (not (contains_id ids c.chunk_id)) duplicate_chunk
  ensure (not (is_blank c.profile_group_id) && leb (byte_len c.profile_group_id) 1024)
      bad_profile_group
  validate_digest c.case_projection_hash

unfoldable pub check_chunks :
    ℤ → ℕ → List ℕ → Option ℤ → List RunChunk → Result StorageError (Unit {0})
check_chunks start index ids previous_end [] = ok tt
check_chunks start index ids previous_end (c ∷ cs) = do
  check_chunk start index ids previous_end c
  check_chunks start (index + 1) (c.chunk_id ∷ ids) (some c.ordinal_end) cs

unfoldable pub validate_chunk_page : RunChunkPage → FormatLimits → Result StorageError (Unit {0})
validate_chunk_page page limits = do
  schema page.schema run_chunks
  range page.chunk_index_start page.chunk_index_end
  ensure (not (is_empty page.chunks) && leb (length page.chunks) limits.page_entries)
      chunk_page_count
  count ← ok_or (to_i32 (length page.chunks)) int_conversion
  ensure (eqb_ℤ (page.chunk_index_end -ℤ page.chunk_index_start) count) chunk_page_count
  check_chunks page.chunk_index_start 0 [] none page.chunks

-- `IndexPage::validate_chunks`.
unfoldable pub validate_chunks :
    IndexPage → ℕ → RunChunkPage → ℕ → FormatLimits → Result StorageError (Unit {0})
validate_chunks index entry_index page run_id limits = do
  validate_page index limits
  validate_chunk_page page limits
  ensure ((index.level == 0) && kind_eq index.kind chunks) not_run_leaf
  e ← ok_or (get_elem? index.entries entry_index) missing_chunk
  ensure
      ((page.run_id == run_id)
        && eqb_ℤ page.chunk_index_start e.range_start
        && eqb_ℤ page.chunk_index_end e.range_end)
      chunk_page_mismatch
