-- ===== src/Storage/Index.antt =====
-- The interval index of vigilo/src/contracts/case_storage/formats.rs: descriptors, pages, and the
-- checks that bind a child page, a case batch or a chunk page to its parent's entry.
use agent_vigilo.Prelude.{
  ℕ, ◌-◌, Bool, true, false, not, ◌&&◌, List, [], ◌∷◌, leb, ltb, ◌==◌, if◌then◌else◌, all, length,
  is_empty, get_elem?, Result, ok, ◌>>=◌, ◌>>◌, ensure, ok_or,
}
use agent_vigilo.Prelude.Int.{ℤ, eqb_ℤ}
use agent_vigilo.Prelude.Text.{text_eq}
use agent_vigilo.Storage.Limits.{
  StorageError, index_depth, index_entry_count, index_gap, index_cover, descriptor_mismatch,
  index_owner, not_dataset_leaf, missing_batch, batch_mismatch, missing_entry, leaf_has_no_child,
  FormatLimits, StorageFormat, case_batch, ordinal_index, run_chunks, format_eq, schema, range,
}
use agent_vigilo.Storage.Object.{ObjectRef, require}
pub mod Tiling
pub mod Descent

pub data IndexKind : Type 0 where
  dataset_batches : IndexKind
  chunks : IndexKind

unfoldable pub kind_eq : IndexKind → IndexKind → Bool
kind_eq dataset_batches dataset_batches = true
kind_eq dataset_batches chunks = false
kind_eq chunks dataset_batches = false
kind_eq chunks chunks = true

unfoldable pub leaf_schema : IndexKind → StorageFormat
leaf_schema dataset_batches = case_batch
leaf_schema chunks = run_chunks

pub record IndexEntry : Type 0 where
  pub range_start : ℤ
  pub range_end : ℤ
  pub object : ObjectRef

pub record IndexDescriptor : Type 0 where
  pub level : ℕ
  pub range_start : ℤ
  pub range_end : ℤ
  pub object : ObjectRef

pub record IndexPage : Type 0 where
  pub schema : StorageFormat
  pub kind : IndexKind
  pub level : ℕ
  pub range_start : ℤ
  pub range_end : ℤ
  pub entries : List IndexEntry

-- The loop of `IndexPage::validate`, from the ordinal that the next entry must start at.
unfoldable pub check_entries :
    FormatLimits → StorageFormat → ℤ → List IndexEntry → Result StorageError ℤ
check_entries limits child next [] = ok next
check_entries limits child next (e ∷ es) = do
  range e.range_start e.range_end
  ensure (eqb_ℤ e.range_start next) index_gap
  require e.object child limits
  check_entries limits child e.range_end es

unfoldable pub child_schema : IndexPage → StorageFormat
child_schema page = if page.level == 0 then leaf_schema page.kind else ordinal_index

unfoldable pub validate_page : IndexPage → FormatLimits → Result StorageError (Unit {0})
validate_page page limits = do
  schema page.schema ordinal_index
  range page.range_start page.range_end
  ensure (ltb page.level limits.index_height) index_depth
  ensure (not (is_empty page.entries) && leb (length page.entries) limits.page_entries)
      index_entry_count
  next ← check_entries limits (child_schema page) page.range_start page.entries
  ensure (eqb_ℤ next page.range_end) index_cover

unfoldable pub validate_descriptor : IndexDescriptor → FormatLimits → Result StorageError (Unit {0})
validate_descriptor d limits = do
  range d.range_start d.range_end
  ensure (ltb d.level limits.index_height) index_depth
  require d.object ordinal_index limits

-- `IndexDescriptor::validate_page`.
unfoldable pub validate_edge :
    IndexDescriptor → IndexPage → IndexKind → FormatLimits → Result StorageError (Unit {0})
validate_edge d page kind limits = do
  validate_descriptor d limits
  validate_page page limits
  ensure
      ((page.level == d.level)
        && kind_eq page.kind kind
        && eqb_ℤ page.range_start d.range_start
        && eqb_ℤ page.range_end d.range_end)
      descriptor_mismatch
  ensure (all (λ e. text_eq e.object.storage_alias d.object.storage_alias) page.entries) index_owner

-- The descriptor that `IndexPage::validate_child` makes of an entry.
unfoldable pub entry_descriptor : IndexPage → IndexEntry → IndexDescriptor
entry_descriptor page e = record {
  level = page.level - 1;
  range_start = e.range_start;
  range_end = e.range_end;
  object = e.object;
}

unfoldable pub validate_child :
    IndexPage → ℕ → IndexPage → FormatLimits → Result StorageError (Unit {0})
validate_child page entry_index child limits = do
  validate_page page limits
  ensure (ltb 0 page.level) leaf_has_no_child
  e ← ok_or (get_elem? page.entries entry_index) missing_entry
  validate_edge (entry_descriptor page e) child page.kind limits

pub record CaseBatchHeader : Type 0 where
  pub schema : StorageFormat
  pub dataset_id : ℕ
  pub ordinal_start : ℤ
  pub ordinal_end : ℤ

unfoldable pub validate_batch :
    IndexPage → ℕ → CaseBatchHeader → ℕ → FormatLimits → Result StorageError (Unit {0})
validate_batch page entry_index header dataset_id limits = do
  validate_page page limits
  ensure ((page.level == 0) && kind_eq page.kind dataset_batches) not_dataset_leaf
  e ← ok_or (get_elem? page.entries entry_index) missing_batch
  ensure
      (format_eq header.schema case_batch
        && (header.dataset_id == dataset_id)
        && eqb_ℤ header.ordinal_start e.range_start
        && eqb_ℤ header.ordinal_end e.range_end)
      batch_mismatch
