-- ===== src/Storage/Gates.antt =====
-- Gate counts of vigilo/src/contracts/case_storage/formats.rs: pages, the descriptor, and the
-- validator that follows a shard's linked pages.
use agent_vigilo.Prelude.{
  ◌*◌, ◌^◌, ltb, Bool, true, not, ◌&&◌, Option, none, some, List, [], ◌∷◌, leb, is_none, is_none_or,
  is_some_and, ◌<=>◌, length, is_empty, last?, all, Result, ok, ◌>>=◌, ◌>>◌, ensure, ok_or,
}
use agent_vigilo.Prelude.Int.{ℤ, pos, pos_part, leb_ℤ, ltb_ℤ, eqb_ℤ, checked_sub, to_i32}
use agent_vigilo.Prelude.Text.{Text, text_eq, text_lt, byte_len, is_blank}
use agent_vigilo.Storage.Limits.{
  StorageError, gate_entry_count, bad_gate_count, gate_order, negative_descriptor,
  inconsistent_descriptor, impossible_descriptor, bad_case_count, unexpected_gate_page,
  gate_repeats, gate_denominator, gate_page_overflow, gate_entry_overflow, gate_termination,
  gate_cycle, gate_incomplete, int_conversion, FormatLimits, StorageFormat, gate_counts, schema,
  shard, validate_limits,
}
use agent_vigilo.Storage.Object.{ObjectRef, ref_eq, require}
pub mod Chain

pub record GateCount : Type 0 where
  pub gate_id : Text
  pub planned_count : ℤ

pub record GateCountPage : Type 0 where
  pub schema : StorageFormat
  pub run_shard : ℤ
  pub entries : List GateCount
  pub next : Option ObjectRef

-- The strict order of gate identifiers, from the one before.
abbrev pub precedes : Option Text → Text → Bool
precedes previous id = is_none_or (λ p. text_lt p id) previous

unfoldable pub check_gates : Option Text → List GateCount → Result StorageError (Unit {0})
check_gates previous [] = ok tt
check_gates previous (e ∷ es) = do
  ensure
      (not (is_blank e.gate_id) && leb (byte_len e.gate_id) 1024 && leb_ℤ (pos 0) e.planned_count)
      bad_gate_count
  ensure (precedes previous e.gate_id) gate_order
  check_gates (some e.gate_id) es

unfoldable pub require_next : Option ObjectRef → FormatLimits → Result StorageError (Unit {0})
require_next none limits = ok tt
require_next (some r) limits = require r gate_counts limits

unfoldable pub validate_gate_page : GateCountPage → FormatLimits → Result StorageError (Unit {0})
validate_gate_page page limits = do
  schema page.schema gate_counts
  shard page.run_shard
  ensure (not (is_empty page.entries) && leb (length page.entries) limits.page_entries)
      gate_entry_count
  check_gates none page.entries
  require_next page.next limits

pub record GateCountDescriptor : Type 0 where
  pub first : Option ObjectRef
  pub page_count : ℤ
  pub entry_count : ℤ

-- `&&` converts the limit to `i64` only behind its first test. The product of the two counts fits an
-- `i64` for the limits that `validate_limits` accepts, and neither factor is negative.
unfoldable pub validate_gate_descriptor :
    GateCountDescriptor → FormatLimits → Result StorageError (Unit {0})
validate_gate_descriptor d limits = do
  ensure (leb_ℤ (pos 0) d.page_count && leb_ℤ (pos 0) d.entry_count) negative_descriptor
  ensure
      ((eqb_ℤ d.page_count (pos 0) <=> eqb_ℤ d.entry_count (pos 0))
        && (is_none d.first <=> eqb_ℤ d.page_count (pos 0)))
      inconsistent_descriptor
  ensure (leb_ℤ d.page_count d.entry_count) impossible_descriptor
  ensure (ltb limits.page_entries (2 ^ 63)) int_conversion
  ensure (leb (pos_part d.entry_count) (pos_part d.page_count * limits.page_entries))
      impossible_descriptor
  require_next d.first limits

pub record GateCountChainValidator : Type 0 where
  pub next : Option ObjectRef
  pub remaining_pages : ℤ
  pub remaining_entries : ℤ
  pub run_shard : ℤ
  pub case_count : ℤ
  pub last_gate : Option Text

unfoldable pub new :
    GateCountDescriptor → ℤ → ℤ → FormatLimits → Result StorageError GateCountChainValidator
new d run_shard case_count limits = do
  validate_limits limits
  validate_gate_descriptor d limits
  shard run_shard
  ensure (ltb_ℤ (pos 0) case_count) bad_case_count
  ok (record {
    next = d.first;
    remaining_pages = d.page_count;
    remaining_entries = d.entry_count;
    run_shard = run_shard;
    case_count = case_count;
    last_gate = none;
  })

-- `page.entries[0]` is read behind the page's validation, which refuses an empty page.
abbrev pub precedes_first : Option Text → List GateCount → Bool
precedes_first last [] = true
precedes_first last (e ∷ es) = precedes last e.gate_id

abbrev next_owner : Option ObjectRef → ObjectRef → Bool
next_owner none reference = true
next_owner (some next) reference =
    text_eq next.storage_alias reference.storage_alias && not (ref_eq next reference)

-- The last page is the one with no next reference, and with it the entries are used up.
unfoldable pub terminates : ℤ → ℤ → Option ObjectRef → Bool
terminates pages entries next =
    leb_ℤ (pos 0) pages
    && leb_ℤ (pos 0) entries
    && (eqb_ℤ pages (pos 0) <=> is_none next)
    && (eqb_ℤ pages (pos 0) <=> eqb_ℤ entries (pos 0))

abbrev pub gate_id_of : Option GateCount → Option Text
gate_id_of none = none
gate_id_of (some e) = some e.gate_id

-- On an error the caller keeps the validator that it has.
unfoldable pub accept :
    GateCountChainValidator
    → ObjectRef
    → GateCountPage
    → FormatLimits
    → Result StorageError GateCountChainValidator
accept chain reference page limits = do
  validate_gate_page page limits
  ensure (is_some_and (λ n. ref_eq n reference) chain.next && eqb_ℤ page.run_shard chain.run_shard)
      unexpected_gate_page
  ensure (precedes_first chain.last_gate page.entries) gate_repeats
  ensure (all (λ e. leb_ℤ e.planned_count chain.case_count) page.entries) gate_denominator
  pages ← ok_or (checked_sub 31 chain.remaining_pages (pos 1)) gate_page_overflow
  count ← ok_or (to_i32 (length page.entries)) int_conversion
  entries ← ok_or (checked_sub 31 chain.remaining_entries count) gate_entry_overflow
  ensure (terminates pages entries page.next) gate_termination
  ensure (next_owner page.next reference) gate_cycle
  ok (record chain {
    remaining_pages = pages;
    remaining_entries = entries;
    last_gate = gate_id_of (last? page.entries);
    next = page.next;
  })

unfoldable pub finish : GateCountChainValidator → Result StorageError (Unit {0})
finish chain =
    ensure
      (is_none chain.next
        && eqb_ℤ chain.remaining_pages (pos 0)
        && eqb_ℤ chain.remaining_entries (pos 0))
      gate_incomplete

-- The traversal of the callers: one `accept` for each page read, in order.
unfoldable pub accept_all :
    FormatLimits
    → GateCountChainValidator
    → List (ObjectRef × GateCountPage)
    → Result StorageError GateCountChainValidator
accept_all limits chain [] = ok chain
accept_all limits chain ((reference, page) ∷ rest) = do
  chain' ← accept chain reference page limits
  accept_all limits chain' rest
