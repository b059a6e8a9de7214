-- ===== src/Examples/Gates.antt =====
-- A chain of two gate-count pages.
use agent_vigilo.Prelude.{ℕ, ◌≡◌, refl, none, some, List, [], ◌∷◌, length, ok}
use agent_vigilo.Prelude.Int.{pos, ◌-ℤ◌, ◌≤ℤ◌, checked_sub, to_i32}
use agent_vigilo.Prelude.Text.{
  Text, codes, text_eq, text_lt, byte_len, is_whitespace, is_blank, is_control, is_ascii_digit,
  is_ascii_alphanumeric,
}
use agent_vigilo.Storage.Limits.{
  default_limits, gate_counts, validate_limits, byte_limit, validate_batch_limits, format_eq,
  schema, shard, validate_digest,
}
use agent_vigilo.Storage.Object.{
  ObjectRef, blake3, ref_eq, validate_ref, validate_revision, split_slash, is_plain_part, require,
}
use agent_vigilo.Storage.Gates.{
  GateCount, GateCountPage, GateCountDescriptor, GateCountChainValidator, check_gates, require_next,
  validate_gate_page, validate_gate_descriptor, new, terminates, accept, finish, accept_all,
}
use agent_vigilo.Storage.Gates.Chain.{
  Increasing, AreBounded, IsTraversed, all_entries, accept_all-IsTraversed, finished_chain,
  accepted-le-page_count,
}

abbrev page_at : Text → ObjectRef
page_at key = record {
  storage_alias = codes "cases";
  key = key;
  schema = gate_counts;
  hash_scheme = blake3;
  digest = codes "0123456789abcdef0123456789abcdef0123456789abcdef0123456789abcdef";
  byte_count = 3;
  revision = none;
}

abbrev gate : Text → ℕ → GateCount
gate id count = record { gate_id = id; planned_count = pos count }

abbrev pages : List (ObjectRef × GateCountPage)
pages =
    (
      page_at (codes "p"),
      record {
        schema = gate_counts;
        run_shard = pos 3;
        entries = gate (codes "a") 4 ∷ gate (codes "b") 9 ∷ [];
        next = some (page_at (codes "q"));
      },
    )
    ∷ (
      page_at (codes "q"),
      record {
        schema = gate_counts;
        run_shard = pos 3;
        entries = gate (codes "c") 0 ∷ [];
        next = none;
      },
    )
    ∷ []

abbrev descriptor : GateCountDescriptor
descriptor = record { first = some (page_at (codes "p")); page_count = pos 2; entry_count = pos 3 }

abbrev started : GateCountChainValidator
started = record {
  next = some (page_at (codes "p"));
  remaining_pages = pos 2;
  remaining_entries = pos 3;
  run_shard = pos 3;
  case_count = pos 9;
  last_gate = none;
}

abbrev ended : GateCountChainValidator
ended = record {
  next = none;
  remaining_pages = pos 0;
  remaining_entries = pos 0;
  run_shard = pos 3;
  case_count = pos 9;
  last_gate = some (codes "c");
}

starts : new descriptor (pos 3) (pos 9) default_limits ≡ ok started
unfolding new validate_gate_descriptor require_next validate_limits validate_batch_limits require
    schema shard validate_ref validate_digest validate_revision is_plain_part split_slash format_eq
    byte_limit text_eq byte_len is_ascii_digit is_control is_ascii_alphanumeric
starts = refl

accepts : accept_all default_limits started pages ≡ ok ended
unfolding accept_all accept terminates ref_eq validate_gate_page check_gates require_next require
    schema shard validate_ref validate_digest validate_revision is_plain_part split_slash format_eq
    byte_limit text_eq text_lt byte_len is_ascii_digit is_control is_ascii_alphanumeric is_blank
    is_whitespace to_i32 checked_sub ◌-ℤ◌
accepts = refl

ends : finish ended ≡ ok tt
unfolding finish
ends = refl

accept_all-IsTraversed_example : IsTraversed started pages ended
accept_all-IsTraversed_example = accept_all-IsTraversed default_limits started pages ended accepts

finished_chain_example :
    (pos (length pages) ≡ descriptor.page_count)
    × (pos (length (all_entries pages)) ≡ descriptor.entry_count)
    × Increasing none (all_entries pages)
    × AreBounded (pos 9) (all_entries pages)
finished_chain_example =
    finished_chain descriptor (pos 3) (pos 9) default_limits started ended pages starts accepts ends

accepted-le-page_count_example : pos (length pages) ≤ℤ descriptor.page_count
accepted-le-page_count_example =
    accepted-le-page_count descriptor (pos 3) (pos 9) default_limits started ended pages starts
      accepts
