-- ===== src/Storage/Manifest.antt =====
-- The two roots of vigilo/src/contracts/case_storage/formats.rs: the dataset manifest and the run
-- plan manifest.
use agent_vigilo.Prelude.{
  ℕ, ◌*◌, Bool, not, ◌&&◌, Option, none, some, List, [], ◌∷◌, leb, is_none_or, length, is_empty,
  Result, ok, ◌>>=◌, ◌>>◌, ensure, ok_or,
}
use agent_vigilo.Prelude.Int.{ℤ, pos, pos_part, leb_ℤ, ltb_ℤ, eqb_ℤ, checked_add}
use agent_vigilo.Prelude.Text.{Text, text_eq}
use agent_vigilo.Storage.Limits.{
  StorageError, batching_policy, dataset_cover, dataset_owner, run_cover, plan_shard_count,
  plan_shard_order, plan_shard_counts, plan_case_overflow, plan_chunk_overflow, gate_owner,
  plan_chunk_totals, plan_owner, BatchLimits, FormatLimits, StorageFormat, dataset_manifest,
  dataset_source_fields, run_plan_manifest, run_configuration, schema, shard, validate_digest,
  validate_batch_limits,
}
use agent_vigilo.Storage.Object.{ObjectRef, require}
use agent_vigilo.Storage.Index.{IndexDescriptor, validate_descriptor}
use agent_vigilo.Storage.Gates.{GateCountDescriptor, validate_gate_descriptor}
pub mod Coverage

-- The identity scheme has one value, which the type of the field already requires.
pub record DatasetManifest : Type 0 where
  pub schema : StorageFormat
  pub dataset_id : ℕ
  pub dataset_version : Option Text
  pub dataset_version_id : ℕ
  pub dataset_hash : Text
  pub case_count : ℤ
  pub batch_limits : BatchLimits
  pub source_fields : ObjectRef
  pub batches : IndexDescriptor

-- The count is positive, and the index covers it from 0.
unfoldable pub covers : IndexDescriptor → ℤ → Bool
covers index count =
    ltb_ℤ (pos 0) count && eqb_ℤ index.range_start (pos 0) && eqb_ℤ index.range_end count

unfoldable pub validate_dataset : DatasetManifest → FormatLimits → Result StorageError (Unit {0})
validate_dataset m limits = do
  schema m.schema dataset_manifest
  validate_batch_limits m.batch_limits
  ensure
      (leb m.batch_limits.max_bytes limits.batch.max_bytes
        && leb m.batch_limits.max_cases limits.batch.max_cases)
      batching_policy
  validate_digest m.dataset_hash
  ensure (covers m.batches m.case_count) dataset_cover
  require m.source_fields dataset_source_fields limits
  validate_descriptor m.batches limits
  ensure (text_eq m.source_fields.storage_alias m.batches.object.storage_alias) dataset_owner

pub record RunPlanShard : Type 0 where
  pub run_shard : ℤ
  pub case_count : ℤ
  pub chunk_count : ℤ
  pub planned_chunk_hash : Text
  pub gate_counts : GateCountDescriptor

pub record RunPlanManifest : Type 0 where
  pub schema : StorageFormat
  pub run_id : ℕ
  pub dataset : ObjectRef
  pub profile_hash : Text
  pub aggregation_policy_hash : Text
  pub execution_plan_hash : Text
  pub configuration : ObjectRef
  pub chunk_count : ℤ
  pub chunks : IndexDescriptor
  pub shards : List RunPlanShard

-- The loop's variables: the shard before, and the two running totals.
pub record Totals : Type 0 where
  pub previous : Option ℤ
  pub cases : ℤ
  pub chunks : ℤ

unfoldable pub check_gate_owner : Option ObjectRef → ObjectRef → Result StorageError (Unit {0})
check_gate_owner none configuration = ok tt
check_gate_owner (some first) configuration =
    ensure (text_eq first.storage_alias configuration.storage_alias) gate_owner

-- The product `chunk_count * 100` is compared behind the tests that both counts are positive.
unfoldable pub check_shard :
    FormatLimits → ObjectRef → Totals → RunPlanShard → Result StorageError Totals
check_shard limits configuration t item = do
  shard item.run_shard
  ensure (is_none_or (λ value. ltb_ℤ value item.run_shard) t.previous) plan_shard_order
  ensure
      (ltb_ℤ (pos 0) item.case_count
        && ltb_ℤ (pos 0) item.chunk_count
        && leb_ℤ item.chunk_count item.case_count
        && leb (pos_part item.case_count) (pos_part item.chunk_count * 100))
      plan_shard_counts
  validate_digest item.planned_chunk_hash
  validate_gate_descriptor item.gate_counts limits
  cases ← ok_or (checked_add 31 t.cases item.case_count) plan_case_overflow
  chunks ← ok_or (checked_add 31 t.chunks item.chunk_count) plan_chunk_overflow
  check_gate_owner item.gate_counts.first configuration
  ok (record { previous = some item.run_shard; cases = cases; chunks = chunks })

unfoldable pub check_shards :
    FormatLimits → ObjectRef → Totals → List RunPlanShard → Result StorageError Totals
check_shards limits configuration t [] = ok t
check_shards limits configuration t (item ∷ items) = do
  t' ← check_shard limits configuration t item
  check_shards limits configuration t' items

abbrev pub no_totals : Totals
no_totals = record { previous = none; cases = pos 0; chunks = pos 0 }

unfoldable pub validate_plan : RunPlanManifest → FormatLimits → Result StorageError (Unit {0})
validate_plan m limits = do
  schema m.schema run_plan_manifest
  require m.dataset dataset_manifest limits
  require m.configuration run_configuration limits
  validate_descriptor m.chunks limits
  ensure (covers m.chunks m.chunk_count) run_cover
  validate_digest m.profile_hash
  validate_digest m.aggregation_policy_hash
  validate_digest m.execution_plan_hash
  ensure (not (is_empty m.shards) && leb (length m.shards) 128) plan_shard_count
  t ← check_shards limits m.configuration no_totals m.shards
  ensure (eqb_ℤ t.chunks m.chunk_count) plan_chunk_totals
  ensure (text_eq m.configuration.storage_alias m.chunks.object.storage_alias) plan_owner
