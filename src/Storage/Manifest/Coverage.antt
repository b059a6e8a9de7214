-- ===== src/Storage/Manifest/Coverage.antt =====
-- The shards of a validated run plan account for every chunk.
use agent_vigilo.Prelude.{
  ℕ, ◌+◌, ◌*◌, ◌^◌, ◌≤◌, ◌<◌, ◌≡◌, ap, ◌∙◌, true, Option, none, some, List, [], ◌∷◌, arith, ltb→lt,
  is_none_or, and-eq-true, ok, ◌>>=◌, ◌>>◌, ensure, >>=-eq-ok, ensure-eq-ok,
}
use agent_vigilo.Prelude.Int.{
  ℤ, pos, pos_part, ◌+ℤ◌, ◌≤ℤ◌, ◌<ℤ◌, ltb_ℤ, eqb_ℤ, eqb_ℤ→eq, parts_exclusive, pos-pos_part,
  checked_add, +ℤ_nonneg, checked_add_lem,
}
use agent_vigilo.Storage.Limits.{FormatLimits, shard, plan_chunk_totals, plan_owner}
use agent_vigilo.Prelude.Text.{text_eq}
use agent_vigilo.Storage.Object.{ObjectRef}
use agent_vigilo.Storage.Index.{IndexDescriptor}
use agent_vigilo.Storage.Manifest.{
  RunPlanShard, RunPlanManifest, covers, Totals, no_totals, check_shard, check_shards,
  validate_plan,
}

abbrev pub total : (RunPlanShard → ℤ) → List RunPlanShard → ℕ
total field [] = 0
total field (item ∷ items) = pos_part (field item) + total field items

-- Shards rise strictly, each in 0..128, with between one and a hundred cases for each chunk.
abbrev pub AreOrdered : Option ℤ → List RunPlanShard → Type 0
AreOrdered previous [] = Unit
AreOrdered previous (item ∷ items) =
    (is_none_or (λ value. ltb_ℤ value item.run_shard) previous ≡ true)
    × (pos 0 ≤ℤ item.run_shard)
    × (item.run_shard <ℤ pos 128)
    × (pos 0 <ℤ item.chunk_count)
    × (item.chunk_count ≤ℤ item.case_count)
    × (pos_part item.case_count ≤ pos_part item.chunk_count * 100)
    × AreOrdered (some item.run_shard) items

record IsCounted (t : Totals) (item : RunPlanShard) (t' : Totals) : Type 0 where
  previous : t'.previous ≡ some item.run_shard
  order : is_none_or (λ value. ltb_ℤ value item.run_shard) t.previous ≡ true
  low : pos 0 ≤ℤ item.run_shard
  high : item.run_shard <ℤ pos 128
  some_chunk : pos 0 <ℤ item.chunk_count
  full : item.chunk_count ≤ℤ item.case_count
  capped : pos_part item.case_count ≤ pos_part item.chunk_count * 100
  chunks : t'.chunks ≡ t.chunks +ℤ item.chunk_count
  cases : t'.cases ≡ t.cases +ℤ item.case_count
  cases_fit : pos_part t'.cases < 2 ^ 31

check_shard-IsCounted :
    (limits : FormatLimits) (configuration : ObjectRef) (t : Totals) (item : RunPlanShard)
    (t' : Totals)
    → check_shard limits configuration t item ≡ ok t'
    → IsCounted t item t'
unfolding check_shard shard
check_shard-IsCounted limits configuration t item t' h =
    let more : checked_add 31 t.chunks item.chunk_count ≡ some t'.chunks = ground arith in
    let more' : checked_add 31 t.cases item.case_count ≡ some t'.cases = ground arith in
    let chunks = checked_add_lem 31 t.chunks item.chunk_count more in
    let cases = checked_add_lem 31 t.cases item.case_count more' in
    record {
      previous = ground arith;
      order = ground arith;
      low = ground arith;
      high = ground arith;
      some_chunk = ground arith;
      full = ground arith;
      capped = ground arith;
      chunks = chunks.0;
      cases = cases.0;
      cases_fit = cases.1;
    }

-- The running totals after a list of shards.
record IsTotal (t : Totals) (items : List RunPlanShard) (t' : Totals) : Type 0 where
  ordered : AreOrdered t.previous items
  chunks : pos_part t'.chunks ≡ pos_part t.chunks + total (λ s. s.chunk_count) items
  cases : pos_part t'.cases ≡ pos_part t.cases + total (λ s. s.case_count) items

check_shards-IsTotal :
    (limits : FormatLimits) (configuration : ObjectRef) (t : Totals) (items : List RunPlanShard)
    (t' : Totals)
    → check_shards limits configuration t items ≡ ok t'
    → pos 0 ≤ℤ t.chunks
    → pos 0 ≤ℤ t.cases
    → IsTotal t items t'
unfolding check_shards
check_shards-IsTotal limits configuration t [] t' h a b = record {
  ordered = tt;
  chunks = ground arith;
  cases = ground arith;
}
check_shards-IsTotal limits configuration t (item ∷ items) t' h a b =
    let (mid, step, rest) =
      >>=-eq-ok (check_shard limits configuration t item)
        (λ c. check_shards limits configuration c items) h in
    let c = check_shard-IsCounted limits configuration t item mid step in
    let (more_chunks, chunks_left) =
      +ℤ_nonneg t.chunks item.chunk_count a (omega (arith, c.some_chunk)) in
    let (more_cases, cases_left) =
      +ℤ_nonneg t.cases item.case_count b (omega (arith, c.some_chunk, c.full)) in
    let r =
      check_shards-IsTotal limits configuration mid items t' rest
        (rw c.chunks (omega (arith, chunks_left))) (rw c.cases (omega (arith, cases_left))) in
    let e : pos_part mid.chunks ≡ pos_part t.chunks + pos_part item.chunk_count =
      rw c.chunks more_chunks in
    let e' : pos_part mid.cases ≡ pos_part t.cases + pos_part item.case_count =
      rw c.cases more_cases in
    record {
      ordered =
          (c.order, c.low, c.high, c.some_chunk, c.full, c.capped, rw c.previous at r.ordered);
      chunks = omega (arith, r.chunks);
      cases = omega (arith, r.cases);
    }

covers_lem :
    (index : IndexDescriptor) (count : ℤ)
    → covers index count ≡ true
    → (pos 0 <ℤ count) × (index.range_start ≡ pos 0) × (index.range_end ≡ count)
unfolding covers
covers_lem index count h =
    let a = and-eq-true _ _ h in
    let b = and-eq-true _ _ a.0 in (ltb→lt _ _ b.0, eqb_ℤ→eq _ _ b.1, eqb_ℤ→eq _ _ a.1)

total_bounds :
    (previous : Option ℤ) (items : List RunPlanShard)
    → AreOrdered previous items
    → (total (λ s. s.chunk_count) items ≤ total (λ s. s.case_count) items)
      × (total (λ s. s.case_count) items ≤ total (λ s. s.chunk_count) items * 100)
total_bounds previous [] o = omega arith
total_bounds previous (item ∷ items) (order, low, high, some_chunk, full, capped, rest) =
    let (lo, hi) = total_bounds (some item.run_shard) items rest in
    (ground (arith, parts_exclusive item.chunk_count, parts_exclusive item.case_count), omega arith)

-- A run plan that passes validation has its shards in strictly rising order within 0..128, its
-- shards' chunks add up to the chunk count of the plan, which the index covers from 0, and the plan
-- has between one and a hundred cases for each chunk.
pub validate_plan_totals :
    (m : RunPlanManifest) (limits : FormatLimits)
    → validate_plan m limits ≡ ok tt
    → AreOrdered none m.shards
      × (pos (total (λ s. s.chunk_count) m.shards) ≡ m.chunk_count)
      × (m.chunks.range_start ≡ pos 0)
      × (m.chunks.range_end ≡ m.chunk_count)
      × (total (λ s. s.chunk_count) m.shards ≤ total (λ s. s.case_count) m.shards)
      × (total (λ s. s.case_count) m.shards ≤ total (λ s. s.chunk_count) m.shards * 100)
unfolding validate_plan
validate_plan_totals m limits h =
    let loop = check_shards limits m.configuration no_totals m.shards in
    let close = λ (t : Totals).
      ensure (eqb_ℤ t.chunks m.chunk_count) plan_chunk_totals
      >> ensure (text_eq m.configuration.storage_alias m.chunks.object.storage_alias) plan_owner in
    let ran : (loop >>= close) ≡ ok tt = ground arith in
    let covered : covers m.chunks m.chunk_count ≡ true = ground arith in
    let (positive, start, end) = covers_lem m.chunks m.chunk_count covered in
    let (t, done, closed) = >>=-eq-ok loop close ran in
    let (same, owned) = ensure-eq-ok (eqb_ℤ t.chunks m.chunk_count) plan_chunk_totals _ closed in
    let totals =
      check_shards-IsTotal limits m.configuration no_totals m.shards t done (omega arith)
        (omega arith) in
    let e = eqb_ℤ→eq t.chunks m.chunk_count same in
    let few = total_bounds none m.shards totals.ordered in
    (
      totals.ordered,
      ap pos (omega (arith, totals.chunks))
          ∙ ap pos (ap pos_part e)
          ∙ pos-pos_part m.chunk_count (omega arith),
      start,
      end,
      few.0,
      few.1,
    )
