-- ===== src/Aggregation/Execution.antt =====
-- vigilo/src/contracts/aggregation.rs: the dimension scores, the blocking failures and the status of
-- one execution.
use agent_vigilo.Prelude.{
  ℕ, suc, Bool, true, false, not, ◌&&◌, ◌||◌, Option, none, some, List, [], ◌∷◌, ◌++◌,
  if◌then◌else◌, is_none, length, is_empty, any,
}
use agent_vigilo.Prelude.Text.{Text}
use agent_vigilo.Prelude.Float.{Float}
use agent_vigilo.Prelude.Dict.{Dict, get, insert}
use agent_vigilo.Aggregation.{
  AggregationMethod, min_score, weighted_mean, DimensionAggregation, AggregationSettings,
  RunDefaults, AggregationBinding, AggregationResult, Completeness, Outcomes, evaluation_status_key,
  is_failure, contains, default_dimension_policy, valid_normalized_score, evaluator_completeness,
}

pub data OverallStatus : Type 0 where
  passed failed error : OverallStatus

pub record DimensionAccumulator {ℓ} (W : Type ℓ) : Type ℓ where
  pub policy : DimensionAggregation W
  pub results : List (ℕ × AggregationResult W)

pub record BlockingFailure : Type 0 where
  pub result_index : ℕ
  pub binding_id : Text
  pub evaluator_id : Text
  pub dimension : Text
  pub status : Text
  pub failure_category : Option Text
  pub reason : Option Text

pub record Summary : Type 0 where
  pub attempt_id : Text
  pub result_count : ℕ
  pub overall_status : OverallStatus
  pub result_status_counts : Dict ℕ
  pub evaluator_completeness : Completeness

pub record AggregationOutcome {ℓ} (W : Type ℓ) : Type ℓ where
  pub overall_status : OverallStatus
  pub aggregate_score : Option W
  pub dimension_scores : Dict W
  pub blocking_failures : List BlockingFailure
  pub summary : Summary

-- The sums of the second loop and the scores it reports.
pub record Totals {ℓ} (W : Type ℓ) : Type ℓ where
  pub scores : Dict W
  pub weighted : W
  pub weights : W

unfoldable pub enumerate {ℓ} : {A : Type ℓ} → ℕ → List A → List (ℕ × A)
enumerate n [] = []
enumerate n (x ∷ xs) = (n, x) ∷ enumerate (suc n) xs

unfoldable pub count_status {ℓ} : {W : Type ℓ} → Outcomes W → Dict ℕ → Dict ℕ
count_status [] counts = counts
count_status (r ∷ rs) counts =
    let key = evaluation_status_key r.status in
    count_status rs (insert key (elim (get key counts) [ none ↦ 1 | some n ↦ suc n ]) counts)

module _ {ℓ} {W : Type ℓ} ⦃f : Float W⦄ where
  -- The weights and scores of the results that count.
  unfoldable pub scoreable : List (ℕ × AggregationResult W) → List (W × W)
  scoreable [] = []
  scoreable ((index, r) ∷ rs) =
      let rest = scoreable rs in
      if valid_normalized_score r
      then elim r.normalized_score [ none ↦ rest | some score ↦ (r.binding_weight, score) ∷ rest ]
      else rest

  unfoldable pub min_of : W → List (W × W) → W
  min_of least [] = least
  min_of least ((weight, score) ∷ rs) = min_of (f.fmin least score) rs

  -- One step of the loop of the weighted mean, which skips weights that are not positive.
  unfoldable pub add_contribution : W → W → W × W → W × W
  add_contribution weight score (weighted, weights) =
      if f.le weight f.nought
      then (weighted, weights)
      else (f.add weighted (f.mul score weight), f.add weights weight)

  unfoldable pub sum_weighted : List (W × W) → W × W → W × W
  sum_weighted [] sums = sums
  sum_weighted ((weight, score) ∷ rs) sums = sum_weighted rs (add_contribution weight score sums)

  unfoldable pub ratio : W × W → Option W
  ratio (weighted, weights) = if f.lt f.nought weights then some (f.div weighted weights) else none

  unfoldable pub score_by : AggregationMethod → List (W × W) → Option W
  score_by method [] = none
  score_by min_score (s ∷ rs) = some (min_of f.unit (s ∷ rs))
  score_by weighted_mean (s ∷ rs) = ratio (sum_weighted (s ∷ rs) (f.nought, f.nought))

  unfoldable pub dimension_score : DimensionAccumulator W → Option W
  dimension_score a = score_by a.policy.method (scoreable a.results)

  unfoldable pub policy_of : AggregationSettings W → Text → DimensionAggregation W
  policy_of settings dimension = elim (get dimension settings.dimensions) [
    | none ↦ default_dimension_policy
    | some policy ↦ policy
  ]

  -- `entry(dimension).or_insert_with(..).results.push((index, result))`.
  unfoldable pub add_result :
      AggregationSettings W
      → ℕ
      → AggregationResult W
      → Dict (DimensionAccumulator W)
      → Dict (DimensionAccumulator W)
  add_result settings index r m =
      let entry : DimensionAccumulator W = elim (get r.binding_dimension m) [
        | none ↦ record { policy = policy_of settings r.binding_dimension; results = [] }
        | some a ↦ a
      ] in
      insert r.binding_dimension (record entry { results = entry.results ++ ((index, r) ∷ []) }) m

  unfoldable pub group_dimensions :
      AggregationSettings W
      → List Text
      → List (ℕ × AggregationResult W)
      → Dict (DimensionAccumulator W)
      → Dict (DimensionAccumulator W)
  group_dimensions settings required [] m = m
  group_dimensions settings required ((index, r) ∷ rs) m =
      let next = if contains r.binding_id required then add_result settings index r m else m in
      group_dimensions settings required rs next

  unfoldable pub total_dimension : Text → DimensionAccumulator W → Option W → Totals W → Totals W
  total_dimension dimension a none t = t
  total_dimension dimension a (some score) t =
      let scores = insert dimension score t.scores in
      if f.lt f.nought a.policy.weight
      then record {
        scores = scores;
        weighted = f.add t.weighted (f.mul score a.policy.weight);
        weights = f.add t.weights a.policy.weight;
      }
      else record t { scores = scores }

  unfoldable pub total_dimensions : Dict (DimensionAccumulator W) → Totals W → Totals W
  total_dimensions [] t = t
  total_dimensions ((dimension, a) ∷ m) t =
      total_dimensions m (total_dimension dimension a (dimension_score a) t)

  unfoldable pub is_blocking :
      List Text → Dict (DimensionAccumulator W) → AggregationResult W → Bool
  is_blocking required dimensions r =
      let dimension_blocking : Bool = elim (get r.binding_dimension dimensions) [
        | none ↦ false
        | some a ↦ a.policy.blocking
      ] in
      contains r.binding_id required && ((r.blocking || dimension_blocking) && is_failure r.status)

  unfoldable pub blocking_results :
      List Text
      → Dict (DimensionAccumulator W)
      → List (ℕ × AggregationResult W)
      → List BlockingFailure
  blocking_results required dimensions [] = []
  blocking_results required dimensions ((index, r) ∷ rs) =
      let rest = blocking_results required dimensions rs in
      if is_blocking required dimensions r
      then record {
        result_index = index;
        binding_id = r.binding_id;
        evaluator_id = r.evaluator_id;
        dimension = r.binding_dimension;
        status = evaluation_status_key r.status;
        failure_category = r.failure_category;
        reason = r.reason;
      }
        ∷ rest
      else rest

  -- `aggregate_score.map(|score| score < min).unwrap_or(true)`.
  unfoldable pub below : W → Option W → Bool
  below least none = true
  below least (some score) = f.lt score least

  unfoldable pub status_of : RunDefaults W → Bool → Bool → Bool → Option W → OverallStatus
  status_of defaults complete has_blocking has_scoreable score =
      if not complete
      then error
      else if defaults.fail_on_any_blocking_failure && has_blocking
      then failed
      else if not has_scoreable || is_none score
      then error
      else if below defaults.min_execution_score score
      then failed
      else passed

  unfoldable pub aggregate_results :
      RunDefaults W
      → AggregationSettings W
      → Text
      → List AggregationBinding
      → Outcomes W
      → AggregationOutcome W
  aggregate_results defaults settings attempt_id bindings results =
      let (complete, completeness, required) = evaluator_completeness bindings results in
      let dimensions = group_dimensions settings required (enumerate 0 results) [] in
      let start : Totals W = record { scores = []; weighted = f.nought; weights = f.nought } in
      let totals = if complete then total_dimensions dimensions start else start in
      let score = ratio (totals.weighted, totals.weights) in
      let blocking = blocking_results required dimensions (enumerate 0 results) in
      let has_scoreable =
        any (λ r. contains r.binding_id required && valid_normalized_score r) results in
      let status = status_of defaults complete (not (is_empty blocking)) has_scoreable score in
      record {
        overall_status = status;
        aggregate_score = score;
        dimension_scores = totals.scores;
        blocking_failures = blocking;
        summary = record {
          attempt_id = attempt_id;
          result_count = length results;
          overall_status = status;
          result_status_counts = count_status results [];
          evaluator_completeness = completeness;
        };
      }
