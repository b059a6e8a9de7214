-- ===== src/Examples/Executions.antt =====
-- The aggregation of two results, in thousandths.
use agent_vigilo.Prelude.{ℕ, ◌≡◌, refl, true, false, none, some, List, [], ◌∷◌, is_empty, All}
use agent_vigilo.Prelude.Text.{Text, codes, text_eq, text_lt}
use agent_vigilo.Prelude.Float.{Milli, milli_float, Milli-IsFloat, valid_score, IsScore}
use agent_vigilo.Prelude.Dict.{get, insert}
use agent_vigilo.Aggregation.{
  EvaluationStatus, min_score, weighted_mean, AggregationSettings, RunDefaults, AggregationBinding,
  AggregationResult, Outcomes, scoreable_status, is_error, is_abstained, is_failure, contains,
  expect_bindings, required_ids, valid_normalized_score, pushed, push_result, group_results,
  duplicate_results, unexpected_ids, count_required, count_all, evaluator_completeness,
}
use agent_vigilo.Aggregation.Execution.{
  passed, DimensionAccumulator, enumerate, scoreable, min_of, add_contribution, sum_weighted, ratio,
  score_by, dimension_score, policy_of, add_result, group_dimensions, total_dimension,
  total_dimensions, is_blocking, blocking_results, below, status_of, aggregate_results,
}
use agent_vigilo.Aggregation.Complete.{IsScoredOnce, results_of, complete-IsScoredOnce}
use agent_vigilo.Aggregation.Scores.{dimension_score-IsScore, aggregate_score-IsScore}
use agent_vigilo.Aggregation.Status.{IsUnblocking, passed_lem}

abbrev defaults : RunDefaults Milli
defaults = record {
  max_attempts = 3;
  request_timeout_secs = 30;
  fail_on_any_blocking_failure = true;
  min_execution_score = some 700;
}

abbrev settings : AggregationSettings Milli
settings = record {
  dimensions =
      (codes "quality", record { method = min_score; blocking = false; weight = some 2000 }) ∷ [];
}

abbrev bindings : List AggregationBinding
bindings =
    record { binding_id = codes "a"; required = true }
    ∷ record { binding_id = codes "b"; required = true }
    ∷ []

abbrev result : Text → ℕ → AggregationResult Milli
result id score = record {
  binding_id = id;
  evaluator_id = codes "e";
  binding_dimension = codes "quality";
  status = EvaluationStatus.passed;
  normalized_score = some (some score);
  blocking = true;
  binding_weight = some 1000;
  failure_category = none;
  reason = none;
}

abbrev results : Outcomes Milli
results = result (codes "a") 900 ∷ result (codes "b") 800 ∷ []

is_complete : (evaluator_completeness bindings results).0 ≡ true
unfolding evaluator_completeness expect_bindings required_ids get insert text_eq text_lt
    group_results push_result pushed duplicate_results unexpected_ids count_all count_required
    is_error is_abstained valid_normalized_score scoreable_status valid_score
is_complete = refl

complete-IsScoredOnce_example :
    All (λ b. b.required ≡ true → IsScoredOnce (results_of b.binding_id results)) bindings
    × (is_empty (evaluator_completeness bindings results).2 ≡ false)
complete-IsScoredOnce_example = complete-IsScoredOnce bindings results is_complete

abbrev quality : DimensionAccumulator Milli
quality = record {
  policy = record { method = weighted_mean; blocking = false; weight = some 1000 };
  results = (0, result (codes "a") 900) ∷ (1, result (codes "b") 800) ∷ [];
}

dimension_score-IsScore_example : IsScore {W = Milli} (some 850)
unfolding dimension_score score_by scoreable sum_weighted add_contribution ratio
    valid_normalized_score scoreable_status valid_score
dimension_score-IsScore_example =
    dimension_score-IsScore Milli-IsFloat quality (some 850) (refl, (refl, tt)) (λ mean. refl) refl

passes : (aggregate_results defaults settings (codes "t") bindings results).overall_status ≡ passed
unfolding aggregate_results status_of below is_blocking blocking_results total_dimensions
    total_dimension group_dimensions add_result policy_of enumerate contains is_failure
    dimension_score score_by min_of scoreable ratio evaluator_completeness expect_bindings
    required_ids get insert text_eq text_lt group_results push_result pushed duplicate_results
    unexpected_ids count_all count_required is_error is_abstained valid_normalized_score
    scoreable_status valid_score
passes = refl

aggregate_score-IsScore_example : IsScore {W = Milli} (some 800)
unfolding aggregate_results sum_weighted add_contribution status_of below is_blocking
    blocking_results total_dimensions total_dimension group_dimensions add_result policy_of
    enumerate contains is_failure dimension_score score_by min_of scoreable ratio
    evaluator_completeness expect_bindings required_ids get insert text_eq text_lt group_results
    push_result pushed duplicate_results unexpected_ids count_all count_required is_error
    is_abstained valid_normalized_score scoreable_status valid_score
aggregate_score-IsScore_example =
    aggregate_score-IsScore Milli-IsFloat defaults settings (codes "t") bindings results (some 800)
      ((refl, (refl, (refl, tt)), refl), tt) refl refl

passed_lem_example :
    All (λ b. b.required ≡ true → IsScoredOnce (results_of b.binding_id results)) bindings
    × (true ≡ true
        → All (IsUnblocking settings (evaluator_completeness bindings results).2) results)
    × ((x : Milli) × ((aggregate_results defaults settings
            (codes "t")
            bindings
            results).aggregate_score
          ≡ some x)
        × (milli_float.lt x (some 700) ≡ false))
passed_lem_example = passed_lem defaults settings (codes "t") bindings results passes
