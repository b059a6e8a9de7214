-- ===== src/Scorecard/Evaluation.antt =====
-- The evaluation of gates in vigilo/src/contracts/scorecard.rs.
use agent_vigilo.Prelude.{
  Bool, true, false, Option, none, some, List, [], ◌∷◌, if◌then◌else◌, is_some, is_none_or,
  is_empty,
}
use agent_vigilo.Prelude.Int.{pos, ltb_ℤ, eqb_ℤ}
use agent_vigilo.Prelude.Float.{Float}
use agent_vigilo.Scorecard.{
  checked_rate, ScorecardEntry, GateFailure, ScorecardGateResult, no_matching_executions,
  mean_below_minimum, coverage_below_minimum, pass_rate_below_minimum, error_rate_above_maximum,
  abstention_rate_above_maximum,
}

abbrev pub push_if : Bool → GateFailure → List GateFailure → List GateFailure
push_if true failure rest = failure ∷ rest
push_if false failure rest = rest

module _ {ℓ} {W : Type ℓ} ⦃f : Float W⦄ where
  -- A rate that is missing or on the wrong side of a configured bound.
  abbrev pub fails_min : Option W → Option W → Bool
  fails_min none actual = false
  fails_min (some minimum) actual = is_none_or (λ a. f.lt a minimum) actual

  abbrev pub fails_max : Option W → Option W → Bool
  fails_max none actual = false
  fails_max (some maximum) actual = is_none_or (λ a. f.lt maximum a) actual

  abbrev pub mean_of : ScorecardEntry W → Option W
  mean_of e =
      if ltb_ℤ (pos 0) e.scored_count
      then some (f.div e.score_sum (f.of_int e.scored_count))
      else none

  abbrev pub pass_rate_of : ScorecardEntry W → Option W
  pass_rate_of e =
      if is_some e.score_threshold then checked_rate e.passed_count e.scored_count else none

  unfoldable pub gate_failures : ScorecardEntry W → List GateFailure
  gate_failures e = push_if (eqb_ℤ e.expected_count (pos 0)) no_matching_executions (
      push_if (fails_min e.min_mean_score (mean_of e)) mean_below_minimum (
        push_if (fails_min e.min_coverage (checked_rate e.scored_count e.expected_count))
          coverage_below_minimum
          (push_if (fails_min e.min_pass_rate (pass_rate_of e)) pass_rate_below_minimum (
            push_if (fails_max e.max_error_rate (checked_rate e.error_count e.expected_count))
              error_rate_above_maximum
              (push_if
                (fails_max e.max_abstention_rate (checked_rate e.abstained_count e.expected_count))
                abstention_rate_above_maximum [])))))

  unfoldable pub evaluate_entry : ScorecardEntry W → ScorecardGateResult W
  evaluate_entry e = record {
    id = e.id;
    dimension = e.dimension;
    binding_id = e.binding_id;
    case_group = e.case_group;
    tags_all = e.tags_all;
    passed = is_empty (gate_failures e);
    failures = gate_failures e;
    expected_count = e.expected_count;
    scored_count = e.scored_count;
    passed_count = e.passed_count;
    error_count = e.error_count;
    abstained_count = e.abstained_count;
    mean_score = mean_of e;
    min_score = e.min_score;
    max_score = e.max_score;
    coverage = checked_rate e.scored_count e.expected_count;
    pass_rate = pass_rate_of e;
    error_rate = checked_rate e.error_count e.expected_count;
    abstention_rate = checked_rate e.abstained_count e.expected_count;
  }
