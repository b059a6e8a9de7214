-- ===== src/Aggregation.antt =====
-- vigilo/src/contracts/aggregation.rs: how the normalized results of one execution become its
-- completeness, its dimension scores and its status, with the settings of contracts/run.rs. A JSON
-- object of the source is a record; a status string is a constructor, except where it is a key.
use agent_vigilo.Prelude.{
  ℕ, suc, ◌+◌, ◌-◌, Bool, true, false, not, ◌&&◌, Option, none, some, List, [], ◌∷◌, ◌++◌, ◌==◌,
  if◌then◌else◌, is_some, is_some_and, length, is_empty, any,
}
use agent_vigilo.Prelude.Text.{Text, codes, text_eq}
use agent_vigilo.Prelude.Float.{Float, valid_score}
use agent_vigilo.Prelude.Dict.{Dict, get, insert}
pub mod Execution
pub mod Bindings
pub mod Complete
pub mod Scores
pub mod Status

pub data EvaluationStatus : Type 0 where
  passed failed error abstained : EvaluationStatus

pub data AggregationMethod : Type 0 where
  min_score weighted_mean : AggregationMethod

pub record DimensionAggregation {ℓ} (W : Type ℓ) : Type ℓ where
  pub method : AggregationMethod
  pub blocking : Bool
  pub weight : W

pub record AggregationSettings {ℓ} (W : Type ℓ) : Type ℓ where
  pub dimensions : Dict (DimensionAggregation W)

pub record RunDefaults {ℓ} (W : Type ℓ) : Type ℓ where
  pub max_attempts : ℕ
  pub request_timeout_secs : ℕ
  pub fail_on_any_blocking_failure : Bool
  pub min_execution_score : W

pub record AggregationBinding : Type 0 where
  pub binding_id : Text
  pub required : Bool

pub record AggregationResult {ℓ} (W : Type ℓ) : Type ℓ where
  pub binding_id : Text
  pub evaluator_id : Text
  pub binding_dimension : Text
  pub status : EvaluationStatus
  pub normalized_score : Option W
  pub blocking : Bool
  pub binding_weight : W
  pub failure_category : Option Text
  pub reason : Option Text

unfoldable pub evaluation_status_key : EvaluationStatus → Text
evaluation_status_key passed = codes "passed"
evaluation_status_key failed = codes "failed"
evaluation_status_key error = codes "error"
evaluation_status_key abstained = codes "abstained"

unfoldable pub scoreable_status : EvaluationStatus → Bool
scoreable_status passed = true
scoreable_status failed = true
scoreable_status error = false
scoreable_status abstained = false

unfoldable pub is_error : EvaluationStatus → Bool
is_error error = true
is_error passed = false
is_error failed = false
is_error abstained = false

unfoldable pub is_abstained : EvaluationStatus → Bool
is_abstained abstained = true
is_abstained passed = false
is_abstained failed = false
is_abstained error = false

unfoldable pub is_failure : EvaluationStatus → Bool
is_failure failed = true
is_failure error = true
is_failure passed = false
is_failure abstained = false

unfoldable pub contains : Text → List Text → Bool
contains k ids = any (text_eq k) ids

-- The loop over the bindings: the map of expected ids, and how many came again.
unfoldable pub expect_bindings : List AggregationBinding → Dict Bool → ℕ → Dict Bool × ℕ
expect_bindings [] expected duplicates = (expected, duplicates)
expect_bindings (b ∷ bindings) expected duplicates =
    expect_bindings bindings (insert b.binding_id b.required expected)
      (if is_some (get b.binding_id expected) then suc duplicates else duplicates)

-- The ids of the map whose binding is required.
unfoldable pub required_ids : Dict Bool → List Text
required_ids [] = []
required_ids ((k, required) ∷ expected) =
    if required then k ∷ required_ids expected else required_ids expected

-- The counters of the loop over the required ids.
pub record RequiredCounts : Type 0 where
  pub scored : ℕ
  pub errors : ℕ
  pub abstentions : ℕ
  pub missing : ℕ
  pub unscored : ℕ
  pub incomplete : List Text

abbrev pub no_counts : RequiredCounts
no_counts = record {
  scored = 0;
  errors = 0;
  abstentions = 0;
  missing = 0;
  unscored = 0;
  incomplete = [];
}

pub record Completeness : Type 0 where
  pub complete : Bool
  pub expected_binding_count : ℕ
  pub required_binding_count : ℕ
  pub optional_binding_count : ℕ
  pub required : RequiredCounts
  pub duplicate_binding_count : ℕ
  pub duplicate_result_count : ℕ
  pub unexpected_binding_ids : List Text

abbrev pub Outcomes {ℓ} : Type ℓ → Type ℓ
Outcomes W = List (AggregationResult W)

module _ {ℓ} {W : Type ℓ} ⦃f : Float W⦄ where
  unfoldable pub default_dimension_policy : DimensionAggregation W
  default_dimension_policy = record { method = weighted_mean; blocking = false; weight = f.unit }

  unfoldable pub valid_normalized_score : AggregationResult W → Bool
  valid_normalized_score r = scoreable_status r.status && is_some_and valid_score r.normalized_score

  unfoldable pub pushed : AggregationResult W → Option (Outcomes W) → Outcomes W
  pushed r none = r ∷ []
  pushed r (some rs) = rs ++ (r ∷ [])

  -- `entry(id).or_default().push(result)`.
  unfoldable pub push_result : AggregationResult W → Dict (Outcomes W) → Dict (Outcomes W)
  push_result r m = insert r.binding_id (pushed r (get r.binding_id m)) m

  unfoldable pub group_results : Outcomes W → Dict (Outcomes W) → Dict (Outcomes W)
  group_results [] m = m
  group_results (r ∷ rs) m = group_results rs (push_result r m)

  unfoldable pub duplicate_results : Dict (Outcomes W) → ℕ
  duplicate_results [] = 0
  duplicate_results ((k, rs) ∷ m) = (length rs - 1) + duplicate_results m

  unfoldable pub unexpected_ids : Dict Bool → Dict (Outcomes W) → List Text
  unexpected_ids expected [] = []
  unexpected_ids expected ((k, rs) ∷ m) =
      if is_some (get k expected) then unexpected_ids expected m else k ∷ unexpected_ids expected m

  unfoldable pub count_required : Text → Option (Outcomes W) → RequiredCounts → RequiredCounts
  count_required id none c = record c {
    missing = suc c.missing;
    incomplete = c.incomplete ++ (id ∷ []);
  }
  count_required id (some rs) c =
      if not (length rs == 1)
      then record c { unscored = suc c.unscored; incomplete = c.incomplete ++ (id ∷ []) }
      else if any (λ r. is_error r.status) rs
      then record c { errors = suc c.errors; incomplete = c.incomplete ++ (id ∷ []) }
      else if any (λ r. is_abstained r.status) rs
      then record c { abstentions = suc c.abstentions; incomplete = c.incomplete ++ (id ∷ []) }
      else if any valid_normalized_score rs
      then record c { scored = suc c.scored }
      else record c { unscored = suc c.unscored; incomplete = c.incomplete ++ (id ∷ []) }

  unfoldable pub count_all : List Text → Dict (Outcomes W) → RequiredCounts → RequiredCounts
  count_all [] m c = c
  count_all (id ∷ ids) m c = count_all ids m (count_required id (get id m) c)

  unfoldable pub evaluator_completeness :
      List AggregationBinding → Outcomes W → Bool × Completeness × List Text
  evaluator_completeness bindings results =
      let (expected, duplicates) = expect_bindings bindings [] 0 in
      let groups = group_results results [] in
      let ids = required_ids expected in
      let unexpected = unexpected_ids expected groups in
      let counts = count_all ids groups no_counts in
      let complete =
        not (is_empty ids)
        && duplicates == 0
        && duplicate_results groups == 0
        && is_empty unexpected
        && counts.scored == length ids in
      (
        complete,
        record {
          complete = complete;
          expected_binding_count = length bindings;
          required_binding_count = length ids;
          optional_binding_count = length expected - length ids;
          required = counts;
          duplicate_binding_count = duplicates;
          duplicate_result_count = duplicate_results groups;
          unexpected_binding_ids = unexpected;
        },
        ids,
      )
