-- ===== src/Normalization.antt =====
-- vigilo/src/contracts/normalization.rs: the validation of normalization policies and the mapping of
-- raw measurements to scores, over an abstract `f64`. A message of the source is a constructor of
-- `NormalizationError`. The labels of an ordinal policy are pairs in the order of their keys.
use agent_vigilo.Prelude.{
  ℕ, suc, ◌+◌, ◌-◌, Bool, true, not, ◌&&◌, ◌||◌, Option, none, some, List, [], ◌∷◌, ltb, leb, ◌==◌,
  if◌then◌else◌, option_eq, is_some_and, length, get_elem?, is_empty, last?, any, Result, ok, err,
  ◌>>=◌, ◌>>◌, ensure, ok_or,
}
use agent_vigilo.Prelude.Text.{Text, text_eq, byte_len, is_blank}
use agent_vigilo.Prelude.Float.{Float, valid_score}
use agent_vigilo.Prelude.Dict.{Dict, get}
pub mod Intervals
pub mod Linear

pub data NormalizationError : Type 0 where
  bad_domain bad_point_count bad_point points_not_increasing bad_binary bad_unit :
      NormalizationError
  too_many_cutpoints wrong_score_count bad_threshold_score bad_cutpoint : NormalizationError
  cutpoints_not_increasing bad_ordinal_count bad_label bad_ordinal_score : NormalizationError
  not_finite outside_domain outside_curve unit_mismatch bad_measured_label : NormalizationError
  unmapped_label incompatible_kind invalid_score missing_index : NormalizationError

pub data ScoreDirection : Type 0 where
  higher_is_better lower_is_better : ScoreDirection

pub record UtilityPoint {ℓ} (W : Type ℓ) : Type ℓ where
  pub value : W
  pub score : W

pub data NumericMapping {ℓ} (W : Type ℓ) : Type ℓ where
  linear : W → W → ScoreDirection → NumericMapping W
  piecewise_linear : List (UtilityPoint W) → NumericMapping W
  thresholds : W → W → List W → List W → NumericMapping W

pub data NormalizationPolicy {ℓ} (W : Type ℓ) : Type ℓ where
  binary : W → W → NormalizationPolicy W
  numeric : Option Text → NumericMapping W → NormalizationPolicy W
  ordinal : Dict W → NormalizationPolicy W

-- `Measurement` of contracts/evaluator.rs.
pub data Measurement {ℓ} (W : Type ℓ) : Type ℓ where
  binary : Bool → Measurement W
  numeric : W → Option Text → Measurement W
  ordinal : Text → Measurement W

abbrev pub max_mapping_entries : ℕ
max_mapping_entries = 256

abbrev pub max_label_bytes : ℕ
max_label_bytes = 256

abbrev pub max_unit_bytes : ℕ
max_unit_bytes = 64

-- `partition_point`: the length of the longest prefix that passes the test, which is what the binary
-- search finds where the test is true of a prefix and false of the rest.
unfoldable pub partition_point {ℓ} : {A : Type ℓ} → (A → Bool) → List A → ℕ
partition_point p [] = 0
partition_point p (x ∷ xs) = if p x then suc (partition_point p xs) else 0

unfoldable pub valid_unit : Option Text → Bool
valid_unit none = true
valid_unit (some u) = not (is_blank u || ltb max_unit_bytes (byte_len u))

module _ {ℓ} {W : Type ℓ} ⦃f : Float W⦄ where
  unfoldable pub validate_domain : W → W → Result NormalizationError (Unit {0})
  validate_domain low high =
      ensure (not (not (f.is_finite low) || not (f.is_finite high) || f.le high low)) bad_domain

  -- The loop over the points, from the value before.
  unfoldable pub check_points :
      Option W → List (UtilityPoint W) → Result NormalizationError (Unit {0})
  check_points previous [] = ok tt
  check_points previous (p ∷ ps) = do
    ensure (not (not (f.is_finite p.value) || not (valid_score p.score))) bad_point
    ensure (not (is_some_and (λ v. f.le p.value v) previous)) points_not_increasing
    check_points (some p.value) ps

  unfoldable pub validate_points : List (UtilityPoint W) → Result NormalizationError (Unit {0})
  validate_points points = do
    ensure (leb 2 (length points) && leb (length points) max_mapping_entries) bad_point_count
    check_points none points

  unfoldable pub check_cutpoints : W → W → Option W → List W → Result NormalizationError (Unit {0})
  check_cutpoints low high previous [] = ok tt
  check_cutpoints low high previous (c ∷ cs) = do
    ensure (not (not (f.is_finite c) || f.le c low || f.le high c)) bad_cutpoint
    ensure (not (is_some_and (λ v. f.le c v) previous)) cutpoints_not_increasing
    check_cutpoints low high (some c) cs

  unfoldable pub check_labels : Dict W → Result NormalizationError (Unit {0})
  check_labels [] = ok tt
  check_labels ((label, score) ∷ m) = do
    ensure (not (is_blank label || ltb max_label_bytes (byte_len label))) bad_label
    ensure (valid_score score) bad_ordinal_score
    check_labels m

  unfoldable pub validate_mapping : NumericMapping W → Result NormalizationError (Unit {0})
  validate_mapping (linear low high direction) = validate_domain low high
  validate_mapping (piecewise_linear points) = validate_points points
  validate_mapping (thresholds low high cutpoints scores) = do
    validate_domain low high
    ensure (ltb (length cutpoints) max_mapping_entries) too_many_cutpoints
    ensure (length scores == length cutpoints + 1) wrong_score_count
    ensure (not (any (λ s. not (valid_score s)) scores)) bad_threshold_score
    check_cutpoints low high none cutpoints

  unfoldable pub validate_policy : NormalizationPolicy W → Result NormalizationError (Unit {0})
  validate_policy (NormalizationPolicy.binary false_score true_score) =
      ensure (not (not (valid_score false_score) || not (valid_score true_score))) bad_binary
  validate_policy (NormalizationPolicy.numeric unit mapping) = do
    ensure (valid_unit unit) bad_unit
    validate_mapping mapping
  validate_policy (NormalizationPolicy.ordinal values) = do
    ensure (not (is_empty values || ltb max_mapping_entries (length values))) bad_ordinal_count
    check_labels values

  -- `points[0].value` and `points[points.len() - 1].value`; the policy's validation refuses an empty
  -- list, on which the source would panic.
  unfoldable pub outside_points : List (UtilityPoint W) → W → Bool
  outside_points [] value = true
  outside_points (p ∷ ps) value =
      f.lt value p.value
      || is_some_and (λ (q : UtilityPoint W). f.lt q.value value) (last? (p ∷ ps))

  unfoldable pub interpolate : UtilityPoint W → UtilityPoint W → W → W
  interpolate left right value =
      let position = f.div (f.sub value left.value) (f.sub right.value left.value) in
      f.add left.score (f.mul position (f.sub right.score left.score))

  -- The points at `upper - 1` and `upper`. An index out of range is a panic in the source.
  unfoldable pub between :
      List (UtilityPoint W) → W → ℕ → Option (UtilityPoint W) → Result NormalizationError W
  between points value upper none = err missing_index
  between points value upper (some right) = if f.eq right.value value then ok right.score else (do
    left ← ok_or (if upper == 0 then none else get_elem? points (upper - 1)) missing_index
    ok (interpolate left right value))

  unfoldable pub directed : ScoreDirection → W → W
  directed higher_is_better p = p
  directed lower_is_better p = f.sub f.unit p

  unfoldable pub apply_mapping : NumericMapping W → W → Result NormalizationError W
  apply_mapping (linear low high direction) value = do
    ensure (not (f.lt value low || f.lt high value)) outside_domain
    let position = f.div (f.sub value low) (f.sub high low)
    ok (directed direction position)
  apply_mapping (piecewise_linear points) value = do
    ensure (not (outside_points points value)) outside_curve
    let upper = partition_point (λ (p : UtilityPoint W). f.lt p.value value) points
    between points value upper (get_elem? points upper)
  apply_mapping (thresholds low high cutpoints scores) value = do
    ensure (not (f.lt value low || f.lt high value)) outside_domain
    ok_or (get_elem? scores (partition_point (λ c. f.le c value) cutpoints)) missing_index

  unfoldable pub normalize_numeric : NumericMapping W → W → Result NormalizationError W
  normalize_numeric mapping value = do
    ensure (f.is_finite value) not_finite
    apply_mapping mapping value

  -- The `match` of `normalize_measurement`.
  unfoldable pub measure : NormalizationPolicy W → Measurement W → Result NormalizationError W
  measure (NormalizationPolicy.binary false_score true_score) (Measurement.binary value) =
      ok (if value then true_score else false_score)
  measure (NormalizationPolicy.numeric expected mapping) (Measurement.numeric value unit) = do
    ensure (option_eq text_eq unit expected) unit_mismatch
    normalize_numeric mapping value
  measure (NormalizationPolicy.ordinal values) (Measurement.ordinal label) = do
    ensure (not (is_blank label || ltb max_label_bytes (byte_len label))) bad_measured_label
    ok_or (get label values) unmapped_label
  measure policy measurement = err incompatible_kind

  unfoldable pub normalize_measurement :
      NormalizationPolicy W → Measurement W → Result NormalizationError W
  normalize_measurement policy measurement = do
    validate_policy policy
    score ← measure policy measurement
    ensure (valid_score score) invalid_score
    ok score
