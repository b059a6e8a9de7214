-- ===== src/Examples/Mappings.antt =====
-- Mappings of measurements in thousandths.
use agent_vigilo.Prelude.{ℕ, ◌≡◌, refl, none, some, List, [], ◌∷◌, get_elem?, ok}
use agent_vigilo.Prelude.Float.{Milli, milli_float, Milli-IsFloat, valid_score, IsScore}
use agent_vigilo.Normalization.{
  NormalizationPolicy, Measurement, linear, thresholds, lower_is_better, directed,
  normalize_measurement, measure, normalize_numeric, apply_mapping, partition_point,
  validate_policy, validate_mapping, validate_domain, check_cutpoints, valid_unit,
}
use agent_vigilo.Normalization.Intervals.{Splits, thresholds_total}
use agent_vigilo.Normalization.Linear.{linear_total}

linear_total_example :
    let score = directed lower_is_better (
      milli_float.div
        (milli_float.sub (some 3000) (some 1000))
        (milli_float.sub (some 5000) (some 1000))) in
    (normalize_measurement
        (NormalizationPolicy.numeric none (linear (some 1000) (some 5000) lower_is_better))
        (Measurement.numeric (some 3000) none)
      ≡ ok score)
    × IsScore score
unfolding validate_policy validate_mapping validate_domain valid_unit
linear_total_example =
    linear_total Milli-IsFloat none (some 1000) (some 5000) (some 3000) lower_is_better refl refl
      refl refl refl

abbrev cuts : List Milli
cuts = some 2000 ∷ some 3000 ∷ []

abbrev steps : List Milli
steps = some 1000 ∷ some 500 ∷ some 0 ∷ []

thresholds_total_example :
    (k : ℕ) × (score : Milli) × (normalize_measurement
        (NormalizationPolicy.numeric none (thresholds (some 1000) (some 5000) cuts steps))
        (Measurement.numeric (some 2500) none)
      ≡ ok score)
    × (get_elem? steps k ≡ some score)
    × Splits (some 2500) cuts k
unfolding validate_policy validate_mapping validate_domain valid_unit check_cutpoints valid_score
thresholds_total_example =
    thresholds_total Milli-IsFloat none (some 1000) (some 5000) (some 2500) cuts steps refl refl
      refl refl

-- The score of the middle interval.
middle_score :
    normalize_measurement
      (NormalizationPolicy.numeric none (thresholds (some 1000) (some 5000) cuts steps))
      (Measurement.numeric (some 2500) none)
    ≡ ok (some 500)
unfolding normalize_measurement measure normalize_numeric apply_mapping partition_point
    validate_policy validate_mapping validate_domain valid_unit check_cutpoints valid_score
middle_score = refl
