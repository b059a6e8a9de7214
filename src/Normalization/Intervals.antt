-- ===== src/Normalization/Intervals.antt =====
-- Threshold mappings: the score of the interval that holds the value.
use agent_vigilo.Prelude.{
  ℕ, zero, suc, ◌+◌, ◌≤◌, ◌<◌, ◌≡◌, refl, inl, inr, Bool, true, false, not, Option, none, some,
  List, [], ◌∷◌, arith, ◌==◌, ==_iff, Bool-cases, length, get_elem?, any, ok,
}
use agent_vigilo.Prelude.Text.{Text, unit_eq_refl}
use agent_vigilo.Prelude.Float.{Float, IsFloat, ◌≼◌, valid_score}
use agent_vigilo.Normalization.{
  NormalizationPolicy, Measurement, thresholds, partition_point, check_cutpoints, validate_mapping,
  validate_policy, apply_mapping, normalize_numeric, measure, normalize_measurement,
}

module _ {W : Type 0} ⦃f : Float W⦄ where
  -- The first `k` cutpoints are at most the value, and the others are above it.
  abbrev pub Splits : W → List W → ℕ → Type 0
  Splits value [] k = k ≡ 0
  Splits value (c ∷ cs) zero = (f.le c value ≡ false) × Splits value cs zero
  Splits value (c ∷ cs) (suc k) = (c ≼ value) × Splits value cs k

  module _ (laws : IsFloat W) where
    open laws use {le_trans, le_total}

    all_above :
        (low high value c : W) (cs : List W)
        → check_cutpoints low high (some c) cs ≡ ok tt
        → f.is_finite c ≡ true
        → f.le c value ≡ false
        → Splits value cs zero
    unfolding check_cutpoints
    all_above low high value c [] h fin above = refl
    all_above low high value c (d ∷ cs) h fin above =
        let fin' : f.is_finite d ≡ true = ground arith in
        let up : f.le d c ≡ false = ground arith in
        let rest : check_cutpoints low high (some d) cs ≡ ok tt = ground arith in
        let above' : f.le d value ≡ false =
          ground (arith, le_total d c fin' fin up, le_trans c d value) in
        (above', all_above low high value d cs rest fin' above')

    partition_point-Splits :
        (low high value : W) (previous : Option W) (cs : List W)
        → check_cutpoints low high previous cs ≡ ok tt
        → Splits value cs (partition_point (λ c. f.le c value) cs)
    unfolding check_cutpoints partition_point
    partition_point-Splits low high value previous [] h = refl
    partition_point-Splits low high value previous (c ∷ cs) h =
        let fin : f.is_finite c ≡ true = ground arith in
        let rest : check_cutpoints low high (some c) cs ≡ ok tt = ground arith in
        elim (Bool-cases (f.le c value)) [
          | inl below ↦ rw below (below, partition_point-Splits low high value (some c) cs rest)
          | inr above ↦ rw above (above, all_above low high value c cs rest fin above)
        ]

    partition_point-le : (p : W → Bool) (cs : List W) → partition_point p cs ≤ length cs
    unfolding partition_point
    partition_point-le p [] = omega arith
    partition_point-le p (c ∷ cs) = ground (arith, partition_point-le p cs)

    get_in_range : (xs : List W) (k : ℕ) → k < length xs → (x : W) × (get_elem? xs k ≡ some x)
    get_in_range [] k h = absurd (omega arith)
    get_in_range (x ∷ xs) zero h = (x, refl)
    get_in_range (x ∷ xs) (suc k) h = get_in_range xs k (omega arith)

    valid_at :
        (xs : List W) (k : ℕ) (x : W)
        → any (λ s. not (valid_score s)) xs ≡ false
        → get_elem? xs k ≡ some x
        → valid_score x ≡ true
    valid_at [] k x h g = cc
    valid_at (y ∷ xs) zero x h g = ground arith
    valid_at (y ∷ xs) (suc k) x h g =
        let rest : any (λ s. not (valid_score s)) xs ≡ false = ground arith in
        valid_at xs k x rest g

    -- A valid threshold policy scores every finite value of its domain that comes in its unit: the
    -- score is the one of the interval between the cutpoints that are at most the value and those
    -- above it.
    pub thresholds_total :
        (unit : Option Text) (low high value : W) (cutpoints scores : List W)
        → let policy = NormalizationPolicy.numeric unit (thresholds low high cutpoints scores) in
          validate_policy policy ≡ ok tt
          → f.is_finite value ≡ true
          → f.lt value low ≡ false
          → f.lt high value ≡ false
          → (k : ℕ) × (score : W) × (normalize_measurement
                (NormalizationPolicy.numeric unit (thresholds low high cutpoints scores))
                (Measurement.numeric value unit)
              ≡ ok score)
            × (get_elem? scores k ≡ some score)
            × Splits value cutpoints k
    unfolding normalize_measurement measure normalize_numeric apply_mapping validate_policy
        validate_mapping
    thresholds_total unit low high value cutpoints scores v fin lo hi =
        let u = unit_eq_refl unit in
        let cuts : check_cutpoints low high none cutpoints ≡ ok tt = ground arith in
        let k = partition_point (λ c. f.le c value) cutpoints in
        let count : (length scores == length cutpoints + 1) ≡ true = ground arith in
        let sound : any (λ s. not (valid_score s)) scores ≡ false = ground arith in
        let (score, found) =
          get_in_range scores k (
            omega
              (arith, partition_point-le (λ c. f.le c value) cutpoints, (==_iff _ _).0 count)) in
        (
          k,
          score,
          ground (arith, valid_at scores k score sound found),
          found,
          partition_point-Splits low high value none cutpoints cuts,
        )
