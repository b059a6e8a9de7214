-- ===== src/Normalization/Linear.antt =====
-- Linear mappings stay inside the unit interval.
use agent_vigilo.Prelude.{◌≡◌, true, false, Option, arith, ok}
use agent_vigilo.Prelude.Text.{Text, unit_eq_refl}
use agent_vigilo.Prelude.Float.{Float, IsFloat, ◌≼◌, IsScore, IsScore-valid_score}
use agent_vigilo.Normalization.{
  NormalizationPolicy, Measurement, linear, ScoreDirection, higher_is_better, lower_is_better,
  validate_domain, validate_mapping, validate_policy, directed, apply_mapping, normalize_numeric,
  measure, normalize_measurement,
}

module _ {W : Type 0} ⦃f : Float W⦄ (laws : IsFloat W) where
  open laws use {lt-eq-not-le, sub_between, sub_pos, div_score, unit-sub}

  directed-IsScore : (d : ScoreDirection) (p : W) → IsScore p → IsScore (directed d p)
  unfolding directed
  directed-IsScore higher_is_better p h = h
  directed-IsScore lower_is_better p h = unit-sub p h

  not_below : (x y : W) → f.is_finite x ≡ true → f.is_finite y ≡ true → f.lt x y ≡ false → y ≼ x
  not_below x y h k l = ground (arith, lt-eq-not-le x y h k)

  -- A valid linear policy whose domain has a finite width scores every finite value of the domain
  -- that comes in its unit, in either direction: the relative position, or its complement, and the
  -- score lies between 0 and 1.
  pub linear_total :
      (unit : Option Text) (low high value : W) (direction : ScoreDirection)
      → validate_policy (NormalizationPolicy.numeric unit (linear low high direction)) ≡ ok tt
      → f.is_finite (f.sub high low) ≡ true
      → f.is_finite value ≡ true
      → f.lt value low ≡ false
      → f.lt high value ≡ false
      → let score = directed direction (f.div (f.sub value low) (f.sub high low)) in
        (normalize_measurement
            (NormalizationPolicy.numeric unit (linear low high direction))
            (Measurement.numeric value unit)
          ≡ ok score)
        × IsScore score
  unfolding normalize_measurement measure normalize_numeric apply_mapping validate_policy
      validate_mapping validate_domain
  linear_total unit low high value direction v width fin lo hi =
      let u = unit_eq_refl unit in
      let fin_low : f.is_finite low ≡ true = ground arith in
      let fin_high : f.is_finite high ≡ true = ground arith in
      let wide : f.le high low ≡ false = ground arith in
      let above =
        sub_between low value high fin_low fin_high (not_below value low fin fin_low lo)
          (not_below high value fin_high fin hi) in
      let place =
        div_score (f.sub value low) (f.sub high low) above.0 above.1
          (sub_pos low high fin_low fin_high wide) width in
      let score = directed-IsScore direction (f.div (f.sub value low) (f.sub high low)) place in
      (
        ground (
          arith,
          IsScore-valid_score (directed direction (f.div (f.sub value low) (f.sub high low))) score,
        ),
        score,
      )
