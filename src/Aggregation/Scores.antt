-- ===== src/Aggregation/Scores.antt =====
-- Scores stay in the unit interval, from the results to the execution.
use agent_vigilo.Prelude.{
  ℕ, ◌≡◌, refl, inl, inr, true, false, some, List, [], ◌∷◌, arith, Bool-cases, Option-cases, All,
}
use agent_vigilo.Prelude.Text.{Text}
use agent_vigilo.Prelude.Float.{Float, IsFloat, ◌≼◌, IsScore, valid_score-IsScore}
use agent_vigilo.Prelude.Dict.{Dict}
use agent_vigilo.Aggregation.{
  AggregationMethod, min_score, weighted_mean, AggregationResult, AggregationSettings, RunDefaults,
  AggregationBinding, Outcomes, valid_normalized_score, evaluator_completeness,
}
use agent_vigilo.Aggregation.Execution.{
  DimensionAccumulator, scoreable, min_of, add_contribution, sum_weighted, ratio, score_by,
  dimension_score, Totals, total_dimension, total_dimensions, group_dimensions, enumerate,
  aggregate_results,
}

module _ {W : Type 0} ⦃f : Float W⦄ (laws : IsFloat W) where
  open laws use {
    lt-eq-not-le, nought_finite, unit_finite, nought-le-unit, le_refl, le_total, add_nonneg,
    add_mono, mul_nonneg, mul_le, div_score, fmin_cases,
  }

  -- A pair of a finite weight and a score.
  abbrev pub IsWeighed : W × W → Type 0
  IsWeighed p = (f.is_finite (p.0) ≡ true) × IsScore (p.1)

  -- Two sums, the weighted one no more than the other.
  abbrev pub IsSums : W × W → Type 0
  IsSums p = (f.nought ≼ p.0) × (p.0 ≼ p.1)

  pub nought-IsSums : IsSums (f.nought, f.nought)
  nought-IsSums = (le_refl f.nought nought_finite, le_refl f.nought nought_finite)

  pub add_weighed :
      (a b score weight : W)
      → IsSums (a, b)
      → IsScore score
      → f.is_finite weight ≡ true
      → f.nought ≼ weight
      → IsSums (f.add a (f.mul score weight), f.add b weight)
  add_weighed a b score weight (lo, hi) is_score fin w =
      let product = mul_nonneg score weight is_score fin w in
      (
        add_nonneg a (f.mul score weight) lo product,
        add_mono a b (f.mul score weight) weight lo product hi (mul_le score weight is_score fin w),
      )

  add_contribution-IsSums :
      (weight score : W) (p : W × W)
      → IsWeighed (weight, score)
      → IsSums p
      → IsSums (add_contribution weight score p)
  unfolding add_contribution
  add_contribution-IsSums weight score (a, b) (fin, is_score) s =
      elim (Bool-cases (f.le weight f.nought)) [
        | inl light ↦ rw light s
        | inr heavy ↦ rw heavy (
            add_weighed a b score weight s is_score fin
              (le_total weight f.nought fin nought_finite heavy))
      ]

  sum_weighted-IsSums :
      (rs : List (W × W)) (p : W × W) → All IsWeighed rs → IsSums p → IsSums (sum_weighted rs p)
  unfolding sum_weighted
  sum_weighted-IsSums [] p h s = s
  sum_weighted-IsSums ((weight, score) ∷ rs) p (w, h) s =
      sum_weighted-IsSums rs (add_contribution weight score p) h
        (add_contribution-IsSums weight score p w s)

  pub ratio-IsScore :
      (p : W × W) (x : W) → IsSums p → f.is_finite (p.1) ≡ true → ratio p ≡ some x → IsScore x
  unfolding ratio
  ratio-IsScore (a, b) x (lo, hi) fin h = elim (Bool-cases (f.lt f.nought b)) [
    | inl above ↦ ground (arith, div_score a b lo hi above fin)
    | inr other ↦ ground arith
  ]

  min_of-IsScore :
      (rs : List (W × W)) (x : W) → All IsWeighed rs → IsScore x → IsScore (min_of x rs)
  unfolding min_of
  min_of-IsScore [] x h s = s
  min_of-IsScore ((weight, score) ∷ rs) x ((fin, is_score), h) s =
      elim (fmin_cases x score (s.0) (is_score.0)) [
        | inl e ↦ rw e (min_of-IsScore rs x h s)
        | inr e ↦ rw e (min_of-IsScore rs score h is_score)
      ]

  -- Every result that counts has a finite weight.
  abbrev pub HasFiniteWeight : ℕ × AggregationResult W → Type 0
  HasFiniteWeight (index, r) = f.is_finite r.binding_weight ≡ true

  weighed-IsScore :
      (r : AggregationResult W) (x : W)
      → valid_normalized_score r ≡ true
      → r.normalized_score ≡ some x
      → IsScore x
  unfolding valid_normalized_score
  weighed-IsScore r x valid e = valid_score-IsScore x (ground arith)

  scoreable-IsWeighed :
      (rs : List (ℕ × AggregationResult W)) → All HasFiniteWeight rs → All IsWeighed (scoreable rs)
  unfolding scoreable
  scoreable-IsWeighed [] h = tt
  scoreable-IsWeighed ((index, r) ∷ rs) (fin, h) =
      let rest = scoreable-IsWeighed rs h in
      elim (Bool-cases (valid_normalized_score r)) [
        | inl valid ↦ elim (Option-cases r.normalized_score) [
          | inl absent ↦ rw (valid, absent) rest
          | inr (x, present) ↦ rw (valid, present) ((fin, weighed-IsScore r x valid present), rest)
        ]
        | inr other ↦ rw other rest
      ]

  -- The score of a dimension lies between 0 and 1, by either method, when the weights of its
  -- results are finite and, for the weighted mean, so is the sum of those that count.
  pub dimension_score-IsScore :
      (a : DimensionAccumulator W) (x : W)
      → All HasFiniteWeight a.results
      → (a.policy.method ≡ weighted_mean
          → f.is_finite (sum_weighted (scoreable a.results) (f.nought, f.nought)).1 ≡ true)
      → dimension_score a ≡ some x
      → IsScore x
  unfolding dimension_score score_by
  dimension_score-IsScore a x h fin e =
      by_method a.policy.method (scoreable a.results) (scoreable-IsWeighed a.results h) fin e
    where
      by_method :
          (m : AggregationMethod) (rs : List (W × W))
          → All IsWeighed rs
          → (m ≡ weighted_mean → f.is_finite (sum_weighted rs (f.nought, f.nought)).1 ≡ true)
          → score_by m rs ≡ some x
          → IsScore x
      by_method m [] w fin e = ground arith
      by_method min_score (s ∷ rs) w fin e =
          let same : min_of f.unit (s ∷ rs) ≡ x = ground arith in
          rw (← same) (
            min_of-IsScore (s ∷ rs) f.unit w
              (unit_finite, nought-le-unit, le_refl f.unit unit_finite))
      by_method weighted_mean (s ∷ rs) w fin e =
          ratio-IsScore _ x (sum_weighted-IsSums (s ∷ rs) (f.nought, f.nought) w nought-IsSums)
            (fin refl) e

  -- Finite weights, and sums of them that stay finite, in one dimension.
  abbrev pub IsSummable : Text × DimensionAccumulator W → Type 0
  IsSummable p =
      (f.is_finite p.1.policy.weight ≡ true)
      × All HasFiniteWeight p.1.results
      × (f.is_finite (sum_weighted (scoreable p.1.results) (f.nought, f.nought)).1 ≡ true)

  total_dimension-IsSums :
      (d : Text) (a : DimensionAccumulator W) (t : Totals W)
      → IsSummable (d, a)
      → IsSums (t.weighted, t.weights)
      → let next = total_dimension d a (dimension_score a) t in IsSums (next.weighted, next.weights)
  unfolding total_dimension
  total_dimension-IsSums d a t (fin, weights, sum) s = elim (Option-cases (dimension_score a)) [
    | inl absent ↦ rw absent s
    | inr (x, present) ↦ elim (Bool-cases (f.lt f.nought a.policy.weight)) [
      | inl heavy ↦
          let not_light : f.le a.policy.weight f.nought ≡ false =
            ground (arith, lt-eq-not-le f.nought a.policy.weight nought_finite fin) in
          let positive : f.nought ≼ a.policy.weight =
            le_total a.policy.weight f.nought fin nought_finite not_light in
          rw (present, heavy)
            (add_weighed t.weighted t.weights x a.policy.weight s
              (dimension_score-IsScore a x weights (λ mean. sum) present) fin positive)
      | inr light ↦ rw (present, light) s
    ]
  ]

  total_dimensions-IsSums :
      (m : Dict (DimensionAccumulator W)) (t : Totals W)
      → All IsSummable m
      → IsSums (t.weighted, t.weights)
      → IsSums ((total_dimensions m t).weighted, (total_dimensions m t).weights)
  unfolding total_dimensions
  total_dimensions-IsSums [] t h s = s
  total_dimensions-IsSums ((d, a) ∷ m) t (h, hs) s =
      total_dimensions-IsSums m (total_dimension d a (dimension_score a) t) hs
        (total_dimension-IsSums d a t h s)

  abbrev no_totals : Totals W
  no_totals = record { scores = []; weighted = f.nought; weights = f.nought }

  -- The dimensions that an execution is scored by.
  abbrev pub execution_dimensions :
      AggregationSettings W → List AggregationBinding → Outcomes W → Dict (DimensionAccumulator W)
  execution_dimensions settings bindings results =
      group_dimensions settings (evaluator_completeness bindings results).2 (enumerate 0 results) []

  -- The aggregate score of an execution lies between 0 and 1 when, in each dimension, the weights
  -- are finite and have a finite sum, and the weights of the dimensions have a finite sum too.
  pub aggregate_score-IsScore :
      (defaults : RunDefaults W) (settings : AggregationSettings W) (attempt : Text)
      (bindings : List AggregationBinding) (results : Outcomes W) (x : W)
      → All IsSummable (execution_dimensions settings bindings results)
      → f.is_finite
          (total_dimensions (execution_dimensions settings bindings results) no_totals).weights
        ≡ true
      → (aggregate_results defaults settings attempt bindings results).aggregate_score ≡ some x
      → IsScore x
  unfolding aggregate_results
  aggregate_score-IsScore defaults settings attempt bindings results x h fin e =
      let m = execution_dimensions settings bindings results in
      elim (Bool-cases (evaluator_completeness bindings results).0) [
        | inl complete ↦
            ratio-IsScore _ x (total_dimensions-IsSums m no_totals h nought-IsSums) fin
              (ground arith)
        | inr incomplete ↦
            ratio-IsScore (f.nought, f.nought) x nought-IsSums nought_finite (ground arith)
      ]
