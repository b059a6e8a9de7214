-- ===== src/Aggregation/Status.antt =====
-- When an execution passes.
use agent_vigilo.Prelude.{
  ℕ, suc, ◌≡◌, refl, sym, ap, ◌∙◌, ◌⊎◌, ◌↔◌, inl, inr, Bool, true, false, not, ◌&&◌, Option, some,
  List, [], ◌∷◌, arith, Bool-cases, Option-cases, is_some, is_empty, any, All,
}
use mathlib.Core.Path.{subst}
use agent_vigilo.Prelude.Text.{Text, text_eq, text_eq_refl, text_eq→eq}
use agent_vigilo.Prelude.Float.{Float}
use agent_vigilo.Aggregation.{
  DimensionAggregation, AggregationSettings, RunDefaults, AggregationBinding, Outcomes,
  evaluator_completeness, contains, is_failure, AggregationResult, valid_normalized_score,
}
use agent_vigilo.Aggregation.Execution.{
  passed, status_of, below, is_blocking, blocking_results, add_result, policy_of, group_dimensions,
  enumerate, DimensionAccumulator, aggregate_results,
}
use agent_vigilo.Prelude.Dict.{Dict, get, insert, get-insert}
use agent_vigilo.Aggregation.Complete.{IsScoredOnce, results_of, complete-IsScoredOnce}

module _ {W : Type 0} ⦃f : Float W⦄ where
  -- What the status stands on.
  abbrev pub Passes : RunDefaults W → Bool → Bool → Bool → Option W → Type 0
  Passes defaults complete has_blocking has_scoreable score =
      (complete ≡ true)
      × ((defaults.fail_on_any_blocking_failure && has_blocking) ≡ false)
      × (has_scoreable ≡ true)
      × (is_some score ≡ true)
      × (below defaults.min_execution_score score ≡ false)

  status_of-passed :
      (d : RunDefaults W) (c b s : Bool) (score : Option W)
      → (status_of d c b s score ≡ passed) ↔ Passes d c b s score
  unfolding status_of below
  status_of-passed d c b s score = (λ h. ground arith, λ h. ground arith)

  -- The failures of a required result block when its binding is blocking, or when the settings
  -- have a blocking policy for the dimension of its binding.
  abbrev pub Blocks : AggregationSettings W → AggregationResult W → Type 0
  Blocks s r =
      (r.blocking ≡ true)
      ⊎ ((p : DimensionAggregation W) × (get r.binding_dimension s.dimensions ≡ some p)
          × (p.blocking ≡ true))

  -- A required result that blocks has not failed.
  abbrev pub IsUnblocking : AggregationSettings W → List Text → AggregationResult W → Type 0
  IsUnblocking s required r =
      contains r.binding_id required ≡ true → Blocks s r → is_failure r.status ≡ false

  -- Every group has the policy of the settings.
  abbrev HavePolicies : AggregationSettings W → Dict (DimensionAccumulator W) → Type 0
  HavePolicies s m =
      (d : Text) (a : DimensionAccumulator W) → get d m ≡ some a → a.policy ≡ policy_of s d

  -- What one result does to the groups.
  add_result-lem :
      (s : AggregationSettings W) (n : ℕ) (r : AggregationResult W)
      (m : Dict (DimensionAccumulator W))
      → HavePolicies s m
      → (a : DimensionAccumulator W) × (a.policy ≡ policy_of s r.binding_dimension)
        × (add_result s n r m ≡ insert r.binding_dimension a m)
  unfolding add_result
  add_result-lem s n r m w = elim (Option-cases (get r.binding_dimension m)) [
    | inl absent ↦ rw (add_result, absent) (_, refl, refl)
    | inr (a, present) ↦ rw (add_result, present) (_, w r.binding_dimension a present, refl)
  ]

  insert-HavePolicies :
      (s : AggregationSettings W) (k : Text) (a : DimensionAccumulator W)
      (m : Dict (DimensionAccumulator W))
      → HavePolicies s m
      → a.policy ≡ policy_of s k
      → HavePolicies s (insert k a m)
  insert-HavePolicies s k a m w same d b found = elim (Bool-cases (text_eq d k)) [
    | inl own ↦
        let is : a ≡ b = ground (arith, get-insert k d a m) in
        subst (λ x. x.policy ≡ policy_of s d) is
          (same ∙ ap (policy_of s) (sym (text_eq→eq d k own)))
    | inr other ↦ w d b (ground (arith, get-insert k d a m))
  ]

  -- What grouping the results makes of groups: the policies are those of the settings, the
  -- dimensions that had a group keep one, and those of the required results have one.
  record Groups (s : AggregationSettings W) (required : List Text) (rs : Outcomes W)
      (m g : Dict (DimensionAccumulator W)) : Type 0 where
    policies : HavePolicies s g
    kept : (d : Text) → is_some (get d m) ≡ true → is_some (get d g) ≡ true
    grouped :
        All
          (λ r. contains r.binding_id required ≡ true → is_some (get r.binding_dimension g) ≡ true)
          rs

  group_dimensions-Groups :
      (s : AggregationSettings W) (required : List Text) (n : ℕ) (rs : Outcomes W)
      (m : Dict (DimensionAccumulator W))
      → HavePolicies s m
      → Groups s required rs m (group_dimensions s required (enumerate n rs) m)
  unfolding group_dimensions enumerate
  group_dimensions-Groups s required n [] m w = record {
    policies = w;
    kept = λ d h. h;
    grouped = tt;
  }
  group_dimensions-Groups s required n (r ∷ rs) m w =
      elim (Bool-cases (contains r.binding_id required)) [
        | inl needed ↦
            let (a, same, made) = add_result-lem s n r m w in
            let k = r.binding_dimension in
            let g =
              group_dimensions-Groups s required (suc n) rs (insert k a m)
                (insert-HavePolicies s k a m w same) in
            let next : group_dimensions s required (enumerate (suc n) rs) (insert k a m)
                ≡ group_dimensions s required (enumerate n (r ∷ rs)) m =
              rw (group_dimensions, needed, made) refl in
            subst (Groups s required (r ∷ rs) m) next (record {
              policies = g.policies;
              kept = λ d h. g.kept d (ground (arith, get-insert k d a m));
              grouped =
                  (λ again. g.kept k (rw (get-insert k k a m, text_eq_refl k) refl), g.grouped);
            })
        | inr other ↦
            let g = group_dimensions-Groups s required (suc n) rs m w in
            let next : group_dimensions s required (enumerate (suc n) rs) m
                ≡ group_dimensions s required (enumerate n (r ∷ rs)) m =
              rw (group_dimensions, other) refl in
            subst (Groups s required (r ∷ rs) m) next (record {
              policies = g.policies;
              kept = g.kept;
              grouped = (λ h. absurd (cc (h, other)), g.grouped);
            })
      ]

  -- With the groups, blocking is what the binding and the settings say.
  is_blocking-Blocks :
      (s : AggregationSettings W) (required : List Text) (m : Dict (DimensionAccumulator W))
      (r : AggregationResult W)
      → HavePolicies s m
      → (contains r.binding_id required ≡ true → is_some (get r.binding_dimension m) ≡ true)
      → is_blocking required m r ≡ false
      → IsUnblocking s required r
  unfolding is_blocking policy_of
  is_blocking-Blocks s required m r w grouped fine needed (inl own) = ground arith
  is_blocking-Blocks s required m r w grouped fine needed (inr (p, found, blocking)) =
      elim (Option-cases (get r.binding_dimension m)) [
        | inl absent ↦ absurd (cc (grouped needed, absent))
        | inr (a, present) ↦
            let policy : a.policy ≡ p =
              w r.binding_dimension a present ∙ rw (policy_of, found) refl in
            let blocks : a.policy.blocking ≡ true = ap (λ x. x.blocking) policy ∙ blocking in
            ground arith
      ]

  blocking_results-empty :
      (s : AggregationSettings W) (required : List Text) (m : Dict (DimensionAccumulator W)) (n : ℕ)
      (rs : Outcomes W)
      → HavePolicies s m
      → All
          (λ r. contains r.binding_id required ≡ true → is_some (get r.binding_dimension m) ≡ true)
          rs
      → is_empty (blocking_results required m (enumerate n rs)) ≡ true
      → All (IsUnblocking s required) rs
  unfolding blocking_results enumerate
  blocking_results-empty s required m n [] w all h = tt
  blocking_results-empty s required m n (r ∷ rs) w (grouped, all) h =
      elim (Bool-cases (is_blocking required m r)) [
        | inl blocked ↦ absurd (ground arith)
        | inr fine ↦ (
          is_blocking-Blocks s required m r w grouped fine,
          blocking_results-empty s required m (suc n) rs w all (ground arith),
        )
      ]

  -- Whether a required result can be scored.
  abbrev has_score : List AggregationBinding → Outcomes W → Bool
  has_score bs rs =
      any (λ r. contains r.binding_id (evaluator_completeness bs rs).2 && valid_normalized_score r)
        rs

  aggregate_results-passed :
      (d : RunDefaults W) (s : AggregationSettings W) (attempt : Text)
      (bs : List AggregationBinding) (rs : Outcomes W)
      → let outcome = aggregate_results d s attempt bs rs in
        outcome.overall_status ≡ passed
        → Passes d
            (evaluator_completeness bs rs).0
            (not (is_empty outcome.blocking_failures))
            (has_score bs rs)
            outcome.aggregate_score
  unfolding aggregate_results
  aggregate_results-passed d s attempt bs rs h = (status_of-passed d _ _ _ _).0 h

  -- An execution that passes has, for every required binding, exactly one result and a valid score
  -- in it; when the defaults fail on blocking failures, no failure or error in a result of a
  -- required binding that is blocking itself or whose dimension has a blocking policy in the
  -- settings; and an aggregate score that is not below the least score of the defaults.
  pub passed_lem :
      (d : RunDefaults W) (s : AggregationSettings W) (attempt : Text)
      (bs : List AggregationBinding) (rs : Outcomes W)
      → (aggregate_results d s attempt bs rs).overall_status ≡ passed
      → let outcome = aggregate_results d s attempt bs rs in
        All (λ b. b.required ≡ true → IsScoredOnce (results_of b.binding_id rs)) bs
        × (d.fail_on_any_blocking_failure ≡ true
            → All (IsUnblocking s (evaluator_completeness bs rs).2) rs)
        × ((x : W) × (outcome.aggregate_score ≡ some x) × (f.lt x d.min_execution_score ≡ false))
  unfolding below aggregate_results get
  passed_lem d s attempt bs rs h =
      let outcome = aggregate_results d s attempt bs rs in
      let required = (evaluator_completeness bs rs).2 in
      let (complete, unblocked, scored, some_score, enough) =
        aggregate_results-passed d s attempt bs rs h in
      let groups = group_dimensions-Groups s required 0 rs [] (λ k a found. absurd (cc found)) in
      (
        (complete-IsScoredOnce bs rs complete).0,
        λ strict.
            blocking_results-empty s required (group_dimensions s required (enumerate 0 rs) []) 0 rs
              groups.policies groups.grouped (ground arith),
        elim (Option-cases outcome.aggregate_score) [
          | inl absent ↦ absurd (ground arith)
          | inr (x, present) ↦ (x, present, ground arith)
        ],
      )
