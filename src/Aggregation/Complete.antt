-- ===== src/Aggregation/Complete.antt =====
-- What a complete evaluation is: one valid score for every required binding.
use agent_vigilo.Prelude.{
  suc, ◌+◌, ◌≤◌, ◌≡◌, refl, sym, ap, ◌∙◌, ◌⊎◌, inl, inr, true, false, Option, none, some, List, [],
  ◌∷◌, ◌++◌, arith, if◌then◌else◌, Bool-cases, length, is_empty, All,
}
use mathlib.Core.Path.{subst}
use mathlib.Core.List.{append_assoc, append-nil}
use agent_vigilo.Prelude.Text.{Text, text_eq, text_eq→eq}
use agent_vigilo.Prelude.Float.{Float}
use agent_vigilo.Prelude.Dict.{Dict, get, get-insert}
use agent_vigilo.Aggregation.{
  AggregationBinding, AggregationResult, Outcomes, RequiredCounts, valid_normalized_score, is_error,
  is_abstained, pushed, push_result, group_results, count_required, count_all, required_ids,
  expect_bindings, no_counts, evaluator_completeness,
}
use agent_vigilo.Aggregation.Bindings.{expect_bindings-get, required_bindings}

-- The ids of the required bindings.
abbrev ids : List AggregationBinding → List Text
ids bindings = required_ids (expect_bindings bindings [] 0).0

module _ {W : Type 0} ⦃f : Float W⦄ where
  -- The results of one binding, in their order.
  unfoldable pub results_of : Text → Outcomes W → Outcomes W
  results_of id [] = []
  results_of id (r ∷ rs) =
      let rest = results_of id rs in if text_eq id r.binding_id then r ∷ rest else rest

  abbrev or_empty : Option (Outcomes W) → Outcomes W
  or_empty none = []
  or_empty (some rs) = rs

  pushed-or_empty :
      (r : AggregationResult W) (o : Option (Outcomes W)) → pushed r o ≡ or_empty o ++ (r ∷ [])
  unfolding pushed
  pushed-or_empty r none = refl
  pushed-or_empty r (some rs) = refl

  push_result-get :
      (id : Text) (r : AggregationResult W) (m : Dict (Outcomes W))
      → or_empty (get id (push_result r m)) ≡ or_empty (get id m) ++ results_of id (r ∷ [])
  unfolding push_result results_of
  push_result-get id r m =
      let found = get-insert r.binding_id id (pushed r (get r.binding_id m)) m in
      elim (Bool-cases (text_eq id r.binding_id)) [
        | inl same ↦
            let e = text_eq→eq id r.binding_id same in
            rw (found, same, pushed-or_empty) (ap (λ k. or_empty (get k m) ++ (r ∷ [])) (sym e))
        | inr other ↦ rw (found, other) (sym (append-nil (or_empty (get id m))))
      ]

  cons_results :
      (id : Text) (r : AggregationResult W) (rs : Outcomes W)
      → results_of id (r ∷ []) ++ results_of id rs ≡ results_of id (r ∷ rs)
  unfolding results_of
  cons_results id r rs = elim (Bool-cases (text_eq id r.binding_id)) [
    | inl same ↦ rw same
    | inr other ↦ rw other
  ]

  group_results-get :
      (id : Text) (rs : Outcomes W) (m : Dict (Outcomes W))
      → or_empty (get id (group_results rs m)) ≡ or_empty (get id m) ++ results_of id rs
  unfolding group_results results_of
  group_results-get id [] m = sym (append-nil (or_empty (get id m)))
  group_results-get id (r ∷ rs) m =
      let rest = group_results-get id rs (push_result r m) in
      let here = push_result-get id r m in
      rest
      ∙ ap (λ l. l ++ results_of id rs) here
      ∙ append_assoc (or_empty (get id m)) (results_of id (r ∷ [])) (results_of id rs)
      ∙ ap (λ l. or_empty (get id m) ++ l) (cons_results id r rs)

  -- One result, validly scored.
  abbrev pub IsScoredOnce : Outcomes W → Type 0
  IsScoredOnce rs = (r : AggregationResult W) × (rs ≡ r ∷ []) × (valid_normalized_score r ≡ true)

  count_required-scored :
      (id : Text) (o : Option (Outcomes W)) (c : RequiredCounts)
      → ((count_required id o c).scored ≡ c.scored)
        ⊎ (((count_required id o c).scored ≡ suc c.scored) × IsScoredOnce (or_empty o))
  unfolding count_required
  count_required-scored id none c = inl refl
  count_required-scored id (some []) c = inl refl
  count_required-scored id (some (r ∷ [])) c = elim (Bool-cases (valid_normalized_score r)) [
    | inl valid ↦ elim (Bool-cases (is_error r.status)) [
      | inl wrong ↦ inl (ground arith)
      | inr fine ↦ elim (Bool-cases (is_abstained r.status)) [
        | inl silent ↦ inl (ground arith)
        | inr spoke ↦ inr (ground arith, (r, refl, valid))
      ]
    ]
    | inr other ↦ inl (ground arith)
  ]
  count_required-scored id (some (r ∷ (s ∷ rs))) c = inl (ground arith)

  count_all-scored :
      (ids : List Text) (m : Dict (Outcomes W)) (c : RequiredCounts)
      → ((count_all ids m c).scored ≤ c.scored + length ids)
        × ((count_all ids m c).scored ≡ c.scored + length ids
            → All (λ id. IsScoredOnce (or_empty (get id m))) ids)
  unfolding count_all
  count_all-scored [] m c = (omega arith, λ e. tt)
  count_all-scored (id ∷ ids) m c =
      let (most, all_scored) = count_all-scored ids m (count_required id (get id m) c) in
      elim (count_required-scored id (get id m) c) [
        | inl same ↦ (omega arith, λ e. absurd (omega arith))
        | inr (more, once) ↦ (omega arith, λ e. (once, all_scored (omega arith)))
      ]

  complete_parts :
      (bindings : List AggregationBinding) (results : Outcomes W)
      → (evaluator_completeness bindings results).0 ≡ true
      → ((expect_bindings bindings [] 0).1 ≡ 0)
        × ((count_all (ids bindings) (group_results results []) no_counts).scored
            ≡ length (ids bindings))
        × (is_empty (ids bindings) ≡ false)
  unfolding evaluator_completeness
  complete_parts bindings results h = (ground arith, ground arith, ground arith)

  -- In a complete evaluation every required binding has exactly one result among all the results,
  -- the score of that result is valid, and at least one binding is required.
  pub complete-IsScoredOnce :
      (bindings : List AggregationBinding) (results : Outcomes W)
      → (evaluator_completeness bindings results).0 ≡ true
      → All (λ b. b.required ≡ true → IsScoredOnce (results_of b.binding_id results)) bindings
        × (is_empty (evaluator_completeness bindings results).2 ≡ false)
  unfolding evaluator_completeness get
  complete-IsScoredOnce bindings results h =
      let (distinct, all_scored, some_required) = complete_parts bindings results h in
      let groups = group_results results [] in
      let expected = expect_bindings-get bindings [] 0 distinct in
      let grouped = (count_all-scored (ids bindings) groups no_counts).1 (omega arith) in
      let per_binding =
        required_bindings (λ id. IsScoredOnce (or_empty (get id groups))) _ bindings expected
          grouped in
      (regroup bindings per_binding, some_required)
    where
      regroup :
          (bs : List AggregationBinding)
          → All
              (λ b.
                b.required ≡ true
                → IsScoredOnce (or_empty (get b.binding_id (group_results results []))))
              bs
          → All (λ b. b.required ≡ true → IsScoredOnce (results_of b.binding_id results)) bs
      regroup [] a = tt
      regroup (b ∷ bs) (a, as_) = (
        λ needed. subst IsScoredOnce (group_results-get b.binding_id results []) (a needed),
        regroup bs as_,
      )
