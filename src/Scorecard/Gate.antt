-- ===== src/Scorecard/Gate.antt =====
-- When a gate passes.
use agent_vigilo.Prelude.{
  ◌≡◌, refl, ◌↔◌, Bool, true, false, Option, none, some, [], arith, is_empty,
}
use agent_vigilo.Prelude.Int.{pos, eqb_ℤ}
use agent_vigilo.Prelude.Float.{Float}
use agent_vigilo.Scorecard.{GateFailure, ScorecardEntry, checked_rate}
use agent_vigilo.Scorecard.Evaluation.{
  push_if, fails_min, fails_max, mean_of, pass_rate_of, gate_failures, evaluate_entry,
}

no_failures :
    (a b c d e g : Bool) (v w x y z u : GateFailure)
    → (is_empty
          (push_if a v (push_if b w (push_if c x (push_if d y (push_if e z (push_if g u []))))))
        ≡ true)
      ↔ ((a ≡ false) × (b ≡ false) × (c ≡ false) × (d ≡ false) × (e ≡ false) × (g ≡ false))
no_failures a b c d e g v w x y z u = (λ h. ground arith, λ h. ground arith)

module _ {W : Type 0} ⦃f : Float W⦄ where
  -- A bound that is not configured is met; a configured one needs a value on its right side.
  abbrev pub MeetsMin : Option W → Option W → Type 0
  MeetsMin none actual = Unit
  MeetsMin (some minimum) none = ⊥
  MeetsMin (some minimum) (some a) = f.lt a minimum ≡ false

  abbrev pub MeetsMax : Option W → Option W → Type 0
  MeetsMax none actual = Unit
  MeetsMax (some maximum) none = ⊥
  MeetsMax (some maximum) (some a) = f.lt maximum a ≡ false

  fails_min-false :
      (bound actual : Option W) → ((fails_min bound actual) ≡ false) ↔ MeetsMin bound actual
  fails_min-false none actual = (λ h. tt, λ h. refl)
  fails_min-false (some b) none = (λ h. cc, λ h. absurd h)
  fails_min-false (some b) (some a) = (λ h. h, λ h. h)

  fails_max-false :
      (bound actual : Option W) → ((fails_max bound actual) ≡ false) ↔ MeetsMax bound actual
  fails_max-false none actual = (λ h. tt, λ h. refl)
  fails_max-false (some b) none = (λ h. cc, λ h. absurd h)
  fails_max-false (some b) (some a) = (λ h. h, λ h. h)

  -- A gate passes exactly when executions match it and every configured bound is met by the value
  -- that its result publishes; a bound whose value cannot be computed is not met.
  pub evaluate_entry-passed :
      (e : ScorecardEntry W)
      → let r = evaluate_entry e in
        (r.passed ≡ true) ↔ (
          (eqb_ℤ r.expected_count (pos 0) ≡ false)
          × MeetsMin e.min_mean_score r.mean_score
          × MeetsMin e.min_coverage r.coverage
          × MeetsMin e.min_pass_rate r.pass_rate
          × MeetsMax e.max_error_rate r.error_rate
          × MeetsMax e.max_abstention_rate r.abstention_rate)
  unfolding evaluate_entry gate_failures
  evaluate_entry-passed e =
      let coverage = checked_rate e.scored_count e.expected_count in
      let errors = checked_rate e.error_count e.expected_count in
      let abstentions = checked_rate e.abstained_count e.expected_count in
      let i = no_failures _ _ _ _ _ _ _ _ _ _ _ _ in
      let b = fails_min-false e.min_mean_score (mean_of e) in
      let c = fails_min-false e.min_coverage coverage in
      let d = fails_min-false e.min_pass_rate (pass_rate_of e) in
      let x = fails_max-false e.max_error_rate errors in
      let y = fails_max-false e.max_abstention_rate abstentions in
      (
        (λ h. let t = i.0 h in (t.0, b.0 t.1, c.0 t.2, d.0 t.3, x.0 t.4, y.0 t.5)),
        (λ t. i.1 (t.0, b.1 t.1, c.1 t.2, d.1 t.3, x.1 t.4, y.1 t.5)),
      )
