-- ===== src/Scorecard.antt =====
-- vigilo/src/contracts/scorecard.rs: the entries of a scorecard, their validation and merging. A
-- message of the source is a constructor of `ScorecardError`, with the text that it names. Where
-- the source changes its target and then returns an error, the callers drop the target, and the
-- result here is the error alone.
use agent_vigilo.Prelude.{
  ℕ, Bool, true, false, not, ◌&&◌, ◌||◌, Option, none, some, List, [], ◌∷◌, ◌==◌, if◌then◌else◌,
  option_eq, is_some, is_none, is_some_and, ◌<=>◌, length, all, any, Result, ok, ◌>>=◌, ◌>>◌,
  ensure, ok_or,
}
use agent_vigilo.Prelude.Int.{ℤ, pos, leb_ℤ, ltb_ℤ, eqb_ℤ, checked_add}
use agent_vigilo.Prelude.Text.{Text, text_eq, is_blank}
use agent_vigilo.Prelude.Float.{Float, valid_score}
pub mod Order
pub mod Gate
pub mod Counters
pub mod Counts
pub mod Evaluation
pub mod Merging

pub data ScorecardError : Type 0 where
  empty_names : ScorecardError
  bad_thresholds bad_counters bad_scores bad_extrema min_exceeds_max : Text → ScorecardError
  policy_differs expected_overflow scored_overflow passed_overflow : Text → ScorecardError
  error_overflow abstained_overflow sum_overflow repeated_gate : Text → ScorecardError
  identity_mismatch order_mismatch policy_hash_mismatch gate_sets_differ : ScorecardError
  duplicate_shard unsupported_version : ℤ → ScorecardError

abbrev pub scorecard_version : ℤ
scorecard_version = pos 1

pub record ScorecardEntry {ℓ} (W : Type ℓ) : Type ℓ where
  pub id : Text
  pub dimension : Text
  pub binding_id : Option Text
  pub case_group : Option Text
  pub tags_all : List Text
  pub min_mean_score : Option W
  pub score_threshold : Option W
  pub min_pass_rate : Option W
  pub min_coverage : Option W
  pub max_error_rate : Option W
  pub max_abstention_rate : Option W
  pub expected_count : ℤ
  pub scored_count : ℤ
  pub passed_count : ℤ
  pub error_count : ℤ
  pub abstained_count : ℤ
  pub score_sum : W
  pub min_score : Option W
  pub max_score : Option W

pub record ShardScorecard {ℓ} (W : Type ℓ) : Type ℓ where
  pub version : ℤ
  pub run_shard : ℤ
  pub policy_hash : Text
  pub entries : List (ScorecardEntry W)

pub data GateFailure : Type 0 where
  no_matching_executions mean_below_minimum coverage_below_minimum : GateFailure
  pass_rate_below_minimum error_rate_above_maximum abstention_rate_above_maximum : GateFailure

pub record ScorecardGateResult {ℓ} (W : Type ℓ) : Type ℓ where
  pub id : Text
  pub dimension : Text
  pub binding_id : Option Text
  pub case_group : Option Text
  pub tags_all : List Text
  pub passed : Bool
  pub failures : List GateFailure
  pub expected_count : ℤ
  pub scored_count : ℤ
  pub passed_count : ℤ
  pub error_count : ℤ
  pub abstained_count : ℤ
  pub mean_score : Option W
  pub min_score : Option W
  pub max_score : Option W
  pub coverage : Option W
  pub pass_rate : Option W
  pub error_rate : Option W
  pub abstention_rate : Option W

pub record RunScorecard {ℓ} (W : Type ℓ) : Type ℓ where
  pub version : ℤ
  pub policy_hash : Text
  pub shard_count : ℕ
  pub passed : Bool
  pub gates : List (ScorecardGateResult W)

-- The counters of an entry are in order.
unfoldable pub valid_counters {ℓ} : {W : Type ℓ} → ScorecardEntry W → Bool
valid_counters e =
    all (λ c. leb_ℤ (pos 0) c)
      (e.expected_count ∷ e.scored_count ∷ e.passed_count ∷ e.error_count ∷ e.abstained_count ∷ [])
    && leb_ℤ e.scored_count e.expected_count
    && leb_ℤ e.passed_count e.scored_count
    && leb_ℤ e.error_count e.expected_count
    && leb_ℤ e.abstained_count e.expected_count

abbrev pub texts_eq : List Text → List Text → Bool
texts_eq [] [] = true
texts_eq [] (t ∷ ts) = false
texts_eq (s ∷ ss) [] = false
texts_eq (s ∷ ss) (t ∷ ts) = text_eq s t && texts_eq ss ts

module _ {ℓ} {W : Type ℓ} ⦃f : Float W⦄ where
  unfoldable pub checked_rate : ℤ → ℤ → Option W
  checked_rate numerator denominator =
      if ltb_ℤ (pos 0) denominator
      then some (f.div (f.of_int numerator) (f.of_int denominator))
      else none

  abbrev thresholds : ScorecardEntry W → List (Option W)
  thresholds e =
      e.min_mean_score ∷ e.score_threshold ∷ e.min_pass_rate ∷ e.min_coverage ∷ e.max_error_rate
      ∷ e.max_abstention_rate ∷ []

  abbrev is_bad : Option W → Bool
  is_bad = is_some_and (λ v. not (valid_score v))

  unfoldable pub valid_thresholds : ScorecardEntry W → Bool
  valid_thresholds e = not (
      any is_bad (thresholds e)
      || not (is_some e.score_threshold <=> is_some e.min_pass_rate)
      || all is_none (thresholds e))

  unfoldable pub valid_sum : ScorecardEntry W → Bool
  valid_sum e = not (
      not (f.is_finite e.score_sum)
      || f.lt e.score_sum f.nought
      || f.lt (f.add (f.of_int e.scored_count) f.epsilon) e.score_sum
      || is_bad e.min_score
      || is_bad e.max_score)

  unfoldable pub extrema_match : ScorecardEntry W → Bool
  extrema_match e =
      (eqb_ℤ e.scored_count (pos 0) <=> is_none e.min_score)
      && (eqb_ℤ e.scored_count (pos 0) <=> is_none e.max_score)

  abbrev min_exceeds : Option W → Option W → Bool
  min_exceeds none b = false
  min_exceeds (some a) none = false
  min_exceeds (some a) (some b) = f.lt b a

  unfoldable pub validate_entry : ScorecardEntry W → Result ScorecardError (Unit {0})
  validate_entry e = do
    ensure (not (is_blank e.id || is_blank e.dimension)) empty_names
    ensure (valid_thresholds e) (bad_thresholds e.id)
    ensure (valid_counters e) (bad_counters e.id)
    ensure (valid_sum e) (bad_scores e.id)
    ensure (extrema_match e) (bad_extrema e.id)
    ensure (not (min_exceeds e.min_score e.max_score)) (min_exceeds_max e.id)

  unfoldable pub same_policy : ScorecardEntry W → ScorecardEntry W → Bool
  same_policy l r =
      text_eq l.id r.id
      && text_eq l.dimension r.dimension
      && option_eq text_eq l.binding_id r.binding_id
      && option_eq text_eq l.case_group r.case_group
      && texts_eq l.tags_all r.tags_all
      && option_eq f.eq l.min_mean_score r.min_mean_score
      && option_eq f.eq l.score_threshold r.score_threshold
      && option_eq f.eq l.min_pass_rate r.min_pass_rate
      && option_eq f.eq l.min_coverage r.min_coverage
      && option_eq f.eq l.max_error_rate r.max_error_rate
      && option_eq f.eq l.max_abstention_rate r.max_abstention_rate

  abbrev either : (W → W → W) → Option W → Option W → Option W
  either g none b = b
  either g (some a) none = some a
  either g (some a) (some b) = some (g a b)

  unfoldable pub merge_entry :
      ScorecardEntry W → ScorecardEntry W → Result ScorecardError (ScorecardEntry W)
  merge_entry target source = do
    ensure (same_policy target source) (policy_differs source.id)
    validate_entry source
    expected ←
        ok_or (checked_add 63 target.expected_count source.expected_count)
          (expected_overflow target.id)
    scored ←
        ok_or (checked_add 63 target.scored_count source.scored_count) (scored_overflow target.id)
    passed ←
        ok_or (checked_add 63 target.passed_count source.passed_count) (passed_overflow target.id)
    error ← ok_or (checked_add 63 target.error_count source.error_count) (error_overflow target.id)
    abstained ←
        ok_or (checked_add 63 target.abstained_count source.abstained_count)
          (abstained_overflow target.id)
    ensure (f.is_finite (f.add target.score_sum source.score_sum)) (sum_overflow target.id)
    ok (record target {
      expected_count = expected;
      scored_count = scored;
      passed_count = passed;
      error_count = error;
      abstained_count = abstained;
      score_sum = f.add target.score_sum source.score_sum;
      min_score = either f.fmin target.min_score source.min_score;
      max_score = either f.fmax target.max_score source.max_score;
    })

  -- The loop of `accumulate_chunk_scorecard` over the two lists, zipped.
  unfoldable pub accumulate_entries :
      List (ScorecardEntry W)
      → List (ScorecardEntry W)
      → Result ScorecardError (List (ScorecardEntry W))
  accumulate_entries [] sources = ok []
  accumulate_entries (t ∷ ts) [] = ok (t ∷ ts)
  accumulate_entries (t ∷ ts) (s ∷ ss) = do
    validate_entry s
    ensure (text_eq t.id s.id) order_mismatch
    merged ← merge_entry t s
    rest ← accumulate_entries ts ss
    ok (merged ∷ rest)

  unfoldable pub accumulate_chunk_scorecard :
      ShardScorecard W → ShardScorecard W → Result ScorecardError (ShardScorecard W)
  accumulate_chunk_scorecard target chunk = do
    ensure
        (eqb_ℤ target.version chunk.version
          && eqb_ℤ target.run_shard chunk.run_shard
          && text_eq target.policy_hash chunk.policy_hash
          && (length target.entries == length chunk.entries))
        identity_mismatch
    entries ← accumulate_entries target.entries chunk.entries
    ok (record target { entries = entries })
