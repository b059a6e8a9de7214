-- ===== src/Examples/Scorecards.antt =====
-- Two shard scorecards in thousandths.
use agent_vigilo.Prelude.{All, ℕ, ◌≡◌, refl, ◌↔◌, true, false, none, some, List, [], ◌∷◌, map, ok}
use agent_vigilo.Prelude.Int.{pos, ◌+ℤ◌, eqb_ℤ, checked_add}
use agent_vigilo.Prelude.Text.{Text, codes, text_eq, is_whitespace, is_blank}
use mathlib.Core.List.{Permᴰ}
use agent_vigilo.Prelude.Float.{Milli, milli_float, valid_score}
use agent_vigilo.Prelude.Dict.{Dict, get, insert, values, IsSorted}
use agent_vigilo.Scorecard.{
  ScorecardEntry, ShardScorecard, RunScorecard, checked_rate, merge_entry, validate_entry,
  valid_counters, valid_thresholds, valid_sum, extrema_match, same_policy,
}
use agent_vigilo.Scorecard.Merging.{
  merge_shard_scorecards, merge_shards, merge_entries, merge_into, sort_shards, insert_shard,
}
use agent_vigilo.Scorecard.Evaluation.{evaluate_entry, gate_failures}
use agent_vigilo.Scorecard.Order.{merge_shard_scorecards-perm}
use agent_vigilo.Scorecard.Gate.{MeetsMin, MeetsMax, evaluate_entry-passed}
use agent_vigilo.Scorecard.Counters.{Counter, value_of, shards_total, published_of}
use agent_vigilo.Scorecard.Counts.{merge_shard_scorecards_counts}

abbrev entry : ℕ → ℕ → ℕ → ScorecardEntry Milli
entry expected scored sum = record {
  id = codes "gate";
  dimension = codes "quality";
  binding_id = none;
  case_group = none;
  tags_all = [];
  min_mean_score = some (some 500);
  score_threshold = none;
  min_pass_rate = none;
  min_coverage = some (some 400);
  max_error_rate = none;
  max_abstention_rate = none;
  expected_count = pos expected;
  scored_count = pos scored;
  passed_count = pos 0;
  error_count = pos 0;
  abstained_count = pos 0;
  score_sum = some sum;
  min_score = some (some 600);
  max_score = some (some 900);
}

abbrev card : ℕ → ℕ → ℕ → ℕ → ShardScorecard Milli
card run_shard expected scored sum = record {
  version = pos 1;
  run_shard = pos run_shard;
  policy_hash = codes "h";
  entries = entry expected scored sum ∷ [];
}

abbrev cards : List (ShardScorecard Milli)
cards = card 4 5 2 1500 ∷ card 1 3 2 1200 ∷ []

evaluate_entry-passed_example :
    let r = evaluate_entry (entry 5 2 1500) in
    (r.passed ≡ true) ↔ (
      (eqb_ℤ r.expected_count (pos 0) ≡ false)
      × MeetsMin (some (some 500)) r.mean_score
      × MeetsMin (some (some 400)) r.coverage
      × MeetsMin none r.pass_rate
      × MeetsMax none r.error_rate
      × MeetsMax none r.abstention_rate)
evaluate_entry-passed_example = evaluate_entry-passed (entry 5 2 1500)

merge_shard_scorecards-perm_example :
    merge_shard_scorecards (codes "h") cards
    ≡ merge_shard_scorecards (codes "h") (card 1 3 2 1200 ∷ card 4 5 2 1500 ∷ [])
merge_shard_scorecards-perm_example =
    merge_shard_scorecards-perm (codes "h") {xs = cards}
      {ys = card 1 3 2 1200 ∷ card 4 5 2 1500 ∷ []} (Permᴰ.swap refl refl) ((refl, tt), (tt, tt))

abbrev merged : ScorecardEntry Milli
merged = entry 8 4 2700

abbrev published : RunScorecard Milli
published = record {
  version = pos 1;
  policy_hash = codes "h";
  shard_count = 2;
  passed = true;
  gates = evaluate_entry merged ∷ [];
}

merges : merge_shard_scorecards (codes "h") cards ≡ ok published
unfolding merge_shard_scorecards merge_shards merge_entries merge_into merge_entry validate_entry
    valid_counters valid_thresholds valid_sum extrema_match same_policy sort_shards insert_shard
    evaluate_entry gate_failures checked_rate get insert text_eq is_blank is_whitespace valid_score
    checked_add ◌+ℤ◌
merges = refl

merge_shard_scorecards_counts_example :
    (m : Dict (ScorecardEntry Milli)) × (published.gates ≡ map evaluate_entry (values m))
    × IsSorted m
    × ((k : Text) (c : Counter) → value_of c (get k m) ≡ shards_total c k cards)
    × All (λ g. (c : Counter) → published_of c g ≡ pos (shards_total c g.id cards)) published.gates
merge_shard_scorecards_counts_example =
    merge_shard_scorecards_counts (codes "h") cards published merges
