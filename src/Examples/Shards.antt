-- ===== src/Examples/Shards.antt =====
-- Decisions of the shard administration at concrete inputs.
use agent_vigilo.Prelude.{
  ℕ, ◌+◌, ◌≤◌, ◌<◌, max, ◌≡◌, refl, ◌⊎◌, true, not, none, List, [], ◌∷◌, arith, length, All, filter,
  take,
}
use agent_vigilo.Prelude.Int.{pos}
use agent_vigilo.Prelude.Text.{Text, codes, text_eq, text_lt}
use agent_vigilo.Prelude.Dict.{get, insert}
use agent_vigilo.ShardAdmin.{
  ShardRebalanceCandidate, bounded_page_len, page_rows, sum, or_zero, is_overloaded, alias_counts,
  desired_per_alias, select_rebalance_candidates, zero_counts, count_candidates, sort_candidates,
  insert_candidate, comes_before,
}
use agent_vigilo.ShardAdmin.Pages.{bounded_page_len_bounds}
use agent_vigilo.ShardAdmin.Candidates.{select_rebalance_candidates_fills}

abbrev on : ℕ → Text → ShardRebalanceCandidate
on shard alias = record {
  run_id = 1;
  run_shard = pos shard;
  source_database_alias = alias;
  route_version = pos 1;
}

abbrev east : Text
east = codes "east"

abbrev west : Text
west = codes "west"

abbrev crowded : List ShardRebalanceCandidate
crowded = on 3 east ∷ on 1 east ∷ on 2 east ∷ on 0 west ∷ []

one_moves : select_rebalance_candidates crowded (east ∷ west ∷ []) none west 10 ≡ on 1 east ∷ []
unfolding select_rebalance_candidates alias_counts desired_per_alias is_overloaded sort_candidates
    insert_candidate comes_before zero_counts count_candidates sum get insert text_eq text_lt filter
    take
one_moves = refl

select_rebalance_candidates_fills_example :
    let chosen = select_rebalance_candidates crowded (east ∷ west ∷ []) none west 10 in
    let held = or_zero (get west (alias_counts crowded (east ∷ west ∷ []))) in
    let desired = desired_per_alias crowded (east ∷ west ∷ []) in
    (length chosen ≤ 10)
    × (held + length chosen ≤ max held desired)
    × All
        (λ c.
          (is_overloaded (alias_counts crowded (east ∷ west ∷ [])) desired c ≡ true)
          × ((not (text_eq c.source_database_alias west) ≡ true) × (c.run_id ≡ 1)))
        chosen
select_rebalance_candidates_fills_example =
    select_rebalance_candidates_fills crowded (east ∷ west ∷ []) west 10 (λ c. c.run_id ≡ 1)
      (refl, (refl, (refl, (refl, tt))))

two_rows : bounded_page_len (4 ∷ 4 ∷ 4 ∷ 4 ∷ []) 10 9 ≡ 2
unfolding bounded_page_len page_rows take
two_rows = refl

bounded_page_len_bounds_example :
    let n = bounded_page_len (4 ∷ 4 ∷ 4 ∷ 4 ∷ []) 10 9 in
    (0 < n) × (n ≤ 4) × (n ≤ 10) × ((n ≡ 1) ⊎ (sum (take n (4 ∷ 4 ∷ 4 ∷ 4 ∷ [])) ≤ 9))
bounded_page_len_bounds_example =
    bounded_page_len_bounds (4 ∷ 4 ∷ 4 ∷ 4 ∷ []) 10 9 (omega arith) (omega arith) (omega arith)
