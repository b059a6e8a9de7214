-- ===== src/ShardAdmin/Candidates.antt =====
-- What a rebalancing plan of vigilo/src/db/workflows/shard_admin.rs moves.
use agent_vigilo.Prelude.{
  ℕ, ◌+◌, ◌-◌, ◌≤◌, min, max, ◌≡◌, inl, inr, true, not, ◌||◌, none, List, [], ◌∷◌, arith, ltb, ◌==◌,
  Bool-cases, length, All, take, length-take, take-All, filter-All,
}
use agent_vigilo.Prelude.Text.{Text, text_eq}
use agent_vigilo.Prelude.Dict.{get}
use agent_vigilo.ShardAdmin.{
  ShardRebalanceCandidate, comes_before, insert_candidate, sort_candidates, or_zero, is_overloaded,
  alias_counts, desired_per_alias, select_rebalance_candidates,
}

insert_candidate-All :
    (P : ShardRebalanceCandidate → Type 0) (c : ShardRebalanceCandidate)
    (ds : List ShardRebalanceCandidate)
    → P c
    → All P ds
    → All P (insert_candidate c ds)
unfolding insert_candidate
insert_candidate-All P c [] h u = (h, tt)
insert_candidate-All P c (d ∷ ds) h (k, u) = elim (Bool-cases (comes_before d c)) [
  | inl behind ↦ rw (insert_candidate, behind) (k, insert_candidate-All P c ds h u)
  | inr front ↦ rw (insert_candidate, front) (h, (k, u))
]

sort_candidates-All :
    (P : ShardRebalanceCandidate → Type 0) (cs : List ShardRebalanceCandidate)
    → All P cs
    → All P (sort_candidates cs)
unfolding sort_candidates
sort_candidates-All P [] u = tt
sort_candidates-All P (c ∷ cs) (h, u) =
    insert_candidate-All P c (sort_candidates cs) h (sort_candidates-All P cs u)

length-chosen :
    (max_items needed : ℕ) (cs : List ShardRebalanceCandidate)
    → (length (take (min max_items needed) cs) ≤ max_items)
      × (length (take (min max_items needed) cs) ≤ needed)
length-chosen max_items needed cs =
    let short = length-take (min max_items needed) cs in
    (omega (arith, short), omega (arith, short))

-- Without a source, a plan moves at most as many shards as it may, never so many that the target
-- ends with more than the larger of what it holds and what every alias should hold, and only shards
-- of aliases that hold more than that and are not the target. What holds of all candidates holds of
-- the chosen ones.
pub select_rebalance_candidates_fills :
    (candidates : List ShardRebalanceCandidate) (aliases : List Text) (target : Text)
    (max_items : ℕ) (P : ShardRebalanceCandidate → Type 0)
    → All P candidates
    → let chosen = select_rebalance_candidates candidates aliases none target max_items in
      let held = or_zero (get target (alias_counts candidates aliases)) in
      let desired = desired_per_alias candidates aliases in
      (length chosen ≤ max_items)
      × (held + length chosen ≤ max held desired)
      × All
          (λ c.
            (is_overloaded (alias_counts candidates aliases) desired c ≡ true)
            × ((not (text_eq c.source_database_alias target) ≡ true) × P c))
          chosen
unfolding select_rebalance_candidates
select_rebalance_candidates_fills candidates aliases target max_items P u =
    let held = or_zero (get target (alias_counts candidates aliases)) in
    let desired = desired_per_alias candidates aliases in
    elim (Bool-cases (max_items == 0)) [
      | inl nothing ↦ rw (select_rebalance_candidates, nothing) (omega arith, omega arith, tt)
      | inr allowed ↦ elim (Bool-cases (ltb (length aliases) 2 || (desired - held == 0))) [
        | inl enough ↦
            rw (select_rebalance_candidates, allowed, enough) (omega arith, omega arith, tt)
        | inr wanted ↦
            let others =
              filter-All P (λ c. not (text_eq c.source_database_alias target)) candidates u in
            let overloaded =
              filter-All _ (is_overloaded (alias_counts candidates aliases) desired) _
                (sort_candidates-All _ _ others) in
            let (within, fits) = length-chosen max_items (desired - held) _ in
            rw (select_rebalance_candidates, allowed, wanted)
              (within, omega (arith, fits), take-All _ _ _ overloaded)
      ]
    ]
