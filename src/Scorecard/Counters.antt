-- ===== src/Scorecard/Counters.antt =====
-- The counters of the entries in vigilo/src/contracts/scorecard.rs, their sums over shards, and the keys of
-- merged entries.
use agent_vigilo.Prelude.{
  ℕ, ◌+◌, ◌≡◌, refl, sym, ap, ◌∙◌, inl, inr, true, Option, none, some, List, [], ◌∷◌, map, arith,
  if◌then◌else◌, leb→le, Bool-cases, All,
}
use agent_vigilo.Prelude.Int.{ℤ, pos, pos_part, ◌≤ℤ◌, leb_ℤ}
use agent_vigilo.Prelude.Text.{Text, text_eq, text_eq→eq}
use agent_vigilo.Prelude.Dict.{Dict, get, insert, values, get-insert, IsSorted, insert-IsSorted}
use agent_vigilo.Scorecard.{ScorecardGateResult, ScorecardEntry, ShardScorecard, valid_counters}
use agent_vigilo.Scorecard.Merging.{insert_shard, sort_shards}

pub data Counter : Type 0 where
  expected scored passed errors abstained : Counter

module _ {W : Type 0} where
  abbrev pub count_of : Counter → ScorecardEntry W → ℤ
  count_of expected e = e.expected_count
  count_of scored e = e.scored_count
  count_of passed e = e.passed_count
  count_of errors e = e.error_count
  count_of abstained e = e.abstained_count

  -- The counter of a gate that may be absent.
  abbrev pub value_of : Counter → Option (ScorecardEntry W) → ℕ
  value_of c none = 0
  value_of c (some e) = pos_part (count_of c e)

  abbrev pub entries_total : Counter → Text → List (ScorecardEntry W) → ℕ
  entries_total c id [] = 0
  entries_total c id (e ∷ es) =
      (if text_eq id e.id then pos_part (count_of c e) else 0) + entries_total c id es

  abbrev pub shards_total : Counter → Text → List (ShardScorecard W) → ℕ
  shards_total c id [] = 0
  shards_total c id (s ∷ ss) = entries_total c id s.entries + shards_total c id ss

  pub insert_shard_total :
      (c : Counter) (id : Text) (s : ShardScorecard W) (ss : List (ShardScorecard W))
      → shards_total c id (insert_shard s ss) ≡ entries_total c id s.entries + shards_total c id ss
  unfolding insert_shard
  insert_shard_total c id s [] = refl
  insert_shard_total c id s (t ∷ ts) = elim (Bool-cases (leb_ℤ s.run_shard t.run_shard)) [
    | inl h ↦ rw h
    | inr h ↦ rw h (omega (arith, insert_shard_total c id s ts))
  ]

  pub sort_shards_total :
      (c : Counter) (id : Text) (ss : List (ShardScorecard W))
      → shards_total c id (sort_shards ss) ≡ shards_total c id ss
  unfolding sort_shards
  sort_shards_total c id [] = refl
  sort_shards_total c id (s ∷ ss) =
      insert_shard_total c id s (sort_shards ss)
      ∙ ap (λ n. entries_total c id s.entries + n) (sort_shards_total c id ss)

  pub counters_nonneg :
      (c : Counter) (e : ScorecardEntry W) → valid_counters e ≡ true → pos 0 ≤ℤ count_of c e
  unfolding valid_counters
  counters_nonneg expected e h = leb→le _ _ (ground arith)
  counters_nonneg scored e h = leb→le _ _ (ground arith)
  counters_nonneg passed e h = leb→le _ _ (ground arith)
  counters_nonneg errors e h = leb→le _ _ (ground arith)
  counters_nonneg abstained e h = leb→le _ _ (ground arith)

  -- No counter of the merged entries is negative.
  abbrev pub AreNonneg : Dict (ScorecardEntry W) → Type 0
  AreNonneg m =
      (k : Text) (c : Counter) (e : ScorecardEntry W) → get k m ≡ some e → pos 0 ≤ℤ count_of c e

  -- Every merged entry stands under its identifier, and the keys rise.
  pub record IsKeyed (m : Dict (ScorecardEntry W)) : Type 0 where
    pub keyed : (k : Text) (e : ScorecardEntry W) → get k m ≡ some e → e.id ≡ k
    pub sorted : IsSorted m

  pub insert-IsKeyed :
      (k : Text) (e : ScorecardEntry W) (m : Dict (ScorecardEntry W))
      → IsKeyed m
      → e.id ≡ k
      → IsKeyed (insert k e m)
  insert-IsKeyed k e m w same = record {
    keyed = λ j d h. elim (Bool-cases (text_eq j k)) [
      | inl own ↦
          let is : e ≡ d = ground (arith, get-insert k j e m) in
          ap (λ x. x.id) (sym is) ∙ same ∙ sym (text_eq→eq j k own)
      | inr other ↦ w.keyed j d (ground (arith, get-insert k j e m))
    ];
    sorted = insert-IsSorted k e m w.sorted;
  }

  -- The counter that a gate's result publishes.
  abbrev pub published_of : Counter → ScorecardGateResult W → ℤ
  published_of expected g = g.expected_count
  published_of scored g = g.scored_count
  published_of passed g = g.passed_count
  published_of errors g = g.error_count
  published_of abstained g = g.abstained_count

  pub All-values :
      {B : Type 0} (h : ScorecardEntry W → B) (P : B → Type 0) (m : Dict (ScorecardEntry W))
      → All (λ p. P (h p.1)) m
      → All P (map h (values m))
  All-values h P [] u = tt
  All-values h P ((k, v) ∷ m) (p, u) = (p, All-values h P m u)
