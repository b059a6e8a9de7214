-- ===== src/Scorecard/Counts.antt =====
-- The merged counters are the sums of the shards' counters.
use agent_vigilo.Prelude.{
  ℕ, ◌+◌, ◌≡◌, refl, sym, ap, ◌∙◌, inl, inr, true, Option, none, some, List, [], ◌∷◌, map, arith,
  if◌then◌else◌, Bool-cases, All, All-map, is_none, is_none_or, ok, ◌>>=◌, ◌>>◌, ensure, >>=-eq-ok,
  >>-eq-ok, ensure-eq-ok,
}
use agent_vigilo.Prelude.Int.{
  ℤ, pos, pos_part, pos-pos_part, ◌+ℤ◌, ◌≤ℤ◌, checked_add, +ℤ_nonneg, checked_add_lem,
}
use agent_vigilo.Prelude.Text.{Text, text_eq, text_eq→eq}
use agent_vigilo.Prelude.Float.{Float}
use agent_vigilo.Prelude.Dict.{Dict, get, insert, keys, values, get-insert, IsSorted, get-IsSorted}
use mathlib.Core.Path.{subst}
use agent_vigilo.Scorecard.{
  ScorecardEntry, ShardScorecard, RunScorecard, valid_counters, validate_entry, merge_entry,
  texts_eq, repeated_gate, gate_sets_differ,
}
use agent_vigilo.Scorecard.Merging.{
  merge_into, merge_entries, merge_shards, merge_shard_scorecards, sort_shards,
}
use agent_vigilo.Scorecard.Evaluation.{evaluate_entry}
use agent_vigilo.Scorecard.Counters.{
  Counter, expected, scored, passed, errors, abstained, count_of, value_of, entries_total,
  shards_total, sort_shards_total, counters_nonneg, AreNonneg, IsKeyed, insert-IsKeyed,
  published_of, All-values,
}

module _ {W : Type 0} ⦃f : Float W⦄ where
  validated_counters : (e : ScorecardEntry W) → validate_entry e ≡ ok tt → valid_counters e ≡ true
  unfolding validate_entry
  validated_counters e h = ground arith

  -- The sum of the counters of the two, whichever counter it is.
  merge_entry_count :
      (t s m : ScorecardEntry W) (c : Counter)
      → merge_entry t s ≡ ok m
      → (count_of c m ≡ count_of c t +ℤ count_of c s) × (validate_entry s ≡ ok tt)
  unfolding merge_entry
  merge_entry_count t s m expected h =
      let added : checked_add 63 t.expected_count s.expected_count ≡ some m.expected_count =
        ground arith in
      ((checked_add_lem 63 t.expected_count s.expected_count added).0, ground arith)
  merge_entry_count t s m scored h =
      let added : checked_add 63 t.scored_count s.scored_count ≡ some m.scored_count =
        ground arith in
      ((checked_add_lem 63 t.scored_count s.scored_count added).0, ground arith)
  merge_entry_count t s m passed h =
      let added : checked_add 63 t.passed_count s.passed_count ≡ some m.passed_count =
        ground arith in
      ((checked_add_lem 63 t.passed_count s.passed_count added).0, ground arith)
  merge_entry_count t s m errors h =
      let added : checked_add 63 t.error_count s.error_count ≡ some m.error_count = ground arith in
      ((checked_add_lem 63 t.error_count s.error_count added).0, ground arith)
  merge_entry_count t s m abstained h =
      let added : checked_add 63 t.abstained_count s.abstained_count ≡ some m.abstained_count =
        ground arith in
      ((checked_add_lem 63 t.abstained_count s.abstained_count added).0, ground arith)

  -- One entry goes into the merged entries.
  merge_into_count :
      (o : Option (ScorecardEntry W)) (s m : ScorecardEntry W) (c : Counter)
      → merge_into o s ≡ ok m
      → ((t : ScorecardEntry W) → o ≡ some t → pos 0 ≤ℤ count_of c t)
      → (pos_part (count_of c m) ≡ value_of c o + pos_part (count_of c s)) × (pos 0 ≤ℤ count_of c m)
  unfolding merge_into
  merge_into_count none s m c h nonneg =
      let valid : validate_entry s ≡ ok tt = ground arith in
      let same : s ≡ m = ground arith in
      let p = counters_nonneg c s (validated_counters s valid) in rw (← same) (omega arith, p)
  merge_into_count (some t) s m c h nonneg =
      let (sum, valid) = merge_entry_count t s m c h in
      let p = counters_nonneg c s (validated_counters s valid) in
      let (e, z) = +ℤ_nonneg (count_of c t) (count_of c s) (nonneg t refl) p in
      rw sum (omega arith, omega arith)

  insert_nonneg :
      (m : Dict (ScorecardEntry W)) (k : Text) (e : ScorecardEntry W)
      → AreNonneg m
      → ((c : Counter) → pos 0 ≤ℤ count_of c e)
      → AreNonneg (insert k e m)
  insert_nonneg m k e n p j c d h = elim (Bool-cases (text_eq j k)) [
    | inl same ↦ let q : e ≡ d = ground (arith, get-insert k j e m) in rw (← q) (p c)
    | inr other ↦ n j c d (ground (arith, get-insert k j e m))
  ]

  insert_value :
      (m : Dict (ScorecardEntry W)) (id k : Text) (e : ScorecardEntry W) (n : ℕ) (c : Counter)
      → pos_part (count_of c e) ≡ value_of c (get id m) + n
      → value_of c (get k (insert id e m)) ≡ value_of c (get k m) + (if text_eq k id then n else 0)
  insert_value m id k e n c h = elim (Bool-cases (text_eq k id)) [
    | inl same ↦ rw (get-insert id k e m, same, text_eq→eq k id same) h
    | inr other ↦ rw (get-insert id k e m, other) (omega arith)
  ]

  merge_into_id :
      (o : Option (ScorecardEntry W)) (s m : ScorecardEntry W)
      → merge_into o s ≡ ok m
      → ((t : ScorecardEntry W) → o ≡ some t → t.id ≡ s.id)
      → m.id ≡ s.id
  unfolding merge_into merge_entry
  merge_into_id none s m h same = ground arith
  merge_into_id (some t) s m h same =
      let kept : t.id ≡ m.id = ground arith in sym kept ∙ same t refl

  merge_entries-IsKeyed :
      (es : List (ScorecardEntry W)) (m : Dict (ScorecardEntry W)) (ids : Dict (Unit {0}))
      (m' : Dict (ScorecardEntry W)) (ids' : Dict (Unit {0}))
      → merge_entries m ids es ≡ ok (m', ids')
      → IsKeyed m
      → IsKeyed m'
  unfolding merge_entries
  merge_entries-IsKeyed [] m ids m' ids' h w = let e : m ≡ m' = ground arith in subst IsKeyed e w
  merge_entries-IsKeyed (x ∷ es) m ids m' ids' h w =
      let a = (ensure-eq-ok (is_none (get x.id ids)) (repeated_gate x.id) _ h).1 in
      let (merged, put, rest) =
        >>=-eq-ok (merge_into (get x.id m) x)
          (λ y. merge_entries (insert x.id y m) (insert x.id tt ids) es) a in
      merge_entries-IsKeyed es (insert x.id merged m) (insert x.id tt ids) m' ids' rest (
        insert-IsKeyed x.id merged m w
          (merge_into_id (get x.id m) x merged put (λ t found. w.keyed x.id t found)))

  merge_entries_count :
      (es : List (ScorecardEntry W)) (m : Dict (ScorecardEntry W)) (ids : Dict (Unit {0}))
      (m' : Dict (ScorecardEntry W)) (ids' : Dict (Unit {0})) (k : Text) (c : Counter)
      → merge_entries m ids es ≡ ok (m', ids')
      → AreNonneg m
      → (value_of c (get k m') ≡ value_of c (get k m) + entries_total c k es) × AreNonneg m'
  unfolding merge_entries
  merge_entries_count [] m ids m' ids' k c h n =
      let e : m ≡ m' = ground arith in rw (← e) (omega arith, n)
  merge_entries_count (x ∷ es) m ids m' ids' k c h n =
      let a = (ensure-eq-ok (is_none (get x.id ids)) (repeated_gate x.id) _ h).1 in
      let (merged, put, rest) =
        >>=-eq-ok (merge_into (get x.id m) x)
          (λ y. merge_entries (insert x.id y m) (insert x.id tt ids) es) a in
      let step = λ (d : Counter). merge_into_count (get x.id m) x merged d put (n x.id d) in
      let (count, nonneg) =
        merge_entries_count es (insert x.id merged m) (insert x.id tt ids) m' ids' k c rest
          (insert_nonneg m x.id merged n (λ d. (step d).1)) in
      (
        omega (arith, count, insert_value m x.id k merged (pos_part (count_of c x)) c (step c).0),
        nonneg,
      )

  merge_shards_count :
      (ss : List (ShardScorecard W)) (hash : Text) (previous : Option ℤ) (sets : Option (List Text))
      (m m' : Dict (ScorecardEntry W)) (k : Text) (c : Counter)
      → merge_shards hash previous sets m ss ≡ ok m'
      → AreNonneg m
      → (value_of c (get k m') ≡ value_of c (get k m) + shards_total c k ss) × AreNonneg m'
  unfolding merge_shards
  merge_shards_count [] hash previous sets m m' k c h n =
      let e : m ≡ m' = ground arith in rw (← e) (omega arith, n)
  merge_shards_count (s ∷ ss) hash previous sets m m' k c h n =
      let set_test = λ (ids : Dict (Unit {0})).
        ensure (is_none_or (λ e. texts_eq e (keys ids)) sets) gate_sets_differ in
      let next = λ (r : Dict (ScorecardEntry W) × Dict (Unit {0})).
        (set_test r.1 >> merge_shards hash (some s.run_shard) (some (keys r.1)) r.0 ss) in
      let ran : (merge_entries m [] s.entries >>= next) ≡ ok m' = ground arith in
      let (r, merged, rest) = >>=-eq-ok (merge_entries m [] s.entries) next ran in
      let tail = (>>-eq-ok (set_test r.1) _ rest).1 in
      let (count, nonneg) = merge_entries_count s.entries m [] r.0 r.1 k c merged n in
      let (more, still) =
        merge_shards_count ss hash (some s.run_shard) (some (keys r.1)) r.0 m' k c tail nonneg in
      (omega (arith, count, more), still)

  merge_shards-IsKeyed :
      (ss : List (ShardScorecard W)) (hash : Text) (previous : Option ℤ) (sets : Option (List Text))
      (m m' : Dict (ScorecardEntry W))
      → merge_shards hash previous sets m ss ≡ ok m'
      → IsKeyed m
      → IsKeyed m'
  unfolding merge_shards
  merge_shards-IsKeyed [] hash previous sets m m' h w =
      let e : m ≡ m' = ground arith in subst IsKeyed e w
  merge_shards-IsKeyed (s ∷ ss) hash previous sets m m' h w =
      let set_test = λ (ids : Dict (Unit {0})).
        ensure (is_none_or (λ e. texts_eq e (keys ids)) sets) gate_sets_differ in
      let next = λ (r : Dict (ScorecardEntry W) × Dict (Unit {0})).
        (set_test r.1 >> merge_shards hash (some s.run_shard) (some (keys r.1)) r.0 ss) in
      let ran : (merge_entries m [] s.entries >>= next) ≡ ok m' = ground arith in
      let (r, merged, rest) = >>=-eq-ok (merge_entries m [] s.entries) next ran in
      merge_shards-IsKeyed ss hash (some s.run_shard) (some (keys r.1)) r.0 m'
        (>>-eq-ok (set_test r.1) _ rest).1 (merge_entries-IsKeyed s.entries m [] r.0 r.1 merged w)

  -- The counters of a merged entry are published under its identifier.
  evaluated_count :
      (c : Counter) (k : Text) (e : ScorecardEntry W) (n : ℕ)
      → e.id ≡ k
      → pos 0 ≤ℤ count_of c e
      → pos_part (count_of c e) ≡ n
      → published_of c (evaluate_entry e) ≡ pos n
  unfolding evaluate_entry
  evaluated_count expected k e n same h s =
      sym (pos-pos_part e.expected_count h) ∙ ap (λ x. pos x) s
  evaluated_count scored k e n same h s = sym (pos-pos_part e.scored_count h) ∙ ap (λ x. pos x) s
  evaluated_count passed k e n same h s = sym (pos-pos_part e.passed_count h) ∙ ap (λ x. pos x) s
  evaluated_count errors k e n same h s = sym (pos-pos_part e.error_count h) ∙ ap (λ x. pos x) s
  evaluated_count abstained k e n same h s =
      sym (pos-pos_part e.abstained_count h) ∙ ap (λ x. pos x) s

  -- A successful merge publishes one result for each merged gate, with every identifier once in
  -- rising order, and each of the five counters of every published gate is the exact sum of that
  -- counter over all entries with the gate's identifier in all shards.
  pub merge_shard_scorecards_counts :
      (hash : Text) (shards : List (ShardScorecard W)) (r : RunScorecard W)
      → merge_shard_scorecards hash shards ≡ ok r
      → (m : Dict (ScorecardEntry W)) × (r.gates ≡ map evaluate_entry (values m))
        × IsSorted m
        × ((k : Text) (c : Counter) → value_of c (get k m) ≡ shards_total c k shards)
        × All (λ g. (c : Counter) → published_of c g ≡ pos (shards_total c g.id shards)) r.gates
  unfolding merge_shard_scorecards get evaluate_entry IsSorted
  merge_shard_scorecards_counts hash shards r h =
      let (m, merged, made) = >>=-eq-ok (merge_shards hash none none [] (sort_shards shards)) _ h in
      let gates : r.gates ≡ map evaluate_entry (values m) = ground arith in
      let sums : (k : Text) (c : Counter)
          → (value_of c (get k m) ≡ shards_total c k shards) × AreNonneg m =
        λ k c.
          let (sorted, nonneg) =
            merge_shards_count (sort_shards shards) hash none none [] m k c merged
              (λ j d e found. absurd (cc)) in
          (omega (arith, sorted, sort_shards_total c k shards), nonneg) in
      let w =
        merge_shards-IsKeyed (sort_shards shards) hash none none [] m merged
          (record { keyed = λ k e found. absurd (cc found); sorted = tt }) in
      (
        m,
        gates,
        w.sorted,
        λ k c. (sums k c).0,
        subst (All (λ g. (c : Counter) → published_of c g ≡ pos (shards_total c g.id shards)))
            (sym gates)
            (All-values evaluate_entry _ m (
              All-map
                (λ p found c.
                  let same : p.1.id ≡ p.0 = w.keyed p.0 p.1 found in
                  let (sum, nonneg) = sums p.0 c in
                  evaluated_count c p.0 p.1 (shards_total c p.1.id shards) same
                    (nonneg p.0 c p.1 found)
                    (sym (ap (value_of c) found)
                      ∙ sum
                      ∙ ap (λ i. shards_total c i shards) (sym same)))
                m (get-IsSorted m w.sorted))),
      )
