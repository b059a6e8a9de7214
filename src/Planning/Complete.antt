-- ===== src/Planning/Complete.antt =====
-- A plan that is complete covers the dataset.
use agent_vigilo.Prelude.{
  ℕ, zero, suc, ◌<◌, ◌≡◌, sym, ap, ◌∙◌, inl, inr, true, List, arith, ◌==◌, Bool-cases, is_some,
  length, any, false, ok,
}
use mathlib.Core.Path.{subst}
use agent_vigilo.Prelude.Text.{Text}
use agent_vigilo.Prelude.Int.{ℤ, pos, eqb_ℤ, eqb_ℤ→eq}
use agent_vigilo.Storage.Chunks.{RunChunk}
use agent_vigilo.Planning.{
  PlannedCase, Digests, Accumulator, new_accumulator, plan_cases, shard_count,
}
use agent_vigilo.Planning.Validation.{same_shards, validate_complete}
use agent_vigilo.Planning.Consecutive.{Follows, IsOpen, AreInOrder, plan_cases-Follows}
use agent_vigilo.Planning.Coverage.{
  is_some-alias_of, plan_cases-Marks, plan_cases_aliases, new_accumulator_shards,
}

module _ {H : Type 0} where
  same_shards-below :
      (a : Accumulator H) (n s : ℕ)
      → same_shards a n ≡ true
      → s < n
      → is_some (a.aliases s) ≡ is_some (a.shards s)
  unfolding same_shards
  same_shards-below a zero s h lt = absurd (omega arith)
  same_shards-below a (suc n) s h lt = elim (Bool-cases (s == n)) [
    | inl same ↦
        let e : s ≡ n = ground arith in
        subst (λ k. is_some (a.aliases k) ≡ is_some (a.shards k)) (sym e) (ground arith)
    | inr other ↦ same_shards-below a n s (ground arith) (ground arith)
  ]

  validate_complete_parts :
      (a : Accumulator H) (count : ℤ)
      → validate_complete a count ≡ ok tt
      → (pos a.ordinal ≡ count) × (same_shards a shard_count ≡ true)
  unfolding validate_complete
  validate_complete_parts a count h = (eqb_ℤ→eq (pos a.ordinal) count (ground arith), ground arith)

module _ {H : Type 0} (digests : Digests H) where
  new_parts :
      (run_id version : ℕ) (gate_ids : List Text) (assignments : List (ℤ × Text))
      (a : Accumulator H)
      → new_accumulator digests run_id version gate_ids assignments ≡ ok a
      → (a.ordinal ≡ 0) × (a.chunk_start ≡ 0) × (a.chunk_count ≡ 0)
  unfolding new_accumulator
  new_parts run_id version gate_ids assignments a started =
      (ground arith, ground arith, ground arith)

  -- A plan that is made from a new accumulator and found complete for a case count was given that
  -- many cases, in the order of their ordinals from 0; its chunks follow each other from chunk 0
  -- and case 0 up to the last case; and a shard of a run has a placement among the assignments
  -- exactly when one of the planned chunks is on it.
  pub complete_plan-Follows :
      (run_id version : ℕ) (gate_ids : List Text) (assignments : List (ℤ × Text))
      (rs : List PlannedCase) (a a' : Accumulator H) (chunks : List RunChunk) (count : ℤ)
      → new_accumulator digests run_id version gate_ids assignments ≡ ok a
      → plan_cases digests a rs ≡ ok (a', chunks)
      → validate_complete a' count ≡ ok tt
      → (pos (length rs) ≡ count)
        × AreInOrder 0 rs
        × Follows 0 0 chunks a'.chunk_count (length rs)
        × ((shard : ℕ)
            → shard < 128
            → any (λ p. eqb_ℤ (p.0) (pos shard)) assignments
              ≡ any (λ c. eqb_ℤ c.run_shard (pos shard)) chunks)
  complete_plan-Follows run_id version gate_ids assignments rs a a' chunks count started planned
        complete =
      let (no_cases, no_start, no_chunks) =
        new_parts run_id version gate_ids assignments a started in
      let opened : IsOpen a = (omega arith, omega arith) in
      let (ordered, total, ended, follows) =
        plan_cases-Follows digests a a' rs chunks opened planned in
      let (counted, covered) = validate_complete_parts a' count complete in
      let length_total : a'.ordinal ≡ length rs = omega arith in
      let start_total : a'.chunk_start ≡ length rs = omega arith in
      (
        ap pos (sym length_total) ∙ counted,
        subst (λ n. AreInOrder n rs) no_cases ordered,
        subst (λ n. Follows 0 0 chunks a'.chunk_count n) start_total
            (subst (λ n. Follows n 0 chunks a'.chunk_count a'.chunk_start) no_chunks
              (subst (λ n. Follows a.chunk_count n chunks a'.chunk_count a'.chunk_start) no_start
                follows)),
        λ shard lt.
            let (aliases, none_yet) =
              new_accumulator_shards digests run_id version gate_ids assignments a shard started in
            let mark =
              plan_cases-Marks shard digests false a a' rs chunks opened
                (ground (arith, none_yet, no_cases, no_start)) planned in
            sym (is_some-alias_of shard assignments)
            ∙ ap (λ f. is_some (f shard))
                (sym (plan_cases_aliases digests a a' rs chunks planned ∙ aliases))
            ∙ same_shards-below a' 128 shard covered lt
            ∙ mark,
      )
