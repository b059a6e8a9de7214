-- ===== src/Planning/Coverage.antt =====
-- The shards that vigilo/src/run_planning/accumulator.rs keeps a state for are those of its chunks.
use agent_vigilo.Prelude.{
  ℕ, ◌-◌, ◌≡◌, refl, sym, ap, ◌∙◌, inl, inr, Bool, false, not, ◌&&◌, ◌||◌, Option, none, some, List,
  [], ◌∷◌, arith, ◌==◌, Bool-cases, is_some, any, ok, >>=-eq-ok,
}
use mathlib.Core.Path.{subst}
use agent_vigilo.Prelude.Text.{Text}
use agent_vigilo.Prelude.Int.{ℤ, pos, eqb_ℤ}
use agent_vigilo.Storage.Chunks.{RunChunk}
use agent_vigilo.Planning.{
  PlannedCase, Digests, Accumulator, alias_of, run_shard_for_chunk_index, put_shard, chunk_of,
  finish_chunk, add_case, push_case, emitted, plan_cases, new_accumulator,
}
use agent_vigilo.Planning.Consecutive.{IsOpen, push_case-Follows}

module _ (shard : ℕ) where
  abbrev pub is_on : RunChunk → Bool
  is_on c = eqb_ℤ c.run_shard (pos shard)

  any-emitted :
      (chunk : Option RunChunk) (rest : List RunChunk)
      → any is_on (emitted chunk rest) ≡ (any is_on (emitted chunk []) || any is_on rest)
  any-emitted none rest = refl
  any-emitted (some c) rest = ground arith

  pub is_some-alias_of :
      (assignments : List (ℤ × Text))
      → is_some (alias_of assignments shard) ≡ any (λ a. eqb_ℤ (a.0) (pos shard)) assignments
  unfolding alias_of
  is_some-alias_of [] = refl
  is_some-alias_of ((s, alias) ∷ rest) = ground (arith, is_some-alias_of rest)

  module _ {H : Type 0} (digests : Digests H) where
    -- Cases of the shard wait for their chunk.
    abbrev waits : Accumulator H → Bool
    waits a = not (a.ordinal == a.chunk_start) && (shard == run_shard_for_chunk_index a.chunk_count)

    -- The shard has a state exactly when it had one before, or has a chunk or waiting cases.
    abbrev Marks : Bool → Accumulator H → Type 0
    Marks before a = is_some (a.shards shard) ≡ (before || waits a)

    is_some-put :
        (a : Accumulator H) (s : ℕ) (state : _)
        → is_some (put_shard a.shards s state shard) ≡ ((shard == s) || is_some (a.shards shard))
    unfolding put_shard
    is_some-put a s state = ground arith

    finish_chunk-Marks :
        (before : Bool) (a a' : Accumulator H) (chunk : Option RunChunk)
        → Marks before a
        → finish_chunk digests a ≡ ok (a', chunk)
        → (is_some (a'.shards shard) ≡ (before || any is_on (emitted chunk [])))
          × (a'.ordinal ≡ a'.chunk_start)
    unfolding finish_chunk chunk_of put_shard
    finish_chunk-Marks before a a' chunk m h = elim (Bool-cases (a.ordinal == a.chunk_start)) [
      | inl same ↦
          let kept : a ≡ a' = ground arith in
          let out : chunk ≡ none = ground arith in
          let level : a.ordinal ≡ a.chunk_start = ground arith in
          let mark : is_some (a.shards shard) ≡ before = ground arith in
          (
            rw (out, ← kept) (ground arith),
            subst (λ (x : Accumulator H). x.ordinal ≡ x.chunk_start) kept level,
          )
      | inr more ↦ (ground arith, ground arith)
    ]

    add_case-Marks :
        (before : Bool) (a a' : Accumulator H) (r : PlannedCase)
        → IsOpen a
        → Marks before a
        → add_case digests a r ≡ ok a'
        → Marks before a'
    unfolding add_case put_shard
    add_case-Marks before a a' r opened m h = ground arith

    push_case-Marks :
        (before : Bool) (a a' : Accumulator H) (r : PlannedCase) (chunk : Option RunChunk)
        → IsOpen a
        → Marks before a
        → push_case digests a r ≡ ok (a', chunk)
        → Marks (before || any is_on (emitted chunk [])) a'
    unfolding push_case
    push_case-Marks before a a' r chunk opened m h =
        let (b, added, finished) = >>=-eq-ok (add_case digests a r) _ h in
        let m' = add_case-Marks before a b r opened m added in
        elim (Bool-cases (b.ordinal - b.chunk_start == 100)) [
          | inl full ↦
              let out : finish_chunk digests b ≡ ok (a', chunk) = ground arith in
              let (mark, level) = finish_chunk-Marks before b a' chunk m' out in ground arith
          | inr more ↦
              let same : b ≡ a' = ground arith in
              let none_out : chunk ≡ none = ground arith in rw (none_out, ← same) (ground arith)
        ]

    -- After a plan that succeeds, the shard has a state exactly when it had one or got a chunk.
    pub plan_cases-Marks :
        (before : Bool) (a a' : Accumulator H) (rs : List PlannedCase) (chunks : List RunChunk)
        → IsOpen a
        → Marks before a
        → plan_cases digests a rs ≡ ok (a', chunks)
        → is_some (a'.shards shard) ≡ (before || any is_on chunks)
    unfolding plan_cases
    plan_cases-Marks before a a' [] chunks opened m h =
        let ((b, chunk), finished, done) = >>=-eq-ok (finish_chunk digests a) _ h in
        let same : b ≡ a' = ground arith in
        let out : emitted chunk [] ≡ chunks = ground arith in
        let (mark, level) = finish_chunk-Marks before a b chunk m finished in
        rw (← same, ← out) mark
    plan_cases-Marks before a a' (r ∷ rs) chunks opened m h =
        let ((b, chunk), pushed, rest) = >>=-eq-ok (push_case digests a r) _ h in
        let ((c, others), planned, done) = >>=-eq-ok (plan_cases digests b rs) _ rest in
        let same : c ≡ a' = ground arith in
        let out : emitted chunk others ≡ chunks = ground arith in
        let opened' = (push_case-Follows digests a b r chunk opened pushed).0 in
        let m' = push_case-Marks before a b r chunk opened m pushed in
        let mark =
          plan_cases-Marks (before || any is_on (emitted chunk [])) b c rs others opened' m'
            planned in
        rw (← same, ← out) (ground (arith, mark, any-emitted chunk others))

module _ {H : Type 0} (digests : Digests H) where
  finish_chunk_aliases :
      (a a' : Accumulator H) (chunk : Option RunChunk)
      → finish_chunk digests a ≡ ok (a', chunk)
      → a'.aliases ≡ a.aliases
  unfolding finish_chunk
  finish_chunk_aliases a a' chunk h = elim (Bool-cases (a.ordinal == a.chunk_start)) [
    | inl same ↦
        ap (λ (x : Accumulator H). x.aliases) (sym (let kept : a ≡ a' = ground arith in kept))
    | inr more ↦ ground arith
  ]

  push_case_aliases :
      (a a' : Accumulator H) (r : PlannedCase) (chunk : Option RunChunk)
      → push_case digests a r ≡ ok (a', chunk)
      → a'.aliases ≡ a.aliases
  unfolding push_case add_case
  push_case_aliases a a' r chunk h =
      let (b, added, finished) = >>=-eq-ok (add_case digests a r) _ h in
      let kept : b.aliases ≡ a.aliases = ground arith in
      elim (Bool-cases (b.ordinal - b.chunk_start == 100)) [
        | inl full ↦ finish_chunk_aliases b a' chunk (ground arith) ∙ kept
        | inr more ↦
            let same : b ≡ a' = ground arith in
            ap (λ (x : Accumulator H). x.aliases) (sym same) ∙ kept
      ]

  -- No step changes the placements.
  pub plan_cases_aliases :
      (a a' : Accumulator H) (rs : List PlannedCase) (chunks : List RunChunk)
      → plan_cases digests a rs ≡ ok (a', chunks)
      → a'.aliases ≡ a.aliases
  unfolding plan_cases
  plan_cases_aliases a a' [] chunks h =
      let ((b, chunk), finished, done) = >>=-eq-ok (finish_chunk digests a) _ h in
      let same : b ≡ a' = ground arith in
      ap (λ (x : Accumulator H). x.aliases) (sym same) ∙ finish_chunk_aliases a b chunk finished
  plan_cases_aliases a a' (r ∷ rs) chunks h =
      let ((b, chunk), pushed, rest) = >>=-eq-ok (push_case digests a r) _ h in
      let ((c, others), planned, done) = >>=-eq-ok (plan_cases digests b rs) _ rest in
      let same : c ≡ a' = ground arith in
      ap (λ (x : Accumulator H). x.aliases) (sym same)
      ∙ plan_cases_aliases b c rs others planned
      ∙ push_case_aliases a b r chunk pushed

  -- What a new accumulator starts with.
  pub new_accumulator_shards :
      (run_id version : ℕ) (gate_ids : List Text) (assignments : List (ℤ × Text))
      (a : Accumulator H) (shard : ℕ)
      → new_accumulator digests run_id version gate_ids assignments ≡ ok a
      → (a.aliases ≡ alias_of assignments) × (is_some (a.shards shard) ≡ false)
  unfolding new_accumulator
  new_accumulator_shards run_id version gate_ids assignments a shard h =
      (ground arith, ground arith)
