-- ===== src/Planning/Consecutive.antt =====
-- The chunks of a plan follow each other.
use agent_vigilo.Prelude.{
  ℕ, ◌+◌, ◌-◌, ◌≤◌, ◌<◌, ◌≡◌, refl, sym, ap, ◌∙◌, ◌≢◌, ◌⊎◌, inl, inr, Option, none, some, List, [],
  ◌∷◌, arith, ◌==◌, if◌then◌else◌, Bool-cases, length, ok, >>=-eq-ok,
}
use mathlib.Core.Path.{subst}
use agent_vigilo.Prelude.Int.{pos, eqb_ℤ→eq}
use agent_vigilo.Storage.Chunks.{RunChunk}
use agent_vigilo.Planning.{
  PlannedCase, Digests, Accumulator, run_shard_for_chunk_index, chunk_of, finish_chunk, add_case,
  push_case, emitted, plan_cases,
}

-- Chunks from a chunk index and a case ordinal on, up to another index and ordinal: each starts where
-- the one before ended, has the next index and the shard of that index, and holds 1 to 100 cases.
abbrev pub Follows : ℕ → ℕ → List RunChunk → ℕ → ℕ → Type 0
Follows index start [] index' start' = (index' ≡ index) × (start' ≡ start)
Follows index start (c ∷ cs) index' start' =
    (end : ℕ) × (c.chunk_index ≡ pos index)
    × (c.run_shard ≡ pos (run_shard_for_chunk_index index))
    × (c.ordinal_start ≡ pos start)
    × (c.ordinal_end ≡ pos end)
    × (start < end)
    × (end ≤ start + 100)
    × Follows (index + 1) end cs index' start'

-- The ordinals of the cases count up from a number.
abbrev pub AreInOrder : ℕ → List PlannedCase → Type 0
AreInOrder n [] = Unit
AreInOrder n (r ∷ rs) = (r.case_ordinal ≡ pos n) × AreInOrder (n + 1) rs

-- Fewer than 100 cases wait for their chunk.
abbrev pub IsOpen : {H : Type 0} → Accumulator H → Type 0
IsOpen a = (a.chunk_start ≤ a.ordinal) × (a.ordinal < a.chunk_start + 100)

module _ {H : Type 0} (digests : Digests H) where
  -- Nothing waits, or the waiting cases become the next chunk.
  finish_chunk_cases :
      (a a' : Accumulator H) (chunk : Option RunChunk)
      → finish_chunk digests a ≡ ok (a', chunk)
      → ((chunk ≡ none) × (a.ordinal ≡ a.chunk_start) × (a' ≡ a))
        ⊎ ((chunk ≡ some (chunk_of digests a))
            × (a.ordinal ≢ a.chunk_start)
            × (a'.ordinal ≡ a.ordinal)
            × (a'.chunk_start ≡ a.ordinal)
            × (a'.chunk_count ≡ a.chunk_count + 1))
  unfolding finish_chunk
  finish_chunk_cases a a' chunk h = elim (Bool-cases (a.ordinal == a.chunk_start)) [
    | inl same ↦ inl (ground arith, ground arith, ground arith)
    | inr more ↦ inr (ground arith, λ e. ground arith, ground arith, ground arith, ground arith)
  ]

  -- What `finish_chunk` hands out stands before whatever follows.
  finish_chunk-Follows :
      (a a' : Accumulator H) (chunk : Option RunChunk) (rest : List RunChunk) (index start : ℕ)
      → a.chunk_start ≤ a.ordinal
      → a.ordinal ≤ a.chunk_start + 100
      → finish_chunk digests a ≡ ok (a', chunk)
      → Follows a'.chunk_count a'.chunk_start rest index start
      → Follows a.chunk_count a.chunk_start (emitted chunk rest) index start
  unfolding chunk_of
  finish_chunk-Follows a a' chunk rest index start lo hi h follows =
      elim (finish_chunk_cases a a' chunk h) [
        | inl (none_out, empty, same) ↦ rw none_out (
            subst (λ (b : Accumulator H). Follows b.chunk_count b.chunk_start rest index start) same
              follows)
        | inr (out, full, ord, next, count) ↦ rw out (
          a.ordinal,
          refl,
          refl,
          refl,
          refl,
          omega arith,
          hi,
          subst (λ i. Follows i a.ordinal rest index start) count
              (subst (λ s. Follows a'.chunk_count s rest index start) next follows),
        )
      ]

  add_case_lem :
      (a a' : Accumulator H) (r : PlannedCase)
      → add_case digests a r ≡ ok a'
      → (a'.ordinal ≡ a.ordinal + 1)
        × (a'.chunk_start ≡ a.chunk_start)
        × (a'.chunk_count ≡ a.chunk_count)
        × (r.case_ordinal ≡ pos a.ordinal)
  unfolding add_case
  add_case_lem a a' r h = (
    ground arith,
    ground arith,
    ground arith,
    eqb_ℤ→eq r.case_ordinal (pos a.ordinal) (ground arith),
  )

  -- After a case: the chunk is full and goes out, or it stays open.
  settle-Follows :
      (b a' : Accumulator H) (chunk : Option RunChunk)
      → b.chunk_start ≤ b.ordinal
      → b.ordinal ≤ b.chunk_start + 100
      → (if b.ordinal - b.chunk_start == 100 then finish_chunk digests b else ok (b, none))
        ≡ ok (a', chunk)
      → IsOpen a'
        × (a'.ordinal ≡ b.ordinal)
        × ((rest : List RunChunk) (index start : ℕ)
            → Follows a'.chunk_count a'.chunk_start rest index start
            → Follows b.chunk_count b.chunk_start (emitted chunk rest) index start)
  settle-Follows b a' chunk lo hi h = elim (Bool-cases (b.ordinal - b.chunk_start == 100)) [
    | inl full ↦
        let out : finish_chunk digests b ≡ ok (a', chunk) = ground arith in
        let (open_start, open_end, ord) = after_finish out in
        (
          (open_start, open_end),
          ord,
          λ rest index start. finish_chunk-Follows b a' chunk rest index start lo hi out,
        )
    | inr more ↦
        let same : b ≡ a' = ground arith in
        let none_out : chunk ≡ none = ground arith in
        let below : b.ordinal < b.chunk_start + 100 = ground arith in
        (
          subst IsOpen same (lo, below),
          ap (λ (x : Accumulator H). x.ordinal) (sym same),
          λ rest index start follows. rw none_out (
              subst (λ (x : Accumulator H). Follows x.chunk_count x.chunk_start rest index start)
                (sym same) follows),
        )
  ]
    where
      after_finish :
          finish_chunk digests b ≡ ok (a', chunk)
          → (a'.chunk_start ≤ a'.ordinal)
            × (a'.ordinal < a'.chunk_start + 100)
            × (a'.ordinal ≡ b.ordinal)
      after_finish out = elim (finish_chunk_cases b a' chunk out) [
        | inl (none_out, empty, same) ↦ rw same (omega arith, omega arith, refl)
        | inr (out', full, ord, next, count) ↦ (omega arith, omega arith, ord)
      ]

  pub push_case-Follows :
      (a a' : Accumulator H) (r : PlannedCase) (chunk : Option RunChunk)
      → IsOpen a
      → push_case digests a r ≡ ok (a', chunk)
      → IsOpen a'
        × (a'.ordinal ≡ a.ordinal + 1)
        × (r.case_ordinal ≡ pos a.ordinal)
        × ((rest : List RunChunk) (index start : ℕ)
            → Follows a'.chunk_count a'.chunk_start rest index start
            → Follows a.chunk_count a.chunk_start (emitted chunk rest) index start)
  unfolding push_case
  push_case-Follows a a' r chunk (lo, hi) h =
      let (b, added, finished) = >>=-eq-ok (add_case digests a r) _ h in
      let (ord, start_same, count_same, placed) = add_case_lem a b r added in
      let (opened, same_ordinal, carries) =
        settle-Follows b a' chunk (omega arith) (omega arith) finished in
      (
        opened,
        same_ordinal ∙ ord,
        placed,
        λ rest index start follows.
            subst (λ i. Follows i a.chunk_start (emitted chunk rest) index start) count_same
              (subst (λ s. Follows b.chunk_count s (emitted chunk rest) index start) start_same
                (carries rest index start follows)),
      )

  -- The rest of the plan, behind the conclusions of the theorem.
  abbrev IsPlanned : Accumulator H → List PlannedCase → Accumulator H → List RunChunk → Type 0
  IsPlanned a rs a' chunks =
      AreInOrder a.ordinal rs
      × (a'.ordinal ≡ a.ordinal + length rs)
      × (a'.chunk_start ≡ a'.ordinal)
      × Follows a.chunk_count a.chunk_start chunks a'.chunk_count a'.chunk_start

  finish_chunk-IsPlanned :
      (a b : Accumulator H) (chunk : Option RunChunk)
      → IsOpen a
      → finish_chunk digests a ≡ ok (b, chunk)
      → IsPlanned a [] b (emitted chunk [])
  finish_chunk-IsPlanned a b chunk (lo, hi) h =
      let follows =
        finish_chunk-Follows a b chunk [] b.chunk_count b.chunk_start lo (omega arith) h
          (refl, refl) in
      elim (finish_chunk_cases a b chunk h) [
        | inl (none_out, empty, same) ↦
            let ord = ap (λ (x : Accumulator H). x.ordinal) same in
            let start = ap (λ (x : Accumulator H). x.chunk_start) same in
            (tt, omega arith, omega arith, follows)
        | inr (out, full, ord, start, count) ↦ (tt, omega arith, omega arith, follows)
      ]

  -- A plan that succeeds, from an accumulator whose current chunk is not full, was given the cases in
  -- the order of their ordinals without a gap; it ends behind the last case with no case waiting; and
  -- its chunks follow each other from the accumulator's chunk and case to the end: consecutive
  -- indexes, the shard of each index, and 1 to 100 cases that start where the chunk before ended.
  pub plan_cases-Follows :
      (a a' : Accumulator H) (rs : List PlannedCase) (chunks : List RunChunk)
      → IsOpen a
      → plan_cases digests a rs ≡ ok (a', chunks)
      → AreInOrder a.ordinal rs
        × (a'.ordinal ≡ a.ordinal + length rs)
        × (a'.chunk_start ≡ a'.ordinal)
        × Follows a.chunk_count a.chunk_start chunks a'.chunk_count a'.chunk_start
  unfolding plan_cases
  plan_cases-Follows a a' [] chunks opened h =
      let ((b, chunk), finished, done) = >>=-eq-ok (finish_chunk digests a) _ h in
      let same : b ≡ a' = ground arith in
      let out : emitted chunk [] ≡ chunks = ground arith in
      subst (λ cs. IsPlanned a [] a' cs) out
        (subst (λ x. IsPlanned a [] x (emitted chunk [])) same
          (finish_chunk-IsPlanned a b chunk opened finished))
  plan_cases-Follows a a' (r ∷ rs) chunks opened h =
      let ((b, chunk), pushed, rest) = >>=-eq-ok (push_case digests a r) _ h in
      let ((c, others), planned, done) = >>=-eq-ok (plan_cases digests b rs) _ rest in
      let (opened', ord, placed, carries) = push_case-Follows a b r chunk opened pushed in
      let (ordered, count, ended, follows) = plan_cases-Follows b c rs others opened' planned in
      let same : c ≡ a' = ground arith in
      let out : emitted chunk others ≡ chunks = ground arith in
      let in_order = subst (λ n. AreInOrder n rs) ord ordered in
      let planned_all : IsPlanned a (r ∷ rs) c (emitted chunk others) = (
        (placed, in_order),
        omega arith,
        ended,
        carries others c.chunk_count c.chunk_start follows,
      ) in
      subst (λ cs. IsPlanned a (r ∷ rs) a' cs) out
        (subst (λ x. IsPlanned a (r ∷ rs) x (emitted chunk others)) same planned_all)
