-- ===== src/Storage/Chunks/Consecutive.antt =====
-- The chunks of a validated page are consecutive, bounded and distinct.
use agent_vigilo.Prelude.{
  ℕ, zero, suc, ◌+◌, ◌<◌, ◌≡◌, ◌≢◌, true, false, Option, none, some, List, [], ◌∷◌, arith,
  is_none_or, get_elem?, ok, >>-eq-ok,
}
use agent_vigilo.Prelude.Int.{ℤ, pos, ◌+ℤ◌, ◌≤ℤ◌, ◌<ℤ◌, eqb_ℤ, +ℤ_parts, -ℤ_parts, eqb_ℤ→eq, to_i32}
use mathlib.Core.Option.{some-injective}
use agent_vigilo.Storage.Limits.{FormatLimits}
use agent_vigilo.Storage.Index.Tiling.{range-eq-ok}
use agent_vigilo.Storage.Chunks.{
  RunChunk, RunChunkPage, contains_id, check_chunk, check_chunks, validate_chunk_page,
}

-- What the loop's body establishes for one chunk.
pub record IsChecked (start : ℤ) (index : ℕ) (ids : List ℕ) (previous_end : Option ℤ) (c : RunChunk)
    : Type 0 where
  pub indexed : c.chunk_index ≡ start +ℤ pos index
  pub starts : pos 0 ≤ℤ c.ordinal_start
  pub nonempty : c.ordinal_start <ℤ c.ordinal_end
  pub bounded : c.ordinal_end ≤ℤ c.ordinal_start +ℤ pos 100
  pub follows : is_none_or (λ end. eqb_ℤ end c.ordinal_start) previous_end ≡ true
  pub fresh : contains_id ids c.chunk_id ≡ false

check_chunk-IsChecked :
    (start : ℤ) (index : ℕ) (ids : List ℕ) (previous_end : Option ℤ) (c : RunChunk)
    → check_chunk start index ids previous_end c ≡ ok tt
    → IsChecked start index ids previous_end c
unfolding check_chunk to_i32
check_chunk-IsChecked start index ids previous_end c h = record {
  indexed = ground (arith, eqb_ℤ→eq c.chunk_index (start +ℤ pos index));
  starts = ground (arith, range-eq-ok c.ordinal_start c.ordinal_end);
  nonempty = ground (arith, range-eq-ok c.ordinal_start c.ordinal_end);
  bounded =
      ground (arith, -ℤ_parts c.ordinal_end c.ordinal_start, +ℤ_parts c.ordinal_start (pos 100));
  follows = ground arith;
  fresh = ground arith;
}

check_chunks-cons :
    (start : ℤ) (index : ℕ) (ids : List ℕ) (previous_end : Option ℤ) (c : RunChunk)
    (cs : List RunChunk)
    → check_chunks start index ids previous_end (c ∷ cs) ≡ ok tt
    → IsChecked start index ids previous_end c
      × (check_chunks start (index + 1) (c.chunk_id ∷ ids) (some c.ordinal_end) cs ≡ ok tt)
unfolding check_chunks
check_chunks-cons start index ids previous_end c cs h =
    let (a, b) = >>-eq-ok (check_chunk start index ids previous_end c) _ h in
    (check_chunk-IsChecked start index ids previous_end c a, b)

check_chunks_fresh :
    (start : ℤ) (index : ℕ) (ids : List ℕ) (previous_end : Option ℤ) (cs : List RunChunk) (k : ℕ)
    {c : RunChunk}
    → check_chunks start index ids previous_end cs ≡ ok tt
    → get_elem? cs k ≡ some c
    → contains_id ids c.chunk_id ≡ false
check_chunks_fresh start index ids previous_end [] k h g = cc
check_chunks_fresh start index ids previous_end (x ∷ cs) zero h g =
    let a = (check_chunks-cons start index ids previous_end x cs h).0 in ground (arith, a.fresh)
check_chunks_fresh start index ids previous_end (x ∷ cs) (suc k) h g =
    let b = (check_chunks-cons start index ids previous_end x cs h).1 in
    let f = check_chunks_fresh start (index + 1) (x.chunk_id ∷ ids) (some x.ordinal_end) cs k b g in
    ground arith

-- The facts about the chunk at a position, and that its successor starts where it ends.
pub record IsPlaced (start : ℤ) (index : ℕ) (cs : List RunChunk) (k : ℕ) (c : RunChunk)
    : Type 0 where
  pub indexed : c.chunk_index ≡ start +ℤ pos (index + k)
  pub nonempty : (pos 0 ≤ℤ c.ordinal_start) × (c.ordinal_start <ℤ c.ordinal_end)
  pub bounded : c.ordinal_end ≤ℤ c.ordinal_start +ℤ pos 100
  pub adjacent : (d : RunChunk) → get_elem? cs (suc k) ≡ some d → c.ordinal_end ≡ d.ordinal_start
  pub distinct : (j : ℕ) (d : RunChunk) → get_elem? cs j ≡ some d → k < j → c.chunk_id ≢ d.chunk_id

-- The next chunk starts where the one before ended.
head_follows :
    (start : ℤ) (index : ℕ) (ids : List ℕ) (end : ℤ) (cs : List RunChunk) {d : RunChunk}
    → check_chunks start index ids (some end) cs ≡ ok tt
    → get_elem? cs 0 ≡ some d
    → end ≡ d.ordinal_start
head_follows start index ids end [] h g = cc
head_follows start index ids end (x ∷ cs) h g =
    let a = (check_chunks-cons start index ids (some end) x cs h).0 in
    let e = eqb_ℤ→eq end x.ordinal_start a.follows in ground arith

head_distinct :
    (start : ℤ) (index : ℕ) (ids : List ℕ) (previous_end : Option ℤ) (x : RunChunk)
    (cs : List RunChunk) (j : ℕ) (d : RunChunk)
    → check_chunks start index ids previous_end (x ∷ cs) ≡ ok tt
    → get_elem? (x ∷ cs) j ≡ some d
    → 0 < j
    → x.chunk_id ≢ d.chunk_id
head_distinct start index ids previous_end x cs zero d h g lt = absurd (omega arith)
head_distinct start index ids previous_end x cs (suc j) d h g lt =
    let b = (check_chunks-cons start index ids previous_end x cs h).1 in
    let f = check_chunks_fresh start (index + 1) (x.chunk_id ∷ ids) (some x.ordinal_end) cs j b g in
    ground arith

tail_distinct :
    (start : ℤ) (index : ℕ) (x c : RunChunk) (cs : List RunChunk) (k j : ℕ) (d : RunChunk)
    → IsPlaced start index cs k c
    → get_elem? (x ∷ cs) j ≡ some d
    → suc k < j
    → c.chunk_id ≢ d.chunk_id
tail_distinct start index x c cs k zero d p g lt = absurd (omega arith)
tail_distinct start index x c cs k (suc j) d p g lt = p.distinct j d g (omega arith)

check_chunks-IsPlaced :
    (start : ℤ) (index : ℕ) (ids : List ℕ) (previous_end : Option ℤ) (cs : List RunChunk) (k : ℕ)
    {c : RunChunk}
    → check_chunks start index ids previous_end cs ≡ ok tt
    → get_elem? cs k ≡ some c
    → IsPlaced start index cs k c
check_chunks-IsPlaced start index ids previous_end [] k h g = cc
check_chunks-IsPlaced start index ids previous_end (x ∷ cs) zero {c = c} h g =
    let (a, b) = check_chunks-cons start index ids previous_end x cs h in
    let e : x ≡ c = some-injective _ _ g in
    rw (← e) (record {
      indexed = ground (arith, a.indexed);
      nonempty = (a.starts, a.nonempty);
      bounded = a.bounded;
      adjacent =
          λ d next. head_follows start (index + 1) (x.chunk_id ∷ ids) x.ordinal_end cs b next;
      distinct = λ j d found lt. head_distinct start index ids previous_end x cs j d h found lt;
    })
check_chunks-IsPlaced start index ids previous_end (x ∷ cs) (suc k) {c = c} h g =
    let b = (check_chunks-cons start index ids previous_end x cs h).1 in
    let p =
      check_chunks-IsPlaced start (index + 1) (x.chunk_id ∷ ids) (some x.ordinal_end) cs k b g in
    record {
      indexed = ground (arith, p.indexed);
      nonempty = p.nonempty;
      bounded = p.bounded;
      adjacent = p.adjacent;
      distinct = λ j d found lt. tail_distinct start (index + 1) x c cs k j d p found lt;
    }

-- In a page that passes validation the chunk at position `k` has the index `chunk_index_start + k`,
-- a nonempty case range of at most 100 cases that ends where the next chunk's starts, and an
-- identifier that no later chunk has.
pub validate_chunk_page-IsPlaced :
    (page : RunChunkPage) (limits : FormatLimits) (k : ℕ) (c : RunChunk)
    → validate_chunk_page page limits ≡ ok tt
    → get_elem? page.chunks k ≡ some c
    → IsPlaced page.chunk_index_start 0 page.chunks k c
unfolding validate_chunk_page
validate_chunk_page-IsPlaced page limits k c h g =
    let loop : check_chunks page.chunk_index_start 0 [] none page.chunks ≡ ok tt = ground arith in
    check_chunks-IsPlaced page.chunk_index_start 0 [] none page.chunks k loop g
