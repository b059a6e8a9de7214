-- ===== src/ShardAdmin/Pages.antt =====
-- The pages of vigilo/src/db/workflows/shard_admin.rs by which a move copies rows.
use agent_vigilo.Prelude.{
  ℕ, zero, suc, ◌+◌, ◌-◌, ◌^◌, ◌≤◌, ◌<◌, ◌≡◌, refl, ap, ◌∙◌, ◌⊎◌, inl, inr, true, false, ◌&&◌, List,
  [], ◌∷◌, arith, ltb, ◌==◌, Bool-cases, length, take, length-take,
}
use agent_vigilo.ShardAdmin.{saturating_add, page_rows, bounded_page_len, sum}

page_rows_between :
    (max_bytes bytes rows : ℕ) (ns : List ℕ)
    → (rows ≤ page_rows max_bytes bytes rows ns)
      × (page_rows max_bytes bytes rows ns ≤ rows + length ns)
unfolding page_rows
page_rows_between max_bytes bytes rows [] = (omega arith, omega arith)
page_rows_between max_bytes bytes rows (n ∷ ns) =
    let (low, high) = page_rows_between max_bytes (saturating_add bytes n) (rows + 1) ns in
    elim (Bool-cases (ltb 0 rows && ltb max_bytes (saturating_add bytes n))) [
      | inl full ↦ rw (page_rows, full) (omega arith, omega arith)
      | inr more ↦ rw (page_rows, more) (omega (arith, low), omega (arith, high))
    ]

-- Behind the first row, the rows that are added fit.
page_rows_fit :
    (max_bytes bytes rows : ℕ) (ns : List ℕ)
    → max_bytes < 2 ^ 64 - 1
    → 0 < rows
    → (page_rows max_bytes bytes rows ns ≡ rows)
      ⊎ ((extra : ℕ) × (page_rows max_bytes bytes rows ns ≡ rows + suc extra)
          × (bytes + sum (take (suc extra) ns) ≤ max_bytes))
unfolding page_rows take sum
page_rows_fit max_bytes bytes rows [] h k = inl refl
page_rows_fit max_bytes bytes rows (n ∷ ns) h k =
    let some_rows : ltb 0 rows ≡ true = ground arith in
    elim (Bool-cases (ltb max_bytes (saturating_add bytes n))) [
      | inl full ↦ inl (rw (page_rows, some_rows, full) refl)
      | inr more ↦
          let exact : saturating_add bytes n ≡ bytes + n = ground arith in
          let fits : bytes + n ≤ max_bytes = ground arith in
          elim (page_rows_fit max_bytes (saturating_add bytes n) (rows + 1) ns h (omega arith)) [
            | inl last ↦ inr (0, rw (page_rows, some_rows, more) last, omega (arith, fits))
            | inr (extra, len, room) ↦ inr (
              suc extra,
              rw (page_rows, some_rows, more) (len ∙ omega arith),
              omega (arith, exact, room),
            )
          ]
    ]

length-take-le : (m : ℕ) (xs : List ℕ) → length (take m xs) ≤ length xs
unfolding take
length-take-le zero xs = omega arith
length-take-le (suc m) [] = omega arith
length-take-le (suc m) (x ∷ xs) = omega (arith, length-take-le m xs)

take-take : (n m : ℕ) (xs : List ℕ) → n ≤ m → take n (take m xs) ≡ take n xs
unfolding take
take-take zero m xs h = refl
take-take (suc n) zero xs h = absurd (omega arith)
take-take (suc n) (suc m) [] h = refl
take-take (suc n) (suc m) (x ∷ xs) h = ap (λ ys. x ∷ ys) (take-take n m xs (omega arith))

unary : (n : ℕ) → 1 + suc n ≡ suc (suc n)
unary n = omega arith

-- For rows and a positive number of rows allowed, and a byte limit below the largest number of 64
-- bits: a page takes at least one row, at most the rows there are and at most the rows allowed, and
-- either it is one row long or its rows fit into the byte limit.
pub bounded_page_len_bounds :
    (row_bytes : List ℕ) (max_rows max_bytes : ℕ)
    → 0 < length row_bytes
    → 0 < max_rows
    → max_bytes < 2 ^ 64 - 1
    → let n = bounded_page_len row_bytes max_rows max_bytes in
      (0 < n)
      × (n ≤ length row_bytes)
      × (n ≤ max_rows)
      × ((n ≡ 1) ⊎ (sum (take n row_bytes) ≤ max_bytes))
unfolding bounded_page_len page_rows take sum
bounded_page_len_bounds [] max_rows max_bytes h k limit = absurd (omega arith)
bounded_page_len_bounds (b ∷ bs) zero max_bytes h k limit = absurd (omega arith)
bounded_page_len_bounds (b ∷ bs) (suc m) max_bytes h k limit =
    let positive : (suc m == 0) ≡ false = ground arith in
    let first : bounded_page_len (b ∷ bs) (suc m) max_bytes
        ≡ page_rows max_bytes (saturating_add 0 b) 1 (take m bs) =
      rw (bounded_page_len, positive) refl in
    let (low, high) = page_rows_between max_bytes (saturating_add 0 b) 1 (take m bs) in
    let short = length-take m bs in
    let shorter = length-take-le m bs in
    rw first (
      omega (arith, low),
      omega (arith, high, shorter),
      omega (arith, high, short),
      elim (page_rows_fit max_bytes (saturating_add 0 b) 1 (take m bs) limit (omega arith)) [
        | inl one ↦ inl one
        | inr (extra, len, room) ↦
            let exact : saturating_add 0 b ≡ b = omega (arith, room) in
            let inside : suc extra ≤ m = omega (arith, len, high, short) in
            inr (
              rw (len, unary extra)
                (omega (arith, room, exact, ap sum (take-take (suc extra) m bs inside))))
      ],
    )
