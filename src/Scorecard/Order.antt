-- ===== src/Scorecard/Order.antt =====
-- The order in which shards arrive does not matter.
use agent_vigilo.Prelude.{suc, ◌≡◌, refl, ap, ◌∙◌, false, List, [], ◌∷◌, arith, length, All}
use agent_vigilo.Prelude.Int.{eqb_ℤ}
use agent_vigilo.Prelude.Text.{Text}
use mathlib.Core.List.{Permᴰ}
use mathlib.Core.Path.{subst₂}
use agent_vigilo.Prelude.Float.{Float}
use agent_vigilo.Scorecard.{ShardScorecard}
use agent_vigilo.Scorecard.Merging.{insert_shard, sort_shards, merge_shard_scorecards}

module _ {W : Type 0} where
  -- No two of the shards have one number.
  abbrev pub Differs : ShardScorecard W → List (ShardScorecard W) → Type 0
  Differs s = All λ t. eqb_ℤ s.run_shard t.run_shard ≡ false

  abbrev pub AreDistinct : List (ShardScorecard W) → Type 0
  AreDistinct [] = Unit
  AreDistinct (s ∷ ss) = Differs s ss × AreDistinct ss

  insert_shard_comm :
      (s t : ShardScorecard W) (ss : List (ShardScorecard W))
      → eqb_ℤ s.run_shard t.run_shard ≡ false
      → insert_shard s (insert_shard t ss) ≡ insert_shard t (insert_shard s ss)
  unfolding insert_shard
  insert_shard_comm s t [] ne = ground arith
  insert_shard_comm s t (u ∷ ss) ne = ground (arith, insert_shard_comm s t ss ne)

  eqb_sym :
      (s t : ShardScorecard W)
      → eqb_ℤ s.run_shard t.run_shard ≡ false
      → eqb_ℤ t.run_shard s.run_shard ≡ false
  eqb_sym s t h = ground arith

  Differs-perm :
      (s : ShardScorecard W) {xs ys : List (ShardScorecard W)}
      → Permᴰ xs ys
      → Differs s xs
      → Differs s ys
  Differs-perm s Permᴰ.nil d = tt
  Differs-perm s (Permᴰ.cons e p) (d, ds) = (rw (← e) d, Differs-perm s p ds)
  Differs-perm s (Permᴰ.swap e e') (d, (d', ds)) = (rw (← e') d', (rw (← e) d, ds))
  Differs-perm s (Permᴰ.trans p q) d = Differs-perm s q (Differs-perm s p d)

  AreDistinct-perm :
      {xs ys : List (ShardScorecard W)} → Permᴰ xs ys → AreDistinct xs → AreDistinct ys
  AreDistinct-perm Permᴰ.nil d = tt
  AreDistinct-perm (Permᴰ.cons {a = a} {b = b} e p) (d, ds) =
      (Differs-perm b p (rw (← e) d), AreDistinct-perm p ds)
  AreDistinct-perm (Permᴰ.swap {a = a} {b = b} {l = l} e e') ((n, d), (d', ds)) =
      subst₂ (λ x y. AreDistinct (x ∷ y ∷ l)) e' e ((eqb_sym a b n, d'), (d, ds))
  AreDistinct-perm (Permᴰ.trans p q) d = AreDistinct-perm q (AreDistinct-perm p d)

  sort_shards-perm :
      {xs ys : List (ShardScorecard W)}
      → Permᴰ xs ys
      → AreDistinct xs
      → sort_shards xs ≡ sort_shards ys
  unfolding sort_shards
  sort_shards-perm Permᴰ.nil d = refl
  sort_shards-perm (Permᴰ.cons e p) (d, ds) = rw (e, sort_shards-perm p ds)
  sort_shards-perm (Permᴰ.swap {a = a} {b = b} {l = l} e e') ((n, d), (d', ds)) =
      rw (← e, ← e') (insert_shard_comm a b (sort_shards l) n)
  sort_shards-perm (Permᴰ.trans p q) d =
      sort_shards-perm p d ∙ sort_shards-perm q (AreDistinct-perm p d)

  length-perm : {xs ys : List (ShardScorecard W)} → Permᴰ xs ys → length xs ≡ length ys
  length-perm Permᴰ.nil = refl
  length-perm (Permᴰ.cons e p) = ap suc (length-perm p)
  length-perm (Permᴰ.swap e e') = refl
  length-perm (Permᴰ.trans p q) = length-perm p ∙ length-perm q

module _ {W : Type 0} ⦃f : Float W⦄ where
  -- Shards with different numbers give one result in whatever order they arrive: the same error, or
  -- the same scorecard, rounding of the score sums included.
  pub merge_shard_scorecards-perm :
      (hash : Text) {xs ys : List (ShardScorecard W)}
      → Permᴰ xs ys
      → AreDistinct xs
      → merge_shard_scorecards hash xs ≡ merge_shard_scorecards hash ys
  unfolding merge_shard_scorecards
  merge_shard_scorecards-perm hash p d = rw (sort_shards-perm p d, length-perm p)
