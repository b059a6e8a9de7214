-- ===== src/Cache/Room.antt =====
-- The eviction of the read cache of vigilo/src/case_reader/cache.rs.
use agent_vigilo.Prelude.{
  ℕ, ◌+◌, ◌≤◌, ◌<◌, ◌≡◌, refl, ap, inl, inr, ◌||◌, some, List, [], ◌∷◌, ◌++◌, arith, ltb, leb,
  Bool-cases, length,
}
use agent_vigilo.Cache.{Entry, capacity, max_entries, make_room}
use agent_vigilo.Cache.Entries.{total}

-- For every charge within the capacity, and a cache charged with its entries, the eviction ends
-- before the cache is empty of entries to remove: it drops the oldest entries and keeps the others
-- as they stand, the new charge fits behind them, and one more entry does too.
pub make_room-fits :
    (charge : ℕ) (es : List Entry)
    → charge ≤ capacity
    → (dropped : List Entry) × (kept : List Entry) × (make_room charge (total es) es
        ≡ some (kept, total kept))
      × (es ≡ dropped ++ kept)
      × (total kept + charge ≤ capacity)
      × (length kept < max_entries)
unfolding make_room total
make_room-fits charge [] h = ([], [], ground arith, refl, omega arith, omega arith)
make_room-fits charge (old ∷ es) h =
    let (dropped, kept, e, split, fits, few) = make_room-fits charge es h in
    elim (Bool-cases
      (ltb capacity (total (old ∷ es) + charge) || leb max_entries (length (old ∷ es)))) [
        | inl full ↦ (old ∷ dropped, kept, ground arith, ap (λ xs. old ∷ xs) split, fits, few)
        | inr room ↦ ([], old ∷ es, ground arith, refl, ground arith, ground arith)
      ]
