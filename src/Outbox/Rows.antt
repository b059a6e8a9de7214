-- ===== src/Outbox/Rows.antt =====
-- The rows that the claim of vigilo/src/db/tables/outbox_events.rs selects, orders, leases and joins.
use agent_vigilo.Prelude.{
  filter, ℕ, zero, suc, ◌≤◌, ◌≡◌, refl, sym, ap, ◌∙◌, inl, inr, Bool, true, false, ◌&&◌, ◌||◌, some,
  List, [], ◌∷◌, arith, ltb, ◌==◌, if◌then◌else◌, ==_iff, Bool-cases, Option-cases, length, any,
  All,
}
use agent_vigilo.Outbox.{
  LedgerRow, DeliveryRow, update_where, count_where, first_rows, first_row, has_id, is_for,
  select_outbox_event_by_id, insert_row, order_rows, lease_row, join_rows,
}
use agent_vigilo.Outbox.Delivery.{is_pending}

any-insert_row :
    (p : DeliveryRow → Bool) (q : DeliveryRow) (rs : List DeliveryRow)
    → any p (insert_row q rs) ≡ (p q || any p rs)
unfolding insert_row
any-insert_row p q [] = refl
any-insert_row p q (r ∷ rs) = ground (arith, any-insert_row p q rs)

pub any-order_rows :
    (p : DeliveryRow → Bool) (qs : List DeliveryRow) → any p (order_rows qs) ≡ any p qs
unfolding order_rows
any-order_rows p [] = refl
any-order_rows p (q ∷ qs) =
    any-insert_row p q (order_rows qs) ∙ ap (λ b. p q || b) (any-order_rows p qs)

All-insert_row :
    (P : DeliveryRow → Type 0) (q : DeliveryRow) (rs : List DeliveryRow)
    → P q
    → All P rs
    → All P (insert_row q rs)
unfolding insert_row
All-insert_row P q [] h u = (h, tt)
All-insert_row P q (r ∷ rs) h (k, u) =
    elim (Bool-cases (
      ltb r.available_at q.available_at
      || ((r.available_at == q.available_at) && ltb r.event_id q.event_id))) [
        | inl behind ↦ rw (insert_row, behind) (k, All-insert_row P q rs h u)
        | inr front ↦ rw (insert_row, front) (h, (k, u))
      ]

pub All-order_rows :
    (P : DeliveryRow → Type 0) (qs : List DeliveryRow) → All P qs → All P (order_rows qs)
unfolding order_rows
All-order_rows P [] u = tt
All-order_rows P (q ∷ qs) (h, u) = All-insert_row P q (order_rows qs) h (All-order_rows P qs u)

length-insert_row :
    (q : DeliveryRow) (rs : List DeliveryRow) → length (insert_row q rs) ≡ suc (length rs)
unfolding insert_row
length-insert_row q [] = refl
length-insert_row q (r ∷ rs) = ground (arith, length-insert_row q rs)

pub length-order_rows : (qs : List DeliveryRow) → length (order_rows qs) ≡ length qs
unfolding order_rows
length-order_rows [] = refl
length-order_rows (q ∷ qs) = length-insert_row q (order_rows qs) ∙ ap suc (length-order_rows qs)

pub length-filter :
    (p r : DeliveryRow → Bool) (qs : List DeliveryRow)
    → ((q : DeliveryRow) → p q ≡ r q)
    → length (filter p qs) ≡ count_where r qs
unfolding filter count_where
length-filter p r [] same = refl
length-filter p r (q ∷ qs) same = ground (arith, same q, length-filter p r qs same)

pub any-filter :
    (p c : DeliveryRow → Bool) (qs : List DeliveryRow)
    → any p (filter c qs) ≡ any (λ q. p q && c q) qs
unfolding filter
any-filter p c [] = refl
any-filter p c (q ∷ qs) = ground (arith, any-filter p c qs)

pub first_rows_all : (n : ℕ) (qs : List DeliveryRow) → length qs ≤ n → first_rows n qs ≡ qs
unfolding first_rows
first_rows_all zero [] h = refl
first_rows_all zero (q ∷ qs) h = absurd (omega arith)
first_rows_all (suc n) [] h = refl
first_rows_all (suc n) (q ∷ qs) h = ap (λ rs. q ∷ rs) (first_rows_all n qs (omega arith))

-- A leased row has the token that was drawn for it.
pub leased_tokens :
    (is_in : ℕ → Bool) (now lease : ℕ) (token : ℕ → ℕ) (qs : List DeliveryRow)
    → All
        (λ q. is_in q.event_id ≡ true → q.claim_token ≡ some (token q.event_id))
        (update_where (λ q. is_in q.event_id) (lease_row now lease token) qs)
unfolding update_where lease_row
leased_tokens is_in now lease token [] = tt
leased_tokens is_in now lease token (q ∷ qs) =
    (leased (is_in q.event_id) refl, leased_tokens is_in now lease token qs)
  where
    leased :
        (b : Bool)
        → is_in q.event_id ≡ b
        → is_in (if b then lease_row now lease token q else q).event_id ≡ true
        → (if b then lease_row now lease token q else q).claim_token
          ≡ some (token (if b then lease_row now lease token q else q).event_id)
    leased true e h = refl
    leased false e h = cc

pub any-same :
    (p r : DeliveryRow → Bool) (qs : List DeliveryRow)
    → ((q : DeliveryRow) → p q ≡ r q)
    → any p qs ≡ any r qs
any-same p r [] same = refl
any-same p r (q ∷ qs) same = ground (arith, same q, any-same p r qs same)

-- The row that a select by id finds has the id, and a pending event is found.
row_found :
    (id : ℕ) (es : List LedgerRow) {e : LedgerRow}
    → first_row (filter (has_id id) es) ≡ some e
    → e.id ≡ id
unfolding first_row filter
row_found id [] h = cc
row_found id (e' ∷ es) {e} h = elim (Bool-cases (has_id id e')) [
  | inl own ↦
      let same : e' ≡ e = ground arith in sym (ap (λ r. r.id) same) ∙ (==_iff e'.id id).0 own
  | inr other ↦ row_found id es (rw (filter, other) at h)
]

row_pending :
    (id : ℕ) (es : List LedgerRow)
    → is_pending id es ≡ true
    → (e : LedgerRow) × (first_row (filter (has_id id) es) ≡ some e)
unfolding is_pending first_row filter
row_pending id [] h = cc
row_pending id (e ∷ es) h = elim (Bool-cases (has_id id e)) [
  | inl own ↦ (e, rw (filter, own, first_row) refl)
  | inr other ↦
      let (found, same) = row_pending id es (ground arith) in (found, rw (filter, other) same)
]

-- What is known of the rows is known of the joined events, which carry the ids of their rows.
pub join_rows-All :
    (P : DeliveryRow → Type 0) (ledger : List LedgerRow) (qs : List DeliveryRow)
    → All P qs
    → All (λ e. P e.delivery × (e.row.id ≡ e.delivery.event_id)) (join_rows ledger qs)
unfolding join_rows select_outbox_event_by_id
join_rows-All P ledger [] u = tt
join_rows-All P ledger (q ∷ qs) (h, u) =
    elim (Option-cases (first_row (filter (has_id q.event_id) ledger))) [
      | inl gone ↦ rw (join_rows, select_outbox_event_by_id, gone) (join_rows-All P ledger qs u)
      | inr (e, there) ↦
          rw (join_rows, select_outbox_event_by_id, there)
            ((h, row_found q.event_id ledger there), join_rows-All P ledger qs u)
    ]

or_true : (b : Bool) → (b || true) ≡ true
or_true true = refl
or_true false = refl

pub join_rows-any :
    (id : ℕ) (ledger : List LedgerRow) (qs : List DeliveryRow)
    → is_pending id ledger ≡ true
    → any (is_for id) qs ≡ true
    → any (λ e. e.row.id == id) (join_rows ledger qs) ≡ true
unfolding join_rows select_outbox_event_by_id
join_rows-any id ledger [] known h = cc
join_rows-any id ledger (q ∷ qs) known h = elim (Bool-cases (q.event_id == id)) [
  | inl own ↦
      let same = (==_iff q.event_id id).0 own in
      let (e, there) = row_pending q.event_id ledger (ap (λ i. is_pending i ledger) same ∙ known) in
      let named : (e.id == id) ≡ true =
        (==_iff e.id id).1 (row_found q.event_id ledger there ∙ same) in
      rw (join_rows, select_outbox_event_by_id, there, named) refl
  | inr other ↦
      let rest = join_rows-any id ledger qs known (ground arith) in
      elim (Option-cases (first_row (filter (has_id q.event_id) ledger))) [
        | inl gone ↦ rw (join_rows, select_outbox_event_by_id, gone) rest
        | inr (e, there) ↦
            rw (join_rows, select_outbox_event_by_id, there, rest) (or_true (e.id == id))
      ]
]
