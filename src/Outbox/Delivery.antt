-- ===== src/Outbox/Delivery.antt =====
-- No event of vigilo/src/db/tables/outbox_events.rs is lost or delivered for ever: the queue has a row for
-- exactly the events that are pending.
use agent_vigilo.Prelude.{
  filter, ℕ, ◌≡◌, refl, sym, ap, ◌∙◌, inl, inr, Bool, true, false, not, ◌&&◌, List, [], ◌∷◌, arith,
  ◌==◌, if◌then◌else◌, ==_iff, Bool-cases, any,
}
use agent_vigilo.Outbox.{
  LedgerRow, DeliveryRow, Tables, update_where, has_id, is_for, is_claimed_by, is_terminal,
}

abbrev pub pending_row : ℕ → LedgerRow → Bool
pending_row id e = has_id id e && not (is_terminal e.status)

unfoldable pub is_pending : ℕ → List LedgerRow → Bool
is_pending id ledger = any (pending_row id) ledger

unfoldable pub is_queued : ℕ → List DeliveryRow → Bool
is_queued id queue = any (is_for id) queue

-- No event has two rows in the queue.
unfoldable pub AreUnique : List DeliveryRow → Type 0
AreUnique [] = Unit
AreUnique (q ∷ qs) = (is_queued q.event_id qs ≡ false) × AreUnique qs

-- The pending events are those in the queue, each once.
unfoldable pub IsConsistent : Tables → Type 0
IsConsistent db = ((id : ℕ) → is_pending id db.ledger ≡ is_queued id db.queue) × AreUnique db.queue

pub any-update_where :
    {A : Type 0} (p c : A → Bool) (f : A → A) (xs : List A)
    → ((x : A) → p (f x) ≡ p x)
    → any p (update_where c f xs) ≡ any p xs
unfolding update_where
any-update_where p c f [] same = refl
any-update_where p c f (x ∷ xs) same = ground (arith, same x, any-update_where p c f xs same)

kept_id :
    (b : Bool) (r q : DeliveryRow)
    → r.event_id ≡ q.event_id
    → (if b then r else q).event_id ≡ q.event_id
kept_id true r q same = same
kept_id false r q same = refl

pub update_where-AreUnique :
    (c : DeliveryRow → Bool) (f : DeliveryRow → DeliveryRow) (qs : List DeliveryRow)
    → ((q : DeliveryRow) → (f q).event_id ≡ q.event_id)
    → AreUnique qs
    → AreUnique (update_where c f qs)
unfolding update_where AreUnique is_queued
update_where-AreUnique c f [] same u = tt
update_where-AreUnique c f (q ∷ qs) same (fresh, u) = (
  ap (λ n. is_queued n (update_where c f qs)) (kept_id (c q) (f q) q (same q))
      ∙ any-update_where (is_for q.event_id) c f qs (λ x. ap (λ n. n == q.event_id) (same x))
      ∙ fresh,
  update_where-AreUnique c f qs same u,
)

pub filtered_out :
    (id : ℕ) (p : DeliveryRow → Bool) (qs : List DeliveryRow)
    → is_queued id qs ≡ false
    → is_queued id (filter p qs) ≡ false
unfolding filter is_queued
filtered_out id p [] h = refl
filtered_out id p (q ∷ qs) h = ground (arith, filtered_out id p qs)

pub filter-AreUnique :
    (p : DeliveryRow → Bool) (qs : List DeliveryRow) → AreUnique qs → AreUnique (filter p qs)
unfolding filter AreUnique
filter-AreUnique p [] u = tt
filter-AreUnique p (q ∷ qs) (fresh, u) = elim (Bool-cases (p q)) [
  | inl kept ↦ rw (filter, kept) (filtered_out q.event_id p qs fresh, filter-AreUnique p qs u)
  | inr dropped ↦ rw (filter, dropped) (filter-AreUnique p qs u)
]

pub claimed_queued :
    (id token : ℕ) (qs : List DeliveryRow)
    → any (is_claimed_by id token) qs ≡ true
    → is_queued id qs ≡ true
unfolding is_queued
claimed_queued id token [] h = cc
claimed_queued id token (q ∷ qs) h = ground (arith, claimed_queued id token qs)

unclaimed_queue :
    (id token i : ℕ) (qs : List DeliveryRow)
    → is_queued id qs ≡ false
    → is_queued i (filter (λ q. not (is_claimed_by id token q)) qs) ≡ is_queued i qs
unfolding is_queued filter
unclaimed_queue id token i [] h = refl
unclaimed_queue id token i (q ∷ qs) h = ground (arith, unclaimed_queue id token i qs)

-- The claimed row of an event is its only row, so nothing of the event is left in the queue.
pub marked_queue :
    (id token i : ℕ) (qs : List DeliveryRow)
    → AreUnique qs
    → any (is_claimed_by id token) qs ≡ true
    → is_queued i (filter (λ q. not (is_claimed_by id token q)) qs)
      ≡ (if i == id then false else is_queued i qs)
unfolding is_queued filter AreUnique
marked_queue id token i [] u h = ground arith
marked_queue id token i (q ∷ qs) (fresh, u) h = elim (Bool-cases (q.event_id == id)) [
  | inl own ↦
      let none_left : is_queued id qs ≡ false =
        ap (λ n. is_queued n qs) (sym ((==_iff q.event_id id).0 own)) ∙ fresh in
      ground (arith, claimed_queued id token qs, unclaimed_queue id token i qs none_left)
  | inr other ↦ ground (arith, marked_queue id token i qs u)
]

pub removed_queue :
    (id i : ℕ) (qs : List DeliveryRow)
    → is_queued i (filter (λ q. not (is_for id q)) qs) ≡ (if i == id then false else is_queued i qs)
unfolding is_queued filter
removed_queue id i [] = ground arith
removed_queue id i (q ∷ qs) = ground (arith, removed_queue id i qs)

pub removed_ledger :
    (id i : ℕ) (es : List LedgerRow)
    → is_pending i (filter (λ e. not (has_id id e)) es)
      ≡ (if i == id then false else is_pending i es)
unfolding is_pending filter
removed_ledger id i [] = ground arith
removed_ledger id i (e ∷ es) = ground (arith, removed_ledger id i es)

pub ended_ledger :
    (id i : ℕ) (f : LedgerRow → LedgerRow) (es : List LedgerRow)
    → ((e : LedgerRow) → ((f e).id ≡ e.id) × (is_terminal (f e).status ≡ true))
    → is_pending i (update_where (has_id id) f es) ≡ (if i == id then false else is_pending i es)
unfolding is_pending update_where
ended_ledger id i f [] ends = ground arith
ended_ledger id i f (e ∷ es) ends = ground (arith, ends e, ended_ledger id i f es ends)
