-- ===== src/Outbox/Progress.antt =====
-- The settlement of claimed events in vigilo/src/outbox.rs, when the broker accepts them.
use agent_vigilo.Prelude.{
  filter-All, filter, ℕ, ◌≡◌, refl, sym, ap, ◌∙◌, ◌⊎◌, inl, inr, true, false, not, none, some, List,
  [], ◌∷◌, arith, ◌==◌, ==_iff, ==_refl, Bool-cases, any, All, All-map,
}
use agent_vigilo.Outbox.{
  LedgerRow, DeliveryRow, Tables, OutboxEvent, published, update_where, has_id, is_for,
  is_claimed_by, mark_outbox_event_published,
}
use agent_vigilo.Outbox.Publisher.{
  OutboxPublishStats, publish_claimed_event, count_outcome, Surroundings, settle_event,
}
use mathlib.Core.Path.{subst}
use agent_vigilo.Outbox.Delivery.{is_queued, filtered_out, any-update_where}
use agent_vigilo.Outbox.Window.{settle_events}

-- The rows of an event have the token of its claim.
unfoldable pub HasToken : List DeliveryRow → OutboxEvent → Type 0
HasToken queue e =
    (t : ℕ) × (e.delivery.claim_token ≡ some t)
    × All (λ q. is_for e.row.id q ≡ true → q.claim_token ≡ some t) queue

claimed_row :
    (id t : ℕ) (q : DeliveryRow)
    → is_for id q ≡ true
    → q.claim_token ≡ some t
    → is_claimed_by id t q ≡ true
claimed_row id t q own token = rw (own, token) (==_refl t)

-- Behind the publication of a claim, the queue has no row of its event.
owned_queue :
    (id t : ℕ) (qs : List DeliveryRow)
    → All (λ q. is_for id q ≡ true → q.claim_token ≡ some t) qs
    → (is_queued id (filter (λ q. not (is_claimed_by id t q)) qs) ≡ false)
      × (any (is_claimed_by id t) qs ≡ false → is_queued id qs ≡ false)
unfolding is_queued filter
owned_queue id t [] u = (refl, λ h. refl)
owned_queue id t (q ∷ qs) (own, u) =
    let (gone, absent) = owned_queue id t qs u in
    elim (Bool-cases (is_for id q)) [
      | inl mine ↦
          let claimed = claimed_row id t q mine (own mine) in
          (rw (filter, claimed) gone, λ h. absurd (ground arith))
      | inr other ↦ (ground arith, λ h. ground arith)
    ]

-- The rows of an event that was delivered at a time.
unfoldable pub IsDelivered : ℕ → ℕ → List LedgerRow → Type 0
IsDelivered id time ledger =
    All
      (λ e.
        has_id id e ≡ true
        → (e.status ≡ published) × (e.published_at ≡ some time) × (e.error_message ≡ none))
      ledger

-- The update of a publication.
abbrev mark_row : ℕ → LedgerRow → LedgerRow
mark_row now e = record e {
  status = published;
  published_at = some now;
  error_message = none;
  updated_at = now;
}

marked-IsDelivered :
    (id now : ℕ) (es : List LedgerRow)
    → IsDelivered id now (update_where (has_id id) (mark_row now) es)
unfolding IsDelivered update_where
marked-IsDelivered id now [] = tt
marked-IsDelivered id now (e ∷ es) = (λ own. ground arith, marked-IsDelivered id now es)

other-IsDelivered :
    (id i time now : ℕ) (es : List LedgerRow)
    → (id == i) ≡ false
    → IsDelivered i time es
    → IsDelivered i time (update_where (has_id id) (mark_row now) es)
unfolding IsDelivered update_where
other-IsDelivered id i time now [] ne u = tt
other-IsDelivered id i time now (e ∷ es) ne (own, u) =
    (λ mine. ground (arith, own), other-IsDelivered id i time now es ne u)

other_queued :
    (id t i : ℕ) (qs : List DeliveryRow)
    → (id == i) ≡ false
    → is_queued i qs ≡ true
    → is_queued i (filter (λ q. not (is_claimed_by id t q)) qs) ≡ true
unfolding is_queued filter
other_queued id t i [] ne h = cc
other_queued id t i (q ∷ qs) ne h = ground (arith, other_queued id t i qs)

module _ (s : Surroundings) (delay : ℕ) (accepts : (e : OutboxEvent) → s.publish e ≡ none)
    (alone : (e : OutboxEvent) (db : Tables) → s.others e db ≡ db) where
  unfoldable after_event : OutboxEvent → Tables → Tables
  after_event e db = (publish_claimed_event s.publish (s.time e.row.id) delay e db).1

  after_event-mark :
      (e : OutboxEvent) (db : Tables) (t : ℕ)
      → e.delivery.claim_token ≡ some t
      → after_event e db ≡ (mark_outbox_event_published (s.time e.row.id) e.row.id t db).1
  unfolding after_event publish_claimed_event
  after_event-mark e db t token = rw (after_event, publish_claimed_event, token, accepts e) refl

  -- The queue after the event, and which rows it keeps.
  settled_queue :
      (e : OutboxEvent) (db : Tables)
      → HasToken db.queue e
      → (is_queued e.row.id (after_event e db).queue ≡ false)
        × ((id : ℕ) → is_queued id db.queue ≡ false → is_queued id (after_event e db).queue ≡ false)
        × ((P : DeliveryRow → Type 0) → All P db.queue → All P (after_event e db).queue)
  unfolding mark_outbox_event_published HasToken
  settled_queue e db (t, token, own) =
      let (gone, absent) = owned_queue e.row.id t db.queue own in
      elim (Bool-cases (any (is_claimed_by e.row.id t) db.queue)) [
        | inl mine ↦
            rw (after_event-mark e db t token, mark_outbox_event_published, mine)
              (
                gone,
                λ id h. filtered_out id _ db.queue h,
                λ P u. All-map (λ q h. h.1) _ (filter-All P _ db.queue u),
              )
        | inr stale ↦
            rw (after_event-mark e db t token, mark_outbox_event_published, stale)
              (absent stale, (λ id h. h), λ P u. u)
      ]

  -- The ledger after the event: its own rows are delivered when it was queued, and what was
  -- delivered or queued of another event stays so.
  settled_ledger :
      (e : OutboxEvent) (db : Tables)
      → HasToken db.queue e
      → (is_queued e.row.id db.queue ≡ true
          → IsDelivered e.row.id (s.time e.row.id) (after_event e db).ledger)
        × ((i : ℕ)
            → (e.row.id == i) ≡ false
            → IsDelivered i (s.time i) db.ledger
            → IsDelivered i (s.time i) (after_event e db).ledger)
        × ((i : ℕ)
            → (e.row.id == i) ≡ false
            → is_queued i db.queue ≡ true
            → is_queued i (after_event e db).queue ≡ true)
        × (IsDelivered e.row.id (s.time e.row.id) db.ledger
            → IsDelivered e.row.id (s.time e.row.id) (after_event e db).ledger)
        × ((i : ℕ) → any (has_id i) (after_event e db).ledger ≡ any (has_id i) db.ledger)
  unfolding mark_outbox_event_published HasToken
  settled_ledger e db (t, token, own) =
      let (gone, absent) = owned_queue e.row.id t db.queue own in
      let id = e.row.id in
      let now = s.time id in
      elim (Bool-cases (any (is_claimed_by id t) db.queue)) [
        | inl mine ↦
            rw (after_event-mark e db t token, mark_outbox_event_published, mine)
              (
                λ queued. marked-IsDelivered id now db.ledger,
                λ i ne u. other-IsDelivered id i (s.time i) now db.ledger ne u,
                λ i ne h. other_queued id t i db.queue ne h,
                λ u. marked-IsDelivered id now db.ledger,
                λ i. any-update_where (has_id i) (has_id id) (mark_row now) db.ledger (λ r. refl),
              )
        | inr stale ↦
            rw (after_event-mark e db t token, mark_outbox_event_published, stale)
              (
                λ queued. absurd (cc (queued, absent stale)),
                (λ i ne u. u),
                (λ i ne h. h),
                (λ u. u),
                λ i. refl,
              )
      ]

  -- An event that still has to settle and is queued, or one that was delivered and left the queue.
  abbrev InPass : ℕ → List OutboxEvent → Tables → Type 0
  InPass id es db =
      ((any (λ e. e.row.id == id) es ≡ true) × (is_queued id db.queue ≡ true))
      ⊎ ((is_queued id db.queue ≡ false) × IsDelivered id (s.time id) db.ledger)

  InPass-step :
      (id : ℕ) (e : OutboxEvent) (es : List OutboxEvent) (db : Tables)
      → HasToken db.queue e
      → InPass id (e ∷ es) db
      → InPass id es (after_event e db)
  InPass-step id e es db own there =
      let (gone, fewer, rows) = settled_queue e db own in
      let (made, others, queued, again, ids) = settled_ledger e db own in
      let after = after_event e db in
      elim (Bool-cases (e.row.id == id)) [
        | inl same ↦
            let eq : e.row.id ≡ id = (==_iff e.row.id id).0 same in
            inr (
              subst (λ i. (is_queued i after.queue ≡ false) × IsDelivered i (s.time i) after.ledger)
                eq
                (
                  gone,
                  elim there [
                    | inl (among, waits) ↦ made (ap (λ i. is_queued i db.queue) eq ∙ waits)
                    | inr (left, done) ↦
                        again (subst (λ i. IsDelivered i (s.time i) db.ledger) (sym eq) done)
                  ],
                ))
        | inr other ↦ elim there [
          | inl (among, waits) ↦ inl (ground arith, queued id other waits)
          | inr (left, done) ↦ inr (fewer id left, others id other done)
        ]
      ]

  -- An event that is queued and among those that settle is delivered and no longer queued.
  pub settle_events-IsDelivered :
      (es : List OutboxEvent) (stats : OutboxPublishStats) (db : Tables) (id : ℕ)
      → All (HasToken db.queue) es
      → InPass id es db
      → let after = (settle_events s delay es (stats, db)).1 in
        (is_queued id after.queue ≡ false)
        × IsDelivered id (s.time id) after.ledger
        × (any (has_id id) after.ledger ≡ any (has_id id) db.ledger)
  unfolding settle_events settle_event HasToken after_event
  settle_events-IsDelivered [] stats db id u (inl h) = absurd (cc (h.0))
  settle_events-IsDelivered [] stats db id u (inr (left, done)) = (left, done, refl)
  settle_events-IsDelivered (e ∷ es) stats db id (own, u) there =
      let (gone, fewer, rows) = settled_queue e db own in
      let (made, others, queued, again, ids) = settled_ledger e db own in
      let (out, done, known) =
        settle_events-IsDelivered es
          (count_outcome (publish_claimed_event s.publish (s.time e.row.id) delay e db).0 stats)
          (after_event e db) id (All-map (λ f h. (h.0, h.1, rows _ h.2)) es u)
          (InPass-step id e es db own there) in
      rw (settle_events, settle_event, alone e db) (out, done, known ∙ ids id)
