-- ===== src/Outbox/Drain.antt =====
-- A whole publishing pass of vigilo/src/outbox.rs that nothing disturbs.
use agent_vigilo.Prelude.{
  filter-All, filter, ℕ, ◌≤◌, ◌≡◌, refl, sym, ap, ◌∙◌, inl, inr, Bool, true, false, not, ◌&&◌, none,
  some, List, [], ◌∷◌, arith, leb, ◌==◌, ==_iff, Bool-cases, any, All, All-map,
}
use agent_vigilo.Outbox.{
  LedgerRow, published, has_id, DeliveryRow, Tables, OutboxEvent, update_where, first_rows, is_for,
  count_publishable_outbox_backlog, order_rows, lease_row, claim_publishable_outbox_events,
}
use agent_vigilo.Outbox.Publisher.{
  OutboxPublisherConfig, Surroundings, initial_stats, publish_pending_events,
}
use mathlib.Core.Path.{subst}
use mathlib.Core.List.Permᴰ
use agent_vigilo.Outbox.Window.{any-perm, All-perm}
use agent_vigilo.Outbox.Accounting.{publish_pending_events_counts}
use agent_vigilo.Outbox.Delivery.{is_pending, is_queued, IsConsistent, any-update_where}
use agent_vigilo.Outbox.Consistency.{run_statement, claim-IsConsistent}
use agent_vigilo.Outbox.Rows.{
  any-order_rows, All-order_rows, length-order_rows, length-filter, any-filter, any-same,
  first_rows_all, leased_tokens, join_rows-All, join_rows-any,
}
use agent_vigilo.Outbox.Progress.{HasToken, IsDelivered, settle_events-IsDelivered}

any-implies :
    (id now : ℕ) (qs : List DeliveryRow)
    → any (λ q. is_for id q && leb q.available_at now) qs ≡ true
    → any (is_for id) qs ≡ true
any-implies id now [] h = cc
any-implies id now (q ∷ qs) h = ground (arith, any-implies id now qs)

own_row :
    (id : ℕ) (is_in : ℕ → Bool) (q : DeliveryRow)
    → is_in id ≡ true
    → (is_for id q && is_in q.event_id) ≡ is_for id q
own_row id is_in q inside = elim (Bool-cases (is_for id q)) [
  | inl own ↦ let same = ap is_in ((==_iff q.event_id id).0 own) ∙ inside in rw (own, same) refl
  | inr other ↦ rw other refl
]

-- The claim, with its selected rows named.
module _ (now limit lease : ℕ) (locked : ℕ → Bool) (token : ℕ → ℕ) (db : Tables) where
  abbrev selected : List DeliveryRow
  selected =
      first_rows limit
        (order_rows (filter (λ q. leb q.available_at now && not (locked q.event_id)) db.queue))

  abbrev is_in : ℕ → Bool
  is_in id = any (is_for id) selected

  abbrev leased : List DeliveryRow
  leased = update_where (λ q. is_in q.event_id) (lease_row now lease token) db.queue

  abbrev claimed : List OutboxEvent × Tables
  claimed = claim_publishable_outbox_events now limit lease locked token db

  claimed-HasToken : All (HasToken claimed.1.queue) claimed.0
  unfolding claim_publishable_outbox_events HasToken
  claimed-HasToken =
      let tokens = leased_tokens is_in now lease token db.queue in
      let both =
        join_rows-All (λ q. (is_in q.event_id ≡ true) × (q.claim_token ≡ some (token q.event_id)))
          db.ledger (order_rows (filter (λ q. is_in q.event_id) leased))
          (All-order_rows _ _ (
            All-map (λ q h. (h.0, h.1 h.0)) _
              (filter-All _ (λ q. is_in q.event_id) leased tokens))) in
      All-map
        (λ e h. (
          token e.delivery.event_id,
          h.0.1,
          All-map
              (λ q known own.
                let same = (==_iff q.event_id e.row.id).0 own ∙ h.1 in
                known (ap is_in same ∙ h.0.0) ∙ ap (λ i. some (token i)) same)
              leased tokens,
        ))
        _ both

  -- Every event that was available is claimed, when the batch is large enough and no row is locked.
  claims_available :
      (id : ℕ)
      → ((i : ℕ) → locked i ≡ false)
      → count_publishable_outbox_backlog now db ≤ limit
      → is_pending id db.ledger ≡ true
      → any (λ q. is_for id q && leb q.available_at now) db.queue ≡ true
      → any (λ e. e.row.id == id) claimed.0 ≡ true
  unfolding claim_publishable_outbox_events count_publishable_outbox_backlog lease_row
  claims_available id free fits known there =
      let available : DeliveryRow → Bool = λ q. leb q.available_at now && not (locked q.event_id) in
      let all_selected : selected ≡ order_rows (filter available db.queue) =
        first_rows_all limit (order_rows (filter available db.queue)) (
          omega (
            arith,
            fits,
            length-order_rows (filter available db.queue),
            length-filter available (λ q. leb q.available_at now) db.queue
                (λ q. ground (arith, free q.event_id)),
          )) in
      let inside : is_in id ≡ true =
        ap (any (is_for id)) all_selected
        ∙ any-order_rows (is_for id) (filter available db.queue)
        ∙ any-filter (is_for id) available db.queue
        ∙ any-same _ _ db.queue (λ q. ground (arith, free q.event_id))
        ∙ there in
      let queued : any (is_for id) db.queue ≡ true = any-implies id now db.queue there in
      join_rows-any id db.ledger (order_rows (filter (λ q. is_in q.event_id) leased)) known (
        any-order_rows (is_for id) (filter (λ q. is_in q.event_id) leased)
        ∙ any-filter (is_for id) (λ q. is_in q.event_id) leased
        ∙ any-update_where (λ q. is_for id q && is_in q.event_id) (λ q. is_in q.event_id)
            (lease_row now lease token) db.queue (λ q. refl)
        ∙ any-same (λ q. is_for id q && is_in q.event_id) (is_for id) db.queue
            (λ q. own_row id is_in q inside)
        ∙ queued)

known_row : (id : ℕ) (es : List LedgerRow) → is_pending id es ≡ true → any (has_id id) es ≡ true
unfolding is_pending
known_row id [] h = cc
known_row id (e ∷ es) h = ground (arith, known_row id es)

-- On consistent tables, when the broker accepts every event, no row is locked and no other
-- transaction changes the tables during the pass, a pass whose batch is at least as large as the
-- backlog delivers the backlog, with any parallelism and whichever publication in flight completes
-- next: an event that was available before is afterwards not in the queue, and the ledger has a row
-- for it, published at the time of its transaction and without an error.
pub publish_pending_events_drains :
    (s : Surroundings) (now : ℕ) (locked : ℕ → Bool) (token : ℕ → ℕ)
    (config : OutboxPublisherConfig) (db : Tables) (id : ℕ)
    → ((e : OutboxEvent) → s.publish e ≡ none)
    → ((e : OutboxEvent) (tables : Tables) → s.others e tables ≡ tables)
    → ((i : ℕ) → locked i ≡ false)
    → IsConsistent db
    → count_publishable_outbox_backlog now db ≤ config.batch_size
    → any (λ q. is_for id q && leb q.available_at now) db.queue ≡ true
    → let after = (publish_pending_events s now locked token config db).1 in
      (is_queued id after.queue ≡ false)
      × (any (has_id id) after.ledger ≡ true)
      × All
          (λ e.
            has_id id e ≡ true
            → (e.status ≡ published)
              × (e.published_at ≡ some (s.time id))
              × (e.error_message ≡ none))
          after.ledger
unfolding IsConsistent IsDelivered run_statement is_queued claim_publishable_outbox_events
publish_pending_events_drains s now locked token config db id accepts alone free (same, unique) fits
      there =
    let lease = config.lease_seconds in
    let limit = config.batch_size in
    let claim = claimed now limit lease locked token db in
    let known : is_pending id db.ledger ≡ true = same id ∙ any-implies id now db.queue there in
    let queued : is_queued id claim.1.queue ≡ true =
      sym ((claim-IsConsistent now limit lease locked token db (same, unique)).0 id) ∙ known in
    let among : any (λ e. e.row.id == id) claim.0 ≡ true =
      claims_available now limit lease locked token db id free fits known there in
    let (order, perm, run, counted, total) =
      publish_pending_events_counts s now locked token config db in
    let (left, delivered, ids) =
      settle_events-IsDelivered s config.retry_delay_seconds accepts alone order
        (initial_stats claim.0) claim.1 id
        (All-perm (HasToken claim.1.queue) (Permᴰ.symm perm)
          (claimed-HasToken now limit lease locked token db))
        (inl (any-perm (λ e. e.row.id == id) perm ∙ among, queued)) in
    (
      ap (λ r. is_queued id r.1.queue) run ∙ left,
      ap (λ r. any (has_id id) r.1.ledger) run ∙ ids ∙ known_row id db.ledger known,
      subst (λ r. IsDelivered id (s.time id) r.1.ledger) (sym run) delivered,
    )
