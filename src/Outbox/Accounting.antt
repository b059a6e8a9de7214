-- ===== src/Outbox/Accounting.antt =====
-- The counts of one publishing pass of vigilo/src/outbox.rs, and what a stale claim can do.
use agent_vigilo.Prelude.{
  filter, ℕ, suc, ◌+◌, ◌<◌, max, ◌≡◌, refl, ap, ◌∙◌, inl, inr, Bool, false, not, List, [], ◌∷◌,
  arith, ◌==◌, if◌then◌else◌, ==_refl, Bool-cases, length, any,
}
use agent_vigilo.Prelude.Text.{Text}
use agent_vigilo.Outbox.Delivery.{is_queued, IsConsistent, claimed_queued, marked_queue}
use agent_vigilo.Outbox.{
  OutboxEvent, Tables, DeliveryRow, is_claimed_by, mark_outbox_event_published,
  reschedule_outbox_event, claim_publishable_outbox_events,
}
use agent_vigilo.Outbox.Publisher.{
  OutboxPublisherConfig, OutboxPublishStats, OutboxPublishOutcome, publish_claimed_event,
  count_outcome, Surroundings, settle_event, initial_stats, publish_pending_events,
}
use mathlib.Core.List.{Permᴰ}
use agent_vigilo.Outbox.Window.{length-perm, settle_events, publish_loop-settles}

-- The outcomes counted so far.
abbrev outcomes : OutboxPublishStats → ℕ
outcomes s = s.published_events + s.failed_events + s.stale_event_claims

count_outcome_total :
    (o : OutboxPublishOutcome) (s : OutboxPublishStats)
    → (outcomes (count_outcome o s) ≡ suc (outcomes s))
      × ((count_outcome o s).claimed_events ≡ s.claimed_events)
unfolding count_outcome
count_outcome_total o s = ground arith

settle_events_total :
    (s : Surroundings) (delay : ℕ) (es : List OutboxEvent) (stats : OutboxPublishStats)
    (db : Tables)
    → (outcomes (settle_events s delay es (stats, db)).0 ≡ length es + outcomes stats)
      × ((settle_events s delay es (stats, db)).0.claimed_events ≡ stats.claimed_events)
unfolding settle_events settle_event
settle_events_total s delay [] stats db = (omega arith, refl)
settle_events_total s delay (e ∷ es) stats db =
    let settled = publish_claimed_event s.publish (s.time e.row.id) delay e (s.others e db) in
    let (counted, claimed) = count_outcome_total settled.0 stats in
    let (total, kept) = settle_events_total s delay es (count_outcome settled.0 stats) settled.1 in
    (omega (arith, total, counted), kept ∙ claimed)

-- Whatever the broker answers, with any parallelism, 0 included, whichever publication in flight
-- completes next, and whatever other transactions do to the tables in between: the pass settles
-- every claimed event exactly once, in some order of the claimed events, and counts each once, as
-- published, failed or stale.
pub publish_pending_events_counts :
    (s : Surroundings) (now : ℕ) (locked : ℕ → Bool) (token : ℕ → ℕ)
    (config : OutboxPublisherConfig) (db : Tables)
    → let claim =
        claim_publishable_outbox_events now config.batch_size config.lease_seconds locked token
          db in
      let pass = publish_pending_events s now locked token config db in
      (order : List OutboxEvent) × Permᴰ order claim.0
      × (pass ≡ settle_events s config.retry_delay_seconds order (initial_stats claim.0, claim.1))
      × (pass.0.claimed_events ≡ length claim.0)
      × (pass.0.published_events + pass.0.failed_events + pass.0.stale_event_claims
          ≡ length claim.0)
unfolding publish_pending_events
publish_pending_events_counts s now locked token config db =
    let claim =
      claim_publishable_outbox_events now config.batch_size config.lease_seconds locked token db in
    let delay = config.retry_delay_seconds in
    let (order, same, run) =
      publish_loop-settles s delay (suc (length claim.0)) (max config.publish_parallelism 1) []
        claim.0 (initial_stats claim.0, claim.1) (omega arith) (omega arith) in
    let (total, kept) = settle_events_total s delay order (initial_stats claim.0) claim.1 in
    (
      order,
      same,
      run,
      ap (λ r. r.0.claimed_events) run ∙ kept,
      ap (λ r. outcomes r.0) run ∙ omega (arith, total, length-perm same),
    )

own_branch : (id : ℕ) (b : Bool) → (if id == id then false else b) ≡ false
own_branch id b = rw (==_refl id) refl

unclaimed :
    (id token : ℕ) (qs : List DeliveryRow)
    → is_queued id qs ≡ false
    → any (is_claimed_by id token) qs ≡ false
unclaimed id token qs h = elim (Bool-cases (any (is_claimed_by id token) qs)) [
  | inl mine ↦ cc (claimed_queued id token qs mine)
  | inr stale ↦ stale
]

-- On consistent tables, once a publication was recorded, every later publication or rescheduling of
-- the event, with this or any other token, affects no row and leaves the tables as they are.
pub published_once :
    (now id token : ℕ) (db : Tables) (later token' delay : ℕ) (message : Text)
    → IsConsistent db
    → 0 < (mark_outbox_event_published now id token db).0
    → let after = (mark_outbox_event_published now id token db).1 in
      (mark_outbox_event_published later id token' after ≡ (0, after))
      × (reschedule_outbox_event later id token' delay message after ≡ (0, after))
unfolding mark_outbox_event_published reschedule_outbox_event IsConsistent
published_once now id token db later token' delay message (same, unique) h =
    elim (Bool-cases (any (is_claimed_by id token) db.queue)) [
      | inl mine ↦
          let left = filter (λ q. not (is_claimed_by id token q)) db.queue in
          let gone : is_queued id left ≡ false =
            marked_queue id token id db.queue unique mine ∙ own_branch id (is_queued id db.queue) in
          let stale = unclaimed id token' left gone in rw (mine, stale) (refl, refl)
      | inr absent ↦ absurd (ground arith)
    ]
