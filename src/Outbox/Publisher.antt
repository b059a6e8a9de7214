-- ===== src/Outbox/Publisher.antt =====
-- vigilo/src/outbox.rs: the publication of one claimed event, and a publishing pass over a batch. The
-- broker is a parameter, and errors of the database, which end a pass early, are left out.
use agent_vigilo.Prelude.{
  ℕ, zero, suc, ◌+◌, max, Bool, Option, none, some, List, [], ◌∷◌, ◌++◌, ltb, ◌==◌, if◌then◌else◌,
  length,
}
use agent_vigilo.Prelude.Text.{Text}
use agent_vigilo.Outbox.{
  Tables, OutboxEvent, claim_publishable_outbox_events, mark_outbox_event_published,
  reschedule_outbox_event,
}

pub record OutboxPublisherConfig : Type 0 where
  pub batch_size : ℕ
  pub publish_parallelism : ℕ
  pub lease_seconds : ℕ
  pub retry_delay_seconds : ℕ

pub record OutboxPublishStats : Type 0 where
  pub claimed_events : ℕ
  pub published_events : ℕ
  pub failed_events : ℕ
  pub stale_event_claims : ℕ

pub data OutboxPublishOutcome : Type 0 where
  was_published was_failed stale_claim : OutboxPublishOutcome

-- The outcome of one event: `publish` gives nothing, or the message of the broker's error.
unfoldable pub publish_claimed_event :
    (OutboxEvent → Option Text) → ℕ → ℕ → OutboxEvent → Tables → OutboxPublishOutcome × Tables
publish_claimed_event publish now delay event db = elim event.delivery.claim_token [
  | none ↦ (stale_claim, db)
  | some token ↦ elim (publish event) [
    | none ↦
        let (marked, after) = mark_outbox_event_published now event.row.id token db in
        ((if marked == 0 then stale_claim else was_published), after)
    | some message ↦
        let (rescheduled, after) =
          reschedule_outbox_event now event.row.id token delay message db in
        ((if rescheduled == 0 then stale_claim else was_failed), after)
  ]
]

unfoldable pub count_outcome : OutboxPublishOutcome → OutboxPublishStats → OutboxPublishStats
count_outcome was_published s = record s { published_events = s.published_events + 1 }
count_outcome was_failed s = record s { failed_events = s.failed_events + 1 }
count_outcome stale_claim s = record s { stale_event_claims = s.stale_event_claims + 1 }

-- What surrounds a pass: the answers of the broker, what other transactions do to the tables before
-- an event completes, the time of its transaction, by the event's id, and which of the pending
-- futures completes next, as a position in the window.
pub record Surroundings : Type 0 where
  pub publish : OutboxEvent → Option Text
  pub others : OutboxEvent → Tables → Tables
  pub time : ℕ → ℕ
  pub completes : List OutboxEvent → ℕ

-- `while pending.len() < parallelism`: the futures in flight, and the events that wait.
unfoldable pub fill : ℕ → List OutboxEvent → List OutboxEvent → List OutboxEvent × List OutboxEvent
fill parallelism in_flight [] = (in_flight, [])
fill parallelism in_flight (e ∷ events) =
    let rest = fill parallelism (in_flight ++ e ∷ []) events in
    if ltb (length in_flight) parallelism then rest else (in_flight, e ∷ events)

-- `pending.next()`: the future that completes, and the others; past the end it is the last one.
unfoldable pub next_completed : ℕ → OutboxEvent → List OutboxEvent → OutboxEvent × List OutboxEvent
next_completed zero e es = (e, es)
next_completed (suc n) e [] = (e, [])
next_completed (suc n) e (f ∷ es) = let (done, left) = next_completed n f es in (done, e ∷ left)

module _ (s : Surroundings) (delay : ℕ) where
  -- One event completes: its statement runs and its outcome is counted.
  unfoldable pub settle_event :
      OutboxEvent → OutboxPublishStats × Tables → OutboxPublishStats × Tables
  settle_event e (stats, db) =
      let (outcome, after) =
        publish_claimed_event s.publish (s.time e.row.id) delay e (s.others e db) in
      (count_outcome outcome stats, after)

  -- The loop, on fuel: the window is filled, and one of its futures completes.
  unfoldable pub publish_loop :
      ℕ
      → ℕ
      → List OutboxEvent
      → List OutboxEvent
      → OutboxPublishStats × Tables
      → OutboxPublishStats × Tables
  publish_loop zero parallelism in_flight events state = state
  publish_loop (suc fuel) parallelism in_flight events state =
      let (window, waiting) = fill parallelism in_flight events in
      elim window [
        | [] ↦ state
        | e ∷ es ↦
            let (done, left) = next_completed (s.completes (e ∷ es)) e es in
            publish_loop fuel parallelism left waiting (settle_event done state)
      ]

abbrev pub initial_stats : List OutboxEvent → OutboxPublishStats
initial_stats events = record {
  claimed_events = length events;
  published_events = 0;
  failed_events = 0;
  stale_event_claims = 0;
}

unfoldable pub publish_pending_events :
    Surroundings
    → ℕ
    → (ℕ → Bool)
    → (ℕ → ℕ)
    → OutboxPublisherConfig
    → Tables
    → OutboxPublishStats × Tables
publish_pending_events s now locked token config db =
    let (events, claimed) =
      claim_publishable_outbox_events now config.batch_size config.lease_seconds locked token db in
    publish_loop s config.retry_delay_seconds (suc (length events))
      (max config.publish_parallelism 1) [] events (initial_stats events, claimed)
