-- ===== src/Examples/Outboxes.antt =====
-- The outbox at concrete inputs.
use agent_vigilo.Prelude.{
  filter, ℕ, ◌+◌, ◌≤◌, ◌<◌, ◌≡◌, refl, Bool, true, false, ◌&&◌, none, some, List, [], ◌∷◌, arith,
  leb, ◌==◌, if◌then◌else◌, length, any, All,
}
use agent_vigilo.Prelude.Text.{codes, text_eq}
use agent_vigilo.Outbox.{
  failed, published, has_id, OutboxEventDraft, Tables, OutboxEvent, mark_outbox_event_published,
  reschedule_outbox_event, claim_publishable_outbox_events, select_outbox_event_by_id,
  count_publishable_outbox_backlog, insert_outbox_event, insert_row, order_rows, lease_row,
  join_rows, first_rows, first_row, update_where, count_where, is_for,
}
use agent_vigilo.Outbox.Publisher.{
  OutboxPublisherConfig, publish_pending_events, publish_loop, fill, next_completed, settle_event,
  Surroundings, initial_stats, publish_claimed_event, count_outcome,
}
use mathlib.Core.List.{Permᴰ}
use agent_vigilo.Outbox.Window.{settle_events}
use agent_vigilo.Outbox.Accounting.{publish_pending_events_counts, published_once}
use agent_vigilo.Outbox.Consistency.{
  Statement, insertion, claim, publication, status_update, run_statement, run_statements, no_events,
  run_statements-IsConsistent,
}
use agent_vigilo.Outbox.Delivery.{is_pending, is_queued, AreUnique, IsConsistent}
use agent_vigilo.Outbox.Drain.{publish_pending_events_drains}

abbrev draft : ℕ → OutboxEventDraft
draft n = record {
  event_type = codes "run.completed";
  aggregate_type = codes "run";
  aggregate_id = n;
  dedupe_key = n ∷ [];
}

abbrev two_insertions : List Statement
two_insertions = insertion 10 1 (draft 1) ∷ insertion 11 2 (draft 2) ∷ []

abbrev two_events : Tables
two_events = run_statements two_insertions no_events

abbrev config : OutboxPublisherConfig
config = record {
  batch_size = 5;
  publish_parallelism = 2;
  lease_seconds = 60;
  retry_delay_seconds = 10;
}

abbrev draw : ℕ → ℕ
draw id = id + 700

abbrev nobody : ℕ → Bool
nobody id = false

abbrev accept_all : Surroundings
accept_all = record {
  publish = λ e. none;
  others = λ e t. t;
  time = λ id. id + 30;
  completes = λ window. 1;
}

-- The broker refuses the first event, and the second publication in flight completes first.
abbrev refuse_first : Surroundings
refuse_first = record {
  publish = λ e. if e.row.id == 1 then some (codes "closed") else none;
  others = λ e t. t;
  time = λ id. id + 30;
  completes = λ window. 1;
}

no_events-IsConsistent : IsConsistent no_events
unfolding IsConsistent is_queued is_pending AreUnique
no_events-IsConsistent = (λ id. refl, tt)

abbrev day : List Statement
day =
    insertion 10 1 (draft 1)
    ∷ insertion 11 2 (draft 2)
    ∷ claim 20 5 60 nobody draw
    ∷ publication 21 1 701
    ∷ status_update 22 2 failed none
    ∷ []

run_statements-IsConsistent_example : IsConsistent (run_statements day no_events)
run_statements-IsConsistent_example =
    run_statements-IsConsistent day no_events (refl, (refl, (refl, (refl, (refl, tt)))))
      no_events-IsConsistent

one_refused :
    (publish_pending_events refuse_first 20 nobody draw config two_events).0
    ≡ record { claimed_events = 2; published_events = 1; failed_events = 1; stale_event_claims = 0 }
unfolding publish_pending_events publish_loop fill next_completed settle_event publish_claimed_event
    count_outcome claim_publishable_outbox_events count_publishable_outbox_backlog
    mark_outbox_event_published reschedule_outbox_event run_statements run_statement
    insert_outbox_event insert_row order_rows lease_row join_rows first_rows first_row
    select_outbox_event_by_id filter update_where count_where text_eq
one_refused = refl

publish_pending_events_counts_example :
    let claim = claim_publishable_outbox_events 20 5 60 nobody draw two_events in
    let pass = publish_pending_events refuse_first 20 nobody draw config two_events in
    (order : List OutboxEvent) × Permᴰ order claim.0
    × (pass ≡ settle_events refuse_first 10 order (initial_stats claim.0, claim.1))
    × (pass.0.claimed_events ≡ length claim.0)
    × (pass.0.published_events + pass.0.failed_events + pass.0.stale_event_claims ≡ length claim.0)
publish_pending_events_counts_example =
    publish_pending_events_counts refuse_first 20 nobody draw config two_events

two_events-IsConsistent : IsConsistent two_events
two_events-IsConsistent =
    run_statements-IsConsistent two_insertions no_events (refl, (refl, tt)) no_events-IsConsistent

backlog : count_publishable_outbox_backlog 20 two_events ≤ 5
unfolding publish_pending_events publish_loop fill next_completed settle_event publish_claimed_event
    count_outcome claim_publishable_outbox_events count_publishable_outbox_backlog
    mark_outbox_event_published reschedule_outbox_event run_statements run_statement
    insert_outbox_event insert_row order_rows lease_row join_rows first_rows first_row
    select_outbox_event_by_id filter update_where count_where text_eq
backlog = omega arith

there : any (λ q. is_for 2 q && leb q.available_at 20) two_events.queue ≡ true
unfolding publish_pending_events publish_loop fill next_completed settle_event publish_claimed_event
    count_outcome claim_publishable_outbox_events count_publishable_outbox_backlog
    mark_outbox_event_published reschedule_outbox_event run_statements run_statement
    insert_outbox_event insert_row order_rows lease_row join_rows first_rows first_row
    select_outbox_event_by_id filter update_where count_where text_eq
there = refl

publish_pending_events_drains_example :
    let after = (publish_pending_events accept_all 20 nobody draw config two_events).1 in
    (is_queued 2 after.queue ≡ false)
    × (any (has_id 2) after.ledger ≡ true)
    × All
        (λ e.
          has_id 2 e ≡ true
          → (e.status ≡ published) × (e.published_at ≡ some 32) × (e.error_message ≡ none))
        after.ledger
publish_pending_events_drains_example =
    publish_pending_events_drains accept_all 20 nobody draw config two_events 2 (λ e. refl)
      (λ e t. refl) (λ i. refl) two_events-IsConsistent backlog there

abbrev leased_events : Tables
leased_events = run_statements (claim 20 5 60 nobody draw ∷ []) two_events

leased_events-IsConsistent : IsConsistent leased_events
leased_events-IsConsistent =
    run_statements-IsConsistent (claim 20 5 60 nobody draw ∷ []) two_events (refl, tt)
      two_events-IsConsistent

recorded : 0 < (mark_outbox_event_published 21 1 701 leased_events).0
unfolding publish_pending_events publish_loop fill next_completed settle_event publish_claimed_event
    count_outcome claim_publishable_outbox_events count_publishable_outbox_backlog
    mark_outbox_event_published reschedule_outbox_event run_statements run_statement
    insert_outbox_event insert_row order_rows lease_row join_rows first_rows first_row
    select_outbox_event_by_id filter update_where count_where text_eq
recorded = omega arith

published_once_example :
    let after = (mark_outbox_event_published 21 1 701 leased_events).1 in
    (mark_outbox_event_published 99 1 701 after ≡ (0, after))
    × (reschedule_outbox_event 99 1 701 10 (codes "late") after ≡ (0, after))
published_once_example =
    published_once 21 1 701 leased_events 99 701 10 (codes "late") leased_events-IsConsistent
      recorded
