-- ===== src/Outbox.antt =====
-- The outbox: the statements of vigilo/src/db/tables/outbox_events.rs over the event ledger and the
-- delivery queue, with the rows of vigilo/src/models/outbox_event.rs. A statement is a function of the two tables, with the time of its
-- transaction; the trigger that queues an inserted event, and the cascade of a deletion, belong to the
-- tables. The shard of a queue row is a function of the event's id and is left out, like the parts
-- of an event that no statement reads.
use agent_vigilo.Prelude.{
  filter, ℕ, zero, suc, ◌+◌, Bool, true, false, not, ◌&&◌, ◌||◌, Option, none, some, List, [], ◌∷◌,
  ltb, leb, ◌==◌, if◌then◌else◌, is_some_and, length, any, Result, ok, err,
}
use agent_vigilo.Prelude.Text.{Text, text_eq}
pub mod Accounting
pub mod Consistency
pub mod Delivery
pub mod Drain
pub mod Progress
pub mod Publisher
pub mod Rows
pub mod Window

pub data OutboxStatus : Type 0 where
  pending published failed : OutboxStatus

pub data OutboxError : Type 0 where
  duplicate_event disappeared : OutboxError

pub record OutboxEventDraft : Type 0 where
  pub event_type : Text
  pub aggregate_type : Text
  pub aggregate_id : ℕ
  pub dedupe_key : Text

pub record LedgerRow : Type 0 where
  pub id : ℕ
  pub draft : OutboxEventDraft
  pub status : OutboxStatus
  pub published_at : Option ℕ
  pub error_message : Option Text
  pub updated_at : ℕ

pub record DeliveryRow : Type 0 where
  pub event_id : ℕ
  pub available_at : ℕ
  pub claim_token : Option ℕ
  pub claimed_until : Option ℕ
  pub publish_attempt_count : ℕ
  pub last_error : Option Text

pub record Tables : Type 0 where
  pub ledger : List LedgerRow
  pub queue : List DeliveryRow

-- A claimed event: a queue row joined with its ledger row.
pub record OutboxEvent : Type 0 where
  pub row : LedgerRow
  pub delivery : DeliveryRow

module _ {A : Type 0} where
  -- `UPDATE … WHERE`.
  unfoldable pub update_where : (A → Bool) → (A → A) → List A → List A
  update_where p f [] = []
  update_where p f (x ∷ xs) = (if p x then f x else x) ∷ update_where p f xs

  unfoldable pub count_where : (A → Bool) → List A → ℕ
  count_where p [] = 0
  count_where p (x ∷ xs) = let rest = count_where p xs in if p x then suc rest else rest

  unfoldable pub first_rows : ℕ → List A → List A
  first_rows zero xs = []
  first_rows (suc n) [] = []
  first_rows (suc n) (x ∷ xs) = x ∷ first_rows n xs

abbrev pub has_id : ℕ → LedgerRow → Bool
has_id id e = e.id == id

abbrev pub is_for : ℕ → DeliveryRow → Bool
is_for id q = q.event_id == id

-- `event_id = $1 AND claim_token = $2`: a null token equals nothing.
abbrev pub is_claimed_by : ℕ → ℕ → DeliveryRow → Bool
is_claimed_by id token q = is_for id q && is_some_and (λ t. t == token) q.claim_token

unfoldable pub count_pending_outbox_deliveries : Tables → ℕ
count_pending_outbox_deliveries db = length db.queue

unfoldable pub count_publishable_outbox_backlog : ℕ → Tables → ℕ
count_publishable_outbox_backlog now db = count_where (λ q. leb q.available_at now) db.queue

unfoldable pub first_row : List LedgerRow → Option LedgerRow
first_row [] = none
first_row (e ∷ es) = some e

unfoldable pub select_outbox_event_by_id : ℕ → Tables → Option LedgerRow
select_outbox_event_by_id id db = first_row (filter (has_id id) db.ledger)

-- The insertion with its trigger; the id and the dedupe key are unique.
unfoldable pub insert_outbox_event : ℕ → ℕ → OutboxEventDraft → Tables → Result OutboxError Tables
insert_outbox_event now id draft db =
    if any (λ e. has_id id e || text_eq e.draft.dedupe_key draft.dedupe_key) db.ledger
    then err duplicate_event
    else ok (record {
      ledger =
          record {
            id = id;
            draft = draft;
            status = pending;
            published_at = none;
            error_message = none;
            updated_at = now;
          }
          ∷ db.ledger;
      queue =
          record {
            event_id = id;
            available_at = now;
            claim_token = none;
            claimed_until = none;
            publish_attempt_count = 0;
            last_error = none;
          }
          ∷ db.queue;
    })

-- `ORDER BY available_at ASC, event_id ASC`.
unfoldable pub insert_row : DeliveryRow → List DeliveryRow → List DeliveryRow
insert_row q [] = q ∷ []
insert_row q (r ∷ rs) =
    let rest = insert_row q rs in
    if ltb r.available_at q.available_at
      || ((r.available_at == q.available_at) && ltb r.event_id q.event_id)
    then r ∷ rest
    else q ∷ r ∷ rs

unfoldable pub order_rows : List DeliveryRow → List DeliveryRow
order_rows [] = []
order_rows (q ∷ qs) = insert_row q (order_rows qs)

-- The lease of a row; `token` draws the random token of the row.
unfoldable pub lease_row : ℕ → ℕ → (ℕ → ℕ) → DeliveryRow → DeliveryRow
lease_row now lease token q = record q {
  available_at = now + lease;
  claim_token = some (token q.event_id);
  claimed_until = some (now + lease);
  publish_attempt_count = q.publish_attempt_count + 1;
}

-- `JOIN outbox_events e ON e.id = leased.event_id`.
unfoldable pub join_rows : List LedgerRow → List DeliveryRow → List OutboxEvent
join_rows ledger [] = []
join_rows ledger (q ∷ qs) =
    let rest = join_rows ledger qs in
    elim (select_outbox_event_by_id q.event_id (record { ledger = ledger; queue = [] })) [
      | none ↦ rest
      | some e ↦ record { row = e; delivery = q } ∷ rest
    ]

-- `locked` tells the rows that other transactions hold, which are skipped.
unfoldable pub claim_publishable_outbox_events :
    ℕ → ℕ → ℕ → (ℕ → Bool) → (ℕ → ℕ) → Tables → List OutboxEvent × Tables
claim_publishable_outbox_events now limit lease locked token db =
    let claim =
      first_rows limit
        (order_rows (filter (λ q. leb q.available_at now && not (locked q.event_id)) db.queue)) in
    let is_in : DeliveryRow → Bool = λ q. any (is_for q.event_id) claim in
    let queue = update_where is_in (lease_row now lease token) db.queue in
    (
      join_rows db.ledger (order_rows (filter is_in queue)),
      record { ledger = db.ledger; queue = queue },
    )

-- The rows affected, and the tables.
unfoldable pub mark_outbox_event_published : ℕ → ℕ → ℕ → Tables → ℕ × Tables
mark_outbox_event_published now id token db =
    if any (is_claimed_by id token) db.queue
    then (
      count_where (has_id id) db.ledger,
      record {
        ledger =
            update_where (has_id id)
              (λ e. record e {
                status = published;
                published_at = some now;
                error_message = none;
                updated_at = now;
              })
              db.ledger;
        queue = filter (λ q. not (is_claimed_by id token q)) db.queue;
      },
    )
    else (0, db)

unfoldable pub reschedule_outbox_event : ℕ → ℕ → ℕ → ℕ → Text → Tables → ℕ × Tables
reschedule_outbox_event now id token delay message db =
    if any (is_claimed_by id token) db.queue
    then (
      count_where (has_id id) db.ledger,
      record {
        ledger =
            update_where (has_id id)
              (λ e. record e { error_message = some message; updated_at = now }) db.ledger;
        queue =
            update_where (is_claimed_by id token)
              (λ q. record q {
                available_at = now + delay;
                claim_token = none;
                claimed_until = none;
                last_error = some message;
              })
              db.queue;
      },
    )
    else (0, db)

abbrev pub is_terminal : OutboxStatus → Bool
is_terminal pending = false
is_terminal published = true
is_terminal failed = true

abbrev pub is_published : OutboxStatus → Bool
is_published published = true
is_published pending = false
is_published failed = false

unfoldable pub update_outbox_event_status :
    ℕ → ℕ → OutboxStatus → Option Text → Tables → Option LedgerRow × Tables
update_outbox_event_status now id status message db =
    let ledger =
      update_where (has_id id)
        (λ e. record e {
          status = status;
          published_at = if is_published status then some now else e.published_at;
          error_message = message;
          updated_at = now;
        })
        db.ledger in
    let queue =
      if any (has_id id) db.ledger && is_terminal status
      then filter (λ q. not (is_for id q)) db.queue
      else db.queue in
    let after : Tables = record { ledger = ledger; queue = queue } in
    (select_outbox_event_by_id id after, after)

unfoldable pub delete_outbox_event_by_id : ℕ → Tables → ℕ × Tables
delete_outbox_event_by_id id db = (
  count_where (has_id id) db.ledger,
  record {
    ledger = filter (λ e. not (has_id id e)) db.ledger;
    queue = filter (λ q. not (is_for id q)) db.queue;
  },
)
