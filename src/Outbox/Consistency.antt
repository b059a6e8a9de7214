-- ===== src/Outbox/Consistency.antt =====
-- Every statement of vigilo/src/db/tables/outbox_events.rs keeps the ledger and the queue together.
use agent_vigilo.Prelude.{
  ℕ, ◌≡◌, refl, sym, ap, ◌∙◌, inl, inr, Bool, true, false, ◌||◌, Option, List, [], ◌∷◌, arith, ◌==◌,
  if◌then◌else◌, Bool-cases, any, All, ok, err,
}
use agent_vigilo.Prelude.Text.{Text, text_eq}
use agent_vigilo.Outbox.{
  OutboxStatus, OutboxEventDraft, LedgerRow, Tables, has_id, is_for, is_claimed_by, is_terminal,
  insert_outbox_event, lease_row, claim_publishable_outbox_events, mark_outbox_event_published,
  reschedule_outbox_event, update_outbox_event_status, delete_outbox_event_by_id,
}
use agent_vigilo.Outbox.Delivery.{
  pending_row, is_pending, is_queued, AreUnique, IsConsistent, any-update_where,
  update_where-AreUnique, filter-AreUnique, marked_queue, removed_queue, removed_ledger,
  ended_ledger,
}

-- The statements of the outbox, at any time and with any arguments.
pub data Statement : Type 0 where
  insertion : (now id : ℕ) (draft : OutboxEventDraft) → Statement
  claim : (now limit lease : ℕ) (locked : ℕ → Bool) (token : ℕ → ℕ) → Statement
  publication : (now id token : ℕ) → Statement
  reschedule : (now id token delay : ℕ) (message : Text) → Statement
  status_update : (now id : ℕ) (status : OutboxStatus) (message : Option Text) → Statement
  deletion : (id : ℕ) → Statement

-- A refused insertion leaves the tables as they are.
unfoldable pub run_statement : Statement → Tables → Tables
run_statement (insertion now id draft) db = elim (insert_outbox_event now id draft db) [
  | err why ↦ db
  | ok after ↦ after
]
run_statement (claim now limit lease locked token) db =
    (claim_publishable_outbox_events now limit lease locked token db).1
run_statement (publication now id token) db = (mark_outbox_event_published now id token db).1
run_statement (reschedule now id token delay message) db =
    (reschedule_outbox_event now id token delay message db).1
run_statement (status_update now id status message) db =
    (update_outbox_event_status now id status message db).1
run_statement (deletion id) db = (delete_outbox_event_by_id id db).1

unfoldable pub run_statements : List Statement → Tables → Tables
run_statements [] db = db
run_statements (s ∷ ss) db = run_statements ss (run_statement s db)

-- A status update that ends an event, and any other statement.
abbrev pub ends_or_keeps : Statement → Bool
ends_or_keeps (status_update now id status message) = is_terminal status
ends_or_keeps _ = true

abbrev pub no_events : Tables
no_events = record { ledger = []; queue = [] }

unknown_pending :
    (id : ℕ) (p : LedgerRow → Bool) (es : List LedgerRow)
    → any (λ e. has_id id e || p e) es ≡ false
    → is_pending id es ≡ false
unfolding is_pending
unknown_pending id p [] h = refl
unknown_pending id p (e ∷ es) h = ground (arith, unknown_pending id p es)

untouched :
    (id i : ℕ) (es : List LedgerRow)
    → any (has_id id) es ≡ false
    → (if i == id then false else is_pending i es) ≡ is_pending i es
unfolding is_pending
untouched id i [] h = ground arith
untouched id i (e ∷ es) h = ground (arith, untouched id i es)

insertion-IsConsistent :
    (now id : ℕ) (draft : OutboxEventDraft) (db : Tables)
    → IsConsistent db
    → IsConsistent (run_statement (insertion now id draft) db)
unfolding run_statement insert_outbox_event IsConsistent AreUnique is_pending is_queued
insertion-IsConsistent now id draft db (same, unique) =
    elim (Bool-cases
      (any (λ e. has_id id e || text_eq e.draft.dedupe_key draft.dedupe_key) db.ledger)) [
        | inl known ↦ rw (run_statement, insert_outbox_event, known) (same, unique)
        | inr fresh ↦
            rw (run_statement, insert_outbox_event, fresh)
              (
                λ i. ground (arith, same i),
                (sym (same id) ∙ unknown_pending id _ db.ledger fresh, unique),
              )
      ]

pub claim-IsConsistent :
    (now limit lease : ℕ) (locked : ℕ → Bool) (token : ℕ → ℕ) (db : Tables)
    → IsConsistent db
    → IsConsistent (run_statement (claim now limit lease locked token) db)
unfolding run_statement claim_publishable_outbox_events IsConsistent is_queued lease_row
claim-IsConsistent now limit lease locked token db (same, unique) = (
  λ id.
      same id
      ∙ sym (any-update_where (is_for id) _ (lease_row now lease token) db.queue (λ q. refl)),
  update_where-AreUnique _ (lease_row now lease token) db.queue (λ q. refl) unique,
)

pub publication-IsConsistent :
    (now id token : ℕ) (db : Tables)
    → IsConsistent db
    → IsConsistent (run_statement (publication now id token) db)
unfolding run_statement mark_outbox_event_published IsConsistent
publication-IsConsistent now id token db (same, unique) =
    elim (Bool-cases (any (is_claimed_by id token) db.queue)) [
      | inl mine ↦
          rw (run_statement, mark_outbox_event_published, mine)
            (
              λ i.
                  ended_ledger id i _ db.ledger (λ e. (refl, refl))
                  ∙ ap (λ b. if i == id then false else b) (same i)
                  ∙ sym (marked_queue id token i db.queue unique mine),
              filter-AreUnique _ db.queue unique,
            )
      | inr stale ↦ rw (run_statement, mark_outbox_event_published, stale) (same, unique)
    ]

reschedule-IsConsistent :
    (now id token delay : ℕ) (message : Text) (db : Tables)
    → IsConsistent db
    → IsConsistent (run_statement (reschedule now id token delay message) db)
unfolding run_statement reschedule_outbox_event IsConsistent is_queued is_pending
reschedule-IsConsistent now id token delay message db (same, unique) =
    elim (Bool-cases (any (is_claimed_by id token) db.queue)) [
      | inl mine ↦
          rw (run_statement, reschedule_outbox_event, mine)
            (
              λ i.
                  any-update_where (pending_row i) (has_id id) _ db.ledger (λ e. refl)
                  ∙ same i
                  ∙ sym
                      (any-update_where (is_for i) (is_claimed_by id token) _ db.queue (λ q. refl)),
              update_where-AreUnique (is_claimed_by id token) _ db.queue (λ q. refl) unique,
            )
      | inr stale ↦ rw (run_statement, reschedule_outbox_event, stale) (same, unique)
    ]

status_update-IsConsistent :
    (now id : ℕ) (status : OutboxStatus) (message : Option Text) (db : Tables)
    → is_terminal status ≡ true
    → IsConsistent db
    → IsConsistent (run_statement (status_update now id status message) db)
unfolding run_statement update_outbox_event_status IsConsistent
status_update-IsConsistent now id status message db ends (same, unique) =
    elim (Bool-cases (any (has_id id) db.ledger)) [
      | inl known ↦
          rw (run_statement, update_outbox_event_status, known, ends)
            (
              λ i.
                  ended_ledger id i _ db.ledger (λ e. (refl, ends))
                  ∙ ap (λ b. if i == id then false else b) (same i)
                  ∙ sym (removed_queue id i db.queue),
              filter-AreUnique _ db.queue unique,
            )
      | inr unknown ↦
          rw (run_statement, update_outbox_event_status, unknown)
            (
              λ i.
                  ended_ledger id i _ db.ledger (λ e. (refl, ends))
                  ∙ untouched id i db.ledger unknown
                  ∙ same i,
              unique,
            )
    ]

deletion-IsConsistent :
    (id : ℕ) (db : Tables) → IsConsistent db → IsConsistent (run_statement (deletion id) db)
unfolding run_statement delete_outbox_event_by_id IsConsistent
deletion-IsConsistent id db (same, unique) = (
  λ i.
      removed_ledger id i db.ledger
      ∙ ap (λ b. if i == id then false else b) (same i)
      ∙ sym (removed_queue id i db.queue),
  filter-AreUnique _ db.queue unique,
)

statement-IsConsistent :
    (s : Statement) (db : Tables)
    → ends_or_keeps s ≡ true
    → IsConsistent db
    → IsConsistent (run_statement s db)
statement-IsConsistent (insertion now id draft) db h c = insertion-IsConsistent now id draft db c
statement-IsConsistent (claim now limit lease locked token) db h c =
    claim-IsConsistent now limit lease locked token db c
statement-IsConsistent (publication now id token) db h c =
    publication-IsConsistent now id token db c
statement-IsConsistent (reschedule now id token delay message) db h c =
    reschedule-IsConsistent now id token delay message db c
statement-IsConsistent (status_update now id status message) db h c =
    status_update-IsConsistent now id status message db h c
statement-IsConsistent (deletion id) db h c = deletion-IsConsistent id db c

-- After any statements in any order, on tables that were consistent, where no direct status update
-- sets an event back to pending: an event is pending in the ledger exactly when the queue has a row
-- for it, and no event has two rows. So no pending event is lost, and nothing that ended stays in
-- the queue.
pub run_statements-IsConsistent :
    (ss : List Statement) (db : Tables)
    → All (λ s. ends_or_keeps s ≡ true) ss
    → IsConsistent db
    → IsConsistent (run_statements ss db)
unfolding run_statements
run_statements-IsConsistent [] db h c = c
run_statements-IsConsistent (s ∷ ss) db (h, hs) c =
    run_statements-IsConsistent ss (run_statement s db) hs (statement-IsConsistent s db h c)
