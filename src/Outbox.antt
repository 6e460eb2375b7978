-- ===== src/Outbox.antt =====
-- src/outbox: TypeOrmOutboxStore (typeorm-outbox.store.ts), DomainEmitterService and the drain
-- (outbox-drain.cron.ts), with the statuses of outbox-stats.service.ts. The queue is a parameter:
-- whether an addition to it, and the update that follows, fail and with what message.
pub mod Drain
mod Tests
use yalia_sii.Prelude.{
  ℕ, zero, suc, String, Bool, true, false, not, ◌&&◌, Option, none, some, List, [], ◌∷◌, ◌++◌, map,
  ◌==◌, if◌then◌else◌, ltb, leb, keep, take, is_some,
}
use yalia_sii.Json.{Json}

pub record DomainEventOutbox : Type 0 where
  pub id : String
  pub operation : String
  pub payload : Json
  pub connection_id : String
  pub trace_id : Option String
  pub idempotency_key : Option String
  pub attempts : ℕ
  pub last_error : Option String
  pub spooled_at : ℕ
  pub drained_at : Option ℕ
  pub dead_letter_at : Option ℕ

pub record HubEventJob : Type 0 where
  pub source_key : String
  pub operation : String
  pub payload : Json
  pub connection_id : String
  pub idempotency_key : Option String
  pub trace_id : Option String

-- What is spooled and what the hub's queue has received.
pub record Spool : Type 0 where
  pub events : List DomainEventOutbox
  pub queue : List HubEventJob

pub data OutboxEventStatus : Type 0 where
  pending drained dead_letter : OutboxEventStatus

-- `toStatus`
unfoldable pub to_status : DomainEventOutbox → OutboxEventStatus
to_status e = elim e.dead_letter_at [
  | some t ↦ dead_letter
  | none ↦ elim e.drained_at [ some t ↦ drained | none ↦ pending ]
]

abbrev pub max_attempts : ℕ
max_attempts = 5

-- `drainedAt: IsNull(), deadLetterAt: IsNull()`
abbrev pub is_pending : DomainEventOutbox → Bool
is_pending e = not (is_some e.drained_at) && not (is_some e.dead_letter_at)

-- `order: { spooledAt: 'ASC' }`
insert_by_spool : DomainEventOutbox → List DomainEventOutbox → List DomainEventOutbox
insert_by_spool e [] = e ∷ []
insert_by_spool e (f ∷ es) =
    if ltb f.spooled_at e.spooled_at then f ∷ insert_by_spool e es else e ∷ f ∷ es

unfoldable pub by_spool : List DomainEventOutbox → List DomainEventOutbox
unfolding insert_by_spool
by_spool [] = []
by_spool (e ∷ es) = insert_by_spool e (by_spool es)

unfoldable pub get_pending : ℕ → List DomainEventOutbox → List DomainEventOutbox
unfolding by_spool
get_pending limit es = take limit (by_spool (keep is_pending es))

abbrev pub update_event :
    String
    → (DomainEventOutbox → DomainEventOutbox)
    → List DomainEventOutbox
    → List DomainEventOutbox
update_event id f = map (λ e. if e.id == id then f e else e)

unfoldable pub mark_drained : ℕ → DomainEventOutbox → DomainEventOutbox
mark_drained now e = record e { drained_at = some now }

unfoldable pub record_attempt : String → DomainEventOutbox → DomainEventOutbox
record_attempt message e = record e { attempts = suc e.attempts; last_error = some message }

unfoldable pub mark_dead_letter : ℕ → DomainEventOutbox → DomainEventOutbox
mark_dead_letter now e = record e { dead_letter_at = some now; drained_at = some now }

unfoldable pub to_envelope : DomainEventOutbox → HubEventJob
to_envelope e = record {
  source_key = "sii";
  operation = e.operation;
  payload = e.payload;
  connection_id = e.connection_id;
  idempotency_key = e.idempotency_key;
  trace_id = e.trace_id;
}

-- What the queue and the store do to one item: `add` fails, or the item is added, and then the
-- update may fail; or the drain ends here, as markDeadLetter or recordAttempt throws, after `add` or
-- before it. A message is as it is kept, its first 500 characters.
pub data Delivery : Type 0 where
  refused : String → Delivery
  added : Delivery
  unmarked : String → Delivery
  aborted : Bool → Delivery

abbrev pub is_aborted : Delivery → Bool
is_aborted (aborted after_add) = true
is_aborted _ = false

-- One turn of the loop: the change of the item, and what is published.
unfoldable pub drain_item : ℕ → Delivery → DomainEventOutbox → Spool → Spool
unfolding mark_drained record_attempt mark_dead_letter to_envelope
drain_item now how item s =
    if leb max_attempts item.attempts
    then (if is_aborted how
        then s
        else record s { events = update_event item.id (mark_dead_letter now) s.events })
    else elim how [
      | refused message ↦ record s {
        events = update_event item.id (record_attempt message) s.events;
      }
      | added ↦ record {
        events = update_event item.id (mark_drained now) s.events;
        queue = s.queue ++ to_envelope item ∷ [];
      }
      | unmarked message ↦ record {
        events = update_event item.id (record_attempt message) s.events;
        queue = s.queue ++ to_envelope item ∷ [];
      }
      | aborted after_add ↦
          if after_add then record s { queue = s.queue ++ to_envelope item ∷ [] } else s
    ]

unfoldable pub drain_items : ℕ → (String → Delivery) → List DomainEventOutbox → Spool → Spool
unfolding drain_item
drain_items now how [] s = s
drain_items now how (e ∷ es) s =
    let after = drain_item now (how e.id) e s in
    let rest = drain_items now how es after in if is_aborted (how e.id) then after else rest

-- `drain`: `how` says what happens to each item.
unfoldable pub drain : ℕ → (String → Delivery) → Spool → Spool
unfolding get_pending drain_items
drain now how s = drain_items now how (get_pending 50 s.events) s
