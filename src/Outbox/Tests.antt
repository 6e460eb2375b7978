-- ===== src/Outbox/Tests.antt =====
-- A drain of concrete events, and the theorem about it.
use yalia_sii.Prelude.{ℕ, String, ◌≡◌, refl, none, some, [], ◌∷◌, map, ◌==◌, if◌then◌else◌}
use yalia_sii.Json.{null}
use yalia_sii.Outbox.{
  DomainEventOutbox, Spool, pending, drained, dead_letter, to_status, by_spool, get_pending,
  Delivery, refused, added, drain_item, drain_items, drain,
}
use yalia_sii.Outbox.Drain.{Publishes, drain-Publishes}

abbrev spooled : String → ℕ → ℕ → DomainEventOutbox
spooled id attempts at_time = record {
  id = id;
  operation = "emitida.sent";
  payload = null;
  connection_id = "c1";
  trace_id = none;
  idempotency_key = some id;
  attempts = attempts;
  last_error = none;
  spooled_at = at_time;
  drained_at = none;
  dead_letter_at = none;
}

abbrev start : Spool
start = record { events = spooled "a" 0 3 ∷ spooled "b" 5 2 ∷ spooled "c" 4 1 ∷ []; queue = [] }

-- The queue refuses `c`.
abbrev how : String → Delivery
how id = if id == "c" then refused "connection closed" else added

drain_run : map to_status (drain 9 how start).events ≡ drained ∷ dead_letter ∷ pending ∷ []
unfolding drain get_pending by_spool drain_items drain_item to_status
drain_run = refl

drain-Publishes_example : Publishes start.events 50 start.queue (drain 9 how start).queue
drain-Publishes_example = drain-Publishes 9 how start
