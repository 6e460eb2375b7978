-- ===== src/Retention/Tests.antt =====
-- Purges of concrete tables, and the theorems about them.
use yalia_sii.Prelude.{
  ℕ, String, List, ◌+◌, Bool, false, ◌≡◌, refl, inl, none, some, [], ◌∷◌, keep, All, In, pos, ltb,
  arith,
}
use yalia_sii.Json.{null}
use yalia_sii.Samples.{plain}
use yalia_sii.Outbox.{DomainEventOutbox, mark_dead_letter}
use yalia_sii.Deletes.{DeleteEvent, bulk, Store, total_affected, uncontrolled_deletes}
use yalia_sii.Retention.{
  retention_catalog, trace_target, defaults, find_retention_target, RetentionSetting,
  RetentionConfigPatch, get_config, upsert, at_least, store_config, apply_patch, set_config,
}
use yalia_sii.Retention.Purge.{purge_rows, batched_delete, delete_batch, purge_rows-exact}
use yalia_sii.Retention.Execute.{Physical, old_event, execute_purge}
use yalia_sii.Retention.Ledger.{
  days_of, execute_purge-uncontrolled, execute_purge-keeps_pending, execute_purge-takes_dead,
}
use yalia_sii.Retention.Settings.{Bounded, set_configs, set_configs-Bounded}
use yalia_sii.Retention.Schedule.{HasOneActive, tick, tick-HasOneActive}

abbrev small : ℕ → Bool
small n = ltb n 10

purge_run : purge_rows small 2 (3 ∷ 12 ∷ 4 ∷ 5 ∷ 11 ∷ 6 ∷ []) ≡ some (12 ∷ 11 ∷ [], 4)
unfolding purge_rows batched_delete delete_batch
purge_run = refl

purge_rows-exact_example : purge_rows small 2 (3 ∷ 12 ∷ 4 ∷ []) ≡ some (12 ∷ [], 2)
purge_rows-exact_example = purge_rows-exact small 2 (3 ∷ 12 ∷ 4 ∷ []) (omega arith)

abbrev event : DeleteEvent
event = record {
  table_key = "invoices";
  connection_id = none;
  affected = 7;
  reason = bulk;
  record_ids = none;
  created_at = 5;
}

abbrev spooled : DomainEventOutbox
spooled = record {
  id = "e";
  operation = "emitida.sent";
  payload = null;
  connection_id = "c1";
  trace_id = none;
  idempotency_key = none;
  attempts = 5;
  last_error = none;
  spooled_at = 1;
  drained_at = none;
  dead_letter_at = none;
}

abbrev physical : Physical
physical = record {
  events = event ∷ [];
  outbox = spooled ∷ mark_dead_letter 2 spooled ∷ [];
  runs = [];
  settings = [];
}

abbrev store : Store
store = record {
  db = record { rows = []; outbox = []; runs = []; calls = []; drawn = 0; step = 0 };
  events = event ∷ [];
  n_tup_del = 7;
}

-- Forty days later.
abbrev late : ℕ
late = 3456000000

-- Seven deletions of the program count as uncontrolled after the purge.
purged_counter :
    uncontrolled_deletes (record store {
      events = (execute_purge 5000 none late "table_delete_events" physical).0.events;
    })
    ≡ 7
unfolding uncontrolled_deletes execute_purge total_affected find_retention_target retention_catalog
    trace_target get_config purge_rows batched_delete
purged_counter = refl

execute_purge-uncontrolled_example :
    uncontrolled_deletes (record store {
      events = (execute_purge 5000 none late "table_delete_events" physical).0.events;
    })
    ≡ uncontrolled_deletes store
      + total_affected (
          keep
            (old_event late (days_of 5000 none late (omega arith) "table_delete_events" []))
            (event ∷ []))
unfolding total_affected
execute_purge-uncontrolled_example =
    execute_purge-uncontrolled 5000 none late (omega arith) store physical refl (omega arith)

execute_purge-keeps_pending_example :
    In spooled (execute_purge 5000 none late "domain_event_outbox" physical).0.outbox
execute_purge-keeps_pending_example =
    execute_purge-keeps_pending 5000 none late (omega arith) physical spooled (inl refl) refl

execute_purge-takes_dead_example :
    ¬ In
      (mark_dead_letter 2 spooled)
      (execute_purge 5000 none late "domain_event_outbox" physical).0.outbox
unfolding days_of find_retention_target retention_catalog trace_target get_config defaults
execute_purge-takes_dead_example =
    execute_purge-takes_dead 5000 none late (omega arith) physical spooled 2 (omega arith)

abbrev patch : RetentionConfigPatch
patch = record { retention_days = some (some (pos 60)); interval_days = none; enabled = some false }

abbrev stored : RetentionSetting
stored = record {
  target_key = "table_write_runs";
  retention_days = 60;
  interval_days = 1;
  enabled = false;
  last_run_at = none;
}

-- The second patch is refused, as the target keeps more days.
abbrev patches : List (String × RetentionConfigPatch)
patches =
    ("table_write_runs", patch)
    ∷ ("table_write_runs", record patch { retention_days = some (some (pos 0)) })
    ∷ []

set_configs_run : set_configs patches [] ≡ stored ∷ []
unfolding set_configs set_config apply_patch at_least store_config upsert find_retention_target
    retention_catalog trace_target get_config defaults
set_configs_run = refl

set_configs-Bounded_example : All Bounded (set_configs patches [])
set_configs-Bounded_example = set_configs-Bounded patches

tick-HasOneActive_example :
    HasOneActive (tick plain late [] (record { runs = []; jobs = []; drawn = 1 }))
tick-HasOneActive_example =
    tick-HasOneActive plain late [] (record { runs = []; jobs = []; drawn = 1 })
      (λ key. omega arith)
