-- ===== src/Retention/Execute.antt =====
-- src/retention/retention.service.ts, executePurge, over the three tables of traces. The table and
-- column of an executor name the rows that are in question.
use yalia_sii.Prelude.{
  ℕ, ◌+◌, ◌*◌, String, Bool, false, not, Option, none, some, List, ◌==◌, ltb, if◌then◌else◌, keep,
  count,
}
use yalia_sii.Outbox.{DomainEventOutbox}
use yalia_sii.Outbound.{TableWriteRun}
use yalia_sii.Deletes.{DeleteEvent}
use yalia_sii.Http.{Reply, ok, bad_request, failed}
use yalia_sii.Retention.{
  RetentionExecutor, batched, drop_chunks, find_retention_target, RetentionSetting, get_config,
  upsert, day_ms,
}
use yalia_sii.Retention.Purge.{purge_rows}

pub record StampedRun : Type 0 where
  pub run : TableWriteRun
  pub created_at : ℕ

pub record Physical : Type 0 where
  pub events : List DeleteEvent
  pub outbox : List DomainEventOutbox
  pub runs : List StampedRun
  pub settings : List RetentionSetting

-- `column < now() - INTERVAL '… days'`; NULL is not.
abbrev pub is_before : ℕ → ℕ → Option ℕ → Bool
is_before now days none = false
is_before now days (some t) = ltb (t + days * day_ms) now

unfoldable pub old_event : ℕ → ℕ → DeleteEvent → Bool
old_event now days e = is_before now days (some e.created_at)

-- The column is `drained_at`.
unfoldable pub old_outbox : ℕ → ℕ → DomainEventOutbox → Bool
old_outbox now days e = is_before now days e.drained_at

unfoldable pub old_run : ℕ → ℕ → StampedRun → Bool
old_run now days r = is_before now days (some r.created_at)

-- BATCH_SIZE, and what Timescale's drop_chunks takes, none where it is not installed.
module _ (batch_size : ℕ) (chunks : Option (ℕ → StampedRun → Bool)) (now : ℕ) where
  unfoldable pub purge_batched : String → ℕ → Physical → Option (Physical × ℕ)
  unfolding purge_rows old_event old_outbox old_run
  purge_batched table days s =
      if table == "table_delete_events"
      then elim (purge_rows (old_event now days) batch_size s.events) [
        | none ↦ none
        | some (left, n) ↦ some (record s { events = left }, n)
      ]
      else if table == "domain_event_outbox"
      then elim (purge_rows (old_outbox now days) batch_size s.outbox) [
        | none ↦ none
        | some (left, n) ↦ some (record s { outbox = left }, n)
      ]
      else none

  -- The chunks that end before the cutoff go whole, and every row in question is counted.
  unfoldable pub purge_chunks : ℕ → Physical → Option (Physical × ℕ)
  unfolding purge_rows old_run
  purge_chunks days s = elim chunks [
    | some dropped ↦ some (
      record s { runs = keep (λ r. not (dropped days r)) s.runs },
      count (old_run now days) s.runs,
    )
    | none ↦ elim (purge_rows (old_run now days) batch_size s.runs) [
      | none ↦ none
      | some (left, n) ↦ some (record s { runs = left }, n)
    ]
  ]

  unfoldable pub run_executor : RetentionExecutor → ℕ → Physical → Option (Physical × ℕ)
  unfolding purge_batched purge_chunks
  run_executor (batched table column) days s = purge_batched table days s
  run_executor (drop_chunks table column) days s = purge_chunks days s

  unfoldable pub mark_run : RetentionSetting → Physical → Physical
  unfolding upsert
  mark_run c s = record s {
    settings =
        upsert c.target_key (λ o. record c { last_run_at = some now })
          (record c { last_run_at = some now }) s.settings;
  }

  unfoldable pub execute_purge : String → Physical → Physical × Reply ℕ
  unfolding run_executor mark_run get_config find_retention_target
  execute_purge key s = elim (find_retention_target key) [
    | none ↦ (s, failed)
    | some d ↦ if d.read_only then (s, bad_request) else elim d.executor [
      | none ↦ (s, bad_request)
      | some x ↦ elim (run_executor x (get_config d s.settings).retention_days s) [
        | none ↦ (s, failed)
        | some (left, n) ↦ (mark_run (get_config d s.settings) left, ok n)
      ]
    ]
  ]
