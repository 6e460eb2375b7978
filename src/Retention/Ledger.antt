-- ===== src/Retention/Ledger.antt =====
-- What the purge of the ledger of deletions and of the outbox takes.
use yalia_sii.Prelude.{
  ℕ, ◌+◌, ◌≤◌, ◌<◌, String, Bool, not, Option, none, some, List, [], ◌∷◌, ◌≡◌, refl, ap, subst,
  keep, arith, In-keep, In-keep_inv, lt→ltb, ◌*◌, In,
}
use yalia_sii.Outbox.{DomainEventOutbox, mark_dead_letter}
use yalia_sii.Deletes.{DeleteEvent, Store, total_affected, uncontrolled_deletes}
use yalia_sii.Retention.{
  day_ms, RetentionSetting, trace_target, retention_catalog, find_retention_target, get_config,
}
use yalia_sii.Retention.Purge.{purge_rows-exact}
use yalia_sii.Retention.Execute.{
  is_before, StampedRun, Physical, old_event, old_outbox, execute_purge, run_executor,
  purge_batched, mark_run,
}

module _ (batch_size : ℕ) (chunks : Option (ℕ → StampedRun → Bool)) (now : ℕ)
    (big : 0 < batch_size) where
  -- The days that are kept of a target.
  unfoldable pub days_of : String → List RetentionSetting → ℕ
  unfolding find_retention_target get_config
  days_of key settings = elim (find_retention_target key) [
    | none ↦ 0
    | some d ↦ (get_config d settings).retention_days
  ]

  execute_purge-events :
      (s : Physical)
      → (execute_purge batch_size chunks now "table_delete_events" s).0.events
        ≡ keep (λ e. not (old_event now (days_of "table_delete_events" s.settings) e)) s.events
  unfolding execute_purge run_executor purge_batched mark_run days_of find_retention_target
      retention_catalog trace_target
  execute_purge-events s =
      rw
        (
          execute_purge,
          run_executor,
          purge_batched,
          purge_rows-exact (old_event now (days_of "table_delete_events" s.settings)) batch_size
              s.events big,
        )
        refl

  execute_purge-outbox :
      (s : Physical)
      → (execute_purge batch_size chunks now "domain_event_outbox" s).0.outbox
        ≡ keep (λ e. not (old_outbox now (days_of "domain_event_outbox" s.settings) e)) s.outbox
  unfolding execute_purge run_executor purge_batched mark_run days_of find_retention_target
      retention_catalog trace_target
  execute_purge-outbox s =
      rw
        (
          execute_purge,
          run_executor,
          purge_batched,
          purge_rows-exact (old_outbox now (days_of "domain_event_outbox" s.settings)) batch_size
              s.outbox big,
        )
        refl

  split_total :
      (p : DeleteEvent → Bool) (es : List DeleteEvent)
      → total_affected es ≡ total_affected (keep (λ e. not (p e)) es) + total_affected (keep p es)
  unfolding total_affected
  split_total p [] = omega arith
  split_total p (e ∷ es) = ground (arith, split_total p es)

  -- A purge of the ledger makes deletions of the program uncontrolled: the counter grows by
  -- exactly the rows that the purged events have recorded. The ledger holds no more deletions than
  -- Postgres has counted, and a batch has room for a row.
  pub execute_purge-uncontrolled :
      (st : Store) (s : Physical)
      → s.events ≡ st.events
      → total_affected st.events ≤ st.n_tup_del
      → uncontrolled_deletes (record st {
        events = (execute_purge batch_size chunks now "table_delete_events" s).0.events;
      })
        ≡ uncontrolled_deletes st
          + total_affected
              (keep (old_event now (days_of "table_delete_events" s.settings)) st.events)
  unfolding uncontrolled_deletes
  execute_purge-uncontrolled st s same covered =
      let old = old_event now (days_of "table_delete_events" s.settings) in
      rw (execute_purge-events s, same) (omega (arith, split_total old st.events, covered))

  -- A purge of the outbox leaves every event that is not drained. A batch has room for a row.
  pub execute_purge-keeps_pending :
      (s : Physical) (e : DomainEventOutbox)
      → In e s.outbox
      → e.drained_at ≡ none
      → In e (execute_purge batch_size chunks now "domain_event_outbox" s).0.outbox
  unfolding old_outbox
  execute_purge-keeps_pending s e m pending = rw (execute_purge-outbox s) (
      In-keep _ e s.outbox m
        (ap (λ d. not (is_before now (days_of "domain_event_outbox" s.settings) d)) pending))

  -- A purge of the outbox takes the dead letters with the drained events: an event that became a
  -- dead letter before the window is not in the outbox afterwards. A batch has room for a row.
  pub execute_purge-takes_dead :
      (s : Physical) (e : DomainEventOutbox) (t : ℕ)
      → t + days_of "domain_event_outbox" s.settings * day_ms < now
      → ¬ In
          (mark_dead_letter t e)
          (execute_purge batch_size chunks now "domain_event_outbox" s).0.outbox
  unfolding old_outbox mark_dead_letter
  execute_purge-takes_dead s e t late m =
      let (_, stays) =
        In-keep_inv _ (mark_dead_letter t e) s.outbox
          (subst (λ es. In (mark_dead_letter t e) es) (execute_purge-outbox s) m) in
      cc (stays, lt→ltb _ _ late)
