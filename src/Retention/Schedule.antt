-- ===== src/Retention/Schedule.antt =====
-- src/tables/retention-scheduler.service.ts, one tick: a run for each target whose purge is due.
use yalia_sii.Prelude.{
  ℕ, ◌+◌, ◌*◌, ◌≤◌, String, Bool, true, not, ◌&&◌, none, some, List, [], ◌∷◌, ◌++◌, ◌==◌, ◌≡◌, refl,
  subst, ◌∙◌, inl, inr, ltb, if◌then◌else◌, is_some, is_text, keep, count, count-append, Bool-cases,
  Option-cases, both_true, arith, eq_iff,
}
use yalia_sii.Json.{Platform, str}
use yalia_sii.Runs.{
  OperationRun, RunStore, is_active, newest, newest_of, find_active_by_operation, fresh_run, create,
}
use yalia_sii.Retention.{
  RetentionTargetDef, RetentionSetting, retention_catalog, get_config, day_ms,
}

abbrev purge_operation : String
purge_operation = "retention.purge"

module _ (host : Platform) (now : ℕ) (settings : List RetentionSetting) where
  -- `Date.now() < dueAt` does not hold.
  unfoldable pub is_due : RetentionSetting → Bool
  is_due c = elim c.last_run_at [
    | none ↦ true
    | some t ↦ not (ltb now (t + c.interval_days * day_ms))
  ]

  -- The tests of the loop on one target.
  unfoldable pub wants_purge : RetentionTargetDef → RunStore → Bool
  unfolding is_due get_config
  wants_purge d s =
      not d.read_only
      && is_some d.executor
      && (get_config d settings).enabled
      && is_due (get_config d settings)
      && not (is_some (find_active_by_operation purge_operation d.key s.runs))

  unfoldable pub schedule_target : RetentionTargetDef → RunStore → RunStore
  unfolding wants_purge
  schedule_target d s =
      if wants_purge d s
      then (create host now purge_operation (some d.key) (("targetKey", str d.key) ∷ []) s).0
      else s

  unfoldable pub schedule_targets : List RetentionTargetDef → RunStore → RunStore
  unfolding schedule_target
  schedule_targets [] s = s
  schedule_targets (d ∷ ds) s = schedule_targets ds (schedule_target d s)

  unfoldable pub tick : RunStore → RunStore
  unfolding schedule_targets retention_catalog
  tick s = schedule_targets retention_catalog s

-- An active purge of that target.
abbrev pub purges : String → OperationRun → Bool
purges key r = r.operation == purge_operation && is_text r.table_key key && is_active r.status

-- No target has two active purges.
abbrev pub HasOneActive : RunStore → Type 0
HasOneActive s = (key : String) → count (purges key) s.runs ≤ 1

newest-some :
    (q : OperationRun) (r : OperationRun) → (x : OperationRun) × (newest (some q) r ≡ some x)
unfolding newest
newest-some q r = elim (Bool-cases (ltb q.created_at r.created_at)) [
  | inl later ↦ (r, rw (later, newest) refl)
  | inr earlier ↦ (q, rw (earlier, newest) refl)
]

newest_of-some : (q : OperationRun) (rs : List OperationRun) → newest_of (some q) rs ≡ none → ⊥
unfolding newest_of
newest_of-some q [] h = cc
newest_of-some q (r ∷ rs) h = let (x, e) = newest-some q r in newest_of-some x rs (rw e at h)

none_active :
    (p : OperationRun → Bool) (rs : List OperationRun)
    → newest_of none (keep p rs) ≡ none
    → count p rs ≡ 0
unfolding newest_of newest
none_active p [] h = refl
none_active p (r ∷ rs) h = elim (Bool-cases (p r)) [
  | inl hit ↦ absurd (newest_of-some r (keep p rs) (rw hit at h))
  | inr miss ↦ rw miss (none_active p rs (rw miss at h))
]

module _ (host : Platform) (now : ℕ) (settings : List RetentionSetting) where
  idle-uncounted :
      (d : RetentionTargetDef) (s : RunStore)
      → wants_purge host now settings d s ≡ true
      → count (purges d.key) s.runs ≡ 0
  unfolding wants_purge find_active_by_operation
  idle-uncounted d s wanted =
      elim (Option-cases (find_active_by_operation purge_operation d.key s.runs)) [
        | inl idle ↦ none_active (purges d.key) s.runs idle
        | inr (r, busy) ↦
            let free : not (is_some (find_active_by_operation purge_operation d.key s.runs))
                ≡ true =
              (both_true _ _ wanted).1 in
            absurd (cc (rw busy at free))
      ]

  fresh-counted :
      (d : RetentionTargetDef) (s : RunStore) (key : String) (r : OperationRun)
      → purges key r ≡ (d.key == key)
      → count (purges d.key) s.runs ≡ 0
      → HasOneActive s
      → count (purges key) (s.runs ++ r ∷ []) ≤ 1
  fresh-counted d s key r one idle h = elim (Bool-cases (d.key == key)) [
    | inl same ↦
        let none_yet : count (purges key) s.runs ≡ 0 =
          subst (λ k. count (purges k) s.runs ≡ 0) ((eq_iff d.key key).0 same) idle in
        ground (arith, count-append (purges key) s.runs (r ∷ []), none_yet, one ∙ same)
    | inr other ↦ ground (arith, count-append (purges key) s.runs (r ∷ []), h key, one ∙ other)
  ]

  schedule_target-HasOneActive :
      (d : RetentionTargetDef) (s : RunStore)
      → HasOneActive s
      → HasOneActive (schedule_target host now settings d s)
  unfolding schedule_target create fresh_run is_active
  schedule_target-HasOneActive d s h key = elim (Bool-cases (wants_purge host now settings d s)) [
    | inr skipped ↦ rw (skipped, schedule_target) (h key)
    | inl wanted ↦
        rw (wanted, schedule_target)
          (fresh-counted d s key _ (ground arith) (idle-uncounted d s wanted) h)
  ]

  schedule_targets-HasOneActive :
      (ds : List RetentionTargetDef) (s : RunStore)
      → HasOneActive s
      → HasOneActive (schedule_targets host now settings ds s)
  unfolding schedule_targets
  schedule_targets-HasOneActive [] s h = h
  schedule_targets-HasOneActive (d ∷ ds) s h =
      schedule_targets-HasOneActive ds (schedule_target host now settings d s)
        (schedule_target-HasOneActive d s h)

  -- A tick of the scheduler never puts a second purge of a target on the way: where no target has
  -- two active purges, none has two afterwards.
  pub tick-HasOneActive : (s : RunStore) → HasOneActive s → HasOneActive (tick host now settings s)
  unfolding tick
  tick-HasOneActive s h = schedule_targets-HasOneActive retention_catalog s h
