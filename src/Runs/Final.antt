-- ===== src/Runs/Final.antt =====
-- The life of a run against the machine of its statuses, and what is final.
use yalia_sii.Prelude.{
  ℕ, ◌≤◌, ◌<◌, Bool, true, false, none, ◌≡◌, ◌≢◌, refl, sym, subst, ◌∙◌, ◌⊎◌, inl, inr, ltb,
  Bool-cases, arith,
}
use yalia_sii.Runs.{
  OperationRun, OperationRunStatus, queued, running, success, error, canceled, is_active,
  mark_running, start_progress, percent, update_progress, mark_success, mark_error, mark_canceled,
}
use yalia_sii.Runs.Life.{
  Job, waiting, fetched, working, gone, Life, remove_job, Step, takes, skips, marks,
  starts_progress, progresses, succeeds, fails, reads_active, saves_canceled, removes, Reach, here,
  next, IsFresh,
}

-- The machine of the statuses. A canceled run starts again, or ends, where the worker has already
-- taken its job; a run that has ended is canceled by a call that read it as active before.
pub data Edge : OperationRunStatus → OperationRunStatus → Type 0 where
  starts : Edge queued running
  withdraws : Edge queued canceled
  completes : Edge running success
  breaks : Edge running error
  aborts : Edge running canceled
  restarts : Edge canceled running
  completes_late : Edge canceled success
  breaks_late : Edge canceled error
  cancels_success : Edge success canceled
  cancels_error : Edge error canceled

-- Which statuses go with which place of the job.
unfoldable pub fits : Job → OperationRunStatus → Bool
fits waiting queued = true
fits waiting canceled = true
fits fetched queued = true
fits fetched canceled = true
fits working running = true
fits working canceled = true
fits gone success = true
fits gone error = true
fits gone canceled = true
fits _ _ = false

unfoldable pub is_final : OperationRunStatus → Bool
is_final success = true
is_final error = true
is_final _ = false

-- The invariant: the status fits the job, progress is a percentage, a success has its result, and a
-- job that is to be removed, where it still waits, is of a canceled run.
pub record Sound (a : Life) : Type 0 where
  pub placed : fits a.job a.run.status ≡ true
  pub bounded : a.run.progress ≤ 100
  pub has_result : a.run.status ≡ success → (a.run.progress ≡ 100) × (a.run.result ≢ none)
  pub withdrawn : 0 < a.saved → a.job ≡ waiting → a.run.status ≡ canceled

percent-bounded : (processed total : ℕ) → percent processed total ≤ 100
unfolding percent
percent-bounded processed total = elim (Bool-cases (ltb 0 total)) [
  | inl some_rows ↦ rw (some_rows, percent) (omega arith)
  | inr no_rows ↦ rw (no_rows, percent) (omega arith)
]

fits-taken : (s : OperationRunStatus) → fits waiting s ≡ true → fits fetched s ≡ true
unfolding fits
fits-taken queued h = refl
fits-taken canceled h = refl
fits-taken running h = cc
fits-taken success h = cc
fits-taken error h = cc

fits-canceled : (j : Job) → fits j canceled ≡ true
unfolding fits
fits-canceled waiting = refl
fits-canceled fetched = refl
fits-canceled working = refl
fits-canceled gone = refl

-- A job that waits after a removal has waited before.
remove_job-waiting : (removed : Bool) (j : Job) → remove_job removed j ≡ waiting → j ≡ waiting
unfolding remove_job
remove_job-waiting removed waiting h = refl
remove_job-waiting removed fetched h = h
remove_job-waiting removed working h = h
remove_job-waiting removed gone h = h

-- A removal leaves the job where it was, or takes one that waits.
remove_job-cases :
    (removed : Bool) (j : Job)
    → (remove_job removed j ≡ j) ⊎ ((j ≡ waiting) × (remove_job removed j ≡ gone))
unfolding remove_job
remove_job-cases true waiting = inr (refl, refl)
remove_job-cases false waiting = inl refl
remove_job-cases removed fetched = inl refl
remove_job-cases removed working = inl refl
remove_job-cases removed gone = inl refl

fits-working : (s : OperationRunStatus) → fits working s ≡ true → (s ≡ running) ⊎ (s ≡ canceled)
unfolding fits
fits-working running h = inl refl
fits-working canceled h = inr refl
fits-working queued h = cc
fits-working success h = cc
fits-working error h = cc

fits-fetched : (s : OperationRunStatus) → fits fetched s ≡ true → (s ≡ queued) ⊎ (s ≡ canceled)
unfolding fits
fits-fetched queued h = inl refl
fits-fetched canceled h = inr refl
fits-fetched running h = cc
fits-fetched success h = cc
fits-fetched error h = cc

fits-working-not_success : (s : OperationRunStatus) → fits working s ≡ true → s ≢ success
unfolding fits
fits-working-not_success s h e = cc (subst (λ x. fits working x ≡ true) e h)

at_work : (a : Life) → a.job ≡ working → Sound a → fits working a.run.status ≡ true
at_work a w v = subst (λ j. fits j a.run.status ≡ true) w v.placed

Step-Sound : {a b : Life} → Step a b → Sound a → Sound b
unfolding fits mark_running start_progress update_progress mark_success mark_error mark_canceled
Step-Sound (takes a w nc) v = record {
  placed = fits-taken a.run.status (subst (λ j. fits j a.run.status ≡ true) w v.placed);
  bounded = v.bounded;
  has_result = v.has_result;
  withdrawn = λ p e. cc;
}
Step-Sound (skips a w c) v = record {
  placed = subst (λ s. fits gone s ≡ true) (sym c) refl;
  bounded = v.bounded;
  has_result = v.has_result;
  withdrawn = λ p e. cc;
}
Step-Sound (marks a now w) v = record {
  placed = refl;
  bounded = v.bounded;
  has_result = λ e. cc;
  withdrawn = λ p e. cc;
}
Step-Sound (starts_progress a total phase w) v = record {
  placed = v.placed;
  bounded = omega arith;
  has_result = λ e. absurd (fits-working-not_success a.run.status (at_work a w v) e);
  withdrawn = v.withdrawn;
}
Step-Sound (progresses a processed total w) v = record {
  placed = v.placed;
  bounded = percent-bounded processed total;
  has_result = λ e. absurd (fits-working-not_success a.run.status (at_work a w v) e);
  withdrawn = v.withdrawn;
}
Step-Sound (succeeds a now result w) v = record {
  placed = refl;
  bounded = omega arith;
  has_result = λ e. (refl, λ n. cc);
  withdrawn = λ p e. cc;
}
Step-Sound (fails a now message w) v = record {
  placed = refl;
  bounded = v.bounded;
  has_result = λ e. cc;
  withdrawn = λ p e. cc;
}
Step-Sound (reads_active a act) v = record {
  placed = v.placed;
  bounded = v.bounded;
  has_result = v.has_result;
  withdrawn = v.withdrawn;
}
Step-Sound (saves_canceled a now n r) v = record {
  placed = fits-canceled a.job;
  bounded = v.bounded;
  has_result = λ e. cc;
  withdrawn = λ p e. refl;
}
Step-Sound (removes a removed n sv) v = record {
  placed = elim (remove_job-cases removed a.job) [
    | inl same ↦ subst (λ j. fits j a.run.status ≡ true) (sym same) v.placed
    | inr (w, away) ↦
        subst (λ j. fits j a.run.status ≡ true) (sym away)
          (subst (λ s. fits gone s ≡ true) (sym (v.withdrawn (omega (arith, sv)) w)) refl)
  ];
  bounded = v.bounded;
  has_result = v.has_result;
  withdrawn = λ p e. v.withdrawn (omega (arith, sv)) (remove_job-waiting removed a.job e);
}

IsFresh-Sound : (a : Life) → IsFresh a → Sound a
unfolding fits
IsFresh-Sound a (s, r, p, j, ra, sv) = record {
  placed =
      subst (λ x. fits x a.run.status ≡ true) (sym j)
        (subst (λ x. fits waiting x ≡ true) (sym s) refl);
  bounded = omega (arith, p);
  has_result = λ e. cc (s, e);
  withdrawn = λ h e. absurd (omega (arith, h, sv));
}

-- At any time in the life of a run, also where cancellations read before its end and save after it,
-- its status fits where its job stands, its progress is at most 100, a success has progress 100 and
-- a result, and a job that waits although a cancellation has saved is of a canceled run.
pub Reach-Sound : (a b : Life) → IsFresh a → Reach a b → Sound b
Reach-Sound a b f here = IsFresh-Sound a f
Reach-Sound a b f (next {b = c} r step) = Step-Sound step (Reach-Sound a c f r)

at_fetch : (a : Life) → a.job ≡ fetched → Sound a → fits fetched a.run.status ≡ true
at_fetch a w v = subst (λ j. fits j a.run.status ≡ true) w v.placed

active_cases : (s : OperationRunStatus) → is_active s ≡ true → (s ≡ queued) ⊎ (s ≡ running)
unfolding is_active
active_cases queued h = inl refl
active_cases running h = inr refl
active_cases success h = cc
active_cases error h = cc
active_cases canceled h = cc

-- The two statuses that a step can come from, each with its edge.
edge_from :
    (from first second to : OperationRunStatus)
    → Edge first to
    → Edge second to
    → (from ≡ first) ⊎ (from ≡ second)
    → Edge from to
edge_from from first second to e f (inl s) = subst (λ x. Edge x to) (sym s) e
edge_from from first second to e f (inr s) = subst (λ x. Edge x to) (sym s) f

to_canceled : (s : OperationRunStatus) → (canceled ≡ s) ⊎ Edge s canceled
to_canceled queued = inr withdraws
to_canceled running = inr aborts
to_canceled success = inr cancels_success
to_canceled error = inr cancels_error
to_canceled canceled = inl refl

Step-Edge :
    {a b : Life}
    → Step a b
    → Sound a
    → (b.run.status ≡ a.run.status) ⊎ Edge a.run.status b.run.status
unfolding mark_running start_progress update_progress mark_success mark_error mark_canceled
Step-Edge (takes a w nc) v = inl refl
Step-Edge (skips a w c) v = inl refl
Step-Edge (marks a now w) v = inr (
    edge_from a.run.status queued canceled running starts restarts
      (fits-fetched a.run.status (at_fetch a w v)))
Step-Edge (starts_progress a total phase w) v = inl refl
Step-Edge (progresses a processed total w) v = inl refl
Step-Edge (succeeds a now result w) v = inr (
    edge_from a.run.status running canceled success completes completes_late
      (fits-working a.run.status (at_work a w v)))
Step-Edge (fails a now message w) v = inr (
    edge_from a.run.status running canceled error breaks breaks_late
      (fits-working a.run.status (at_work a w v)))
Step-Edge (reads_active a act) v = inl refl
Step-Edge (saves_canceled a now n r) v = to_canceled a.run.status
Step-Edge (removes a removed n sv) v = inl refl

final-gone : (s : OperationRunStatus) (j : Job) → is_final s ≡ true → fits j s ≡ true → j ≡ gone
unfolding is_final fits
final-gone success gone h f = refl
final-gone error gone h f = refl
final-gone success waiting h f = cc
final-gone success fetched h f = cc
final-gone success working h f = cc
final-gone error waiting h f = cc
final-gone error fetched h f = cc
final-gone error working h f = cc
final-gone queued j h f = cc
final-gone running j h f = cc
final-gone canceled j h f = cc

active-not_final : (s : OperationRunStatus) → is_active s ≡ true → is_final s ≡ true → ⊥
unfolding is_active is_final
active-not_final queued act h = cc
active-not_final running act h = cc
active-not_final success act h = cc
active-not_final error act h = cc
active-not_final canceled act h = cc

Step-final :
    {a b : Life}
    → Step a b
    → Sound a
    → is_final a.run.status ≡ true
    → a.read_active ≡ 0
    → (b.run ≡ a.run) × (b.read_active ≡ 0)
Step-final (takes a w nc) v h z = (refl, z)
Step-final (skips a w c) v h z = (refl, z)
Step-final (marks a now w) v h z = absurd (cc (w, final-gone a.run.status a.job h v.placed))
Step-final (starts_progress a total phase w) v h z =
    absurd (cc (w, final-gone a.run.status a.job h v.placed))
Step-final (progresses a processed total w) v h z =
    absurd (cc (w, final-gone a.run.status a.job h v.placed))
Step-final (succeeds a now result w) v h z =
    absurd (cc (w, final-gone a.run.status a.job h v.placed))
Step-final (fails a now message w) v h z = absurd (cc (w, final-gone a.run.status a.job h v.placed))
Step-final (reads_active a act) v h z = absurd (active-not_final a.run.status act h)
Step-final (saves_canceled a now n r) v h z = absurd (omega (arith, r, z))
Step-final (removes a removed n sv) v h z = (refl, z)

-- A step that a run can meet, of the processor or of a cancellation between whose read and save
-- others fall, moves its status along an edge of the machine of the statuses, or leaves it.
pub Step-refines :
    (a b c : Life)
    → IsFresh a
    → Reach a b
    → Step b c
    → (c.run.status ≡ b.run.status) ⊎ Edge b.run.status c.run.status
Step-refines a b c f r step = Step-Edge step (Reach-Sound a b f r)

Reach-trans : (a b c : Life) → Reach a b → Reach b c → Reach a c
Reach-trans a b c r here = r
Reach-trans a b c r (next {b = d} later step) = next (Reach-trans a b d r later) step

kept :
    (a b c : Life)
    → IsFresh a
    → Reach a b
    → is_final b.run.status ≡ true
    → b.read_active ≡ 0
    → Reach b c
    → (c.run ≡ b.run) × (c.read_active ≡ 0)
kept a b c f r h z here = (refl, z)
kept a b c f r h z (next {b = d} later step) =
    let (same, none_read) = kept a b d f r h z later in
    let still = subst (λ (q : OperationRun). is_final q.status ≡ true) (sym same) h in
    let (now_same, now_none) =
      Step-final step (Reach-Sound a d f (Reach-trans a b d r later)) still none_read in
    (now_same ∙ same, now_none)

-- Once a run is a success or an error, and no call of `cancel` that read it as active is still to
-- save, its row never changes again.
pub Reach-final :
    (a b c : Life)
    → IsFresh a
    → Reach a b
    → is_final b.run.status ≡ true
    → b.read_active ≡ 0
    → Reach b c
    → c.run ≡ b.run
Reach-final a b c f r h z later = (kept a b c f r h z later).0
