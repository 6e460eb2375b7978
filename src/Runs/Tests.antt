-- ===== src/Runs/Tests.antt =====
-- Runs of concrete operations, and the theorems about them.
use yalia_sii.Prelude.{ℕ, true, ◌≡◌, ◌⊎◌, refl, some, [], ◌∷◌, map}
use yalia_sii.Json.{null}
use yalia_sii.Samples.{plain}
use yalia_sii.Runs.{
  OperationRun, canceled, RunStore, is_active, create, cancel, get_run, find_run, mark_running,
  mark_success, mark_canceled,
}
use yalia_sii.Runs.Life.{
  Life, waiting, fetched, working, gone, remove_job, Step, takes, marks, succeeds, reads_active,
  saves_canceled, removes, Reach, here, next, IsFresh,
}
use yalia_sii.Runs.Final.{Sound, Edge, is_final, Reach-Sound, Step-refines, Reach-final}
use yalia_sii.Runs.Dispatch.{Services, returned, threw, process, is_canceled, Ends, process-Ends}

abbrev nothing : RunStore
nothing = record { runs = []; jobs = []; drawn = 1 }

abbrev created : RunStore × OperationRun
created = create plain 5 "retention.purge" (some "outbox") [] nothing

canceled_run :
    map (λ (r : OperationRun). r.status) (cancel plain 6 created.1.id created.0).0.runs
    ≡ canceled ∷ []
unfolding create cancel is_active find_run get_run mark_canceled
canceled_run = refl

abbrev fresh : Life
fresh = record { run = created.1; job = waiting; read_active = 0; saved = 0 }

abbrev working_life : Life
working_life = record fresh { run = mark_running 6 fresh.run; job = working }

abbrev read_life : Life
read_life = record working_life { read_active = 1 }

-- The cancellation that has read a working run saves after its success.
abbrev succeeded : Life
succeeded = record read_life { run = mark_success 8 null working_life.run; job = gone }

abbrev overwritten : Life
overwritten = record succeeded { run = mark_canceled 9 succeeded.run; read_active = 0; saved = 1 }

to_working : Reach fresh working_life
unfolding create
to_working =
    next (next here (takes fresh refl (λ e. cc))) (marks (record fresh { job = fetched }) 6 refl)

reads : Step working_life read_life
unfolding mark_running is_active
reads = reads_active working_life refl

to_success : Reach fresh succeeded
to_success = next (next to_working reads) (succeeds read_life 8 null refl)

overwrites : Step succeeded overwritten
overwrites = saves_canceled succeeded 9 0 refl

fresh-IsFresh : IsFresh fresh
unfolding create
fresh-IsFresh = (refl, refl, refl, refl, refl, refl)

Reach-Sound_example : Sound overwritten
Reach-Sound_example = Reach-Sound fresh overwritten fresh-IsFresh (next to_success overwrites)

Step-refines_example :
    (overwritten.run.status ≡ succeeded.run.status)
    ⊎ Edge succeeded.run.status overwritten.run.status
Step-refines_example = Step-refines fresh succeeded overwritten fresh-IsFresh to_success overwrites

-- A cancellation that saves while the run works, and removes its job after the success.
abbrev canceled_life : Life
canceled_life = record read_life {
  run = mark_canceled 7 working_life.run;
  read_active = 0;
  saved = 1;
}

abbrev late_success : Life
late_success = record canceled_life { run = mark_success 8 null canceled_life.run; job = gone }

abbrev after_removal : Life
after_removal = record late_success { saved = 0 }

to_late_success : Reach fresh late_success
to_late_success =
    next (next (next to_working reads) (saves_canceled read_life 7 0 refl))
      (succeeds canceled_life 8 null refl)

removal : Reach late_success after_removal
unfolding remove_job
removal = next here (removes late_success true 0 refl)

Reach-final_example : after_removal.run ≡ late_success.run
unfolding is_final mark_success
Reach-final_example =
    Reach-final fresh late_success after_removal fresh-IsFresh to_late_success refl refl removal

abbrev services : Services ℕ
services = record {
  execute_purge = λ key s. (0, returned s);
  get_by_key = λ key s. threw "not found";
  submit_by_ids = λ key ids conn s. (s, returned (0, 0));
  delete_rows = λ t params s. (s, returned 0);
  count_filtered = λ t filters conn s. returned 0;
  get_stats = λ t conn s. returned null;
  aggregate = λ t params s. returned null;
  decimal = λ n. "0";
}

process-Ends_example : Ends services created.1.id (process services 9 created.1.id created.0 3)
unfolding create find_run is_canceled
process-Ends_example = process-Ends services 9 created.1.id created.0 3 created.1 refl refl
