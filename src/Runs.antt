-- ===== src/Runs.antt =====
-- src/tables/operation-run.service.ts, src/tables/entities/operation-run.entity.ts and
-- src/tables/maintenance.processor.ts: the runs of the heavy operations, kept as rows with the jobs
-- that carry them out. `save` of a part of a row throws where the row is not there.
pub mod Dispatch
pub mod Life
pub mod Final
mod Tests
use yalia_sii.Prelude.{
  ℕ, suc, ◌+◌, ◌*◌, ◌/◌, min, String, Bool, true, false, not, ◌&&◌, ◌||◌, Option, none, some, List,
  [], ◌∷◌, ◌++◌, map, ◌==◌, ◌=ℕ◌, ltb, if◌then◌else◌, is_text, any, find, keep,
}
use yalia_sii.Json.{Json, Object, Platform}
use yalia_sii.Http.{Reply, ok, not_found}

pub data OperationRunStatus : Type 0 where
  queued running success error canceled : OperationRunStatus

pub record OperationRun : Type 0 where
  pub id : String
  pub operation : String
  pub table_key : Option String
  pub status : OperationRunStatus
  pub params : Object
  pub result : Option Json
  pub total : ℕ
  pub processed : ℕ
  pub progress : ℕ
  pub phase : Option String
  pub error_text : Option String
  pub created_at : ℕ
  pub started_at : Option ℕ
  pub finished_at : Option ℕ

-- The rows, the jobs that wait in the queue, and the ids drawn so far.
pub record RunStore : Type 0 where
  pub runs : List OperationRun
  pub jobs : List String
  pub drawn : ℕ

unfoldable pub is_active : OperationRunStatus → Bool
is_active queued = true
is_active running = true
is_active _ = false

unfoldable pub mark_running : ℕ → OperationRun → OperationRun
mark_running now r = record r { status = running; started_at = some now }

unfoldable pub start_progress : ℕ → String → OperationRun → OperationRun
start_progress total phase r = record r {
  total = total;
  processed = 0;
  progress = 0;
  phase = some phase;
}

-- `Math.min(100, Math.round((processed / total) * 100))`
unfoldable pub percent : ℕ → ℕ → ℕ
percent processed total =
    if ltb 0 total then min 100 ((200 * processed + total) / (2 * total)) else 0

unfoldable pub update_progress : ℕ → ℕ → OperationRun → OperationRun
unfolding percent
update_progress processed total r = record r {
  processed = processed;
  total = total;
  progress = percent processed total;
}

unfoldable pub mark_success : ℕ → Json → OperationRun → OperationRun
mark_success now result r = record r {
  status = success;
  result = some result;
  progress = 100;
  phase = some "done";
  finished_at = some now;
}

unfoldable pub mark_error : ℕ → String → OperationRun → OperationRun
mark_error now message r = record r {
  status = error;
  error_text = some message;
  finished_at = some now;
}

unfoldable pub mark_canceled : ℕ → OperationRun → OperationRun
mark_canceled now r = record r { status = canceled; finished_at = some now }

unfoldable pub find_run : String → List OperationRun → Option OperationRun
find_run id = find (λ (r : OperationRun). r.id == id)

unfoldable pub get_run : String → RunStore → Reply OperationRun
unfolding find_run
get_run id s = elim (find_run id s.runs) [ none ↦ not_found | some r ↦ ok r ]

-- `repo.save({ id, … })`
unfoldable pub save_run : String → (OperationRun → OperationRun) → RunStore → Option RunStore
save_run id f s =
    if any (λ (r : OperationRun). r.id == id) s.runs
    then some (record s { runs = map (λ (r : OperationRun). if r.id == id then f r else r) s.runs })
    else none

-- `order: { createdAt: 'DESC' }`
unfoldable pub newest : Option OperationRun → OperationRun → Option OperationRun
newest none r = some r
newest (some q) r = if ltb q.created_at r.created_at then some r else some q

unfoldable pub newest_of : Option OperationRun → List OperationRun → Option OperationRun
unfolding newest
newest_of best [] = best
newest_of best (r ∷ rs) = newest_of (newest best r) rs

unfoldable pub find_active_by_operation : String → String → List OperationRun → Option OperationRun
unfolding newest_of is_active
find_active_by_operation operation key runs = newest_of none (
    keep
      (λ (r : OperationRun).
        r.operation == operation && is_text r.table_key key && is_active r.status)
      runs)

module _ (host : Platform) (now : ℕ) where
  unfoldable pub fresh_run : String → String → Option String → Object → OperationRun
  fresh_run id operation key params = record {
    id = id;
    operation = operation;
    table_key = key;
    status = queued;
    params = params;
    result = none;
    total = 0;
    processed = 0;
    progress = 0;
    phase = none;
    error_text = none;
    created_at = now;
    started_at = none;
    finished_at = none;
  }

  unfoldable pub create : String → Option String → Object → RunStore → RunStore × OperationRun
  unfolding fresh_run
  create operation key params s =
      let r = fresh_run (host.uuid s.drawn) operation key params in
      (record { runs = s.runs ++ r ∷ []; jobs = s.jobs ++ r.id ∷ []; drawn = suc s.drawn }, r)

  unfoldable pub cancel_run : OperationRun → RunStore → RunStore
  unfolding mark_canceled
  cancel_run r s = record s {
    runs = map (λ (q : OperationRun). if q.id == r.id then mark_canceled now q else q) s.runs;
    jobs = keep (λ id. not (id == r.id)) s.jobs;
  }

  unfoldable pub cancel : String → RunStore → RunStore × Reply OperationRun
  unfolding get_run find_run cancel_run is_active
  cancel id s = elim (find_run id s.runs) [
    | none ↦ (s, not_found)
    | some r ↦ let s' = if is_active r.status then cancel_run r s else s in (s', get_run id s')
  ]
