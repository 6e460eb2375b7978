-- ===== src/Runs/Life.antt =====
-- The life of one run: its row, where the job that carries it out stands, and the calls of `cancel`
-- that are under way. The processor reads the row, marks it as running, works, and writes the end;
-- `cancel` reads the row, saves the cancellation, and removes the job. The steps of both can fall
-- between each other in any order.
use yalia_sii.Prelude.{ℕ, suc, String, Bool, true, none, ◌≡◌, ◌≢◌, if◌then◌else◌}
use yalia_sii.Json.{Json}
use yalia_sii.Runs.{
  OperationRun, queued, canceled, is_active, mark_running, start_progress, update_progress,
  mark_success, mark_error, mark_canceled,
}

-- The job waits in the queue, has read the row, works, or is gone.
pub data Job : Type 0 where
  waiting fetched working gone : Job

pub record Life : Type 0 where
  pub run : OperationRun
  pub job : Job
  -- The cancellations that have read an active run, and those that have saved.
  pub read_active : ℕ
  pub saved : ℕ

-- `job.remove()`, which does not remove a job that has been taken.
unfoldable pub remove_job : Bool → Job → Job
remove_job removed waiting = if removed then gone else waiting
remove_job removed j = j

pub data Step : Life → Life → Type 0 where
  -- `find`, and the test on the status.
  takes :
      (a : Life) → a.job ≡ waiting → a.run.status ≢ canceled → Step a (record a { job = fetched })
  skips : (a : Life) → a.job ≡ waiting → a.run.status ≡ canceled → Step a (record a { job = gone })
  marks :
      (a : Life) (now : ℕ)
      → a.job ≡ fetched
      → Step a (record a { run = mark_running now a.run; job = working })
  starts_progress :
      (a : Life) (total : ℕ) (phase : String)
      → a.job ≡ working
      → Step a (record a { run = start_progress total phase a.run })
  progresses :
      (a : Life) (processed total : ℕ)
      → a.job ≡ working
      → Step a (record a { run = update_progress processed total a.run })
  succeeds :
      (a : Life) (now : ℕ) (result : Json)
      → a.job ≡ working
      → Step a (record a { run = mark_success now result a.run; job = gone })
  fails :
      (a : Life) (now : ℕ) (message : String)
      → a.job ≡ working
      → Step a (record a { run = mark_error now message a.run; job = gone })
  -- `cancel`: `get` with the test on the status, `save`, and `job.remove()`.
  reads_active :
      (a : Life)
      → is_active a.run.status ≡ true
      → Step a (record a { read_active = suc a.read_active })
  saves_canceled :
      (a : Life) (now n : ℕ)
      → a.read_active ≡ suc n
      → Step a (record a { run = mark_canceled now a.run; read_active = n; saved = suc a.saved })
  removes :
      (a : Life) (removed : Bool) (n : ℕ)
      → a.saved ≡ suc n
      → Step a (record a { job = remove_job removed a.job; saved = n })

-- From a life to a later one.
pub data Reach (a : Life) : Life → Type 0 where
  here : Reach a a
  next : {b c : Life} → Reach a b → Step b c → Reach a c

-- A run that has just been created.
abbrev pub IsFresh : Life → Type 0
IsFresh a =
    (a.run.status ≡ queued)
    × (a.run.result ≡ none)
    × (a.run.progress ≡ 0)
    × (a.job ≡ waiting)
    × (a.read_active ≡ 0)
    × (a.saved ≡ 0)
