-- ===== src/Runs/Dispatch.antt =====
-- src/tables/maintenance.processor.ts: process and dispatch. The services that it calls are an
-- interface: each may throw, and may change the state that it works on before it does.
use yalia_sii.Prelude.{
  ℕ, String, Bool, true, false, not, Option, none, some, List, [], ◌∷◌, ◌==◌, ◌≡◌, refl, ap, inl,
  inr, if◌then◌else◌, map, keep, find-some, In-any, ◌>>=◌, Bool-cases,
}
use yalia_sii.Json.{Json, str, num, arr, obj, end, field, Object, items, entries, get}
use yalia_sii.Template.{TableTemplate}
use yalia_sii.Deletes.{DatasetDeleteParams}
use yalia_sii.Runs.{
  OperationRun, OperationRunStatus, canceled, RunStore, mark_running, mark_success, mark_error,
  find_run, save_run,
}
use yalia_sii.Runs.Final.{is_final}

-- What a service answers: a value, or the message of what it throws.
pub data Outcome {ℓ} (A : Type ℓ) : Type ℓ where
  returned : A → Outcome A
  threw : String → Outcome A

pub record Services (S : Type 0) : Type 0 where
  pub execute_purge : String → S → S × Outcome ℕ
  pub get_by_key : String → S → Outcome TableTemplate
  pub submit_by_ids : String → List String → String → S → S × Outcome (ℕ × ℕ)
  pub delete_rows : TableTemplate → DatasetDeleteParams → S → S × Outcome ℕ
  pub count_filtered : TableTemplate → List (String × String) → String → S → Outcome ℕ
  pub get_stats : TableTemplate → String → S → Outcome Json
  pub aggregate : TableTemplate → Object → S → Outcome Json
  pub decimal : ℕ → String

-- `String(params.k ?? '')` and the optional parameters, of the texts that the controllers store.
unfoldable pub text_param : String → Object → String
text_param k o = elim (get k o) [ none ↦ "" | some v ↦ elim v [ str s ↦ s | _ ↦ "" ] ]

unfoldable pub texts : List Json → List String
texts [] = []
texts (str s ∷ vs) = s ∷ texts vs
texts (v ∷ vs) = texts vs

unfoldable pub texts_param : String → Object → List String
unfolding texts
texts_param k o = elim (get k o) [
  | none ↦ []
  | some v ↦ elim v [ arr vs ↦ texts (items vs) | _ ↦ [] ]
]

unfoldable pub pairs : Object → List (String × String)
pairs [] = []
pairs ((k, str s) ∷ o) = (k, s) ∷ pairs o
pairs ((k, v) ∷ o) = pairs o

unfoldable pub filters_param : Object → List (String × String)
unfolding pairs
filters_param o = elim (get "filters" o) [
  | none ↦ []
  | some v ↦ elim v [ obj fs ↦ pairs (entries fs) | _ ↦ [] ]
]

module _ {S : Type 0} (services : Services S) where
  unfoldable pub counted : String → S × Outcome ℕ → S × Outcome Json
  counted k (s, returned n) = (s, returned (obj (field k (num (services.decimal n)) end)))
  counted k (s, threw m) = (s, threw m)

  unfoldable pub submitted : S × Outcome (ℕ × ℕ) → S × Outcome Json
  submitted (s, returned (n, m)) = (
    s,
    returned (
        obj (
          field "submitted" (num (services.decimal n))
            (field "skipped" (num (services.decimal m)) end))),
  )
  submitted (s, threw m) = (s, threw m)

  -- The operations of a table.
  unfoldable pub on_table : OperationRun → TableTemplate → S → S × Outcome Json
  unfolding text_param texts_param filters_param submitted counted
  on_table run t s =
      let conn = text_param "connectionId" run.params in
      let filters = filters_param run.params in
      if run.operation == "table.write.submitRows"
      then submitted (
          services.submit_by_ids (text_param "tableKey" run.params) (texts_param "ids" run.params)
            conn s)
      else if run.operation == "table.bulkDelete"
      then counted "deletedCount" (
          services.delete_rows t
            (record {
              connection_id = conn;
              ids = [];
              older_than_days = none;
              filters = keep (λ f. not (f.1 == "")) filters;
            })
            s)
      else if run.operation == "table.count"
      then counted "count" (s, services.count_filtered t filters conn s)
      else if run.operation == "table.stats"
      then (s, services.get_stats t conn s)
      else if run.operation == "table.report"
      then (s, services.aggregate t run.params s)
      else (s, threw "Unknown maintenance operation")

  unfoldable pub dispatch : OperationRun → S → S × Outcome Json
  unfolding on_table text_param counted
  dispatch run s =
      if run.operation == "retention.purge"
      then counted "deletedCount" (services.execute_purge (text_param "targetKey" run.params) s)
      else elim (services.get_by_key (text_param "tableKey" run.params) s) [
        | threw m ↦ (s, threw m)
        | returned t ↦ on_table run t s
      ]

  unfoldable pub is_canceled : OperationRunStatus → Bool
  is_canceled canceled = true
  is_canceled _ = false

  unfoldable pub concluded : ℕ → String → RunStore → S × Outcome Json → Option (RunStore × S)
  concluded now id runs (s, returned v) =
      save_run id (mark_success now v) runs >>= λ done. some (done, s)
  concluded now id runs (s, threw m) =
      save_run id (mark_error now m) runs >>= λ done. some (done, s)

  -- `process`, as one sequence; none where the processor throws.
  unfoldable pub process : ℕ → String → RunStore → S → Option (RunStore × S)
  unfolding is_canceled concluded dispatch
  process now id runs s = elim (find_run id runs.runs) [
    | none ↦ some (runs, s)
    | some r ↦
        if is_canceled r.status
        then some (runs, s)
        else (save_run id (mark_running now) runs >>= λ marked.
            concluded now id marked (dispatch r s))
  ]

-- The partial saves keep the id.
abbrev KeepsId : (OperationRun → OperationRun) → Type 0
KeepsId f = (r : OperationRun) → (f r).id ≡ r.id

find_run-saved :
    (id : String) (f : OperationRun → OperationRun) (runs : List OperationRun) (r : OperationRun)
    → KeepsId f
    → find_run id runs ≡ some r
    → find_run id (map (λ (q : OperationRun). if q.id == id then f q else q) runs) ≡ some (f r)
unfolding find_run
find_run-saved id f [] r k h = cc
find_run-saved id f (q ∷ runs) r k h = elim (Bool-cases (q.id == id)) [
  | inl hit ↦
      let named : ((f q).id == id) ≡ true = rw (k q) hit in
      rw (hit, named) (ap (λ o. o >>= λ x. some (f x)) (rw hit at h))
  | inr miss ↦ rw (miss, miss) (find_run-saved id f runs r k (rw miss at h))
]

save_run-found :
    (id : String) (f : OperationRun → OperationRun) (s : RunStore) (r : OperationRun)
    → KeepsId f
    → find_run id s.runs ≡ some r
    → (s' : RunStore) × (save_run id f s ≡ some s') × (find_run id s'.runs ≡ some (f r))
unfolding save_run find_run
save_run-found id f s r k h =
    let (m, named) = find-some (λ (q : OperationRun). q.id == id) s.runs r h in
    let there = In-any (λ (q : OperationRun). q.id == id) r s.runs m named in
    (
      record s { runs = map (λ (q : OperationRun). if q.id == id then f q else q) s.runs },
      rw (there, save_run) refl,
      find_run-saved id f s.runs r k h,
    )

module _ {S : Type 0} (services : Services S) where
  -- The run of that id has ended.
  abbrev pub Ends : String → Option (RunStore × S) → Type 0
  Ends id out =
      (done : RunStore) × (s' : S) × (r : OperationRun) × (out ≡ some (done, s'))
      × (find_run id done.runs ≡ some r)
      × (is_final r.status ≡ true)

  concluded-Ends :
      (now : ℕ) (id : String) (runs : RunStore) (r : OperationRun) (out : S × Outcome Json)
      → find_run id runs.runs ≡ some r
      → Ends id (concluded services now id runs out)
  unfolding concluded mark_success mark_error is_final
  concluded-Ends now id runs r (s, returned v) h =
      let (done, same, found) = save_run-found id (mark_success now v) runs r (λ q. refl) h in
      (done, s, mark_success now v r, rw same refl, found, refl)
  concluded-Ends now id runs r (s, threw m) h =
      let (done, same, found) = save_run-found id (mark_error now m) runs r (λ q. refl) h in
      (done, s, mark_error now m r, rw same refl, found, refl)

  -- The job of a run that is there and is not canceled ends it: whatever the operation is, whatever
  -- the services answer or throw, the processor returns, and the run is a success or an error.
  pub process-Ends :
      (now : ℕ) (id : String) (runs : RunStore) (s : S) (r : OperationRun)
      → find_run id runs.runs ≡ some r
      → is_canceled services r.status ≡ false
      → Ends id (process services now id runs s)
  unfolding process mark_running
  process-Ends now id runs s r found active =
      let (marked, same, there) = save_run-found id (mark_running now) runs r (λ q. refl) found in
      let (done, s', end_run, e, f, final) =
        concluded-Ends now id marked (mark_running now r) (dispatch services r s) there in
      (done, s', end_run, rw (found, process, active, same) e, f, final)
