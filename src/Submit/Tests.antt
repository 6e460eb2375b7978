-- ===== src/Submit/Tests.antt =====
-- Calls through a concrete gateway, and the theorems about them.
use yalia_sii.Prelude.{
  String, ◌≡◌, refl, true, Option, none, some, List, [], ◌∷◌, map, ◌=ℕ◌, if◌then◌else◌,
}
use yalia_sii.Rows.{TableRow}
use yalia_sii.Rules.{create, resolve_write_rule}
use yalia_sii.Http.{Reply, ok}
use yalia_sii.Samples.{plain, invoices, invoice, stored, grouped_write}
use yalia_sii.Payload.{PayloadRow}
use yalia_sii.Outbound.{error, schedule, responded, Db, Gateway}
use yalia_sii.Submit.{Submitted, submission, submit_group, mark_group_result, attempt}
use yalia_sii.Submit.Outcome.{Ended, submit_group-Ended}
use yalia_sii.Submit.Total.{submit_group-returns}

-- The first request is accepted, the later ones are rejected.
abbrev gate : Gateway
gate = record {
  resolve = λ id. some (record { name = "Company"; clave = none });
  send = λ n c. if n =ℕ 0 then responded 200 none else responded 400 none;
  commits = λ n. true;
  failure = λ n. "deadlock detected";
  records = λ n. true;
  trim = λ s. s;
  slug = λ s. s;
  json_text = λ v. "null";
  decimal = λ n. "400";
}

abbrev start : Db
start = record {
  rows =
      stored "a" (some "queued") none (invoice "1" "1" "x")
      ∷ stored "b" (some "queued") none (invoice "2" "1" "y")
      ∷ [];
  outbox = [];
  runs = [];
  calls = [];
  drawn = 0;
  step = 0;
}

abbrev row : PayloadRow
row = record { id = "a"; fields = invoice "1" "1" "x" }

abbrev outcome : Reply (Db × Option (Submitted plain gate 7))
outcome = submit_group plain gate 7 invoices (row ∷ []) none schedule none "c1" create start

abbrev fallback : Submitted plain gate 7
fallback = record { batch_id = ""; status = error; error = none }

abbrev db_of : Reply (Db × Option (Submitted plain gate 7)) → Db
db_of (ok (d, r)) = d
db_of _ = start

abbrev batch_of : Reply (Db × Option (Submitted plain gate 7)) → Submitted plain gate 7
batch_of (ok (d, some r)) = r
batch_of _ = fallback

statuses : Db → List (Option String)
statuses d = map (λ (r : TableRow). r.submission_status) d.rows

outcome_run : statuses (db_of outcome) ≡ some "pending" ∷ some "queued" ∷ []
unfolding statuses submit_group attempt mark_group_result resolve_write_rule
outcome_run = refl

outcome-ok : outcome ≡ ok (db_of outcome, some (batch_of outcome))
unfolding submit_group attempt mark_group_result resolve_write_rule
outcome-ok = refl

submit_group-Ended_example :
    Ended plain gate 7
      (submission plain gate 7 invoices grouped_write
        (row ∷ [])
        none
        schedule
        none
        "c1"
        create
        start)
      (record start { drawn = 1 })
      (db_of outcome, batch_of outcome)
submit_group-Ended_example =
    submit_group-Ended plain gate 7 invoices grouped_write row [] none schedule none "c1" create
      start (db_of outcome) (batch_of outcome) refl outcome-ok

submit_group-returns_example :
    (after : Db) × (done : Submitted plain gate 7) × (submit_group plain gate 7 invoices
        (row ∷ [])
        none
        schedule
        none
        "c1"
        create
        start
      ≡ ok (after, some done))
submit_group-returns_example =
    submit_group-returns plain gate 7 invoices grouped_write row [] none schedule none "c1" create
      start refl (λ n. refl)
