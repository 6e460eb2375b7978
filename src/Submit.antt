-- ===== src/Submit.antt =====
-- src/tables/table-rows.service.ts, one outbound call: submitGroup, markGroupResult, commitOutcome,
-- buildEmittedEvent and recordRun, with resolveClave of src/connections/source-connections.service.ts.
-- The network, the connections' store and the failures of the database are the gateway's.
pub mod Outcome
pub mod Total
mod Tests
use yalia_sii.Prelude.{
  ℕ, zero, suc, ◌+◌, String, Bool, true, false, not, ◌&&◌, Option, none, some, List, [], ◌∷◌, ◌++◌,
  map, ◌==◌, if◌then◌else◌, ltb, leb, is_empty, length, ◌>>=◌,
}
use yalia_sii.Json.{Json, str, obj, Object, Platform, field, end}
use yalia_sii.Template.{TableTemplate, WriteConfig}
use yalia_sii.Rows.{TableRow, update_where, has_id}
use yalia_sii.Rules.{SendPhase, SendTarget, resolve_write_rule, resolve_send_target, or_value}
use yalia_sii.Http.{Reply, ok, bad_request, failed, or_failed}
use yalia_sii.Loads.{◌⧺◌}
use yalia_sii.Payload.{PayloadRow, payload_of}
use yalia_sii.Outbound.{
  WriteStatus, Trigger, DomainEvent, TableWriteRun, Answer, Connection, Call, Db, Gateway, sent,
  error, schedule, manual, responded, threw,
}

-- `s.slice(0, n)` and `s.length`, by characters.
unfoldable pub cut : ℕ → String → String
cut zero s = String.[]
cut (suc n) String.[] = String.[]
cut (suc n) (String.◌∷◌ c s) = String.◌∷◌ c (cut n s)

measure : String → ℕ
measure String.[] = 0
measure (String.◌∷◌ c s) = suc (measure s)

module _ (host : Platform) (gate : Gateway) (now : ℕ) where
  unfoldable pub truncate : String → String
  unfolding cut measure
  truncate s =
      if ltb 2000 (measure s) then cut 2000 s ⧺ "… (" ⧺ gate.decimal (measure s) ⧺ " chars)" else s

  abbrev trimmed : Option String → String
  trimmed none = ""
  trimmed (some k) = gate.trim k

  unfoldable pub resolve_clave : Connection → String
  resolve_clave c =
      let explicit = trimmed c.clave in
      if explicit == "" then gate.slug (gate.trim c.name) else explicit

  unfoldable pub mark_group_result :
      List String → String → WriteStatus → Option String → String → List TableRow → List TableRow
  mark_group_result ids batch status message submission = update_where (has_id ids) (λ r. record r {
    batch_id = some batch;
    write_status = some (elim status [ sent ↦ "sent" | error ↦ "error" ]);
    write_error = message;
    last_written_at = some now;
    submission_status = some submission;
  })

  -- The marks and the event in one transaction, none where it throws.
  unfoldable pub commit_outcome :
      List String → String → WriteStatus → Option String → String → DomainEvent → Db → Option Db
  unfolding mark_group_result
  commit_outcome ids batch status message submission event d =
      if gate.commits d.step
      then some (record d {
        rows = mark_group_result ids batch status message submission d.rows;
        outbox = d.outbox ++ event ∷ [];
        step = suc d.step;
      })
      else none

  unfoldable pub record_run : TableWriteRun → Db → Db
  record_run run d =
      if gate.records d.step
      then record d { runs = d.runs ++ run ∷ []; step = suc d.step }
      else record d { step = suc d.step }

  pub record Submission : Type 0 where
    pub template : TableTemplate
    pub write : WriteConfig
    pub rows : List PayloadRow
    pub mark_ids : List String
    pub trigger : Trigger
    pub group_values : Option (List (String × String))
    pub connection_id : String
    pub phase : SendPhase
    pub batch_id : String

  pub record Submitted : Type 0 where
    pub batch_id : String
    pub status : WriteStatus
    pub error : Option String

  unfoldable pub build_emitted_event :
      Submission → Option String → WriteStatus → Option ℕ → Option String → DomainEvent
  build_emitted_event s name status http message = record {
    operation = elim status [ sent ↦ "emitida.sent" | error ↦ "emitida.error" ];
    connection_id = s.connection_id;
    idempotency_key = s.batch_id;
    table_key = s.template.key;
    connection_name = name;
    trigger = s.trigger;
    group_values = s.group_values;
    row_count = length s.mark_ids;
    http_status = http;
    status = status;
    error_message = message;
    row_ids = s.mark_ids;
  }

  unfoldable pub run_of :
      Submission
      → Option String
      → WriteStatus
      → Option ℕ
      → Option String
      → Option Json
      → Option Json
      → TableWriteRun
  run_of s name status http message preview body = record {
    table_key = s.template.key;
    connection_id = s.connection_id;
    connection_name = name;
    trigger = s.trigger;
    status = status;
    batch_id = s.batch_id;
    group_values = s.group_values;
    row_count = length s.mark_ids;
    http_status = http;
    error_message = message;
    payload_preview = preview;
    response_body = body;
  }

  -- One end of the call: commitOutcome, recordRun and the value returned.
  unfoldable pub conclude :
      Submission
      → Option String
      → WriteStatus
      → String
      → Option ℕ
      → Option String
      → Option Json
      → Option Json
      → Db
      → Option (Db × Submitted)
  unfolding commit_outcome record_run build_emitted_event run_of
  conclude s name status submission http message preview body d =
      commit_outcome s.mark_ids s.batch_id status message submission
        (build_emitted_event s name status http message) d
      >>= λ d'. some (
        record_run (run_of s name status http message preview body) d',
        record { batch_id = s.batch_id; status = status; error = message },
      )

  abbrev not_allowed : String → String → String
  not_allowed conn key =
      "Connection \"" ⧺ conn ⧺ "\" is not allowed to write back for table \"" ⧺ key ⧺ "\""

  -- `base`, or `base` with the response that the error carries.
  abbrev pub with_body : String → Option Json → String
  with_body base none = base
  with_body base (some body) = base ⧺ ": " ⧺ truncate (gate.json_text (some body))

  -- The handler of an error in the `try` block.
  unfoldable pub catch_error :
      Submission → Option String → Option Json → String → Option Json → Db → Option (Db × Submitted)
  unfolding conclude truncate
  catch_error s name preview base body d =
      conclude s name error "queued" none (some (with_body base body)) preview body d

  -- A transaction of the `try` block that throws is an error of the block.
  unfoldable pub or_caught :
      Submission
      → Option String
      → Option Json
      → Db
      → Option (Db × Submitted)
      → Option (Db × Submitted)
  unfolding catch_error
  or_caught s name preview d (some done) = some done
  or_caught s name preview d none =
      catch_error s name preview (gate.failure d.step) none (record d { step = suc d.step })

  -- `{ clientId, payload }`
  unfoldable pub body_of : Submission → Connection → Json
  unfolding resolve_clave
  body_of s c = obj (
      field "clientId" (str (resolve_clave c))
        (field "payload" (payload_of s.template s.write s.rows s.batch_id) end))

  unfoldable pub answered : Submission → Connection → Json → Answer → Db → Option (Db × Submitted)
  unfolding or_caught conclude catch_error truncate
  answered s c preview (responded http body) d =
      if leb 200 http && ltb http 300
      then or_caught s (some c.name) (some preview) d
          (conclude s (some c.name) sent "pending" (some http) none (some preview) none d)
      else or_caught s (some c.name) (some preview) d (
          conclude s (some c.name) error "queued" (some http)
            (some (
              "External system responded "
              ⧺ gate.decimal http
              ⧺ ": "
              ⧺ truncate (gate.json_text body)))
            (some preview) body d)
  answered s c preview (threw base body) d = catch_error s (some c.name) (some preview) base body d

  unfoldable pub call_of : Submission → SendTarget → Connection → Call
  unfolding body_of
  call_of s target c = record {
    connection_id = s.connection_id;
    target = target;
    body = body_of s c;
  }

  abbrev pub called : Db → Call → Db
  called d call = record d { calls = d.calls ++ call ∷ []; step = suc d.step }

  -- The `try` block and its handler.
  unfoldable pub attempt : Submission → SendTarget → Db → Option (Db × Submitted)
  unfolding answered call_of catch_error
  attempt s target d = elim (gate.resolve s.connection_id) [
    | none ↦ catch_error s none none ("Source connection " ⧺ s.connection_id ⧺ " not found") none d
    | some c ↦
        answered s c (body_of s c) (gate.send d.step (call_of s target c))
          (called d (call_of s target c))
  ]

  unfoldable pub send_batch : Submission → Db → Option (Db × Submitted)
  unfolding attempt conclude
  send_batch s d = elim (resolve_write_rule s.write.connections s.connection_id) [
    | none ↦
        conclude s none error "queued" none (some (not_allowed s.connection_id s.template.key)) none
          none d
    | some rule ↦ attempt s (resolve_send_target rule s.phase) d
  ]

  abbrev some_result : Db × Submitted → Db × Option Submitted
  some_result (d, r) = (d, some r)

  -- The arguments of a call with their defaults, and its new batch id.
  abbrev pub submission :
      TableTemplate
      → WriteConfig
      → List PayloadRow
      → Option (List String)
      → Trigger
      → Option (List (String × String))
      → String
      → SendPhase
      → Db
      → Submission
  submission t w rows mark trigger group_values conn phase d = record {
    template = t;
    write = w;
    rows = rows;
    mark_ids = or_value mark (map (λ r. r.id) rows);
    trigger = trigger;
    group_values = group_values;
    connection_id = conn;
    phase = phase;
    batch_id = host.uuid d.drawn;
  }

  -- `rows` is the payload and `mark_ids` the rows to mark, by default those of the payload.
  unfoldable pub submit_group :
      TableTemplate
      → List PayloadRow
      → Option (List String)
      → Trigger
      → Option (List (String × String))
      → String
      → SendPhase
      → Db
      → Reply (Db × Option Submitted)
  unfolding send_batch
  submit_group t rows mark trigger group_values conn phase d =
      if is_empty rows then ok (d, none) else elim t.write [
        | none ↦ bad_request
        | some w ↦ or_failed (
            send_batch (submission t w rows mark trigger group_values conn phase d)
              (record d { drawn = suc d.drawn })
            >>= λ r. some (some_result r))
      ]
