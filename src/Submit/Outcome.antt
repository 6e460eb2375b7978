-- ===== src/Submit/Outcome.antt =====
-- How a call ends: one mark of its rows, one event, at most one request.
use mathlib.Core.Option.{some-injective}
use yalia_sii.Prelude.{
  ℕ, suc, ◌≤◌, ◌<◌, String, ◌≡◌, refl, ap, subst, ◌⊎◌, inl, inr, ◌&&◌, Option, none, some, List, [],
  ◌∷◌, ◌++◌, has, length, true, false, sym, ltb, leb, arith, Bool-cases, Option-cases,
}
use yalia_sii.Json.{Json, Platform}
use yalia_sii.Template.{TableTemplate, WriteConfig}
use yalia_sii.Rows.{TableRow}
use yalia_sii.Rules.{SendPhase, SendTarget, resolve_write_rule, resolve_send_target}
use yalia_sii.Http.{ok, value_of}
use yalia_sii.Payload.{PayloadRow}
use yalia_sii.Outbound.{
  WriteStatus, sent, error, Trigger, DomainEvent, TableWriteRun, Answer, responded, threw,
  Connection, Call, Db, Gateway,
}
use yalia_sii.Submit.{
  mark_group_result, commit_outcome, record_run, Submission, Submitted, build_emitted_event, run_of,
  conclude, catch_error, or_caught, body_of, call_of, answered, attempt, send_batch, submission,
  submit_group,
}

-- The status that the rows get.
abbrev pub status_after : WriteStatus → String
status_after sent = "pending"
status_after error = "queued"

-- The names of the outcome in a row and in an event.
abbrev status_name : WriteStatus → String
status_name sent = "sent"
status_name error = "error"

abbrev event_name : WriteStatus → String
event_name sent = "emitida.sent"
event_name error = "emitida.error"

-- A row that a batch has written: its outcome, and every other column as it was.
abbrev pub Written : ℕ → String → WriteStatus → Option String → TableRow → TableRow → Type 0
Written now batch status message r r' = r' ≡ record r {
  batch_id = some batch;
  write_status = some (status_name status);
  write_error = message;
  last_written_at = some now;
  submission_status = some (status_after status);
}

-- The rows of a table, one by one: those of `ids` are written, the others are as they were.
abbrev pub Marks :
    ℕ → List String → String → WriteStatus → Option String → List TableRow → List TableRow → Type 0
Marks now ids batch status message [] [] = Unit {0}
Marks now ids batch status message (r ∷ rows) (r' ∷ rows') =
    (((has r.id ids ≡ true) × Written now batch status message r r')
      ⊎ ((has r.id ids ≡ false) × (r' ≡ r)))
    × Marks now ids batch status message rows rows'
Marks now ids batch status message _ _ = ⊥

module _ (host : Platform) (gate : Gateway) (now : ℕ) where
  mark_group_result-Marks :
      (ids : List String) (batch : String) (status : WriteStatus) (message : Option String)
      (rows : List TableRow)
      → Marks now ids batch status message rows
          (mark_group_result host gate now ids batch status message (status_after status) rows)
  unfolding mark_group_result
  mark_group_result-Marks ids batch status message [] = tt
  mark_group_result-Marks ids batch status message (r ∷ rows) =
      let rest = mark_group_result-Marks ids batch status message rows in
      elim (Bool-cases (has r.id ids)) [
        | inl named ↦ rw (mark_group_result, named) (inl (refl, refl), rest)
        | inr other ↦ rw (mark_group_result, other) (inr (refl, refl), rest)
      ]

  -- The event of a batch, field by field.
  pub record Announces (s : Submission host gate now) (r : Submitted host gate now)
      (e : DomainEvent) : Type 0 where
    pub operation : e.operation ≡ event_name r.status
    pub connection : e.connection_id ≡ s.connection_id
    pub key : e.idempotency_key ≡ s.batch_id
    pub table : e.table_key ≡ s.template.key
    pub trigger : e.trigger ≡ s.trigger
    pub groups : e.group_values ≡ s.group_values
    pub count : e.row_count ≡ length s.mark_ids
    pub status : e.status ≡ r.status
    pub message : e.error_message ≡ r.error
    pub ids : e.row_ids ≡ s.mark_ids

  build_emitted_event-Announces :
      (s : Submission host gate now) (name : Option String) (status : WriteStatus) (http : Option ℕ)
      (message : Option String)
      → Announces s
          (record { batch_id = s.batch_id; status = status; error = message })
          (build_emitted_event host gate now s name status http message)
  unfolding build_emitted_event
  build_emitted_event-Announces s name status http message = record {
    operation = refl;
    connection = refl;
    key = refl;
    table = refl;
    trigger = refl;
    groups = refl;
    count = refl;
    status = refl;
    message = refl;
    ids = refl;
  }

  -- Every marked row has the outcome, and one event with the same outcome is spooled.
  pub record Concluded (s : Submission host gate now) (before after : Db)
      (r : Submitted host gate now) : Type 0 where
    pub batch : r.batch_id ≡ s.batch_id
    pub rows : Marks now s.mark_ids s.batch_id r.status r.error before.rows after.rows
    pub event : (e : DomainEvent) × Announces s r e × (after.outbox ≡ before.outbox ++ e ∷ [])

  -- No request was made, or one, and a batch counts as sent only where it was answered with 2xx.
  pub data Requested (before after : Db) (status : WriteStatus) : Type 0 where
    unsent : status ≡ error → after.calls ≡ before.calls → Requested before after status
    refused :
        (c : Call)
        → status ≡ error
        → after.calls ≡ before.calls ++ c ∷ []
        → Requested before after status
    accepted :
        (c : Call) (http : ℕ) (body : Option Json)
        → gate.send before.step c ≡ responded http body
        → 200 ≤ http
        → http < 300
        → after.calls ≡ before.calls ++ c ∷ []
        → Requested before after status

  -- The run that is kept changes no other table.
  record_run-same :
      (run : TableWriteRun) (d : Db)
      → ((record_run host gate now run d).rows ≡ d.rows)
        × ((record_run host gate now run d).outbox ≡ d.outbox)
        × ((record_run host gate now run d).calls ≡ d.calls)
  unfolding record_run
  record_run-same run d = elim (Bool-cases (gate.records d.step)) [
    | inl kept ↦
        (rw (kept, record_run) refl, rw (kept, record_run) refl, rw (kept, record_run) refl)
    | inr lost ↦
        (rw (lost, record_run) refl, rw (lost, record_run) refl, rw (lost, record_run) refl)
  ]

  Ends : Submission host gate now → WriteStatus → Db → Db × Submitted host gate now → Type 0
  Ends s status d (after, r) = Concluded s d after r × (after.calls ≡ d.calls) × (r.status ≡ status)

  conclude-Ends :
      (s : Submission host gate now) (name : Option String) (status : WriteStatus) (http : Option ℕ)
      (message : Option String) (preview body : Option Json) (d : Db)
      (out : Db × Submitted host gate now)
      → conclude host gate now s name status (status_after status) http message preview body d
        ≡ some out
      → Ends s status d out
  unfolding conclude commit_outcome Ends
  conclude-Ends s name status http message preview body d out e =
      elim (Bool-cases (gate.commits d.step)) [
        | inr fails ↦ cc (rw (fails, conclude, commit_outcome) at e)
        | inl commits ↦
            let run = run_of host gate now s name status http message preview body in
            let marked : Db = record d {
              rows =
                  mark_group_result host gate now s.mark_ids s.batch_id status message
                    (status_after status) d.rows;
              outbox =
                  d.outbox ++ build_emitted_event host gate now s name status http message ∷ [];
              step = suc d.step;
            } in
            let (rows, outbox, calls) = record_run-same run marked in
            subst (Ends s status d)
              (some-injective _ out (rw (commits, conclude, commit_outcome) at e))
              (
                record {
                  batch = refl;
                  rows =
                      subst (Marks now s.mark_ids s.batch_id status message d.rows) (sym rows)
                        (mark_group_result-Marks s.mark_ids s.batch_id status message d.rows);
                  event = (_, build_emitted_event-Announces s name status http message, outbox);
                },
                calls,
                refl,
              )
      ]

  catch_error-Ends :
      (s : Submission host gate now) (name : Option String) (preview : Option Json) (base : String)
      (body : Option Json) (d : Db) (out : Db × Submitted host gate now)
      → catch_error host gate now s name preview base body d ≡ some out
      → Ends s error d out
  unfolding catch_error
  catch_error-Ends s name preview base body d out e =
      conclude-Ends s name error none _ preview body d out e

  -- The marks and the event do not hang on the calls and the steps before them.
  Concluded-step :
      (s : Submission host gate now) (d after : Db) (r : Submitted host gate now)
      (calls : List Call) (n : ℕ)
      → Concluded s (record d { calls = calls; step = n }) after r
      → Concluded s d after r
  Concluded-step s d after r calls n c = record { batch = c.batch; rows = c.rows; event = c.event }

  or_caught-Ends :
      (s : Submission host gate now) (name : Option String) (preview : Option Json)
      (status : WriteStatus) (d : Db) (try : Option (Db × Submitted host gate now))
      (out : Db × Submitted host gate now)
      → ((o : Db × Submitted host gate now) → try ≡ some o → Ends s status d o)
      → or_caught host gate now s name preview d try ≡ some out
      → Ends s status d out ⊎ Ends s error d out
  unfolding or_caught Ends
  or_caught-Ends s name preview status d (some o) out h e = inl (h out e)
  or_caught-Ends s name preview status d none out h e =
      let (done, calls, st) =
        catch_error-Ends s name preview (gate.failure d.step) none (record d { step = suc d.step })
          out e in
      inr (Concluded-step s d out.0 out.1 d.calls (suc d.step) done, calls, st)

  -- How the whole call ends, before its result is wrapped.
  pub Ended : Submission host gate now → Db → Db × Submitted host gate now → Type 0
  Ended s d (after, r) = Concluded s d after r × Requested d after r.status

  answered-Ended :
      (s : Submission host gate now) (c : Connection) (call : Call) (answer : Answer) (d : Db)
      (out : Db × Submitted host gate now)
      → gate.send d.step call ≡ answer
      → answered host gate now s c
          (body_of host gate now s c)
          answer
          (record d { calls = d.calls ++ call ∷ []; step = suc d.step })
        ≡ some out
      → Ended s d out
  unfolding answered Ends Ended
  answered-Ended s c call (threw base body) d (after, r) asked e =
      let (done, calls, st) = catch_error-Ends s (some c.name) _ base body _ (after, r) e in
      (Concluded-step s d after r _ _ done, refused call st calls)
  answered-Ended s c call (responded http body) d (after, r) asked e =
      elim (Bool-cases (leb 200 http && ltb http 300)) [
        | inl good ↦
            elim (or_caught-Ends s (some c.name) _ sent _ _ (after, r)
              (λ o f. conclude-Ends s (some c.name) sent _ _ _ _ _ o f)
              (rw (good, answered) at e)) [
                | inl (done, calls, st) ↦ (
                  Concluded-step s d after r _ _ done,
                  accepted call http body asked (ground (arith, good)) (ground (arith, good)) calls,
                )
                | inr (done, calls, st) ↦
                    (Concluded-step s d after r _ _ done, refused call st calls)
              ]
        | inr bad ↦
            elim (or_caught-Ends s (some c.name) _ error _ _ (after, r)
              (λ o f. conclude-Ends s (some c.name) error _ _ _ _ _ o f)
              (rw (bad, answered) at e)) [
                | inl (done, calls, st) ↦
                    (Concluded-step s d after r _ _ done, refused call st calls)
                | inr (done, calls, st) ↦
                    (Concluded-step s d after r _ _ done, refused call st calls)
              ]
      ]

  attempt-Ended :
      (s : Submission host gate now) (target : SendTarget) (d : Db)
      (out : Db × Submitted host gate now)
      → attempt host gate now s target d ≡ some out
      → Ended s d out
  unfolding attempt Ends Ended
  attempt-Ended s target d (after, r) e = elim (Option-cases (gate.resolve s.connection_id)) [
    | inl missing ↦
        let (done, calls, st) =
          catch_error-Ends s none none _ none d (after, r) (rw (missing, attempt) at e) in
        (done, unsent st calls)
    | inr (c, found) ↦
        answered-Ended s c (call_of host gate now s target c) _ d (after, r) refl
          (rw (found, attempt) at e)
  ]

  send_batch-Ended :
      (s : Submission host gate now) (d : Db) (out : Db × Submitted host gate now)
      → send_batch host gate now s d ≡ some out
      → Ended s d out
  unfolding send_batch Ends Ended
  send_batch-Ended s d (after, r) e =
      elim (Option-cases (resolve_write_rule s.write.connections s.connection_id)) [
        | inl barred ↦
            let (done, calls, st) =
              conclude-Ends s none error none _ none none d (after, r)
                (rw (barred, send_batch) at e) in
            (done, unsent st calls)
        | inr (rule, found) ↦
            attempt-Ended s (resolve_send_target rule s.phase) d (after, r)
              (rw (found, send_batch) at e)
      ]

abbrev with_some : {A B : Type 0} → A → B → A × Option B
with_some a b = (a, some b)

result_eq :
    {A B : Type 0} (a a' : A) (b b' : B)
    → some (with_some a b) ≡ some (with_some a' b')
    → (a ≡ a') × (b ≡ b')
result_eq {A} {B} a a' b b' e =
    let same = some-injective (with_some a b) (with_some a' b') e in
    (ap (λ (p : A × Option B). p.0) same, some-injective b b' (ap (λ (p : A × Option B). p.1) same))

-- A call that returns a batch has one outcome, whatever the gateway does: every row to mark gets the
-- batch, the time, its status and its error, `pending` where it was sent and `queued` where it was
-- not, and every other column and row stays as it was; exactly one event is spooled, named for the
-- outcome, with the batch, the ids of the rows and the error; and no request was made, or one, which
-- was answered with 2xx wherever the batch counts as sent.
pub submit_group-Ended :
    (host : Platform) (gate : Gateway) (now : ℕ) (t : TableTemplate) (w : WriteConfig)
    (r : PayloadRow) (rows : List PayloadRow) (mark : Option (List String)) (trigger : Trigger)
    (group_values : Option (List (String × String))) (conn : String) (phase : SendPhase)
    (d after : Db) (done : Submitted host gate now)
    → t.write ≡ some w
    → submit_group host gate now t (r ∷ rows) mark trigger group_values conn phase d
      ≡ ok (after, some done)
    → Ended host gate now
        (submission host gate now t w (r ∷ rows) mark trigger group_values conn phase d)
        (record d { drawn = suc d.drawn })
        (after, done)
unfolding submit_group
submit_group-Ended host gate now t w r rows mark trigger group_values conn phase d after done writes
      e =
    elim (Option-cases (send_batch host gate now s d')) [
      | inl fails ↦ cc (ap value_of (rw (writes, submit_group, fails) at e))
      | inr ((o, made), same) ↦
          let (there, named) =
            result_eq o after made done (ap value_of (rw (writes, submit_group, same) at e)) in
          subst (λ x. Ended host gate now s d' (x, done)) there
            (subst (λ y. Ended host gate now s d' (o, y)) named
              (send_batch-Ended host gate now s d' (o, made) same))
    ]
  where
    s : Submission host gate now
    s = submission host gate now t w (r ∷ rows) mark trigger group_values conn phase d

    d' : Db
    d' = record d { drawn = suc d.drawn }
