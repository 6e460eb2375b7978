-- ===== src/Submit/Total.antt =====
-- A call comes to an end wherever its transactions go through.
use yalia_sii.Prelude.{
  ℕ, suc, String, ◌≡◌, refl, inl, inr, true, ◌&&◌, Option, none, some, List, ◌∷◌, is_some, leb, ltb,
  Bool-cases, Option-cases,
}
use yalia_sii.Json.{Json, Platform}
use yalia_sii.Template.{TableTemplate, WriteConfig}
use yalia_sii.Rules.{SendPhase, SendTarget, resolve_write_rule, resolve_send_target}
use yalia_sii.Http.{ok}
use yalia_sii.Payload.{PayloadRow}
use yalia_sii.Outbound.{
  WriteStatus, error, Trigger, Answer, responded, threw, Connection, Db, Gateway,
}
use yalia_sii.Submit.{
  commit_outcome, Submission, Submitted, conclude, with_body, catch_error, or_caught, body_of,
  call_of, called, answered, attempt, send_batch, submission, submit_group,
}

module _ (host : Platform) (gate : Gateway) (now : ℕ)
    (commits : (n : ℕ) → gate.commits n ≡ true) where
  conclude-returns :
      (s : Submission host gate now) (name : Option String) (status : WriteStatus) (after : String)
      (http : Option ℕ) (message : Option String) (preview body : Option Json) (d : Db)
      → is_some (conclude host gate now s name status after http message preview body d) ≡ true
  unfolding conclude commit_outcome
  conclude-returns s name status after http message preview body d =
      rw (commits d.step, conclude, commit_outcome) refl

  catch_error-returns :
      (s : Submission host gate now) (name : Option String) (preview : Option Json) (base : String)
      (body : Option Json) (d : Db)
      → is_some (catch_error host gate now s name preview base body d) ≡ true
  unfolding catch_error
  catch_error-returns s name preview base body d =
      conclude-returns s name error "queued" none (some (with_body host gate now base body)) preview
        body d

  or_caught-returns :
      (s : Submission host gate now) (name : Option String) (preview : Option Json) (d : Db)
      (try : Option (Db × Submitted host gate now))
      → is_some (or_caught host gate now s name preview d try) ≡ true
  unfolding or_caught
  or_caught-returns s name preview d (some o) = refl
  or_caught-returns s name preview d none = catch_error-returns s name preview _ none _

  answered-returns :
      (s : Submission host gate now) (c : Connection) (preview : Json) (answer : Answer) (d : Db)
      → is_some (answered host gate now s c preview answer d) ≡ true
  unfolding answered
  answered-returns s c preview (threw base body) d =
      catch_error-returns s (some c.name) (some preview) base body d
  answered-returns s c preview (responded http body) d =
      elim (Bool-cases (leb 200 http && ltb http 300)) [
        | inl good ↦ rw (good, answered) (or_caught-returns s (some c.name) (some preview) d _)
        | inr bad ↦ rw (bad, answered) (or_caught-returns s (some c.name) (some preview) d _)
      ]

  attempt-returns :
      (s : Submission host gate now) (target : SendTarget) (d : Db)
      → is_some (attempt host gate now s target d) ≡ true
  unfolding attempt
  attempt-returns s target d = elim (Option-cases (gate.resolve s.connection_id)) [
    | inl missing ↦ rw (missing, attempt) (catch_error-returns s none none _ none d)
    | inr (c, found) ↦
        rw (found, attempt)
          (answered-returns s c (body_of host gate now s c)
            (gate.send d.step (call_of host gate now s target c))
            (called host gate now d (call_of host gate now s target c)))
  ]

  send_batch-returns :
      (s : Submission host gate now) (d : Db) → is_some (send_batch host gate now s d) ≡ true
  unfolding send_batch
  send_batch-returns s d =
      elim (Option-cases (resolve_write_rule s.write.connections s.connection_id)) [
        | inl barred ↦
            rw (barred, send_batch) (conclude-returns s none error "queued" none _ none none d)
        | inr (rule, found) ↦
            rw (found, send_batch) (attempt-returns s (resolve_send_target rule s.phase) d)
      ]

-- Where the transactions of the database go through, a call of a table with a write config returns a
-- batch for its rows, whatever rules, connections and answers there are: no error of the network
-- escapes.
pub submit_group-returns :
    (host : Platform) (gate : Gateway) (now : ℕ) (t : TableTemplate) (w : WriteConfig)
    (r : PayloadRow) (rows : List PayloadRow) (mark : Option (List String)) (trigger : Trigger)
    (group_values : Option (List (String × String))) (conn : String) (phase : SendPhase) (d : Db)
    → t.write ≡ some w
    → ((n : ℕ) → gate.commits n ≡ true)
    → (after : Db) × (done : Submitted host gate now) × (submit_group host gate now t
          (r ∷ rows)
          mark
          trigger
          group_values
          conn
          phase
          d
        ≡ ok (after, some done))
unfolding submit_group
submit_group-returns host gate now t w r rows mark trigger group_values conn phase d writes
      commits =
    elim (Option-cases (send_batch host gate now s d')) [
      | inl fails ↦ cc (fails, send_batch-returns host gate now commits s d')
      | inr ((o, made), same) ↦ (o, made, rw (writes, submit_group, same) refl)
    ]
  where
    s : Submission host gate now
    s = submission host gate now t w (r ∷ rows) mark trigger group_values conn phase d

    d' : Db
    d' = record d { drawn = suc d.drawn }
