-- ===== src/Edits/Outcome.antt =====
-- What an edit does to the table, and what it answers.
use yalia_sii.Prelude.{
  String, Bool, true, false, Option, none, some, List, [], ◌∷◌, ◌==◌, ◌≡◌, refl, sym, ap, ◌∙◌, inl,
  inr, is_some, any, find, find-some, find-none, any-In, not_any-In, not, ◌&&◌, In, In-map, has,
  has_iff, arith, eq_iff, Bool-cases, Option-cases,
}
use yalia_sii.Json.{Object, Platform}
use yalia_sii.Template.{TableTemplate, WriteConfig, group_by_of}
use yalia_sii.Rows.{is_correcto, TableRow, update_where, has_id, ids_of, HasKey}
use yalia_sii.Loads.{requeue, mark_queued}
use yalia_sii.Loads.Marking.{HasSafeKeys, build_group_id_sql_total}
use yalia_sii.Http.{Reply, ok, bad_request, not_found}
use yalia_sii.Edits.{
  DatasetUpdateResult, may_edit, names_row, can_edit, edit, queued_result, queue_edited,
  update_and_write,
}

module _ (p : TableRow → Bool) (f g : TableRow → TableRow) (r : TableRow)
    (one : (x : TableRow) → p x ≡ true → x.id ≡ r.id)
    (same_id : (x : TableRow) → (f x).id ≡ x.id) where
  untouched :
      (rows : List TableRow)
      → has r.id (ids_of rows) ≡ false
      → update_where (has_id (r.id ∷ [])) g (update_where p f rows)
        ≡ update_where p (λ x. g (f x)) rows
  untouched [] h = refl
  untouched (x ∷ rows) h = elim (Bool-cases (p x)) [
    | inl hit ↦ absurd (ground (arith, one x hit, eq_iff x.id r.id))
    | inr miss ↦ rw miss (ground (arith, untouched rows, eq_iff x.id r.id, eq_iff r.id x.id))
  ]

  -- A row that a test finds, and no other, is changed by the one update and then by the next.
  update_where_twice :
      (rows : List TableRow)
      → HasKey rows
      → find p rows ≡ some r
      → update_where (has_id (r.id ∷ [])) g (update_where p f rows)
        ≡ update_where p (λ x. g (f x)) rows
  update_where_twice [] d h = cc
  update_where_twice (x ∷ rows) d h = elim (Bool-cases (p x)) [
    | inl hit ↦
        let free : has r.id (ids_of rows) ≡ false = rw (← one x hit) d.0 in
        let named : (r.id == (f x).id) ≡ true =
          (eq_iff r.id (f x).id).1 (sym (same_id x ∙ one x hit)) in
        rw (hit, named, untouched rows free)
    | inr miss ↦
        let rest = rw miss at h in
        let m =
          (has_iff r.id (ids_of rows)).1 (In-map (λ y. y.id) r rows (find-some p rows r rest).0) in
        let apart : (r.id == x.id) ≡ false = ground (arith, eq_iff r.id x.id, m, d.0) in
        rw (miss, apart, update_where_twice rows d.1 rest)
  ]

module _ (host : Platform) (t : TableTemplate) (conn : String) (id : String) (fields : Object) where
  -- What a saved edit does to a row: its data, and where the table is written back, the state of
  -- a row that waits to be sent.
  pub record Saves (f : TableRow → TableRow) : Type 0 where
    pub holds : (x : TableRow) → (f x).row_data ≡ fields
    pub same_id : (x : TableRow) → (f x).id ≡ x.id
    pub waits : (x : TableRow) → is_some t.write ≡ true → (f x).submission_status ≡ some "revisado"

  pub data EditOutcome (rows after : List TableRow) (reply : Reply DatasetUpdateResult)
      : Type 0 where
    refused :
        may_edit t conn id ≡ false
        → after ≡ rows
        → reply ≡ bad_request
        → EditOutcome rows after reply
    missing :
        any (names_row t conn id) rows ≡ false
        → after ≡ rows
        → reply ≡ not_found
        → EditOutcome rows after reply
    accepted_already :
        (r : TableRow)
        → In r rows
        → names_row t conn id r ≡ true
        → is_correcto r.submission_status ≡ true
        → after ≡ rows
        → reply ≡ bad_request
        → EditOutcome rows after reply
    saved :
        (r : TableRow) (f : TableRow → TableRow) (u : DatasetUpdateResult)
        → In r rows
        → names_row t conn id r ≡ true
        → is_correcto r.submission_status ≡ false
        → Saves f
        → after
          ≡ update_where
              (λ x. names_row t conn id x && not (is_correcto x.submission_status))
              f
              rows
        → reply ≡ ok u
        → EditOutcome rows after reply

  one_row :
      (r : TableRow)
      → can_edit t conn id r ≡ true
      → (x : TableRow) → can_edit t conn id x ≡ true
      → x.id ≡ r.id
  unfolding can_edit
  one_row r e x h = (eq_iff x.id id).0 (ground arith) ∙ sym ((eq_iff r.id id).0 (ground arith))

  queue_edited-reset :
      (rows : List TableRow) (r : TableRow) (w : WriteConfig)
      → t.write ≡ some w
      → HasSafeKeys t
      → (f : TableRow → Option String) × (queue_edited host t r rows ≡ (
        update_where (has_id (r.id ∷ [])) (requeue host "revisado" f) rows,
        ok (queued_result host t r),
      ))
  unfolding queue_edited mark_queued
  queue_edited-reset rows r w e safe =
      let (f, same) = build_group_id_sql_total host (group_by_of w) (safe w e) in
      (f, rw (e, queue_edited, mark_queued, same) refl)

  saved_outcome :
      (rows after : List TableRow) (reply : Reply DatasetUpdateResult) (r : TableRow)
      (write : Option WriteConfig)
      → t.write ≡ write
      → HasSafeKeys t
      → HasKey rows
      → find (can_edit t conn id) rows ≡ some r
      → (after, reply) ≡ (elim write as (λ _. List TableRow × Reply DatasetUpdateResult) [
        | none ↦ (
          update_where (can_edit t conn id) (edit host t fields) rows,
          ok (record { row = edit host t fields r; external = none }),
        )
        | some w ↦
            queue_edited host t
              (edit host t fields r)
              (update_where (can_edit t conn id) (edit host t fields) rows)
      ])
      → EditOutcome rows after reply
  unfolding requeue can_edit
  saved_outcome rows after reply r none e safe key found h =
      let (m, c) = find-some (can_edit t conn id) rows r found in
      saved r (edit host t fields) (record { row = edit host t fields r; external = none }) m
        (ground arith) (ground arith)
        (record { holds = λ x. refl; same_id = λ x. refl; waits = λ x w. cc }) (ap (λ p. p.0) h)
        (ap (λ p. p.1) h)
  saved_outcome rows after reply r (some w) e safe key found h =
      let (m, c) = find-some (can_edit t conn id) rows r found in
      let rows' = update_where (can_edit t conn id) (edit host t fields) rows in
      let (f, same) = queue_edited-reset rows' (edit host t fields r) w e safe in
      saved r (λ x. requeue host "revisado" f (edit host t fields x))
        (queued_result host t (edit host t fields r)) m (ground arith) (ground arith)
        (record { holds = λ x. refl; same_id = λ x. refl; waits = λ x w. refl })
        (ap (λ p. p.0) (h ∙ same)
          ∙ update_where_twice (can_edit t conn id) (edit host t fields) (requeue host "revisado" f)
              r (one_row r c) (λ x. refl) rows key found)
        (ap (λ p. p.1) (h ∙ same))

  final_row :
      (rows : List TableRow) (r : TableRow)
      → find (can_edit t conn id) rows ≡ none
      → In r rows
      → names_row t conn id r ≡ true
      → is_correcto r.submission_status ≡ true
  unfolding can_edit
  final_row rows r gone m named =
      let locked =
        not_any-In (can_edit t conn id) r rows (find-none (can_edit t conn id) rows gone) m in
      ground (arith, locked)

  -- An edit has one of four outcomes: it is refused by its guards and changes nothing; no row has
  -- its name, and the answer is "not found"; a row of its name is accepted by SII, nothing
  -- changes and the answer is "bad request"; or one row is saved, with the new data and the status
  -- "revisado" where the table is written back, every other row and every accepted row stays as it was,
  -- and the answer is a result. The columns that group the rows have safe names, and the table has
  -- its primary key.
  pub update_and_write-EditOutcome :
      (rows : List TableRow)
      → HasSafeKeys t
      → HasKey rows
      → EditOutcome rows
          (update_and_write host t conn id fields rows).0
          (update_and_write host t conn id fields rows).1
  unfolding update_and_write
  update_and_write-EditOutcome rows safe key = elim (Bool-cases (may_edit t conn id)) [
    | inr no_go ↦
        refused no_go (rw (no_go, update_and_write) refl) (rw (no_go, update_and_write) refl)
    | inl go ↦ elim (Option-cases (find (can_edit t conn id) rows)) [
      | inl gone ↦ elim (Bool-cases (any (names_row t conn id) rows)) [
        | inl there ↦
            let (r, m, named) = any-In (names_row t conn id) rows there in
            accepted_already r m named (final_row rows r gone m named)
              (rw (go, update_and_write, gone) refl) (rw (go, update_and_write, gone, there) refl)
        | inr nowhere ↦
            missing nowhere (rw (go, update_and_write, gone) refl)
              (rw (go, update_and_write, gone, nowhere) refl)
      ]
      | inr (r, found) ↦
          saved_outcome rows _ _ r t.write refl safe key found
            (rw (go, update_and_write, found) refl)
    ]
  ]
