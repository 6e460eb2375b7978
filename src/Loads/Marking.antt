-- ===== src/Loads/Marking.antt =====
-- What markQueued and markStaged do to the rows, and when they return at all.
use yalia_sii.Prelude.{
  String, ◌≡◌, refl, inl, inr, true, false, ◌&&◌, Option, none, some, List, [], ◌∷◌, any, all,
  arith, Option-cases,
}
use yalia_sii.Json.{Platform}
use yalia_sii.Sql.{is_column_key}
use yalia_sii.Template.{TableTemplate, WriteConfig, group_by_of}
use yalia_sii.Rows.{TableRow, update_where, has_id}
use yalia_sii.Loads.{
  ◌⧺◌, group_text, build_group_id_sql, requeue, mark_queued, can_stage, stage, mark_staged,
  is_staged_in,
}

-- The columns that group the rows have names that can stand in SQL text.
abbrev pub HasSafeKeys : TableTemplate → Type 0
HasSafeKeys t = (w : WriteConfig) → t.write ≡ some w → all is_column_key (group_by_of w) ≡ true

module _ (host : Platform) where
  pub build_group_id_sql_total :
      (ks : List String)
      → all is_column_key ks ≡ true
      → (f : TableRow → Option String) × (build_group_id_sql host ks ≡ some f)
  unfolding build_group_id_sql
  build_group_id_sql_total [] h = (λ r. none, refl)
  build_group_id_sql_total (k ∷ ks) h =
      (λ r. some (host.md5 (r.connection_id ⧺ group_text host (k ∷ ks) r)), rw h)

  -- markQueued leaves the rows alone, or sends the named ones back to the start.
  pub data Requeues (ids : List String) (status : String) (rows after : List TableRow)
      : Type 0 where
    kept : after ≡ rows → Requeues ids status rows after
    reset :
        (f : TableRow → Option String)
        → after ≡ update_where (has_id ids) (requeue host status f) rows
        → Requeues ids status rows after

  -- markStaged leaves the rows alone, or holds back those of the named ones that are not out yet.
  pub data Stages (ids : List String) (load : String) (rows after : List TableRow) : Type 0 where
    kept : after ≡ rows → Stages ids load rows after
    held :
        (f : TableRow → Option String)
        → after
          ≡ update_where
              (λ r. has_id ids r && can_stage host r.submission_status)
              (stage host load f)
              rows
        → Stages ids load rows after

  mark_queued_cases :
      (t : TableTemplate) (write : Option WriteConfig) (ids : List String) (status : String)
      (rows : List TableRow)
      → t.write ≡ write
      → HasSafeKeys t
      → (after : List TableRow) × (mark_queued host t ids status rows ≡ some after)
        × Requeues ids status rows after
  unfolding mark_queued
  mark_queued_cases t none ids status rows e safe = (rows, rw (e, mark_queued), kept refl)
  mark_queued_cases t (some w) [] status rows e safe = (rows, rw (e, mark_queued), kept refl)
  mark_queued_cases t (some w) (i ∷ ids) status rows e safe =
      let (f, same) = build_group_id_sql_total (group_by_of w) (safe w e) in
      (
        update_where (has_id (i ∷ ids)) (requeue host status f) rows,
        rw (e, mark_queued, same),
        reset f refl,
      )

  mark_staged_cases :
      (t : TableTemplate) (write : Option WriteConfig) (ids : List String) (load : String)
      (rows : List TableRow)
      → t.write ≡ write
      → HasSafeKeys t
      → (after : List TableRow) × (mark_staged host t ids load rows ≡ some after)
        × Stages ids load rows after
  unfolding mark_staged
  mark_staged_cases t none ids load rows e safe = (rows, rw (e, mark_staged), kept refl)
  mark_staged_cases t (some w) [] load rows e safe = (rows, rw (e, mark_staged), kept refl)
  mark_staged_cases t (some w) (i ∷ ids) load rows e safe =
      let (f, same) = build_group_id_sql_total (group_by_of w) (safe w e) in
      (
        update_where (λ r. has_id (i ∷ ids) r && can_stage host r.submission_status)
            (stage host load f) rows,
        rw (e, mark_staged, same),
        held f refl,
      )

  -- With safe column keys neither throws.
  pub mark_queued_total :
      (t : TableTemplate) (ids : List String) (status : String) (rows : List TableRow)
      → HasSafeKeys t
      → (after : List TableRow) × (mark_queued host t ids status rows ≡ some after)
        × Requeues ids status rows after
  mark_queued_total t ids status rows safe = mark_queued_cases t t.write ids status rows refl safe

  pub mark_staged_total :
      (t : TableTemplate) (ids : List String) (load : String) (rows : List TableRow)
      → HasSafeKeys t
      → (after : List TableRow) × (mark_staged host t ids load rows ≡ some after)
        × Stages ids load rows after
  mark_staged_total t ids load rows safe = mark_staged_cases t t.write ids load rows refl safe

  pub none_staged-requeue :
      (id : String) (ids : List String) (f : TableRow → Option String) (rows : List TableRow)
      → any (is_staged_in id) rows ≡ false
      → any (is_staged_in id) (update_where (has_id ids) (requeue host "queued" f) rows) ≡ false
  unfolding requeue
  none_staged-requeue id ids f [] h = refl
  none_staged-requeue id ids f (r ∷ rows) h = ground (arith, none_staged-requeue id ids f rows)

  pub Requeues-none_staged :
      (id : String) (ids : List String) (rows after : List TableRow)
      → Requeues ids "queued" rows after
      → any (is_staged_in id) rows ≡ false
      → any (is_staged_in id) after ≡ false
  Requeues-none_staged id ids rows after (kept e) h = rw e h
  Requeues-none_staged id ids rows after (reset f e) h = rw e (none_staged-requeue id ids f rows h)

  mark_queued_inv :
      (t : TableTemplate) (write : Option WriteConfig) (ids : List String) (status : String)
      (rows after : List TableRow)
      → t.write ≡ write
      → mark_queued host t ids status rows ≡ some after
      → Requeues ids status rows after
  unfolding mark_queued
  mark_queued_inv t none ids status rows after e h = kept (ground arith)
  mark_queued_inv t (some w) [] status rows after e h = kept (ground arith)
  mark_queued_inv t (some w) (i ∷ ids) status rows after e h =
      elim (Option-cases (build_group_id_sql host (group_by_of w))) [
        | inl throws ↦ kept (ground arith)
        | inr (f, same) ↦ reset f (ground arith)
      ]

  mark_staged_inv :
      (t : TableTemplate) (write : Option WriteConfig) (ids : List String) (load : String)
      (rows after : List TableRow)
      → t.write ≡ write
      → mark_staged host t ids load rows ≡ some after
      → Stages ids load rows after
  unfolding mark_staged
  mark_staged_inv t none ids load rows after e h = kept (ground arith)
  mark_staged_inv t (some w) [] load rows after e h = kept (ground arith)
  mark_staged_inv t (some w) (i ∷ ids) load rows after e h =
      elim (Option-cases (build_group_id_sql host (group_by_of w))) [
        | inl throws ↦ kept (ground arith)
        | inr (f, same) ↦ held f (ground arith)
      ]

  -- Where they return, they have done one or the other.
  pub mark_queued-Requeues :
      (t : TableTemplate) (ids : List String) (status : String) (rows after : List TableRow)
      → mark_queued host t ids status rows ≡ some after
      → Requeues ids status rows after
  mark_queued-Requeues t ids status rows after h =
      mark_queued_inv t t.write ids status rows after refl h

  pub mark_staged-Stages :
      (t : TableTemplate) (ids : List String) (load : String) (rows after : List TableRow)
      → mark_staged host t ids load rows ≡ some after
      → Stages ids load rows after
  mark_staged-Stages t ids load rows after h = mark_staged_inv t t.write ids load rows after refl h
