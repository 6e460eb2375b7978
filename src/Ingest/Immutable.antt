-- ===== src/Ingest/Immutable.antt =====
-- What ingest keeps: the rows that SII has accepted.
use mathlib.Core.Option.{some-injective}
use yalia_sii.Prelude.{
  ℕ, ◌≤◌, String, ◌≡◌, refl, sym, ap, subst, ◌∙◌, inl, inr, true, false, not, ◌&&◌, Option, none,
  some, List, [], ◌∷◌, map, ◌==◌, all, has, is_empty, >>=-eq-some, arith, eq_iff, Bool-cases,
}
use yalia_sii.Json.{Object, Platform}
use yalia_sii.Template.{TableTemplate, id_fields_of}
use yalia_sii.Rows.{TableRow, is_correcto, ids_of, HasKey, accepted, has_id}
use yalia_sii.Loads.{
  Store, LoadMeta, requeue, stage, seal, can_stage, is_staged_in, mark_queued, mark_staged,
  ensure_load, sealed_load, or_null, stage_load_rows,
}
use yalia_sii.Loads.Marking.{
  Requeues, Stages, kept, reset, held, mark_queued-Requeues, mark_staged-Stages,
}
use yalia_sii.Loads.Sealing.{Flip, waits, seals, Flip-Flip}
use yalia_sii.Ingest.{Progress, upsert_chunks, chunks, split_rows, sort_by_key}
use yalia_sii.Ingest.Accepted.{is_free}
use yalia_sii.Ingest.Frozen.{
  Injective, Frozen, upsert_chunks-Frozen, append_chunks-Frozen, update_where-accepted,
  avoids_accepted, all_mono,
}
use yalia_sii.Ingest.Transaction.{Ingested, write_rows, finish, has_safe_names, ingest}

module _ (host : Platform) where
  requeue-not_correcto :
      (f : TableRow → Option String) (r : TableRow)
      → is_correcto (requeue host "queued" f r).submission_status ≡ false
  unfolding requeue is_correcto
  requeue-not_correcto f r = refl

  stage-not_correcto :
      (id : String) (f : TableRow → Option String) (r : TableRow)
      → is_correcto (stage host id f r).submission_status ≡ false
  unfolding stage is_correcto
  stage-not_correcto id f r = refl

  Requeues-accepted :
      (ids : List String) (rows after : List TableRow)
      → all (λ x. all (is_free x) rows) ids ≡ true
      → Requeues host ids "queued" rows after
      → accepted after ≡ accepted rows
  Requeues-accepted ids rows after h (kept e) = ap accepted e
  Requeues-accepted ids rows after h (reset f e) =
      ap accepted e
      ∙ update_where-accepted (has_id ids) (requeue host "queued" f) rows (requeue-not_correcto f)
          (avoids_accepted ids rows h)

  Stages-accepted :
      (ids : List String) (id : String) (rows after : List TableRow)
      → all (λ x. all (is_free x) rows) ids ≡ true
      → Stages host ids id rows after
      → accepted after ≡ accepted rows
  Stages-accepted ids id rows after h (kept e) = ap accepted e
  Stages-accepted ids id rows after h (held f e) =
      ap accepted e
      ∙ update_where-accepted (λ r. has_id ids r && can_stage host r.submission_status)
          (stage host id f) rows (stage-not_correcto id f)
          (all_mono (λ r. not (has r.id ids && is_correcto r.submission_status)) _ rows
            (λ r e. ground arith) (avoids_accepted ids rows h))

staged-not_correcto : (s : String) → (s == "staged") ≡ true → is_correcto (some s) ≡ false
unfolding is_correcto
staged-not_correcto s h =
    subst (λ u. is_correcto (some u) ≡ false) (sym ((eq_iff s "staged").0 h)) refl

avoids_staged_one :
    (id : String) (r : TableRow) (st : Option String)
    → r.submission_status ≡ st
    → (is_staged_in id r && is_correcto r.submission_status) ≡ false
avoids_staged_one id r none e = ground arith
avoids_staged_one id r (some s) e = ground (arith, staged-not_correcto s)

avoids_staged :
    (id : String) (rows : List TableRow)
    → all (λ r. not (is_staged_in id r && is_correcto r.submission_status)) rows ≡ true
avoids_staged id [] = refl
avoids_staged id (r ∷ rows) =
    ground (arith, avoids_staged id rows, avoids_staged_one id r r.submission_status refl)

pub Flip-accepted :
    (now : ℕ) (id : String) (s s' : Store) → Flip now id s s' → accepted s'.rows ≡ accepted s.rows
unfolding seal is_correcto
Flip-accepted now id s s' (waits e h) = ap (λ (u : Store). accepted u.rows) e
Flip-accepted now id s s' (seals k n found fresh e enough same) =
    ap (λ (u : Store). accepted u.rows) same
    ∙ update_where-accepted (is_staged_in id) _ s.rows (λ r. refl) (avoids_staged id s.rows)

module _ (host : Platform) (now : ℕ) (t : TableTemplate) (conn : String) where
  stage_load_rows-accepted :
      (ids : List String) (meta : LoadMeta) (s s' : Store)
      → all (λ x. all (is_free x) s.rows) ids ≡ true
      → stage_load_rows host now t ids conn meta s ≡ some s'
      → accepted s'.rows ≡ accepted s.rows
  unfolding stage_load_rows
  stage_load_rows-accepted ids meta s s' h e =
      elim (Bool-cases
        (sealed_load meta.load_id (ensure_load now meta.load_id t.key (or_null conn) s.loads))) [
          | inl late ↦
              let (rows, done, same) =
                >>=-eq-some (mark_queued host t ids "queued" s.rows) _ (rw late at e) in
              ap (λ (u : Store). accepted u.rows) (sym (some-injective _ _ same))
              ∙ Requeues-accepted host ids s.rows rows h
                  (mark_queued-Requeues host t ids "queued" s.rows rows done)
          | inr early ↦
              let (rows, done, same) =
                >>=-eq-some (mark_staged host t ids meta.load_id s.rows) _ (rw early at e) in
              ap (λ (u : Store). accepted u.rows) (sym (some-injective _ _ same))
              ∙ Flip-accepted now meta.load_id _ _ (Flip-Flip now meta.load_id _)
              ∙ Stages-accepted host ids meta.load_id s.rows rows h
                  (mark_staged-Stages host t ids meta.load_id s.rows rows done)
        ]

module _ (host : Platform) (once : Injective host.uuid) (now : ℕ) (t : TableTemplate)
    (conn : String) (trace : Option String) where
  write_rows-Frozen :
      (rows₀ : List TableRow) (ds : List Object) (p q : Progress host now t conn trace)
      → write_rows host now t conn trace ds p ≡ some q
      → Frozen host once now t conn trace rows₀ p
      → Frozen host once now t conn trace rows₀ q
  unfolding write_rows
  write_rows-Frozen rows₀ ds p q e v = elim (Bool-cases (is_empty (id_fields_of t))) [
    | inl plain ↦
        append_chunks-Frozen host once now t conn trace rows₀ (chunks 1000 ds) p q (rw plain at e) v
    | inr keyed ↦ elim (Bool-cases (has_safe_names host now t conn trace)) [
      | inl safe ↦
          let split = split_rows host t (record { with_id = []; without_id = [] }) ds in
          let cs = chunks 1000 (map (λ (e : String × Object). e.1) (sort_by_key split.with_id)) in
          let (r, done, same) =
            >>=-eq-some (upsert_chunks host now t conn trace cs p) _ (rw (keyed, safe) at e) in
          append_chunks-Frozen host once now t conn trace rows₀ (chunks 1000 split.without_id) r q
            same (upsert_chunks-Frozen host once now t conn trace rows₀ cs p r done v)
      | inr unsafe ↦ cc (rw (keyed, unsafe) at e)
    ]
  ]

  finish-accepted :
      (rows₀ : List TableRow) (meta : Option LoadMeta) (s s' : Store)
      (p : Progress host now t conn trace)
      → finish host now t conn trace meta s p ≡ some s'
      → Frozen host once now t conn trace rows₀ p
      → accepted s'.rows ≡ accepted rows₀
  unfolding finish
  finish-accepted rows₀ none s s' p e v =
      let (rows, done, same) = >>=-eq-some (mark_queued host t p.affected "queued" p.rows) _ e in
      ap (λ (u : Store). accepted u.rows) (sym (some-injective _ _ same))
      ∙ Requeues-accepted host p.affected p.rows rows v.free
          (mark_queued-Requeues host t _ "queued" p.rows rows done)
      ∙ v.same
  finish-accepted rows₀ (some m) s s' p e v = elim (Bool-cases (m.load_id == "")) [
    | inl blank ↦
        let (rows, done, same) =
          >>=-eq-some (mark_queued host t p.affected "queued" p.rows) _ (rw (blank, finish) at e) in
        ap (λ (u : Store). accepted u.rows) (sym (some-injective _ _ same))
        ∙ Requeues-accepted host p.affected p.rows rows v.free
            (mark_queued-Requeues host t _ "queued" p.rows rows done)
        ∙ v.same
    | inr named ↦
        stage_load_rows-accepted host now t conn p.affected m (record s { rows = p.rows }) s' v.free
          (rw (named, finish) at e)
        ∙ v.same
  ]

-- A load of data never touches a row that SII has accepted: where `ingest` returns, the accepted
-- rows of the table are the same rows, with every column as it was, in the same order, and no other
-- row counts as accepted. The table has its primary key, and the ids that the database draws are
-- new and drawn once.
pub ingest-accepted :
    (host : Platform) (now : ℕ) (t : TableTemplate) (conn : String) (trace : Option String)
    (ds : List Object) (meta : Option LoadMeta) (s : Store) (drawn : ℕ) (done : Ingested)
    → Injective host.uuid
    → HasKey s.rows
    → ((k : ℕ) → drawn ≤ k → has (host.uuid k) (ids_of s.rows) ≡ false)
    → ingest host now t conn trace ds meta s drawn ≡ some done
    → accepted done.store.rows ≡ accepted s.rows
unfolding ingest
ingest-accepted host now t conn trace [] meta s drawn done once key new e =
    ap (λ (i : Ingested). accepted i.store.rows) (sym (some-injective _ _ e))
ingest-accepted host now t conn trace (d ∷ ds) meta s drawn done once key new e =
    let (p, written, rest) = >>=-eq-some (write_rows host now t conn trace (d ∷ ds) _) _ e in
    let (s', finished, same) = >>=-eq-some (finish host now t conn trace meta s p) _ rest in
    ap (λ (i : Ingested). accepted i.store.rows) (sym (some-injective _ _ same))
    ∙ finish-accepted host once now t conn trace s.rows meta s s' p finished (
        write_rows-Frozen host once now t conn trace s.rows (d ∷ ds) _ p written
          (record { same = refl; key = key; new = new; free = refl }))
