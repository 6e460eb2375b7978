-- ===== src/Ingest/Totals.antt =====
-- The counts that `ingest` answers with.
use mathlib.Core.Option.{some-injective}
use yalia_sii.Prelude.{
  ℕ, ◌+◌, ◌≤◌, String, ◌≡◌, sym, ap, ◌∙◌, inl, inr, ◌&&◌, Option, none, some, List, [], ◌∷◌, ◌==◌,
  length, ◌>>=◌, >>=-eq-some, arith, Bool-cases,
}
use yalia_sii.Json.{Object, Platform}
use yalia_sii.Template.{TableTemplate}
use yalia_sii.Rows.{TableRow, has_id}
use yalia_sii.Loads.{
  Store, LoadMeta, mark_queued, stage_load_rows, seal, requeue, stage, can_stage, is_staged_in,
}
use yalia_sii.Loads.Marking.{kept, reset, held, mark_queued-Requeues, mark_staged-Stages}
use yalia_sii.Loads.Sealing.{Flip, waits, seals, Flip-Flip}
use yalia_sii.Loads.{ensure_load, sealed_load, or_null, mark_staged}
use yalia_sii.Ingest.{Progress}
use yalia_sii.Ingest.Transaction.{Ingested, write_rows, finish, ingest}
use yalia_sii.Ingest.Counts.{length-update_where, handled, write_rows-Counts}

module _ (host : Platform) (now : ℕ) (t : TableTemplate) (conn : String)
    (trace : Option String) where
  length-mark_queued :
      (ids : List String) (rows after : List TableRow)
      → mark_queued host t ids "queued" rows ≡ some after
      → length after ≡ length rows
  length-mark_queued ids rows after e =
      elim (mark_queued-Requeues host t ids "queued" rows after e) [
        | kept same ↦ ap length same
        | reset f same ↦
            ap length same ∙ length-update_where (has_id ids) (requeue host "queued" f) rows
      ]

  length-mark_staged :
      (ids : List String) (load : String) (rows after : List TableRow)
      → mark_staged host t ids load rows ≡ some after
      → length after ≡ length rows
  length-mark_staged ids load rows after e =
      elim (mark_staged-Stages host t ids load rows after e) [
        | kept same ↦ ap length same
        | held f same ↦
            ap length same
            ∙ length-update_where (λ r. has_id ids r && can_stage host r.submission_status)
                (stage host load f) rows
      ]

  length-Flip : (load : String) (s s' : Store) → Flip now load s s' → length s'.rows ≡ length s.rows
  unfolding seal
  length-Flip load s s' (waits e h) = ap (λ (u : Store). length u.rows) e
  length-Flip load s s' (seals k n found fresh e enough same) =
      ap (λ (u : Store). length u.rows) same
      ∙ length-update_where (is_staged_in load)
          (λ r. record r { submission_status = some "queued" }) s.rows

  length-stage_load_rows :
      (ids : List String) (meta : LoadMeta) (s s' : Store)
      → stage_load_rows host now t ids conn meta s ≡ some s'
      → length s'.rows ≡ length s.rows
  unfolding stage_load_rows
  length-stage_load_rows ids meta s s' e =
      elim (Bool-cases
        (sealed_load meta.load_id (ensure_load now meta.load_id t.key (or_null conn) s.loads))) [
          | inl late ↦
              let (rows, done, same) =
                >>=-eq-some (mark_queued host t ids "queued" s.rows) _ (rw late at e) in
              ap (λ (u : Store). length u.rows) (sym (some-injective _ _ same))
              ∙ length-mark_queued ids s.rows rows done
          | inr early ↦
              let (rows, done, same) =
                >>=-eq-some (mark_staged host t ids meta.load_id s.rows) _ (rw early at e) in
              ap (λ (u : Store). length u.rows) (sym (some-injective _ _ same))
              ∙ length-Flip meta.load_id _ _ (Flip-Flip now meta.load_id _)
              ∙ length-mark_staged ids meta.load_id s.rows rows done
        ]

  length-queue :
      (s s' : Store) (p : Progress host now t conn trace)
      → (mark_queued host t p.affected "queued" p.rows >>= λ rows. some (record s { rows = rows }))
        ≡ some s'
      → length s'.rows ≡ length p.rows
  length-queue s s' p e =
      let (rows, done, same) = >>=-eq-some (mark_queued host t p.affected "queued" p.rows) _ e in
      ap (λ (u : Store). length u.rows) (sym (some-injective _ _ same))
      ∙ length-mark_queued p.affected p.rows rows done

  length-finish :
      (meta : Option LoadMeta) (s s' : Store) (p : Progress host now t conn trace)
      → finish host now t conn trace meta s p ≡ some s'
      → length s'.rows ≡ length p.rows
  unfolding finish
  length-finish none s s' p e = length-queue s s' p e
  length-finish (some m) s s' p e = elim (Bool-cases (m.load_id == "")) [
    | inl blank ↦ length-queue s s' p (rw (blank, finish) at e)
    | inr named ↦
        length-stage_load_rows p.affected m (record s { rows = p.rows }) s'
          (rw (named, finish) at e)
  ]

-- The counts of a load are right: where `ingest` returns, the table has grown by exactly the number
-- of rows answered as inserted, so that updated and skipped rows add none, and no more rows are
-- counted than were delivered. Under the recency rule a key delivered twice counts once.
pub ingest-counted :
    (host : Platform) (now : ℕ) (t : TableTemplate) (conn : String) (trace : Option String)
    (ds : List Object) (meta : Option LoadMeta) (s : Store) (drawn : ℕ) (done : Ingested)
    → ingest host now t conn trace ds meta s drawn ≡ some done
    → (length done.store.rows ≡ length s.rows + done.counts.inserted)
      × (done.counts.inserted + done.counts.upserted + done.counts.skipped_stale ≤ length ds)
unfolding ingest handled
ingest-counted host now t conn trace [] meta s drawn done e =
    let same = some-injective _ _ e in
    (
      omega (
        arith,
        ap (λ (i : Ingested). length i.store.rows) same,
        ap (λ (i : Ingested). i.counts.inserted) same,
      ),
      omega (
        arith,
        ap (λ (i : Ingested). i.counts.inserted) same,
        ap (λ (i : Ingested). i.counts.upserted) same,
        ap (λ (i : Ingested). i.counts.skipped_stale) same,
      ),
    )
ingest-counted host now t conn trace (d ∷ ds) meta s drawn done e =
    let (p, written, rest) = >>=-eq-some (write_rows host now t conn trace (d ∷ ds) _) _ e in
    let (s', finished, found) = >>=-eq-some (finish host now t conn trace meta s p) _ rest in
    let same = some-injective _ _ found in
    let (k, le, v) = write_rows-Counts host now t conn trace (d ∷ ds) _ p written in
    (
      omega (
        arith,
        ap (λ (i : Ingested). length i.store.rows) same,
        ap (λ (i : Ingested). i.counts.inserted) same,
        length-finish host now t conn trace meta s s' p finished,
        v.grew,
      ),
      omega (
        arith,
        le,
        v.counted,
        ap (λ (i : Ingested). i.counts.inserted) same,
        ap (λ (i : Ingested). i.counts.upserted) same,
        ap (λ (i : Ingested). i.counts.skipped_stale) same,
      ),
    )
