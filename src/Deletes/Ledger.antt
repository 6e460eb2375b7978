-- ===== src/Deletes/Ledger.antt =====
-- The ledger of deletions against Postgres's count of them.
use yalia_sii.Prelude.{
  ℕ, zero, suc, ◌+◌, ◌-◌, String, Bool, true, not, Option, List, [], ◌∷◌, ◌++◌, ◌≡◌, refl, sym, ap,
  subst, ◌∙◌, inl, inr, ltb, keep, length, ◌⊎◌, Bool-cases, arith,
}
use yalia_sii.Json.{Platform}
use yalia_sii.Template.{TableTemplate}
use yalia_sii.Rows.{TableRow}
use yalia_sii.Loads.{or_null}
use yalia_sii.Http.{Reply, ok, bad_request, failed}
use yalia_sii.Outbound.{Gateway}
use yalia_sii.Filters.{Engine}
use yalia_sii.Deletes.{
  DeleteReason, DeleteEvent, Store, DatasetDeleteParams, record_delete_event, delete_where,
  delete_rows, total_affected, uncontrolled_deletes, reset_delete_baseline, baseline_event,
}
use yalia_sii.Deletes.Cases.{Deletes, idle, refused, threw, removed, delete_rows-Deletes}

length-keep-not :
    (p : TableRow → Bool) (rows : List TableRow)
    → length rows ≡ length (keep (λ r. not (p r)) rows) + length (keep p rows)
length-keep-not p [] = omega arith
length-keep-not p (r ∷ rows) = ground (arith, length-keep-not p rows)

total_affected-append :
    (es fs : List DeleteEvent) → total_affected (es ++ fs) ≡ total_affected es + total_affected fs
unfolding total_affected
total_affected-append [] fs = omega arith
total_affected-append (e ∷ es) fs = omega (arith, total_affected-append es fs)

-- What a deletion of `n` rows does to the counters.
pub record Accounted (s s' : Store) (n : ℕ) : Type 0 where
  pub lost : length s.db.rows ≡ length s'.db.rows + n
  pub counted : s'.n_tup_del ≡ s.n_tup_del + n
  pub recorded : total_affected s'.events ≡ total_affected s.events + n

Accounted-same : (s s' : Store) → s' ≡ s → Accounted s s' 0
Accounted-same s s' e =
    subst (λ u. Accounted s u 0) (sym e)
      (record { lost = omega arith; counted = omega arith; recorded = omega arith })

-- What the caller is told of that number.
abbrev pub Tells : Reply ℕ → ℕ → Type 0
Tells reply n = (reply ≡ ok n) ⊎ ((n ≡ 0) × ((reply ≡ bad_request) ⊎ (reply ≡ failed)))

module _ (host : Platform) (pg : Engine) (gate : Gateway) (encode : String → String)
    (keeps : ℕ → Bool) (always : (k : ℕ) → keeps k ≡ true) (now : ℕ) (t : TableTemplate) where
  record_delete_event-total :
      (conn : String) (reason : DeleteReason) (n : ℕ) (names : Option (List String))
      (es : List DeleteEvent)
      → total_affected (record_delete_event host pg gate encode keeps now t conn reason n names es)
        ≡ total_affected es + n
  unfolding record_delete_event total_affected
  record_delete_event-total conn reason zero names es = omega arith
  record_delete_event-total conn reason (suc n) names es = rw (always (length es)) (
      ground (
        arith,
        total_affected-append es (
            record {
              table_key = t.key;
              connection_id = or_null conn;
              affected = suc n;
              reason = reason;
              record_ids = names;
              created_at = now;
            }
            ∷ []),
      ))

  delete_where-Accounted :
      (conn : String) (reason : DeleteReason) (p : TableRow → Bool) (s : Store)
      → Accounted s
          (delete_where host pg gate encode keeps now t conn reason p s).0
          (length (keep p s.db.rows))
  unfolding delete_where
  delete_where-Accounted conn reason p s = record {
    lost = length-keep-not p s.db.rows;
    counted = refl;
    recorded = record_delete_event-total conn reason (length (keep p s.db.rows)) _ s.events;
  }

  Deletes-Accounted :
      (conn : String) (s s' : Store) (reply : Reply ℕ)
      → Deletes host pg gate encode keeps now t conn s s' reply
      → (n : ℕ) × Accounted s s' n × Tells reply n
  unfolding delete_where
  Deletes-Accounted conn s s' reply (idle e r) = (0, Accounted-same s s' e, inl r)
  Deletes-Accounted conn s s' reply (refused e r) = (0, Accounted-same s s' e, inr (refl, inl r))
  Deletes-Accounted conn s s' reply (threw e r) = (0, Accounted-same s s' e, inr (refl, inr r))
  Deletes-Accounted conn s s' reply (removed p reason closed e) = (
    length (keep p s.db.rows),
    subst (λ u. Accounted s u (length (keep p s.db.rows)))
        (sym (ap (λ (x : Store × Reply ℕ). x.0) e)) (delete_where-Accounted conn reason p s),
    inl (ap (λ (x : Store × Reply ℕ). x.1) e),
  )

  -- A deletion accounts for every row: the table has lost `n` rows, Postgres has counted `n` more
  -- deletions and the ledger records `n` more, where the caller is told `n`, or where `n` is 0 and
  -- the call is refused or fails. The insertions into the ledger go through.
  pub delete_rows-Accounted :
      (params : DatasetDeleteParams) (s : Store)
      → (n : ℕ) × Accounted s (delete_rows host pg gate encode keeps now t params s).0 n
        × Tells (delete_rows host pg gate encode keeps now t params s).1 n
  delete_rows-Accounted params s =
      Deletes-Accounted params.connection_id s _ _
        (delete_rows-Deletes host pg gate encode keeps now t params s)

-- One deletion: when it runs, on which table, and what for.
pub record Deletion : Type 0 where
  pub at : ℕ
  pub template : TableTemplate
  pub params : DatasetDeleteParams

Accounted-uncontrolled :
    (s s' : Store) (n : ℕ) → Accounted s s' n → uncontrolled_deletes s' ≡ uncontrolled_deletes s
unfolding uncontrolled_deletes
Accounted-uncontrolled s s' n a = omega (arith, a.counted, a.recorded)

reset_delete_baseline-zero :
    (now : ℕ) (s : Store) → uncontrolled_deletes (reset_delete_baseline now s) ≡ 0
unfolding uncontrolled_deletes reset_delete_baseline total_affected baseline_event
reset_delete_baseline-zero now s =
    let lost = s.n_tup_del - total_affected s.events in
    elim (Bool-cases (ltb 0 lost)) [
      | inl some_lost ↦
          rw (some_lost, reset_delete_baseline)
            (omega (arith, total_affected-append s.events (baseline_event now lost ∷ [])))
      | inr none_lost ↦ rw (none_lost, reset_delete_baseline) (ground (arith, none_lost))
    ]

module _ (host : Platform) (pg : Engine) (gate : Gateway) (encode : String → String)
    (keeps : ℕ → Bool) (always : (k : ℕ) → keeps k ≡ true) where
  -- Deletions one after the other, on any tables and at any times.
  unfoldable pub delete_history : List Deletion → Store → Store
  delete_history [] s = s
  delete_history (d ∷ ds) s =
      delete_history ds (delete_rows host pg gate encode keeps d.at d.template d.params s).0

  delete_history-uncontrolled :
      (ds : List Deletion) (s : Store)
      → uncontrolled_deletes (delete_history ds s) ≡ uncontrolled_deletes s
  unfolding delete_history
  delete_history-uncontrolled [] s = refl
  delete_history-uncontrolled (d ∷ ds) s =
      let (n, a, told) =
        delete_rows-Accounted host pg gate encode keeps always d.at d.template d.params s in
      delete_history-uncontrolled ds
        (delete_rows host pg gate encode keeps d.at d.template d.params s).0
      ∙ Accounted-uncontrolled s _ n a

  -- After the counter of uncontrolled deletions is reset, it stays at 0 through any sequence of
  -- deletions by deleteRows, on whatever tables and at whatever times. The insertions into the ledger
  -- go through.
  pub delete_history-controlled :
      (now : ℕ) (ds : List Deletion) (s : Store)
      → uncontrolled_deletes (delete_history ds (reset_delete_baseline now s)) ≡ 0
  delete_history-controlled now ds s =
      delete_history-uncontrolled ds (reset_delete_baseline now s)
      ∙ reset_delete_baseline-zero now s
