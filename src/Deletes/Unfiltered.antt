-- ===== src/Deletes/Unfiltered.antt =====
-- A deletion by a filter on a column that is not filterable.
use yalia_sii.Prelude.{
  ℕ, String, Bool, true, false, not, none, some, List, [], ◌∷◌, ◌==◌, ◌≡◌, refl, ap, inl, inr,
  is_some, all, keep, Bool-cases, arith,
}
use yalia_sii.Json.{Platform}
use yalia_sii.Template.{TableTemplate}
use yalia_sii.Rows.{TableRow}
use yalia_sii.Outbound.{Gateway}
use yalia_sii.Filters.{
  Engine, is_filterable, range_match, column_filter, apply_filter, apply_each, apply_filters,
  bound_conditions, test_all,
}
use yalia_sii.Deletes.{
  Store, in_scope, is_grouped, with_group_expansion, matching, selects, delete_where,
  delete_filtered, delete_rows,
}

keep-ext :
    (p q : TableRow → Bool) (rows : List TableRow)
    → ((r : TableRow) → p r ≡ q r)
    → keep p rows ≡ keep q rows
keep-ext p q [] h = refl
keep-ext p q (r ∷ rows) h = rw (h r, keep-ext p q rows h) refl

-- A name that no filter of the template has.
pub record IsUnknown (t : TableTemplate) (k : String) : Type 0 where
  pub not_filterable : is_filterable t k ≡ false
  pub not_range : range_match k ≡ none
  pub not_write_status : (k == "_writeStatus") ≡ false
  pub not_submission_status : (k == "_submissionStatus") ≡ false
  pub not_updated_from : (k == "_updatedAt_from") ≡ false
  pub not_updated_until : (k == "_updatedAt_until") ≡ false

module _ (host : Platform) (pg : Engine) (gate : Gateway) (encode : String → String)
    (keeps : ℕ → Bool) (now : ℕ) (t : TableTemplate) where
  apply_filters-unknown :
      (k v : String) → IsUnknown t k → (v == "") ≡ false → apply_filters pg t ((k, v) ∷ []) ≡ []
  unfolding apply_filters apply_each apply_filter column_filter bound_conditions
  apply_filters-unknown k v u given =
      rw
        (
          apply_filters, apply_each, apply_filter, given, u.not_write_status,
          u.not_submission_status, u.not_updated_from, u.not_updated_until, u.not_range,
          column_filter, u.not_filterable,
        )
        refl

  matching-nothing :
      (conn : String) (r : TableRow)
      → matching host pg gate encode keeps now t conn [] r ≡ some (in_scope t conn r)
  unfolding matching test_all
  matching-nothing conn r = elim (Bool-cases (in_scope t conn r)) [
    | inl inside ↦ rw (inside, matching, test_all) refl
    | inr outside ↦ rw (outside, matching) refl
  ]

  all_match :
      (conn : String) (rows : List TableRow)
      → all (λ r. is_some (matching host pg gate encode keeps now t conn [] r)) rows ≡ true
  all_match conn [] = refl
  all_match conn (r ∷ rows) = rw (matching-nothing conn r, all_match conn rows) refl

  expansion-nothing :
      (conn : String) (rows : List TableRow) (r : TableRow)
      → with_group_expansion t conn rows
          (selects host pg gate encode keeps now t
            (matching host pg gate encode keeps now t conn []))
          r
        ≡ in_scope t conn r
  unfolding with_group_expansion
  expansion-nothing conn rows r = elim (Bool-cases (is_grouped t)) [
    | inl grouped ↦ rw (grouped, matching-nothing conn r) (ground arith)
    | inr plain ↦ rw (plain, matching-nothing conn r) refl
  ]

  delete_filtered-nothing :
      (conn : String) (filters : List (String × String)) (s : Store)
      → apply_filters pg t filters ≡ []
      → (delete_filtered host pg gate encode keeps now t conn filters s).0.db.rows
        ≡ keep (λ r. not (in_scope t conn r)) s.db.rows
  unfolding delete_filtered delete_where
  delete_filtered-nothing conn filters s none_left =
      rw (none_left, delete_filtered, all_match conn s.db.rows)
        (keep-ext _ _ s.db.rows (λ r. ap not (expansion-nothing conn s.db.rows r)))

  -- A deletion by one filter that is not empty, on a name that is no filterable column of the
  -- template, no range of one and no reserved filter, removes every row of the table (of the
  -- connection, where one is named).
  pub delete_rows-unfiltered :
      (conn : String) (k : String) (v : String) (s : Store)
      → IsUnknown t k
      → (v == "") ≡ false
      → (delete_rows host pg gate encode keeps now t
          (record { connection_id = conn; ids = []; older_than_days = none; filters = (k, v) ∷ [] })
          s).0.db.rows
        ≡ keep (λ r. not (in_scope t conn r)) s.db.rows
  unfolding delete_rows
  delete_rows-unfiltered conn k v s u given =
      rw (delete_rows, given)
        (delete_filtered-nothing conn ((k, v) ∷ []) s (apply_filters-unknown k v u given))
