-- ===== src/Deletes/Missing.antt =====
-- src/tables/table-rows.service.ts, findMissingIds and findDeletedInfo: which of the ids that the
-- hub has sent are not in the table, and which deletion took them.
use mathlib.Core.Option.{some-injective}
use yalia_sii.Prelude.{
  subst, ◌∙◌, ℕ, zero, suc, ◌≤◌, String, Bool, true, not, ◌&&◌, Option, none, some, List, [], ◌∷◌,
  ◌≡◌, refl, ap, inl, inr, ◌==◌, if◌then◌else◌, ltb, any, has, is_text, is_empty, keep, take,
  length, Bool-cases, arith, eq_iff,
}
use yalia_sii.Json.{Platform, text_at}
use yalia_sii.Sql.{is_table_key, is_column_key}
use yalia_sii.Template.{TableTemplate}
use yalia_sii.Rows.{TableRow}
use yalia_sii.Deletes.{DeleteReason, DeleteEvent}

-- `[...new Set(ids)]`
unfoldable pub unique : List String → List String
unique [] = []
unique (x ∷ xs) = x ∷ keep (λ y. not (y == x)) (unique xs)

-- MAX_FIND_MISSING_IDS
abbrev pub max_find_missing_ids : ℕ
max_find_missing_ids = 20000

pub record Missing : Type 0 where
  pub missing_ids : List String
  pub checked_count : ℕ
  pub deleted_info : String → Option (DeleteReason × ℕ)

-- The later of two events of an id, `ORDER BY id_val, created_at DESC`.
later : DeleteEvent → Option DeleteEvent → DeleteEvent
later e none = e
later e (some f) = if ltb e.created_at f.created_at then f else e

unfoldable pub latest : (DeleteEvent → Bool) → List DeleteEvent → Option DeleteEvent
unfolding later
latest p [] = none
latest p (e ∷ es) = let rest = latest p es in if p e then some (later e rest) else rest

abbrev names : DeleteEvent → List String
names e = elim e.record_ids [ none ↦ [] | some ids ↦ ids ]

-- `table_key = … AND (connection_id = … OR connection_id IS NULL) AND record_ids && …`
unfoldable pub is_relevant : String → String → List String → DeleteEvent → Bool
is_relevant key conn missing e =
    e.table_key == key
    && elim e.connection_id [ none ↦ true | some c ↦ c == conn ]
    && any (λ id. has id missing) (names e)

unfoldable pub find_deleted_info :
    String → String → List String → List DeleteEvent → String → Option (DeleteReason × ℕ)
unfolding latest is_relevant
find_deleted_info key conn missing events id =
    elim (latest (λ e. is_relevant key conn missing e && has id (names e)) events) [
      | none ↦ none
      | some e ↦ some (e.reason, e.created_at)
    ]

module _ (host : Platform) (t : TableTemplate) (conn : String) where
  -- The row is one of the table and connection, and has that id.
  unfoldable pub holds_id : String → TableRow → Bool
  holds_id id r =
      r.table_key == t.key
      && r.connection_id == conn
      && is_text (text_at host t.id_field r.row_data) id

  -- The ids of the rows that the SELECT returns.
  unfoldable pub present : List String → List TableRow → List String
  unfolding holds_id
  present ids rows = keep (λ id. any (holds_id id) rows) ids

  unfoldable pub search_ids : List String → List TableRow → List DeleteEvent → Missing
  unfolding present find_deleted_info
  search_ids asked rows events =
      let there = present asked rows in
      let missing = keep (λ id. not (has id there)) asked in
      record {
        missing_ids = missing;
        checked_count = length asked;
        deleted_info =
            if is_empty missing then (λ id. none) else find_deleted_info t.key conn missing events;
      }

  unfoldable pub find_missing_ids : List String → List TableRow → List DeleteEvent → Option Missing
  unfolding unique search_ids
  find_missing_ids ids rows events =
      if is_table_key t.key && is_column_key t.id_field
      then some (search_ids (take max_find_missing_ids (unique ids)) rows events)
      else none

  has-keep :
      (p : String → Bool) (x : String) (xs : List String) → has x (keep p xs) ≡ (has x xs && p x)
  has-keep p x [] = refl
  has-keep p x (y ∷ xs) = ground (arith, has-keep p x xs, eq_iff y x)

  take-all : (n : ℕ) (xs : List String) → length xs ≤ n → take n xs ≡ xs
  take-all zero [] h = refl
  take-all zero (x ∷ xs) h = absurd (omega (arith, h))
  take-all (suc n) [] h = refl
  take-all (suc n) (x ∷ xs) h = ap (λ ys. x ∷ ys) (take-all n xs (omega (arith, h)))

  has-unique : (x : String) (xs : List String) → has x (unique xs) ≡ has x xs
  unfolding unique
  has-unique x [] = refl
  has-unique x (y ∷ xs) =
      ground
        (arith, has-keep (λ z. not (z == y)) x (unique xs), has-unique x xs, eq_iff x y, eq_iff y x)

  search_ids-missing :
      (x : String) (asked : List String) (rows : List TableRow) (events : List DeleteEvent)
      → has x (search_ids asked rows events).missing_ids
        ≡ (has x asked && not (any (holds_id x) rows))
  unfolding search_ids present
  search_ids-missing x asked rows events = ground (
    arith,
    has-keep (λ id. any (holds_id id) rows) x asked,
    has-keep (λ id. not (has id (present asked rows))) x asked,
  )

  find_missing_ids-asked :
      (n : ℕ) (ids : List String) (rows : List TableRow) (events : List DeleteEvent)
      → length (unique ids) ≤ n
      → (x : String)
      → has x (search_ids (take n (unique ids)) rows events).missing_ids
        ≡ (has x ids && not (any (holds_id x) rows))
  find_missing_ids-asked n ids rows events le x =
      search_ids-missing x (take n (unique ids)) rows events
      ∙ ap (λ b. b && not (any (holds_id x) rows))
          (ap (λ ys. has x ys) (take-all n (unique ids) le) ∙ has-unique x ids)

  -- Where the search for missing ids returns, it reports an id exactly where it was asked for and
  -- no row of the table and connection has it, and it counts each id that was asked for once. At
  -- most 20000 different ids are asked for.
  pub find_missing_ids-exact :
      (ids : List String) (rows : List TableRow) (events : List DeleteEvent) (out : Missing)
      → length (unique ids) ≤ max_find_missing_ids
      → find_missing_ids ids rows events ≡ some out
      → ((x : String) → has x out.missing_ids ≡ (has x ids && not (any (holds_id x) rows)))
        × (out.checked_count ≡ length (unique ids))
  unfolding find_missing_ids search_ids
  find_missing_ids-exact ids rows events out le e =
      elim (Bool-cases (is_table_key t.key && is_column_key t.id_field)) [
        | inr throws ↦ cc (rw throws at e)
        | inl safe ↦
            let same = some-injective _ _ (rw safe at e) in
            (
              λ x.
                  subst
                    (λ (m : Missing).
                      has x m.missing_ids ≡ (has x ids && not (any (holds_id x) rows)))
                    same (find_missing_ids-asked max_find_missing_ids ids rows events le x),
              subst (λ (m : Missing). m.checked_count ≡ length (unique ids)) same
                  (ap length (take-all max_find_missing_ids (unique ids) le)),
            )
      ]
