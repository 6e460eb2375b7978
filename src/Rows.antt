-- ===== src/Rows.antt =====
-- src/tables/entities/table-row.entity.ts, with the column `load_id` of the TableLoadStaging migration.
-- A date is a number of milliseconds. `updated_at`, which a trigger of the database keeps, and the
-- unused `external_ref` are left out. A missing connection is the text "".
use yalia_sii.Prelude.{
  arith, refl, eq_iff, keep, ◌++◌, ◌||◌, ℕ, ◌+◌, String, Bool, true, false, ◌&&◌, ◌||◌, Option,
  none, some, List, [], ◌∷◌, map, ◌==◌, ◌=ℕ◌, if◌then◌else◌, has, ◌≡◌,
}
use yalia_sii.Json.{Json, Object}
use yalia_sii.Sql.{codes, is_upper}

pub record TableRow : Type 0 where
  pub id : String
  pub table_key : String
  pub connection_id : String
  pub row_data : Object
  pub trace_id : Option String
  pub write_status : Option String
  pub write_error : Option String
  pub last_written_at : Option ℕ
  pub submission_status : Option String
  pub batch_id : Option String
  pub group_id : Option String
  pub load_id : Option String
  pub sii_response : Option Json
  pub created_at : ℕ

abbrev lower_code : ℕ → ℕ
lower_code c = if is_upper c then c + 32 else c

codes_eq : List ℕ → List ℕ → Bool
codes_eq [] [] = true
codes_eq (a ∷ s) (b ∷ t) = a =ℕ b && codes_eq s t
codes_eq _ _ = false

-- `lower(coalesce(submission_status, '')) = 'correcto'`: accepted by SII, and final.
unfoldable pub is_correcto : Option String → Bool
unfolding codes_eq
is_correcto none = false
is_correcto (some s) = codes_eq (map lower_code (codes s)) (codes "correcto")

-- `submission_status IN ('queued', 'revisado')`: what the write cron sends.
unfoldable pub is_queued : Option String → Bool
is_queued none = false
is_queued (some s) = s == "queued" || s == "revisado"

-- `UPDATE table_rows SET … WHERE …`.
abbrev pub update_where : (TableRow → Bool) → (TableRow → TableRow) → List TableRow → List TableRow
update_where p f rows = map (λ r. if p r then f r else r) rows

-- `id = ANY(ids)`.
abbrev pub has_id : List String → TableRow → Bool
has_id ids r = has r.id ids

abbrev pub ids_of : List TableRow → List String
ids_of rows = map (λ r. r.id) rows

-- The primary key: no id stands twice.
abbrev pub Distinct : List String → Type 0
Distinct [] = Unit {0}
Distinct (x ∷ xs) = (has x xs ≡ false) × Distinct xs

abbrev pub HasKey : List TableRow → Type 0
HasKey rows = Distinct (ids_of rows)

-- The rows accepted by SII, in their order.
abbrev pub accepted : List TableRow → List TableRow
accepted rows = keep (λ r. is_correcto r.submission_status) rows

pub keep-append {ℓ} :
    {A : Type ℓ} (p : A → Bool) (xs ys : List A) → keep p (xs ++ ys) ≡ keep p xs ++ keep p ys
keep-append p [] ys = refl
keep-append p (x ∷ xs) ys = ground (arith, keep-append p xs ys)

pub has-append : (x : String) (xs ys : List String) → has x (xs ++ ys) ≡ (has x xs || has x ys)
has-append x [] ys = refl
has-append x (y ∷ xs) ys = ground (arith, has-append x xs ys)

pub Distinct-snoc :
    (x : String) (xs : List String) → Distinct xs → has x xs ≡ false → Distinct (xs ++ x ∷ [])
Distinct-snoc x [] d h = (refl, tt)
Distinct-snoc x (y ∷ xs) d h = (
  ground (arith, has-append y xs (x ∷ []), eq_iff x y, eq_iff y x),
  Distinct-snoc x xs d.1 (ground arith),
)
