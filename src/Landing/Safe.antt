-- ===== src/Landing/Safe.antt =====
-- What every event leaves: the rows that SII has accepted, and after an error all tables.
use mathlib.Core.Option.{some-injective}
use yalia_sii.Prelude.{
  ℕ, ◌≤◌, String, Bool, true, false, ◌≡◌, refl, subst, inl, inr, Option, none, some, List, [], ◌∷◌,
  ◌==◌, has, >>=-eq-some, Bool-cases, Option-cases,
}
use yalia_sii.Json.{Json, Object, Platform}
use yalia_sii.Template.{TableTemplate}
use yalia_sii.Rows.{ids_of, HasKey, accepted}
use yalia_sii.Loads.{Store, seal_load, expect_batches, or_null}
use yalia_sii.Loads.Sealing.{Flip-Flip}
use yalia_sii.Ingest.Frozen.{Injective}
use yalia_sii.Ingest.Transaction.{Ingested, ingest}
use yalia_sii.Ingest.Immutable.{ingest-accepted, Flip-accepted}
use yalia_sii.Templates.Catalog.{find_by_key}
use yalia_sii.Connections.{Vault, exists}
use yalia_sii.Landing.{
  OperationContext, OperationResult, err, sealed, ErrorCode, missing_table_key, unknown_table,
  missing_connection, unknown_connection, Executed, failed_with, land, land_rows, execute_on,
  execute, seal_of_event, extract_rows, table_key_of,
}

-- An answer with an error.
unfoldable pub is_error : OperationResult → Bool
is_error (err code) = true
is_error _ = false

-- The accepted rows are kept, and an error leaves the tables as they were.
unfoldable pub IsSafe : Store → Executed → Type 0
unfolding is_error
IsSafe s done =
    (accepted done.store.rows ≡ accepted s.rows) × (is_error done.result ≡ true → done.store ≡ s)

module _ (host : Platform) (now : ℕ) (once : Injective host.uuid) (s : Store) (drawn : ℕ)
    (key : HasKey s.rows)
    (new : (k : ℕ) → drawn ≤ k → has (host.uuid k) (ids_of s.rows) ≡ false) where
  failed_with-IsSafe : (code : ErrorCode) → IsSafe s (failed_with host now code s drawn)
  unfolding IsSafe failed_with
  failed_with-IsSafe code = (refl, λ e. refl)

  land-IsSafe :
      (t : TableTemplate) (conn : String) (trace : Option String) (ds : List Object)
      (ctx : OperationContext) (o : Option Ingested)
      → ingest host now t conn trace ds ctx.load_meta s drawn ≡ o
      → IsSafe s (land host now o s drawn)
  unfolding land IsSafe is_error
  land-IsSafe t conn trace ds ctx none e = (refl, λ h. refl)
  land-IsSafe t conn trace ds ctx (some done) e =
      (ingest-accepted host now t conn trace ds ctx.load_meta s drawn done once key new e, λ h. cc)

  land_rows-IsSafe :
      (t : TableTemplate) (rows : List Object) (ctx : OperationContext) (vault : Vault)
      → IsSafe s (land_rows host now t rows ctx vault s drawn)
  unfolding land_rows IsSafe is_error
  land_rows-IsSafe t [] ctx vault = (refl, λ h. refl)
  land_rows-IsSafe t (d ∷ ds) ctx vault = elim (Bool-cases (ctx.connection_id == "")) [
    | inl missing ↦ rw (land_rows, missing) (failed_with-IsSafe missing_connection)
    | inr given ↦ elim (Bool-cases (exists ctx.connection_id vault)) [
      | inr unknown ↦ rw (land_rows, given, unknown) (failed_with-IsSafe unknown_connection)
      | inl known ↦
          rw (land_rows, given, known)
            (land-IsSafe t ctx.connection_id (some ctx.trace_id) (d ∷ ds) ctx _ refl)
    ]
  ]

  sealed-IsSafe :
      (t : TableTemplate) (id : String) (total : ℕ) (conn : Option String)
      → IsSafe s (record {
        result = sealed id total;
        store = seal_load host now t id total conn s;
        drawn = drawn;
      })
  unfolding IsSafe is_error seal_load
  sealed-IsSafe t id total conn = (
    Flip-accepted now id _ _
        (Flip-Flip now id (record s { loads = expect_batches host now t id total conn s.loads })),
    λ h. cc,
  )

  execute_on-IsSafe :
      (t : TableTemplate) (payload : Json) (ctx : OperationContext) (vault : Vault)
      (done : Executed)
      → execute_on host now t payload ctx vault s drawn ≡ some done
      → IsSafe s done
  unfolding execute_on
  execute_on-IsSafe t payload ctx vault done e = elim (Option-cases (seal_of_event ctx.load_meta)) [
    | inl rows_come ↦
        let (rows, read, same) =
          >>=-eq-some (extract_rows payload) _ (rw (execute_on, rows_come) at e) in
        subst (IsSafe s) (some-injective _ _ same) (land_rows-IsSafe t rows ctx vault)
    | inr ((id, total), seal_comes) ↦
        subst (IsSafe s) (some-injective _ _ (rw (execute_on, seal_comes) at e))
          (sealed-IsSafe t id total (or_null ctx.connection_id))
  ]

-- Whatever event arrives, the operation leaves every row that SII has accepted with every column as
-- it was, and where it answers with an error it leaves all tables as they were. The rows of the
-- event are objects, the table has its primary key, and the ids that the database draws are new.
pub execute-IsSafe :
    (host : Platform) (now : ℕ) (templates : List TableTemplate) (payload : Json)
    (ctx : OperationContext) (vault : Vault) (s : Store) (drawn : ℕ) (done : Executed)
    → Injective host.uuid
    → HasKey s.rows
    → ((k : ℕ) → drawn ≤ k → has (host.uuid k) (ids_of s.rows) ≡ false)
    → execute host now templates payload ctx vault s drawn ≡ some done
    → (accepted done.store.rows ≡ accepted s.rows) × (is_error done.result ≡ true → done.store ≡ s)
unfolding execute IsSafe is_error
execute-IsSafe host now templates payload ctx vault s drawn done once key new e =
    elim (Bool-cases (table_key_of host now payload ctx == "")) [
      | inl missing ↦
          subst (IsSafe s) (some-injective _ _ (rw (execute, missing) at e))
            (failed_with-IsSafe host now once s drawn key new missing_table_key)
      | inr given ↦
          elim (Option-cases (find_by_key (table_key_of host now payload ctx) templates)) [
            | inl unknown ↦
                subst (IsSafe s) (some-injective _ _ (rw (execute, given, unknown) at e))
                  (failed_with-IsSafe host now once s drawn key new unknown_table)
            | inr (t, there) ↦
                execute_on-IsSafe host now once s drawn key new t payload ctx vault done
                  (rw (execute, given, there) at e)
          ]
    ]
