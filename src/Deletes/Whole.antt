-- ===== src/Deletes/Whole.antt =====
-- A deletion takes a group whole or leaves it.
use yalia_sii.Prelude.{
  ℕ, String, Bool, true, not, some, ◌≡◌, sym, ap, subst, inl, inr, In, In-keep, In-keep_inv,
  Bool-cases, arith,
}
use yalia_sii.Json.{Platform}
use yalia_sii.Template.{TableTemplate}
use yalia_sii.Rows.{TableRow}
use yalia_sii.Http.{Reply}
use yalia_sii.Outbound.{Gateway}
use yalia_sii.Filters.{Engine}
use yalia_sii.Deletes.{Store, DatasetDeleteParams, in_scope, is_grouped, delete_where, delete_rows}
use yalia_sii.Deletes.Cases.{Deletes, idle, refused, threw, removed, delete_rows-Deletes}

module _ (host : Platform) (pg : Engine) (gate : Gateway) (encode : String → String)
    (keeps : ℕ → Bool) (now : ℕ) (t : TableTemplate) where
  Deletes-whole :
      (conn : String) (s s' : Store) (reply : Reply ℕ) (g : String) (r q : TableRow)
      → Deletes host pg gate encode keeps now t conn s s' reply
      → is_grouped t ≡ true
      → In q s.db.rows
      → r.group_id ≡ some g
      → q.group_id ≡ some g
      → in_scope t conn r ≡ true
      → In r s'.db.rows
      → In q s'.db.rows
  unfolding delete_where
  Deletes-whole conn s s' reply g r q (idle e _) grouped hq rg qg inside m =
      subst (λ (u : Store). In q u.db.rows) (sym e) hq
  Deletes-whole conn s s' reply g r q (refused e _) grouped hq rg qg inside m =
      subst (λ (u : Store). In q u.db.rows) (sym e) hq
  Deletes-whole conn s s' reply g r q (threw e _) grouped hq rg qg inside m =
      subst (λ (u : Store). In q u.db.rows) (sym e) hq
  Deletes-whole conn s s' reply g r q (removed p reason closed e) grouped hq rg qg inside m =
      let left = ap (λ (x : Store × Reply ℕ). x.0.db.rows) e in
      let (_, stays) =
        In-keep_inv (λ x. not (p x)) r s.db.rows (subst (λ rows. In r rows) left m) in
      elim (Bool-cases (p q)) [
        | inl goes ↦ absurd (ground (arith, closed.whole g q r grouped hq qg rg inside goes, stays))
        | inr keeps_q ↦
            subst (λ rows. In q rows) (sym left)
              (In-keep (λ x. not (p x)) q s.db.rows hq (ground arith))
      ]

  -- In a table that is grouped, a deletion that leaves one row of a group leaves every row of it,
  -- whatever it names and whatever the outside does; the two rows are in the table and connection
  -- of the deletion.
  pub delete_rows-whole :
      (params : DatasetDeleteParams) (s : Store) (g : String) (r q : TableRow)
      → is_grouped t ≡ true
      → In q s.db.rows
      → r.group_id ≡ some g
      → q.group_id ≡ some g
      → in_scope t params.connection_id r ≡ true
      → In r (delete_rows host pg gate encode keeps now t params s).0.db.rows
      → In q (delete_rows host pg gate encode keeps now t params s).0.db.rows
  delete_rows-whole params s g r q =
      Deletes-whole params.connection_id s _ _ g r q
        (delete_rows-Deletes host pg gate encode keeps now t params s)
