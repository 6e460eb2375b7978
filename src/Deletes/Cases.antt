-- ===== src/Deletes/Cases.antt =====
-- What each way of deleting does: it removes the rows of one predicate, closed under the groups of
-- its table, or it changes nothing.
use yalia_sii.Prelude.{
  ℕ, String, Bool, true, false, ◌&&◌, ◌||◌, Option, none, some, List, [], ◌∷◌, ◌≡◌, refl, sym, ap,
  subst, ◌∙◌, inl, inr, if◌then◌else◌, is_some, is_empty, all, has, keep, In, In-keep, arith,
  Bool-cases, Option-cases, ==_refl,
}
use yalia_sii.Json.{Platform}
use yalia_sii.Sql.{is_uuid}
use yalia_sii.Template.{TableTemplate}
use yalia_sii.Rows.{TableRow, has_id}
use yalia_sii.Http.{Reply, ok, bad_request, failed}
use yalia_sii.Outbound.{Gateway}
use yalia_sii.Filters.{Engine, Condition, apply_filters}
use yalia_sii.Deletes.{
  DeleteReason, ids, retention, bulk, Store, DatasetDeleteParams, in_scope, is_grouped, in_groups,
  group_ids, with_group_expansion, delete_where, is_older, matching, selects, non_empty, delete_ids,
  delete_older, delete_filtered, delete_rows,
}

In-group_ids :
    (g : String) (r : TableRow) (rows : List TableRow)
    → r.group_id ≡ some g
    → In r rows
    → has g (group_ids rows) ≡ true
unfolding group_ids
In-group_ids g r [] e m = absurd m
In-group_ids g r (x ∷ rows) e (inl same) =
    let named : x.group_id ≡ some g = ap (λ (y : TableRow). y.group_id) (sym same) ∙ e in
    rw (named, group_ids) (ground (arith, ==_refl g))
In-group_ids g r (x ∷ rows) e (inr m) = elim (Option-cases x.group_id) [
  | inl plain ↦ rw (plain, group_ids) (In-group_ids g r rows e m)
  | inr (h, named) ↦ rw (named, group_ids) (ground (arith, In-group_ids g r rows e m))
]

in_groups-has :
    (g : String) (r : TableRow) (groups : List String)
    → r.group_id ≡ some g
    → in_groups groups r ≡ true
    → has g groups ≡ true
in_groups-has g r groups e h =
    subst (λ (o : Option String). elim o [ none ↦ false | some g' ↦ has g' groups ] ≡ true) e h

module _ (t : TableTemplate) (conn : String) (rows : List TableRow) where
  -- A predicate of rows of the table and connection that takes a group whole.
  pub record Closed (p : TableRow → Bool) : Type 0 where
    pub scoped : (r : TableRow) → p r ≡ true → in_scope t conn r ≡ true
    pub whole :
        (g : String) (r q : TableRow)
        → is_grouped t ≡ true
        → In r rows
        → r.group_id ≡ some g
        → q.group_id ≡ some g
        → in_scope t conn q ≡ true
        → p r ≡ true
        → p q ≡ true

  shared_group :
      (m : TableRow → Bool) (g : String) (r : TableRow)
      → In r rows
      → r.group_id ≡ some g
      → (m r || (in_scope t conn r && in_groups (group_ids (keep m rows)) r)) ≡ true
      → has g (group_ids (keep m rows)) ≡ true
  shared_group m g r here rg h = elim (Bool-cases (m r)) [
    | inl own ↦ In-group_ids g r (keep m rows) rg (In-keep m r rows here own)
    | inr other ↦ in_groups-has g r (group_ids (keep m rows)) rg (ground (arith, rw other at h))
  ]

  with_group_expansion-Closed :
      (m : TableRow → Bool)
      → ((r : TableRow) → m r ≡ true → in_scope t conn r ≡ true)
      → Closed (with_group_expansion t conn rows m)
  unfolding with_group_expansion
  with_group_expansion-Closed m inside = record {
    scoped = λ r h. elim (Bool-cases (is_grouped t)) [
      | inl grouped ↦ ground (arith, inside r, rw grouped at h)
      | inr plain ↦ inside r (rw plain at h)
    ];
    whole = λ g r q grouped here rg qg scope h.
        rw (grouped, qg, scope) (ground (arith, shared_group m g r here rg (rw grouped at h)));
  }

module _ (host : Platform) (pg : Engine) (gate : Gateway) (encode : String → String)
    (keeps : ℕ → Bool) (now : ℕ) (t : TableTemplate) where
  -- What a call does: nothing, or the removal of the rows of a predicate that takes groups whole.
  pub data Deletes (conn : String) (s s' : Store) (reply : Reply ℕ) : Type 0 where
    idle : s' ≡ s → reply ≡ ok 0 → Deletes conn s s' reply
    refused : s' ≡ s → reply ≡ bad_request → Deletes conn s s' reply
    threw : s' ≡ s → reply ≡ failed → Deletes conn s s' reply
    removed :
        (p : TableRow → Bool) (reason : DeleteReason)
        → Closed t conn s.db.rows p
        → (s', reply) ≡ delete_where host pg gate encode keeps now t conn reason p s
        → Deletes conn s s' reply

  delete_ids-Deletes :
      (conn : String) (wanted : List String) (s : Store)
      → let out = delete_ids host pg gate encode keeps now t conn wanted s in
        Deletes conn s out.0 out.1
  unfolding delete_ids
  delete_ids-Deletes conn wanted s = elim (Bool-cases (is_empty (keep is_uuid wanted))) [
    | inl empty ↦ idle (rw (empty, delete_ids) refl) (rw (empty, delete_ids) refl)
    | inr some_valid ↦
        removed
          (with_group_expansion t conn s.db.rows
            (λ r. in_scope t conn r && has_id (keep is_uuid wanted) r))
          ids (with_group_expansion-Closed t conn s.db.rows _ (λ r h. ground arith))
          (rw (some_valid, delete_ids) refl)
  ]

  delete_older-Deletes :
      (conn : String) (days : ℕ) (s : Store)
      → let out = delete_older host pg gate encode keeps now t conn days s in
        Deletes conn s out.0 out.1
  unfolding delete_older
  delete_older-Deletes conn days s =
      removed
        (with_group_expansion t conn s.db.rows
          (λ r. in_scope t conn r && is_older host pg gate encode keeps now t days r))
        retention (with_group_expansion-Closed t conn s.db.rows _ (λ r h. ground arith)) refl

  selects-in_scope :
      (conn : String) (cs : List Condition) (r : TableRow)
      → selects host pg gate encode keeps now t (matching host pg gate encode keeps now t conn cs) r
        ≡ true
      → in_scope t conn r ≡ true
  unfolding matching
  selects-in_scope conn cs r h = elim (Bool-cases (in_scope t conn r)) [
    | inl inside ↦ inside
    | inr outside ↦ cc (rw (outside, matching) at h)
  ]

  delete_filtered-Deletes :
      (conn : String) (filters : List (String × String)) (s : Store)
      → let out = delete_filtered host pg gate encode keeps now t conn filters s in
        Deletes conn s out.0 out.1
  unfolding delete_filtered
  delete_filtered-Deletes conn filters s =
      let m = matching host pg gate encode keeps now t conn (apply_filters pg t filters) in
      elim (Bool-cases (all (λ r. is_some (m r)) s.db.rows)) [
        | inl fine ↦
            removed
              (with_group_expansion t conn s.db.rows (selects host pg gate encode keeps now t m))
              bulk
              (with_group_expansion-Closed t conn s.db.rows _
                (selects-in_scope conn (apply_filters pg t filters)))
              (rw (fine, delete_filtered) refl)
        | inr casts ↦ threw (rw (casts, delete_filtered) refl) (rw (casts, delete_filtered) refl)
      ]

  older_or_filtered-Deletes :
      (conn : String) (days : Option ℕ) (filters : List (String × String)) (s : Store)
      → let out = elim days as (λ _. Store × Reply ℕ) [
        | some n ↦ delete_older host pg gate encode keeps now t conn n s
        | none ↦
            if is_empty filters
            then (s, bad_request)
            else delete_filtered host pg gate encode keeps now t conn filters s
      ] in
        Deletes conn s out.0 out.1
  older_or_filtered-Deletes conn (some days) filters s = delete_older-Deletes conn days s
  older_or_filtered-Deletes conn none [] s = refused refl refl
  older_or_filtered-Deletes conn none (f ∷ filters) s = delete_filtered-Deletes conn (f ∷ filters) s

  pub delete_rows-Deletes :
      (params : DatasetDeleteParams) (s : Store)
      → let out = delete_rows host pg gate encode keeps now t params s in
        Deletes params.connection_id s out.0 out.1
  unfolding delete_rows
  delete_rows-Deletes params s = elim (Bool-cases (is_empty params.ids)) [
    | inr named ↦ rw (named, delete_rows) (delete_ids-Deletes params.connection_id params.ids s)
    | inl unnamed ↦
        rw (unnamed, delete_rows)
          (older_or_filtered-Deletes params.connection_id params.older_than_days
            (non_empty host pg gate encode keeps now t params.filters) s)
  ]
