-- ===== src/Templates/Catalog.antt =====
-- src/tables/table-templates.service.ts: findByKey, create, update and remove, over the stored
-- templates and the indexes. A template is saved before its indexes are built.
use yalia_sii.Prelude.{
  String, Bool, not, ◌&&◌, Option, none, some, List, ◌∷◌, map, ◌==◌, if◌then◌else◌, any, find, keep,
}
use yalia_sii.Template.{TableTemplate}
use yalia_sii.Http.{Reply, ok, bad_request, not_found, ◌>>=◌}
use yalia_sii.Templates.{UpsertTableTemplateDto, accepts_dto, validate, to_entity}
use yalia_sii.Templates.Indexes.{Index, sync_indexes, drop_all_indexes}

pub record Catalog : Type 0 where
  pub templates : List TableTemplate
  pub indexes : List Index

abbrev pub has_key : String → TableTemplate → Bool
has_key key t = t.key == key

abbrev pub exists : String → List TableTemplate → Bool
exists key = any (has_key key)

abbrev pub find_by_key : String → List TableTemplate → Option TableTemplate
find_by_key key = find (has_key key)

module _ (hash : String → String) (builds drops : String → Bool) where
  -- The indexes of a template that has been saved.
  unfoldable pub synced :
      Option TableTemplate
      → TableTemplate
      → List TableTemplate
      → List Index
      → Catalog × Reply TableTemplate
  synced old t templates ixs =
      let (done, reply) = sync_indexes hash builds drops old t ixs in
      (record { templates = templates; indexes = done }, reply >>= λ _. ok t)

  unfoldable pub create : UpsertTableTemplateDto → Catalog → Catalog × Reply TableTemplate
  unfolding synced
  create d c =
      if not (accepts_dto d && validate d)
      then (c, bad_request)
      else if exists d.key c.templates
      then (c, bad_request)
      else synced none (to_entity d) (to_entity d ∷ c.templates) c.indexes

  unfoldable pub update : String → UpsertTableTemplateDto → Catalog → Catalog × Reply TableTemplate
  unfolding synced
  update key d c =
      if not (accepts_dto d && validate d)
      then (c, bad_request)
      else elim (find_by_key key c.templates) [
        | none ↦ (c, not_found)
        | some old ↦
            if not (d.key == key) && exists d.key c.templates
            then (c, bad_request)
            else synced (some old) (to_entity d)
                (map (λ t. if has_key key t then to_entity d else t) c.templates) c.indexes
      ]

  unfoldable pub remove : String → Catalog → Catalog × Reply (Unit {0})
  remove key c = elim (find_by_key key c.templates) [
    | none ↦ (c, not_found)
    | some t ↦
        let (left, reply) = drop_all_indexes hash builds drops t c.indexes in
        elim reply [
          | ok _ ↦ (
            record { templates = keep (λ u. not (has_key key u)) c.templates; indexes = left },
            ok tt,
          )
          | other ↦ (record c { indexes = left }, other)
        ]
  ]
