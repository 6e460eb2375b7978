-- ===== src/Rules.antt =====
-- src/tables/table-rows.service.ts, the choice of a connection's write-back rule and of its target.
use yalia_sii.Prelude.{
  String, Bool, true, Option, none, some, List, ◌==◌, if◌then◌else◌, is_text, find,
}
use yalia_sii.Template.{WriteConnectionRule}

pub data SendPhase : Type 0 where
  create update delete : SendPhase

pub record SendTarget : Type 0 where
  pub method : String
  pub path : String
  pub query : Option (List (String × String))

-- `!r.connectionId`
abbrev pub is_generic : WriteConnectionRule → Bool
is_generic r = elim r.connection_id [ none ↦ true | some c ↦ c == "" ]

-- `a ?? b`
abbrev pub or_else {ℓ} : {A : Type ℓ} → Option A → Option A → Option A
or_else none b = b
or_else (some a) b = some a

abbrev pub or_value {ℓ} : {A : Type ℓ} → Option A → A → A
or_value none b = b
or_value (some a) b = a

-- A connection is missing where its text is "".
unfoldable pub resolve_write_rule : List WriteConnectionRule → String → Option WriteConnectionRule
resolve_write_rule rules conn =
    if conn == ""
    then none
    else or_else (find (λ r. is_text r.connection_id conn) rules) (find is_generic rules)

unfoldable pub resolve_send_target : WriteConnectionRule → SendPhase → SendTarget
resolve_send_target r update = record {
  method = or_value r.update_method r.method;
  path = or_value r.update_path r.path;
  query = or_else r.update_query r.query;
}
resolve_send_target r delete = record {
  method = or_value r.delete_method "DELETE";
  path = or_value r.delete_path r.path;
  query = or_else r.delete_query r.query;
}
resolve_send_target r create = record { method = r.method; path = r.path; query = r.query }
