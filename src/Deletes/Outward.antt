-- ===== src/Deletes/Outward.antt =====
-- src/tables/table-rows.service.ts, propagateExternalDeletes and applyIdSubstitution: the request
-- that tells the external system of each row about to be deleted.
use Prim.Native.Char.{code}
use yalia_sii.Prelude.{
  ℕ, suc, String, Bool, true, false, not, ◌&&◌, Option, none, some, List, [], ◌∷◌, ◌++◌, map, ◌==◌,
  ◌=ℕ◌, ltb, leb, if◌then◌else◌, is_empty, all,
}
use yalia_sii.Json.{Json, null, str, Platform, string_of, get}
use yalia_sii.Template.{TableTemplate, WriteConfig, id_fields_of}
use yalia_sii.Rows.{TableRow}
use yalia_sii.Rules.{SendTarget, delete, resolve_write_rule, resolve_send_target, or_value}
use yalia_sii.Loads.{◌⧺◌}
use yalia_sii.Outbound.{
  WriteStatus, sent, error, manual, TableWriteRun, Answer, responded, threw, Connection, Call, Db,
  Gateway,
}
use yalia_sii.Submit.{record_run, truncate, with_body}

-- The rows of each connection, in the order in which the connections are met.
unfoldable pub add_to_bucket :
    TableRow → List (String × List TableRow) → List (String × List TableRow)
add_to_bucket r [] = (r.connection_id, r ∷ []) ∷ []
add_to_bucket r ((c, rows) ∷ bs) =
    if c == r.connection_id then (c, rows ++ r ∷ []) ∷ bs else (c, rows) ∷ add_to_bucket r bs

unfoldable pub buckets :
    List TableRow → List (String × List TableRow) → List (String × List TableRow)
unfolding add_to_bucket
buckets [] bs = bs
buckets (r ∷ rows) bs = buckets rows (add_to_bucket r bs)

-- The placeholder `{id}` stands at the front.
is_placeholder : ℕ → ℕ → ℕ → ℕ → Bool
is_placeholder a b c d = a =ℕ b'{' && b =ℕ b'i' && c =ℕ b'd' && d =ℕ b'}'

-- `path.replace(/\{id\}/g, id)`
unfoldable pub replace_id : String → String → String
unfolding is_placeholder
replace_id id (String.◌∷◌ a (String.◌∷◌ b (String.◌∷◌ c (String.◌∷◌ d s)))) =
    let past = replace_id id s in
    let next = replace_id id (String.◌∷◌ b (String.◌∷◌ c (String.◌∷◌ d s))) in
    if is_placeholder (code a) (code b) (code c) (code d) then id ⧺ past else String.◌∷◌ a next
replace_id id s = s

-- A value that is neither missing nor null nor "".
is_given : Option Json → Bool
is_given none = false
is_given (some null) = false
is_given (some (str s)) = not (s == "")
is_given (some v) = true

module _ (host : Platform) (gate : Gateway) (encode : String → String) (now : ℕ)
    (t : TableTemplate) where
  dashed : List String → String
  dashed [] = ""
  dashed (s ∷ []) = s
  dashed (s ∷ u ∷ ss) = s ⧺ "-" ⧺ dashed (u ∷ ss)

  -- applyIdSubstitution; `encode` is encodeURIComponent.
  unfoldable pub apply_id_substitution : String → TableRow → String
  unfolding is_given dashed replace_id
  apply_id_substitution path r =
      let fields = id_fields_of t in
      let values = map (λ f. get f r.row_data) fields in
      let own = dashed (map (λ v. string_of host (or_value v null)) values) in
      replace_id (encode (if not (is_empty fields) && all is_given values then own else r.id)) path

  run_of_delete :
      String
      → Connection
      → String
      → WriteStatus
      → Option ℕ
      → Option String
      → Option Json
      → TableWriteRun
  run_of_delete conn c batch status http message body = record {
    table_key = t.key;
    connection_id = conn;
    connection_name = some c.name;
    trigger = manual;
    status = status;
    batch_id = batch;
    group_values = none;
    row_count = 1;
    http_status = http;
    error_message = message;
    payload_preview = none;
    response_body = body;
  }

  unfoldable pub delete_run : String → Connection → String → Answer → TableWriteRun
  unfolding run_of_delete truncate
  delete_run conn c batch (responded http body) =
      if leb 200 http && ltb http 300
      then run_of_delete conn c batch sent (some http) none none
      else run_of_delete conn c batch error (some http)
          (some (
            "External system responded "
            ⧺ gate.decimal http
            ⧺ ": "
            ⧺ truncate host gate now (gate.json_text body)))
          body
  delete_run conn c batch (threw base body) =
      run_of_delete conn c batch error none (some (with_body host gate now base body)) body

  unfoldable pub delete_call : String → SendTarget → TableRow → Call
  unfolding apply_id_substitution
  delete_call conn target r = record {
    connection_id = conn;
    target = record target { path = apply_id_substitution target.path r };
    body = null;
  }

  -- One row of a connection: its request and its run.
  unfoldable pub delete_one : String → Connection → SendTarget → TableRow → Db → Db
  unfolding delete_call delete_run record_run
  delete_one conn c target r d =
      let call = delete_call conn target r in
      record_run host gate now (delete_run conn c (host.uuid d.drawn) (gate.send d.step call))
        (record d { calls = d.calls ++ call ∷ []; drawn = suc d.drawn; step = suc d.step })

  unfoldable pub delete_each : String → Connection → SendTarget → List TableRow → Db → Db
  unfolding delete_one
  delete_each conn c target [] d = d
  delete_each conn c target (r ∷ rows) d =
      delete_each conn c target rows (delete_one conn c target r d)

  -- The rows of one connection: nothing without a rule or without the connection.
  unfoldable pub delete_bucket : WriteConfig → String → List TableRow → Db → Db
  unfolding delete_each
  delete_bucket w conn rows d = elim (resolve_write_rule w.connections conn) [
    | none ↦ d
    | some rule ↦ elim (gate.resolve conn) [
      | none ↦ d
      | some c ↦ delete_each conn c (resolve_send_target rule delete) rows d
    ]
  ]

  unfoldable pub delete_buckets : WriteConfig → List (String × List TableRow) → Db → Db
  unfolding delete_bucket
  delete_buckets w [] d = d
  delete_buckets w ((conn, rows) ∷ bs) d = delete_buckets w bs (delete_bucket w conn rows d)

  unfoldable pub propagate_external_deletes : List TableRow → Db → Db
  unfolding delete_buckets buckets
  propagate_external_deletes gone d = elim t.write [
    | none ↦ d
    | some w ↦ if w.delete_enabled then delete_buckets w (buckets gone []) d else d
  ]
