-- ===== src/Samples.antt =====
-- A concrete platform, template and rows for the tests.
use yalia_sii.Ingest.Frozen.{Injective}
use yalia_sii.Loads.{Store}
use yalia_sii.Rows.{ids_of, HasKey}
use yalia_sii.Prelude.{ap, sym, ◌∙◌, ◌≡◌, ◌≤◌, ◌<◌, ◌==◌, ==_ne, eq_iff, arith, has, refl}
use Prim.Native.Char.{char}
use yalia_sii.Prelude.{
  ℕ, zero, suc, ℤ, pos, String, true, false, Option, none, some, [], ◌∷◌, ◌==◌, if◌then◌else◌,
}
use yalia_sii.Json.{Json, null, num, str, Object, Platform}
use yalia_sii.Template.{TableTemplate, WriteConfig, WriteConnectionRule, TableColumnDef, string}
use yalia_sii.Rows.{TableRow}
use yalia_sii.Filters.{Engine}
use yalia_sii.Outbound.{responded, Gateway}

-- The n-th id is `n` strokes.
abbrev pub strokes : ℕ → String
strokes zero = String.[]
strokes (suc n) = String.◌∷◌ (char 105 tt) (strokes n)

-- Numerals of one digit, enough for the tests.
abbrev digit_value : String → Option ℤ
digit_value s =
    if s == "1"
    then some (pos 1)
    else if s == "2"
    then some (pos 2)
    else if s == "3"
    then some (pos 3)
    else none

abbrev number_value : Json → Option ℤ
number_value null = some (pos 0)
number_value (num s) = digit_value s
number_value (str s) = digit_value s
number_value _ = none

abbrev pub plain : Platform
plain = record {
  js_string = λ v. "[object Object]";
  json_text = λ v. "{}";
  to_number = number_value;
  numeric = digit_value;
  md5 = λ s. s;
  uuid = strokes;
}

abbrev pub rule : WriteConnectionRule
rule = record {
  connection_id = none;
  method = "POST";
  path = "/invoices";
  query = none;
  update_method = some "PUT";
  update_path = none;
  update_query = none;
  delete_method = none;
  delete_path = none;
  delete_query = none;
}

abbrev pub column : String → TableColumnDef
column key = record {
  key = key;
  label = key;
  type = string;
  filterable = true;
  sortable = true;
  hidden = false;
  read_only = false;
  exclude_from_payload = false;
}

abbrev pub grouped_write : WriteConfig
grouped_write = record {
  scheduled = true;
  editable = true;
  creatable = true;
  delete_enabled = false;
  show_sii_status = true;
  connections = rule ∷ [];
  batch = some (record {
    group_by = "nif" ∷ [];
    max_batch_size = some 2;
    max_records_per_poll = none;
    collapse = none;
  });
}

-- Invoices with the key `id`, the newest by `rev`, grouped by `nif` when they are sent.
abbrev pub invoices : TableTemplate
invoices = record {
  key = "invoices";
  label = "Invoices";
  description = none;
  id_field = "id";
  id_fields = none;
  recency_field = "rev";
  columns = column "id" ∷ column "rev" ∷ column "nif" ∷ [];
  default_sort = none;
  write = some grouped_write;
  retention_days = some 30;
  allow_bulk_delete = false;
}

abbrev pub invoice : String → String → String → Object
invoice id rev nif = ("id", str id) ∷ ("rev", num rev) ∷ ("nif", str nif) ∷ []

abbrev pub stored : String → Option String → Option String → Object → TableRow
stored id status load fields = record {
  id = id;
  table_key = "invoices";
  connection_id = "c1";
  row_data = fields;
  trace_id = none;
  write_status = none;
  write_error = none;
  last_written_at = none;
  submission_status = status;
  batch_id = none;
  group_id = none;
  load_id = load;
  sii_response = none;
  created_at = 0;
}

abbrev pub engine : Engine
engine = record {
  contains_text = λ s v. s == v;
  is_nan = λ v. false;
  equals_number = λ s v. some (s == v);
  to_boolean = λ s. some (s == "t");
  to_timestamp = λ s. some (pos 0);
  is_iso_datetime = λ s. true;
  from_epoch = λ s. some (pos 0);
  updated_at = λ r. pos 0;
}

-- Every request is accepted, and everything goes through.
abbrev pub open_gate : Gateway
open_gate = record {
  resolve = λ id. some (record { name = "Company"; clave = none });
  send = λ n c. responded 200 none;
  commits = λ n. true;
  failure = λ n. "";
  records = λ n. true;
  trim = λ s. s;
  slug = λ s. s;
  json_text = λ v. "null";
  decimal = λ n. "200";
}

-- Two accepted or changed rows, and that the ids from the third on are new to them.
abbrev pub before : Store
before = record {
  rows =
      stored (strokes 1) (some "correcto") none (invoice "1" "1" "x")
      ∷ stored (strokes 2) (some "revisado") none (invoice "2" "1" "x")
      ∷ [];
  loads = [];
  load_batches = [];
}

size : String → ℕ
size String.[] = 0
size (String.◌∷◌ c s) = suc (size s)

size-strokes : (n : ℕ) → size (strokes n) ≡ n
unfolding size
size-strokes zero = refl
size-strokes (suc n) = ap suc (size-strokes n)

pub strokes-Injective : Injective strokes
strokes-Injective m n e =
    sym (size-strokes m) ∙ ap size ((eq_iff (strokes m) (strokes n)).0 e) ∙ size-strokes n

pub strokes-ne : (m n : ℕ) → m < n → (strokes m == strokes n) ≡ false
strokes-ne m n h = ==_ne _ _ (λ (e : strokes m ≡ strokes n).
    omega (arith, strokes-Injective m n ((eq_iff (strokes m) (strokes n)).1 e)))

pub is_new : (k : ℕ) → 3 ≤ k → has (strokes k) (ids_of before.rows) ≡ false
is_new k h = ground (arith, strokes-ne 1 k (omega arith), strokes-ne 2 k (omega arith))

pub before-HasKey : HasKey before.rows
before-HasKey = (refl, (refl, tt))
