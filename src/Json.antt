-- ===== src/Json.antt =====
-- JSON values (`unknown` and `Record<string, unknown>` in the source) and the outside code that
-- renders and reads them. A number is kept as the text that JSON.stringify prints for it.
use yalia_sii.Prelude.{
  ℕ, ℤ, String, ◌≡◌, refl, Bool, true, false, Option, none, some, List, [], ◌∷◌, ◌==◌,
  if◌then◌else◌, arith, eq_iff,
}

mutual
  pub data Json : Type 0 where
    null : Json
    bool : Bool → Json
    num : String → Json
    str : String → Json
    arr : Items → Json
    obj : Fields → Json

  pub data Items : Type 0 where
    nil : Items
    cons : Json → Items → Items

  pub data Fields : Type 0 where
    end : Fields
    field : String → Json → Fields → Fields

-- The fields of an object in their order, as `Object.entries` lists them.
abbrev pub Object : Type 0
Object = List (String × Json)

abbrev pub entries : Fields → Object
entries end = []
entries (field k v fs) = (k, v) ∷ entries fs

abbrev pub from_entries : Object → Fields
from_entries [] = end
from_entries ((k, v) ∷ o) = field k v (from_entries o)

abbrev pub items : Items → List Json
items nil = []
items (cons v vs) = v ∷ items vs

abbrev pub from_items : List Json → Items
from_items [] = nil
from_items (v ∷ vs) = cons v (from_items vs)

pub entries-from_entries : (o : Object) → entries (from_entries o) ≡ o
entries-from_entries [] = refl
entries-from_entries ((k, v) ∷ o) = rw (entries-from_entries o)

pub items-from_items : (vs : List Json) → items (from_items vs) ≡ vs
items-from_items [] = refl
items-from_items (v ∷ vs) = rw (items-from_items vs)

-- `o[k]`, none where it is `undefined`.
unfoldable pub get : String → Object → Option Json
get k [] = none
get k ((j, v) ∷ o) = if j == k then some v else get k o

-- `o[k] = v`: an old key keeps its place.
unfoldable pub put : String → Json → Object → Object
put k v [] = (k, v) ∷ []
put k v ((j, w) ∷ o) = if j == k then (k, v) ∷ o else (j, w) ∷ put k v o

-- `{ ...o, ...p }`, and `o || p` on jsonb.
unfoldable pub merge : Object → Object → Object
merge o [] = o
merge o ((k, v) ∷ p) = merge (put k v o) p

pub get-put :
    (k j : String) (v : Json) (o : Object)
    → get j (put k v o) ≡ (if k == j then some v else get j o)
unfolding get put
get-put k j v [] = refl
get-put k j v ((i, w) ∷ o) = ground (arith, eq_iff k j, eq_iff i k, eq_iff i j, get-put k j v o)

-- What JavaScript, Postgres and Node's crypto compute for this code.
pub record Platform : Type 0 where
  -- `String(v)` of an array or an object.
  pub js_string : Json → String
  -- The text of an array or an object: JSON.stringify, and `->>` on jsonb.
  pub json_text : Json → String
  -- `Number(v)`, none where it is not finite.
  pub to_number : Json → Option ℤ
  -- `s::numeric`, none where the cast throws.
  pub numeric : String → Option ℤ
  pub md5 : String → String
  -- The n-th id that the database draws.
  pub uuid : ℕ → String

module _ (host : Platform) where
  -- `String(v)`.
  unfoldable pub string_of : Json → String
  string_of null = "null"
  string_of (bool true) = "true"
  string_of (bool false) = "false"
  string_of (num s) = s
  string_of (str s) = s
  string_of (arr vs) = host.js_string (arr vs)
  string_of (obj fs) = host.js_string (obj fs)

  text_of : Json → Option String
  text_of null = none
  text_of (bool true) = some "true"
  text_of (bool false) = some "false"
  text_of (num s) = some s
  text_of (str s) = some s
  text_of (arr vs) = some (host.json_text (arr vs))
  text_of (obj fs) = some (host.json_text (obj fs))

  -- `data ->> k`, none where it is NULL.
  unfoldable pub text_at : String → Object → Option String
  unfolding text_of get
  text_at k o = elim (get k o) [ none ↦ none | some v ↦ text_of v ]
