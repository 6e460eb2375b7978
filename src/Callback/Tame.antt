-- ===== src/Callback/Tame.antt =====
-- The fields that toCamelCase makes are never read as the lines of a batch.
use yalia_sii.Prelude.{
  String, ◌≡◌, refl, ap, ◌∙◌, inl, inr, true, false, none, some, List, [], ◌∷◌, ◌==◌, All, is_some,
  arith, Bool-cases,
}
use yalia_sii.Json.{
  Json, null, bool, num, str, arr, obj, nil, cons, Fields, end, field, Object, entries-from_entries,
  get, put, merge,
}
use yalia_sii.Template.{TableTemplate}
use yalia_sii.Payload.{PayloadRow, camel, to_camel_case, camel_fields, sent_fields, camel_row}
use yalia_sii.Payload.Camel.{lacks, camel_fields-lacks_ref, get-lacks}
use yalia_sii.Callback.{as_object, is_line, lines_in, find_nested_rows}

is_line-camel : (v : Json) → is_line (to_camel_case v) ≡ false
unfolding is_line as_object to_camel_case get
is_line-camel null = refl
is_line-camel (bool b) = refl
is_line-camel (num n) = refl
is_line-camel (str s) = refl
is_line-camel (arr vs) = refl
is_line-camel (obj fs) =
    ap (λ o. is_some (get "internal_ref" o)) (entries-from_entries (camel_fields fs []))
    ∙ ap is_some (get-lacks "internal_ref" (camel_fields fs []) (camel_fields-lacks_ref fs [] refl))

lines_in-camel : (v : Json) → lines_in (to_camel_case v) ≡ none
unfolding lines_in to_camel_case
lines_in-camel null = refl
lines_in-camel (bool b) = refl
lines_in-camel (num n) = refl
lines_in-camel (str s) = refl
lines_in-camel (obj fs) = refl
lines_in-camel (arr nil) = refl
lines_in-camel (arr (cons v vs)) = ground (arith, is_line-camel v)

-- No field of the object reads as the lines of a batch.
unfoldable pub IsTame : Object → Type 0
IsTame o = All (λ e. lines_in e.1 ≡ none) o

pub put-IsTame :
    (k : String) (v : Json) (o : Object) → lines_in v ≡ none → IsTame o → IsTame (put k v o)
unfolding IsTame put
put-IsTame k v [] h hs = (h, tt)
put-IsTame k v ((j, w) ∷ o) h hs = elim (Bool-cases (j == k)) [
  | inl same ↦ rw (same, put) (h, hs.1)
  | inr other ↦ rw (other, put) (hs.0, put-IsTame k v o h hs.1)
]

pub merge-IsTame : (o p : Object) → IsTame o → IsTame p → IsTame (merge o p)
unfolding merge IsTame
merge-IsTame o [] h g = h
merge-IsTame o ((k, v) ∷ p) h g = merge-IsTame (put k v o) p (put-IsTame k v o g.0 h) g.1

camel_fields-IsTame : (fs : Fields) (seen : Object) → IsTame seen → IsTame (camel_fields fs seen)
unfolding camel_fields
camel_fields-IsTame end seen h = h
camel_fields-IsTame (field k v fs) seen h =
    camel_fields-IsTame fs _ (put-IsTame (camel k) _ seen (lines_in-camel v) h)

pub find_nested_rows-IsTame : (o : Object) → IsTame o → find_nested_rows o ≡ none
unfolding IsTame find_nested_rows
find_nested_rows-IsTame [] h = refl
find_nested_rows-IsTame ((k, v) ∷ o) h = rw (h.0, find_nested_rows) (find_nested_rows-IsTame o h.1)

pub find_nested_rows-put :
    (k : String) (v : Json) (o : Object) (rows : List Object)
    → lines_in v ≡ some rows
    → IsTame o
    → find_nested_rows (put k v o) ≡ some rows
unfolding find_nested_rows put IsTame
find_nested_rows-put k v [] rows h hs = rw (h, find_nested_rows) refl
find_nested_rows-put k v ((j, w) ∷ o) rows h hs = elim (Bool-cases (j == k)) [
  | inl same ↦ rw (same, put) (rw (h, find_nested_rows) refl)
  | inr other ↦
      rw (other, put) (rw (hs.0, find_nested_rows) (find_nested_rows-put k v o rows h hs.1))
]

-- A row as it goes into a payload: tame, and without a reference of its own.
pub record IsPlain (o : Object) : Type 0 where
  pub tame : IsTame o
  pub free : lacks "internal_ref" o ≡ true

camel_fields-IsPlain : (fs : Fields) → IsPlain (camel_fields fs [])
unfolding IsTame
camel_fields-IsPlain fs = record {
  tame = camel_fields-IsTame fs [] tt;
  free = camel_fields-lacks_ref fs [] refl;
}

pub camel_row-IsPlain : (t : TableTemplate) (r : PayloadRow) → IsPlain (camel_row t r).fields
unfolding camel_row
camel_row-IsPlain t r = camel_fields-IsPlain (sent_fields t r.fields)
