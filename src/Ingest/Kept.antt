-- ===== src/Ingest/Kept.antt =====
-- The rows of a delivery after its split, by the texts of their id fields.
use yalia_sii.Prelude.{
  String, ◌≡◌, refl, sym, subst, ◌⊎◌, inl, inr, true, false, Option, none, some, List, [], ◌∷◌,
  ◌++◌, ◌==◌, leb_ℤ, In, All, All-In, eq_iff, Bool-cases, Option-cases, >>=-eq-some,
}
use mathlib.Core.Option.{some-injective}
use yalia_sii.Json.{Json, Object, Platform, get, string_of}
use yalia_sii.Template.{TableTemplate, id_fields_of}
use yalia_sii.Ingest.{
  Split, is_usable, key_parts, join_parts, key_of, recency_of, put_newest, split_rows,
}
use yalia_sii.Ingest.Newest.{KeptAs, split_rows-KeptAs}

module _ (host : Platform) (t : TableTemplate) where
  -- The texts of the fields, one for one: each field has a value that is neither null nor "".
  abbrev pub Texts : List String → Object → List String → Type 0
  Texts [] d [] = Unit {0}
  Texts (f ∷ fs) d (p ∷ ps) =
      ((v : Json) × (get f d ≡ some v) × (is_usable v ≡ true) × (p ≡ string_of host v))
      × Texts fs d ps
  Texts _ d _ = ⊥

  -- A field that is not there, or null, or "".
  abbrev pub Lacks : Object → String → Type 0
  Lacks d f = (get f d ≡ none) ⊎ ((v : Json) × (get f d ≡ some v) × (is_usable v ≡ false))

  key_parts-Texts :
      (fs ps : List String) (d : Object) → key_parts host t fs d ≡ some ps → Texts fs d ps
  unfolding key_parts
  key_parts-Texts [] [] d e = tt
  key_parts-Texts [] (p ∷ ps) d e = cc
  key_parts-Texts (f ∷ fs) ps d e = elim (Option-cases (get f d)) [
    | inl missing ↦ (let none_some : none ≡ some ps = rw (key_parts, missing) at e in cc)
    | inr (v, there) ↦ elim (Bool-cases (is_usable v)) [
      | inr empty ↦ (let none_some : none ≡ some ps = rw (key_parts, there, empty) at e in cc)
      | inl usable ↦
          let (qs, rest, same) =
            >>=-eq-some (key_parts host t fs d) _ (rw (key_parts, there, usable) at e) in
          subst (Texts (f ∷ fs) d) (some-injective _ ps same)
            ((v, there, usable, refl), key_parts-Texts fs qs d rest)
    ]
  ]

  key_parts-Lacks :
      (fs : List String) (d : Object)
      → key_parts host t fs d ≡ none
      → (f : String) × In f fs × Lacks d f
  unfolding key_parts
  key_parts-Lacks [] d e = cc
  key_parts-Lacks (f ∷ fs) d e = elim (Option-cases (get f d)) [
    | inl missing ↦ (f, inl refl, inl missing)
    | inr (v, there) ↦ elim (Bool-cases (is_usable v)) [
      | inr empty ↦ (f, inl refl, inr (v, there, empty))
      | inl usable ↦ elim (Option-cases (key_parts host t fs d)) [
        | inl none_left ↦ let (g, m, lacks) = key_parts-Lacks fs d none_left in (g, inr m, lacks)
        | inr (ps, found) ↦
            (let some_none : some (string_of host v ∷ ps) ≡ none =
                rw (key_parts, there, usable, found) at e in
              cc)
      ]
    ]
  ]

  -- An entry of the split: a row of the delivery under its joined texts.
  abbrev pub Own : List Object → String × Object → Type 0
  Own ds (k, e) = In e ds × ((ps : List String) × Texts (id_fields_of t) e ps × (k ≡ join_parts ps))

  key_of-Own :
      (ds : List Object) (k : String) (d : Object)
      → In d ds
      → key_of host t d ≡ some k
      → Own ds (k, d)
  unfolding key_of
  key_of-Own ds k d m e =
      let (ps, parts, same) = >>=-eq-some (key_parts host t (id_fields_of t) d) _ e in
      (m, (ps, key_parts-Texts (id_fields_of t) ps d parts, sym (some-injective _ k same)))

  put_newest-Own :
      (ds : List Object) (k : String) (d : Object) (entries : List (String × Object))
      → Own ds (k, d)
      → All (Own ds) entries
      → All (Own ds) (put_newest host t k d entries)
  unfolding put_newest
  put_newest-Own ds k d [] own h = (own, tt)
  put_newest-Own ds k d ((j, e) ∷ entries) own h = elim (Bool-cases (j == k)) [
    | inr other ↦ rw (put_newest, other) (h.0, put_newest-Own ds k d entries own h.1)
    | inl same ↦ elim (Bool-cases (leb_ℤ (recency_of host t e) (recency_of host t d))) [
      | inl newer ↦
          rw (put_newest, same, newer)
            (subst (λ i. Own ds (i, d)) (sym ((eq_iff j k).0 same)) own, h.1)
      | inr older ↦ rw (put_newest, same, older) (h.0, h.1)
    ]
  ]

  split_rows-Own :
      (ds rest : List Object) (s : Split host t)
      → ((d : Object) → In d rest → In d ds)
      → All (Own ds) s.with_id
      → All (Own ds) (split_rows host t s rest).with_id
  unfolding split_rows
  split_rows-Own ds [] s f h = h
  split_rows-Own ds (d ∷ rest) s f h = elim (Option-cases (key_of host t d)) [
    | inl keyless ↦
        rw (split_rows, keyless)
          (split_rows-Own ds rest (record s { without_id = s.without_id ++ d ∷ [] })
            (λ x m. f x (inr m)) h)
    | inr (k, keyed) ↦
        rw (split_rows, keyed)
          (split_rows-Own ds rest (record s { with_id = put_newest host t k d s.with_id })
            (λ x m. f x (inr m))
            (put_newest-Own ds k d s.with_id (key_of-Own ds k d (f d (inl refl)) keyed) h))
  ]

  -- The row is among those to append and lacks an id field; or a row of the delivery that is not
  -- older and whose id texts join to the same key is the entry of that key.
  abbrev pub Kept : List Object → Object → Split host t → Type 0
  Kept ds x s =
      (((f : String) × In f (id_fields_of t) × Lacks x f) × In x s.without_id)
      ⊎ ((ps : List String) × (e : Object) × Texts (id_fields_of t) x ps
          × Own ds (join_parts ps, e)
          × In (join_parts ps, e) s.with_id
          × (leb_ℤ (recency_of host t x) (recency_of host t e) ≡ true))

  key_of-Kept :
      (ds : List Object) (x : Object) (s : Split host t) (o : Option String)
      → In x ds
      → All (Own ds) s.with_id
      → key_of host t x ≡ o
      → KeptAs host t o x s
      → Kept ds x s
  unfolding key_of
  key_of-Kept ds x s none m own e kept = elim (Option-cases (key_parts host t (id_fields_of t) x)) [
    | inl lacking ↦ inl (key_parts-Lacks (id_fields_of t) x lacking, kept)
    | inr (ps, found) ↦
        (let some_none : some (join_parts ps) ≡ none = rw (key_of, found) at e in cc)
  ]
  key_of-Kept ds x s (some k) m own e (d, there, newer) =
      let (mine, (ps, texts, same)) = key_of-Own ds k x m e in
      inr (
        ps,
        d,
        texts,
        subst (λ j. Own ds (j, d)) same (All-In (Own ds) (k, d) s.with_id own there),
        subst (λ j. In (j, d) s.with_id) same there,
        newer,
      )

-- In the split of a delivery, a row that lacks a usable id field is among those to append, and for
-- every other row an entry stands under its id texts, joined, that is a row of the delivery with the
-- same joined id texts and a recency that is not less.
pub split_rows-Kept :
    (host : Platform) (t : TableTemplate) (ds : List Object) (x : Object)
    → In x ds
    → Kept host t ds x (split_rows host t (record { with_id = []; without_id = [] }) ds)
split_rows-Kept host t ds x m =
    key_of-Kept host t ds x _ (key_of host t x) m
      (split_rows-Own host t ds ds (record { with_id = []; without_id = [] }) (λ d h. h) tt) refl
      (split_rows-KeptAs host t ds (record { with_id = []; without_id = [] }) x m)
