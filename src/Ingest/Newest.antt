-- ===== src/Ingest/Newest.antt =====
-- The split of a delivery: which entry a key keeps.
use yalia_sii.Prelude.{
  String, ◌≡◌, refl, sym, ap, subst, ◌∙◌, inl, inr, true, false, Option, none, some, List, [], ◌∷◌,
  ◌++◌, ◌==◌, if◌then◌else◌, ℤ, leb_ℤ, In, In-append_left, In-append_right, arith, eq_iff,
  Bool-cases, Option-cases,
}
use yalia_sii.Json.{Object, Platform}
use yalia_sii.Template.{TableTemplate}
use yalia_sii.Ingest.{Split, key_of, recency_of, put_newest, split_rows}

leb_ℤ_refl : (a : ℤ) → leb_ℤ a a ≡ true
leb_ℤ_refl a = ground arith

leb_ℤ_trans : (a b c : ℤ) → leb_ℤ a b ≡ true → leb_ℤ b c ≡ true → leb_ℤ a c ≡ true
leb_ℤ_trans a b c h g = ground arith

leb_ℤ_total : (a b : ℤ) → leb_ℤ a b ≡ false → leb_ℤ b a ≡ true
leb_ℤ_total a b h = ground arith

module _ (host : Platform) (t : TableTemplate) where
  -- An entry of the key stands in the list and is not older than `d`.
  abbrev pub Newer : String → Object → List (String × Object) → Type 0
  Newer k d m =
      (e : Object) × In (k, e) m × (leb_ℤ (recency_of host t d) (recency_of host t e) ≡ true)

  newer_of : Object → Object → Object
  newer_of e d = if leb_ℤ (recency_of host t e) (recency_of host t d) then d else e

  newer_of-new :
      (e d : Object) → leb_ℤ (recency_of host t d) (recency_of host t (newer_of e d)) ≡ true
  unfolding newer_of
  newer_of-new e d = elim (Bool-cases (leb_ℤ (recency_of host t e) (recency_of host t d))) [
    | inl wins ↦ rw wins (leb_ℤ_refl (recency_of host t d))
    | inr loses ↦ rw loses (leb_ℤ_total (recency_of host t e) (recency_of host t d) loses)
  ]

  newer_of-old :
      (e d : Object) → leb_ℤ (recency_of host t e) (recency_of host t (newer_of e d)) ≡ true
  unfolding newer_of
  newer_of-old e d = elim (Bool-cases (leb_ℤ (recency_of host t e) (recency_of host t d))) [
    | inl wins ↦ rw wins wins
    | inr loses ↦ rw loses (leb_ℤ_refl (recency_of host t e))
  ]

  put_newest-new :
      (k : String) (d : Object) (m : List (String × Object)) → Newer k d (put_newest host t k d m)
  unfolding put_newest newer_of
  put_newest-new k d [] = (d, inl refl, leb_ℤ_refl (recency_of host t d))
  put_newest-new k d ((j, e) ∷ m) = elim (Bool-cases (j == k)) [
    | inl same ↦
        rw (same, put_newest)
          (
            newer_of e d,
            inl (ap (λ x. (x, newer_of e d)) (sym ((eq_iff j k).0 same))),
            newer_of-new e d,
          )
    | inr other ↦
        let (f, there, le) = put_newest-new k d m in rw (other, put_newest) (f, inr there, le)
  ]

  put_newest-old :
      (k j : String) (d x : Object) (m : List (String × Object))
      → Newer j x m
      → Newer j x (put_newest host t k d m)
  unfolding put_newest newer_of
  put_newest-old k j d x [] (e, there, le) = absurd there
  put_newest-old k j d x ((i, f) ∷ m) (e, inl here, le) = elim (Bool-cases (i == k)) [
    | inl same ↦
        rw (same, put_newest)
          (
            newer_of f d,
            inl (ap (λ (p : String × Object). (p.0, newer_of f d)) here),
            leb_ℤ_trans (recency_of host t x) (recency_of host t e)
                (recency_of host t (newer_of f d)) le
                (subst (λ u. leb_ℤ (recency_of host t u) (recency_of host t (newer_of f d)) ≡ true)
                  (sym (ap (λ (p : String × Object). p.1) here)) (newer_of-old f d)),
          )
    | inr other ↦ rw (other, put_newest) (e, inl here, le)
  ]
  put_newest-old k j d x ((i, f) ∷ m) (e, inr there, le) = elim (Bool-cases (i == k)) [
    | inl same ↦ rw (same, put_newest) (e, inr there, le)
    | inr other ↦
        let (g, at_place, more) = put_newest-old k j d x m (e, there, le) in
        rw (other, put_newest) (g, inr at_place, more)
  ]

  -- The row is kept as it is, or an entry of its key that is not older is.
  abbrev pub KeptAs : Option String → Object → Split host t → Type 0
  KeptAs none d s = In d s.without_id
  KeptAs (some k) d s = Newer k d s.with_id

  without : Split host t → Object → Split host t
  without s d = record s { without_id = s.without_id ++ d ∷ [] }

  with_newest : Split host t → String → Object → Split host t
  with_newest s k d = record s { with_id = put_newest host t k d s.with_id }

  KeptAs-without :
      (o : Option String) (x d : Object) (s : Split host t)
      → KeptAs o x s
      → KeptAs o x (without s d)
  unfolding without
  KeptAs-without none x d s h = In-append_left x s.without_id (d ∷ []) h
  KeptAs-without (some k) x d s h = h

  KeptAs-with_newest :
      (o : Option String) (x d : Object) (k : String) (s : Split host t)
      → KeptAs o x s
      → KeptAs o x (with_newest s k d)
  unfolding with_newest
  KeptAs-with_newest none x d k s h = h
  KeptAs-with_newest (some j) x d k s h = put_newest-old k j d x s.with_id h

  split_rows-old :
      (o : Option String) (x : Object) (ds : List Object) (s : Split host t)
      → KeptAs o x s
      → KeptAs o x (split_rows host t s ds)
  unfolding split_rows without with_newest
  split_rows-old o x [] s h = h
  split_rows-old o x (d ∷ ds) s h = elim (Option-cases (key_of host t d)) [
    | inl e ↦ rw (e, split_rows) (split_rows-old o x ds (without s d) (KeptAs-without o x d s h))
    | inr (k, e) ↦
        rw (e, split_rows)
          (split_rows-old o x ds (with_newest s k d) (KeptAs-with_newest o x d k s h))
  ]

  split_rows-new :
      (x : Object) (ds : List Object) (s : Split host t) (o : Option String)
      → In x ds
      → key_of host t x ≡ o
      → KeptAs o x (split_rows host t s ds)
  unfolding split_rows without with_newest
  split_rows-new x [] s o m e = absurd m
  split_rows-new x (d ∷ ds) s none (inl same) e =
      rw (sym (ap (key_of host t) same) ∙ e, split_rows)
        (split_rows-old none x ds (without s d)
          (In-append_right x s.without_id (d ∷ []) (inl same)))
  split_rows-new x (d ∷ ds) s (some k) (inl same) e =
      rw (sym (ap (key_of host t) same) ∙ e, split_rows)
        (split_rows-old (some k) x ds (with_newest s k d) (
          subst (λ u. Newer k u (put_newest host t k d s.with_id)) (sym same)
            (put_newest-new k d s.with_id)))
  split_rows-new x (d ∷ ds) s o (inr m) e = elim (Option-cases (key_of host t d)) [
    | inl f ↦ rw (f, split_rows) (split_rows-new x ds (without s d) o m e)
    | inr (k, f) ↦ rw (f, split_rows) (split_rows-new x ds (with_newest s k d) o m e)
  ]

-- A row without a usable key is among those to append, and for a row with a key an entry of that key
-- is kept whose recency is at least the row's.
pub split_rows-KeptAs :
    (host : Platform) (t : TableTemplate) (ds : List Object) (s : Split host t) (x : Object)
    → In x ds
    → KeptAs host t (key_of host t x) x (split_rows host t s ds)
split_rows-KeptAs host t ds s x m = split_rows-new host t x ds s (key_of host t x) m refl
