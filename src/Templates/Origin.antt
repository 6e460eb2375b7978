-- ===== src/Templates/Origin.antt =====
-- Where the indexes come from that are there after a template has been brought in step.
use yalia_sii.Prelude.{
  String, Bool, true, false, not, List, [], ◌∷◌, ◌==◌, ◌≡◌, refl, ◌⊎◌, inl, inr, any, keep, In,
  In-keep_inv, ap, Bool-cases,
}
use yalia_sii.Sql.{is_table_key}
use yalia_sii.Http.{Reply, ok, bad_request, not_found, unauthorized, failed}
use yalia_sii.Templates.Indexes.{
  IndexSpec, Index, Named, is_broken, fresh_index, ensure_index, ensure_all, drop_index, drop_stale,
  swap_indexes,
}

-- The index was there before, or it stands on this table as one of the wanted ones does.
abbrev pub From : List Index → String → Named → Index → Type 0
From before key wanted i =
    In i before
    ⊎ ((name : String) × (spec : IndexSpec) × In (name, spec) wanted
        × (i.name ≡ name)
        × (i.table_key ≡ key)
        × (i.spec ≡ spec))

module _ (hash : String → String) (builds drops : String → Bool) where
  fresh_or_old :
      (key n : String) (s : IndexSpec) (valid : Bool) (p : Index → Bool) (ixs : List Index)
      (i : Index)
      → In i (fresh_index hash builds drops key n s valid ∷ keep p ixs)
      → In i ixs ⊎ ((i.name ≡ n) × (i.table_key ≡ key) × (i.spec ≡ s))
  unfolding fresh_index
  fresh_or_old key n s valid p ixs i (inl e) = inr (
    ap (λ (j : Index). j.name) e,
    ap (λ (j : Index). j.table_key) e,
    ap (λ (j : Index). j.spec) e,
  )
  fresh_or_old key n s valid p ixs i (inr old) = inl (In-keep_inv p i ixs old).0

  ensure_index-From :
      (key n : String) (s : IndexSpec) (ixs : List Index) (i : Index)
      → In i (ensure_index hash builds drops key n s ixs).0
      → In i ixs ⊎ ((i.name ≡ n) × (i.table_key ≡ key) × (i.spec ≡ s))
  unfolding ensure_index fresh_index
  ensure_index-From key n s ixs i m =
      let p : Index → Bool = λ j. not (is_broken hash builds drops n j) in
      elim (Bool-cases (is_table_key key)) [
        | inr unsafe ↦ inl (rw (ensure_index, unsafe) at m)
        | inl safe ↦ elim (Bool-cases (any (λ (j : Index). j.name == n) (keep p ixs))) [
          | inl there ↦ inl ((In-keep_inv p i ixs (rw (ensure_index, safe, there) at m)).0)
          | inr gone ↦ elim (Bool-cases (builds n)) [
            | inl built ↦
                fresh_or_old key n s true p ixs i (rw (ensure_index, safe, gone, built) at m)
            | inr broke ↦
                fresh_or_old key n s false p ixs i (rw (ensure_index, safe, gone, broke) at m)
          ]
        ]
      ]

  follow-From :
      (before done : List Index) (key : String) (ns : Named) (i : Index) (reply : Reply (Unit {0}))
      (rest : List Index × Reply (Unit {0}))
      → (In i done → From before key ns i)
      → (In i rest.0 → From before key ns i)
      → In i
          (elim reply as (λ _. List Index × Reply (Unit {0})) [
            | ok _ ↦ rest
            | other ↦ (done, other)
          ]).0
      → From before key ns i
  follow-From before done key ns i (ok u) rest f g m = g m
  follow-From before done key ns i bad_request rest f g m = f m
  follow-From before done key ns i not_found rest f g m = f m
  follow-From before done key ns i unauthorized rest f g m = f m
  follow-From before done key ns i failed rest f g m = f m

  From-more :
      (before one : List Index) (key n : String) (s : IndexSpec) (ns : Named) (i : Index)
      → (In i one → From before key ((n, s) ∷ ns) i)
      → From one key ns i
      → From before key ((n, s) ∷ ns) i
  From-more before one key n s ns i f (inl old) = f old
  From-more before one key n s ns i f (inr (m, u, there, a, b, c)) = inr (m, u, inr there, a, b, c)

  ensure_all-From :
      (key : String) (ns : Named) (ixs : List Index) (i : Index)
      → In i (ensure_all hash builds drops key ns ixs).0
      → From ixs key ns i
  unfolding ensure_all
  ensure_all-From key [] ixs i m = inl m
  ensure_all-From key ((n, s) ∷ ns) ixs i m =
      let one = ensure_index hash builds drops key n s ixs in
      let first : In i one.0 → From ixs key ((n, s) ∷ ns) i = λ h.
        elim (ensure_index-From key n s ixs i h) [
          | inl old ↦ inl old
          | inr (a, b, c) ↦ inr (n, s, inl refl, a, b, c)
        ] in
      follow-From ixs one.0 key ((n, s) ∷ ns) i one.1 (ensure_all hash builds drops key ns one.0)
        first (λ h. From-more ixs one.0 key n s ns i first (ensure_all-From key ns one.0 i h)) m

  drop_index-In :
      (n : String) (ixs : List Index) (i : Index)
      → In i (drop_index hash builds drops n ixs)
      → In i ixs
  unfolding drop_index
  drop_index-In n ixs i m = elim (Bool-cases (drops n)) [
    | inl gone ↦
        (In-keep_inv (λ (j : Index). not (j.name == n)) i ixs (rw (drop_index, gone) at m)).0
    | inr left ↦ rw (drop_index, left) at m
  ]

  drop_stale-In :
      (wanted previous : Named) (ixs : List Index) (i : Index)
      → In i (drop_stale hash builds drops wanted previous ixs)
      → In i ixs
  unfolding drop_stale drop_index
  drop_stale-In wanted [] ixs i m = m
  drop_stale-In wanted ((n, s) ∷ ps) ixs i m =
      elim (Bool-cases (any (λ (v : String × IndexSpec). v.0 == n) wanted)) [
        | inl still ↦ drop_stale-In wanted ps ixs i (rw (drop_stale, still) at m)
        | inr stale ↦ drop_index-In n ixs i (
            drop_stale-In wanted ps (drop_index hash builds drops n ixs) i
              (rw (drop_stale, stale) at m))
      ]

  pub swap_indexes-From :
      (key : String) (wanted previous : Named) (ixs : List Index) (i : Index)
      → In i (swap_indexes hash builds drops key wanted previous ixs).0
      → From ixs key wanted i
  unfolding swap_indexes
  swap_indexes-From key wanted previous ixs i m =
      let all_done = ensure_all hash builds drops key wanted ixs in
      follow-From ixs all_done.0 key wanted i all_done.1
        (drop_stale hash builds drops wanted previous all_done.0, ok tt)
        (λ h. ensure_all-From key wanted ixs i h)
        (λ h. ensure_all-From key wanted ixs i (drop_stale-In wanted previous all_done.0 i h)) m
