-- ===== src/Templates/Built.antt =====
-- What the indexes are after a template has been brought in step.
use yalia_sii.Prelude.{
  String, Bool, true, false, not, ◌&&◌, Option, List, [], ◌∷◌, ◌==◌, ◌≡◌, refl, sym, subst, ◌∙◌,
  inl, inr, any, all, keep, arith, eq_iff, Bool-cases, In, both_true, ==_refl,
}
use yalia_sii.Sql.{is_table_key}
use yalia_sii.Template.{TableTemplate}
use yalia_sii.Http.{Reply, ok, bad_request, not_found, unauthorized, failed}
use yalia_sii.Templates.Origin.{From, swap_indexes-From}
use yalia_sii.Templates.Indexes.{
  IndexSpec, filter, unique_id, group, Index, Named, is_broken, fresh_index, build_error,
  ensure_index, ensure_all, drop_index, drop_stale, previous_indexes, desired_indexes, swap_indexes,
  sync_indexes,
}

abbrev pub has_valid : String → List Index → Bool
has_valid n ixs = any (λ i. i.name == n && i.is_valid) ixs

module _ (hash : String → String) (builds drops : String → Bool) where
  has_valid-mended :
      (n m : String) (ixs : List Index)
      → has_valid n (keep (λ i. not (is_broken hash builds drops m i)) ixs) ≡ has_valid n ixs
  unfolding is_broken
  has_valid-mended n m [] = refl
  has_valid-mended n m (i ∷ ixs) = ground (arith, has_valid-mended n m ixs)

  mended-valid :
      (n : String) (ixs : List Index)
      → any (λ i. i.name == n) (keep (λ i. not (is_broken hash builds drops n i)) ixs) ≡ true
      → has_valid n ixs ≡ true
  unfolding is_broken
  mended-valid n [] h = cc
  mended-valid n (i ∷ ixs) h = ground (arith, mended-valid n ixs)

  ensure_index-keeps :
      (key m : String) (s : IndexSpec) (n : String) (ixs : List Index)
      → has_valid n ixs ≡ true
      → has_valid n (ensure_index hash builds drops key m s ixs).0 ≡ true
  unfolding ensure_index fresh_index
  ensure_index-keeps key m s n ixs h =
      let kept = has_valid-mended n m ixs ∙ h in
      let mended = keep (λ i. not (is_broken hash builds drops m i)) ixs in
      elim (Bool-cases (is_table_key key)) [
        | inr unsafe ↦ rw (unsafe, ensure_index) h
        | inl safe ↦ elim (Bool-cases (any (λ i. i.name == m) mended)) [
          | inl there ↦ rw (safe, ensure_index, there) kept
          | inr gone ↦ elim (Bool-cases (builds m)) [
            | inl built ↦ rw (safe, ensure_index, gone, built, fresh_index) (ground (arith, kept))
            | inr broke ↦ rw (safe, ensure_index, gone, broke, fresh_index) (ground (arith, kept))
          ]
        ]
      ]

  build_error-not_ok : (s : IndexSpec) → build_error hash builds drops s ≡ ok tt → ⊥
  unfolding build_error
  build_error-not_ok (filter k) h = cc
  build_error-not_ok (unique_id ks) h = cc
  build_error-not_ok (group ks) h = cc

  ensure_index-valid :
      (key n : String) (s : IndexSpec) (ixs : List Index)
      → (ensure_index hash builds drops key n s ixs).1 ≡ ok tt
      → has_valid n (ensure_index hash builds drops key n s ixs).0 ≡ true
  unfolding ensure_index fresh_index
  ensure_index-valid key n s ixs h =
      let mended = keep (λ i. not (is_broken hash builds drops n i)) ixs in
      elim (Bool-cases (is_table_key key)) [
        | inr unsafe ↦ cc (rw (unsafe, ensure_index) at h)
        | inl safe ↦ elim (Bool-cases (any (λ i. i.name == n) mended)) [
          | inl there ↦
              rw (safe, ensure_index, there) (has_valid-mended n n ixs ∙ mended-valid n ixs there)
          | inr gone ↦ elim (Bool-cases (builds n)) [
            | inl built ↦
                rw (safe, ensure_index, gone, built, fresh_index) (ground (arith, ==_refl n))
            | inr broke ↦ absurd (build_error-not_ok s (rw (safe, ensure_index, gone, broke) at h))
          ]
        ]
      ]

  abbrev follow :
      List Index → Reply (Unit {0}) → List Index × Reply (Unit {0}) → List Index × Reply (Unit {0})
  follow done reply rest = elim reply [ ok _ ↦ rest | other ↦ (done, other) ]

  follow-ok :
      (done : List Index) (reply : Reply (Unit {0})) (rest : List Index × Reply (Unit {0}))
      → (follow done reply rest).1 ≡ ok tt
      → reply ≡ ok tt
  follow-ok done (ok u) rest h = refl
  follow-ok done bad_request rest h = h
  follow-ok done not_found rest h = h
  follow-ok done unauthorized rest h = h
  follow-ok done failed rest h = h

  follow-keeps :
      (n : String) (done : List Index) (reply : Reply (Unit {0}))
      (rest : List Index × Reply (Unit {0}))
      → has_valid n done ≡ true
      → has_valid n rest.0 ≡ true
      → has_valid n (follow done reply rest).0 ≡ true
  follow-keeps n done (ok u) rest h k = k
  follow-keeps n done bad_request rest h k = h
  follow-keeps n done not_found rest h k = h
  follow-keeps n done unauthorized rest h k = h
  follow-keeps n done failed rest h k = h

  ensure_all-keeps :
      (key : String) (ns : Named) (n : String) (ixs : List Index)
      → has_valid n ixs ≡ true
      → has_valid n (ensure_all hash builds drops key ns ixs).0 ≡ true
  unfolding ensure_all
  ensure_all-keeps key [] n ixs h = h
  ensure_all-keeps key ((m, s) ∷ ns) n ixs h =
      let one = ensure_index-keeps key m s n ixs h in
      follow-keeps n (ensure_index hash builds drops key m s ixs).0 _ _ one
        (ensure_all-keeps key ns n (ensure_index hash builds drops key m s ixs).0 one)

  abbrev pub AllValid : Named → List Index → Type 0
  AllValid ns ixs = all (λ (w : String × IndexSpec). has_valid w.0 ixs) ns ≡ true

  ensure_all-valid :
      (key : String) (ns : Named) (ixs : List Index)
      → (ensure_all hash builds drops key ns ixs).1 ≡ ok tt
      → AllValid ns (ensure_all hash builds drops key ns ixs).0
  unfolding ensure_all
  ensure_all-valid key [] ixs h = refl
  ensure_all-valid key ((n, s) ∷ ns) ixs h =
      let one = ensure_index hash builds drops key n s ixs in
      let fine : one.1 ≡ ok tt =
        follow-ok one.0 one.1 (ensure_all hash builds drops key ns one.0) h in
      let first = ensure_index-valid key n s ixs fine in
      let opened : ensure_all hash builds drops key ((n, s) ∷ ns) ixs
          ≡ ensure_all hash builds drops key ns one.0 =
        rw (fine, ensure_all) refl in
      let rest = subst (λ (o : List Index × Reply (Unit {0})). o.1 ≡ ok tt) opened h in
      subst (λ (o : List Index × Reply (Unit {0})). AllValid ((n, s) ∷ ns) o.0) (sym opened)
        (rw (ensure_all-keeps key ns n one.0 first) (ensure_all-valid key ns one.0 rest))

  has_valid-dropped :
      (n m : String) (ixs : List Index)
      → (m == n) ≡ false
      → has_valid n (keep (λ i. not (i.name == m)) ixs) ≡ has_valid n ixs
  has_valid-dropped n m [] h = refl
  has_valid-dropped n m (i ∷ ixs) h =
      ground (arith, has_valid-dropped n m ixs, eq_iff i.name m, eq_iff i.name n, eq_iff m n)

  drop_index-keeps :
      (n m : String) (ixs : List Index)
      → (m == n) ≡ false
      → has_valid n ixs ≡ true
      → has_valid n (drop_index hash builds drops m ixs) ≡ true
  unfolding drop_index
  drop_index-keeps n m ixs apart h = elim (Bool-cases (drops m)) [
    | inl gone ↦ rw (gone, drop_index) (has_valid-dropped n m ixs apart ∙ h)
    | inr left ↦ rw (left, drop_index) h
  ]

  drop_stale-keeps :
      (wanted previous : Named) (n : String) (ixs : List Index)
      → any (λ (w : String × IndexSpec). w.0 == n) wanted ≡ true
      → has_valid n ixs ≡ true
      → has_valid n (drop_stale hash builds drops wanted previous ixs) ≡ true
  unfolding drop_stale drop_index
  drop_stale-keeps wanted [] n ixs w h = h
  drop_stale-keeps wanted ((m, s) ∷ ps) n ixs w h =
      elim (Bool-cases (any (λ (v : String × IndexSpec). v.0 == m) wanted)) [
        | inl still ↦ rw (still, drop_stale) (drop_stale-keeps wanted ps n ixs w h)
        | inr stale ↦
            let apart : (m == n) ≡ false = elim (Bool-cases (m == n)) [
              | inl same ↦ absurd (
                  cc (
                    w,
                    subst (λ k. any (λ (v : String × IndexSpec). v.0 == k) wanted ≡ false)
                        ((eq_iff m n).0 same) stale,
                  ))
              | inr other ↦ other
            ] in
            rw (stale, drop_stale)
              (drop_stale-keeps wanted ps n (drop_index hash builds drops m ixs) w
                (drop_index-keeps n m ixs apart h))
      ]

  all_wanted :
      (wanted previous rest : Named) (ixs : List Index)
      → ((n : String)
          → any (λ (v : String × IndexSpec). v.0 == n) rest ≡ true
          → any (λ (v : String × IndexSpec). v.0 == n) wanted ≡ true)
      → AllValid rest ixs
      → AllValid rest (drop_stale hash builds drops wanted previous ixs)
  all_wanted wanted previous [] ixs sub h = refl
  all_wanted wanted previous ((n, s) ∷ rest) ixs sub h =
      let (first, others) = both_true _ _ h in
      rw (drop_stale-keeps wanted previous n ixs (sub n (ground (arith, ==_refl n))) first)
        (all_wanted wanted previous rest ixs (λ m e. sub m (ground arith)) others)

  swap_indexes-valid :
      (key : String) (wanted previous : Named) (ixs : List Index)
      → (swap_indexes hash builds drops key wanted previous ixs).1 ≡ ok tt
      → AllValid wanted (swap_indexes hash builds drops key wanted previous ixs).0
  unfolding swap_indexes
  swap_indexes-valid key wanted previous ixs h =
      let all_done = ensure_all hash builds drops key wanted ixs in
      let fine : all_done.1 ≡ ok tt =
        follow-ok all_done.0 all_done.1
          (drop_stale hash builds drops wanted previous all_done.0, ok tt) h in
      rw (fine, swap_indexes)
        (all_wanted wanted previous wanted all_done.0 (λ n e. e)
          (ensure_all-valid key wanted ixs fine))

  -- Every wanted index is there and valid, and what was not there before is a wanted index.
  abbrev pub InStep : String → Named → List Index → List Index → Type 0
  InStep key wanted before after =
      AllValid wanted after × ((i : Index) → In i after → From before key wanted i)

  sync_cases :
      (new : TableTemplate) (old wanted : Reply Named) (ixs : List Index)
      → (elim wanted as (λ _. List Index × Reply (Unit {0})) [
        | ok w ↦ elim old [
          | ok p ↦ swap_indexes hash builds drops new.key w p ixs
          | _ ↦ (ixs, failed)
        ]
        | _ ↦ (ixs, failed)
      ]).1
        ≡ ok tt
      → (w : Named) × (wanted ≡ ok w)
        × InStep new.key w ixs
            (elim wanted as (λ _. List Index × Reply (Unit {0})) [
              | ok w ↦ elim old [
                | ok p ↦ swap_indexes hash builds drops new.key w p ixs
                | _ ↦ (ixs, failed)
              ]
              | _ ↦ (ixs, failed)
            ]).0
  sync_cases new (ok p) (ok w) ixs h = (
    w,
    refl,
    (
      swap_indexes-valid new.key w p ixs h,
      λ i m. swap_indexes-From hash builds drops new.key w p ixs i m,
    ),
  )
  sync_cases new bad_request (ok w) ixs h = cc
  sync_cases new not_found (ok w) ixs h = cc
  sync_cases new unauthorized (ok w) ixs h = cc
  sync_cases new failed (ok w) ixs h = cc
  sync_cases new old bad_request ixs h = cc
  sync_cases new old not_found ixs h = cc
  sync_cases new old unauthorized ixs h = cc
  sync_cases new old failed ixs h = cc

  -- Where the indexes of a template are brought in step, whatever was there before, which invalid
  -- leftovers there were and which drops fail, there is a valid index of every name that the template
  -- wants, and every index that was not there before stands on the table of the template with the
  -- definition that the template wants under its name.
  pub sync_indexes-valid :
      (old : Option TableTemplate) (new : TableTemplate) (ixs : List Index)
      → (sync_indexes hash builds drops old new ixs).1 ≡ ok tt
      → (wanted : Named) × (desired_indexes hash builds drops new ≡ ok wanted)
        × InStep new.key wanted ixs (sync_indexes hash builds drops old new ixs).0
  unfolding sync_indexes
  sync_indexes-valid old new ixs h =
      sync_cases new (previous_indexes hash builds drops old)
        (desired_indexes hash builds drops new) ixs h
