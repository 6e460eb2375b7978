-- ===== src/Sweep/Capped.antt =====
-- The cap of the sweep: it takes whole groups, the first one whatever its size.
use yalia_sii.Prelude.{
  ℕ, suc, ◌+◌, ◌≤◌, ◌<◌, String, ◌≡◌, refl, sym, ap, subst, ◌∙◌, ◌⊎◌, inl, inr, Bool, true, List,
  [], ◌∷◌, map, ◌==◌, has, keep, count, length, length-map, In, All-imp, All, leb, ltb, leb→le,
  arith, eq_iff, Bool-cases,
}
use yalia_sii.Rules.{or_value}
use yalia_sii.Rows.{TableRow}
use yalia_sii.Sweep.{
  RowWithConnection, to_row_with_connection, by_age, insert_by_age, grp, Group, names, groups_of,
  rank, insert_by_rank, within, choose, candidates, fetch_queued_rows_capped,
}

length-insert_by_age :
    (r : TableRow) (rows : List TableRow) → length (insert_by_age r rows) ≡ suc (length rows)
unfolding insert_by_age
length-insert_by_age r [] = refl
length-insert_by_age r (s ∷ rows) = ground (arith, length-insert_by_age r rows)

length-by_age : (rows : List TableRow) → length (by_age rows) ≡ length rows
unfolding by_age
length-by_age [] = refl
length-by_age (r ∷ rows) = length-insert_by_age r (by_age rows) ∙ ap suc (length-by_age rows)

module _ (P : TableRow → Type 0) where
  All-insert_by_age :
      (r : TableRow) (rows : List TableRow) → P r → All P rows → All P (insert_by_age r rows)
  unfolding insert_by_age
  All-insert_by_age r [] h hs = (h, tt)
  All-insert_by_age r (s ∷ rows) h hs = ground (arith, All-insert_by_age r rows h hs.1)

  pub All-by_age : (rows : List TableRow) → All P rows → All P (by_age rows)
  unfolding by_age
  All-by_age [] hs = tt
  All-by_age (r ∷ rows) hs = All-insert_by_age r (by_age rows) hs.0 (All-by_age rows hs.1)

In-insert_by_age :
    (a r : TableRow) (rows : List TableRow) → (a ≡ r) ⊎ In a rows → In a (insert_by_age r rows)
unfolding insert_by_age
In-insert_by_age a r [] h = h
In-insert_by_age a r (s ∷ rows) h = elim (Bool-cases (ltb s.created_at r.created_at)) [
  | inl older ↦ rw older (elim h [
    | inl e ↦ inr (In-insert_by_age a r rows (inl e))
    | inr m ↦ elim m [ inl e ↦ inl e | inr n ↦ inr (In-insert_by_age a r rows (inr n)) ]
  ])
  | inr newer ↦ rw newer h
]

pub In-by_age : (a : TableRow) (rows : List TableRow) → In a rows → In a (by_age rows)
unfolding by_age
In-by_age a [] h = h
In-by_age a (r ∷ rows) (inl e) = In-insert_by_age a r (by_age rows) (inl e)
In-by_age a (r ∷ rows) (inr m) = In-insert_by_age a r (by_age rows) (inr (In-by_age a rows m))

All-keep : (p : TableRow → Bool) (rows : List TableRow) → All (λ r. p r ≡ true) (keep p rows)
All-keep p [] = tt
All-keep p (r ∷ rows) = ground (arith, All-keep p rows)

-- The rows of the named groups, counted name by name.
total : List TableRow → List String → ℕ
total rows [] = 0
total rows (g ∷ gs) = count (λ s. g == grp s) rows + total rows gs

length-keep_more :
    (g : String) (gs : List String) (rows : List TableRow)
    → length (keep (λ r. has (grp r) (g ∷ gs)) rows)
      ≤ count (λ s. g == grp s) rows + length (keep (λ r. has (grp r) gs) rows)
length-keep_more g gs [] = omega arith
length-keep_more g gs (r ∷ rows) = ground (arith, length-keep_more g gs rows)

keep-has_nil : (rows : List TableRow) → keep (λ r. has (grp r) []) rows ≡ []
keep-has_nil [] = refl
keep-has_nil (r ∷ rows) = keep-has_nil rows

length-keep-has :
    (gs : List String) (rows : List TableRow)
    → length (keep (λ r. has (grp r) gs) rows) ≤ total rows gs
unfolding total
length-keep-has [] rows = omega (arith, ap length (keep-has_nil rows))
length-keep-has (g ∷ gs) rows = omega (arith, length-keep_more g gs rows, length-keep-has gs rows)

module _ (P : Group → Type 0) where
  All-insert_by_rank : (g : Group) (gs : List Group) → P g → All P gs → All P (insert_by_rank g gs)
  unfolding insert_by_rank
  All-insert_by_rank g [] h hs = (h, tt)
  All-insert_by_rank g (k ∷ gs) h hs = ground (arith, All-insert_by_rank g gs h hs.1)

  pub All-rank : (gs : List Group) → All P gs → All P (rank gs)
  unfolding rank
  All-rank [] hs = tt
  All-rank (g ∷ gs) hs = All-insert_by_rank g (rank gs) hs.0 (All-rank gs hs.1)

module _ (rows : List TableRow) where
  IsSized : Group → Type 0
  IsSized g = g.size ≡ count (λ s. g.name == grp s) rows

  All-groups_of : (rest : List TableRow) → All IsSized (groups_of rows rest)
  unfolding groups_of IsSized
  All-groups_of [] = tt
  All-groups_of (r ∷ rest) = elim (Bool-cases (has (grp r) (names (groups_of rows rest)))) [
    | inl old ↦ rw old (All-groups_of rest)
    | inr new ↦ rw new (refl, All-groups_of rest)
  ]

  within_over : (limit cum : ℕ) (gs : List Group) → limit < cum → within limit cum gs ≡ []
  unfolding within
  within_over limit cum [] h = refl
  within_over limit cum (g ∷ gs) h =
      ground (arith, within_over limit (cum + g.size) gs (omega arith))

  within_bound :
      (limit cum : ℕ) (gs : List Group)
      → All IsSized gs
      → (within limit cum gs ≡ []) ⊎ (cum + total rows (within limit cum gs) ≤ limit)
  unfolding within total IsSized
  within_bound limit cum [] hs = inl refl
  within_bound limit cum (g ∷ gs) hs = elim (Bool-cases (leb (cum + g.size) limit)) [
    | inl fits ↦ rw fits (elim (within_bound limit (cum + g.size) gs hs.1) [
      | inl last ↦ inr (rw last (omega (arith, hs.0, leb→le (cum + g.size) limit fits)))
      | inr more ↦ inr (omega (arith, hs.0))
    ])
    | inr over ↦ inl (rw over (within_over limit (cum + g.size) gs (ground (arith, over))))
  ]

  -- Only the first group is chosen, or all that are chosen fit.
  choose_bound :
      (limit : ℕ) (gs : List Group)
      → All IsSized gs
      → ((g : String) × (choose limit gs ≡ g ∷ [])) ⊎ (total rows (choose limit gs) ≤ limit)
  unfolding choose total IsSized
  choose_bound limit [] hs = inr (omega arith)
  choose_bound limit (g ∷ gs) hs = elim (within_bound limit g.size gs hs.1) [
    | inl last ↦ inl (g.name, ap (λ rest. g.name ∷ rest) last)
    | inr more ↦ inr (omega (arith, hs.0))
  ]

module _ (key : String) (limit : ℕ) (conn : String) (rows : List TableRow) where
  unfoldable pub chosen : List String
  chosen = choose limit (rank (groups_of (candidates key conn rows) (candidates key conn rows)))

  IsSized-ranked :
      All
        (IsSized (candidates key conn rows))
        (rank (groups_of (candidates key conn rows) (candidates key conn rows)))
  IsSized-ranked =
      All-rank (IsSized (candidates key conn rows)) _ (All-groups_of _ (candidates key conn rows))

  unfoldable pub taken : List TableRow
  unfolding chosen
  taken = keep (λ r. has (grp r) chosen) (candidates key conn rows)

  pub fetch-taken :
      fetch_queued_rows_capped key limit conn rows ≡ map to_row_with_connection (by_age taken)
  unfolding fetch_queued_rows_capped taken chosen
  fetch-taken = refl

  pub length-fetch : length (fetch_queued_rows_capped key limit conn rows) ≡ length taken
  length-fetch =
      ap length fetch-taken ∙ length-map to_row_with_connection (by_age taken) ∙ length-by_age taken

  one_group : (g : String) → chosen ≡ g ∷ [] → All (λ r. grp r ≡ g) taken
  unfolding taken
  one_group g e =
      All-imp (λ r. has (grp r) chosen ≡ true) (λ r. grp r ≡ g) taken
        (λ r h. ground (arith, eq_iff g (grp r), ap (has (grp r)) e))
        (All-keep (λ r. has (grp r) chosen) (candidates key conn rows))

-- The group that a fetched row counts under.
abbrev pub group_of : RowWithConnection → String
group_of r = or_value r.group_id r.id

All-to_row :
    (g : String) (rows : List TableRow)
    → All (λ r. grp r ≡ g) rows
    → All (λ r. group_of r ≡ g) (map to_row_with_connection rows)
unfolding grp to_row_with_connection
All-to_row g [] h = tt
All-to_row g (r ∷ rows) h = (h.0, All-to_row g rows h.1)

-- A sweep takes no more rows than its limit, or it takes rows of one group only.
pub fetch_queued_rows_capped-bounded :
    (key : String) (limit : ℕ) (conn : String) (rows : List TableRow)
    → (length (fetch_queued_rows_capped key limit conn rows) ≤ limit)
      ⊎ ((g : String) × All (λ r. group_of r ≡ g) (fetch_queued_rows_capped key limit conn rows))
unfolding chosen taken
fetch_queued_rows_capped-bounded key limit conn rows =
    elim (choose_bound (candidates key conn rows) limit _ (IsSized-ranked key limit conn rows)) [
      | inl (g, single) ↦ inr (
        g,
        subst (All (λ r. group_of r ≡ g)) (sym (fetch-taken key limit conn rows)) (
            All-to_row g _
              (All-by_age _ (taken key limit conn rows) (one_group key limit conn rows g single))),
      )
      | inr fits ↦ inl (
          omega (
            arith,
            length-fetch key limit conn rows,
            length-keep-has (chosen key limit conn rows) (candidates key conn rows),
          ))
    ]
