-- ===== src/Sweep/Whole.antt =====
-- What the sweep takes: whole groups, and always one.
use yalia_sii.Prelude.{
  ℕ, ◌≤◌, String, ◌≡◌, refl, sym, ap, subst, ◌∙◌, inl, inr, Bool, true, List, [], ◌∷◌, ◌==◌,
  ==_refl, has, keep, count, length, In, In-map, In-map_inv, In-keep, In-keep_inv, All, All-In,
  arith, Bool-cases,
}
use yalia_sii.Rows.{TableRow}
use yalia_sii.Sweep.{
  to_row_with_connection, by_age, grp, Group, names, groups_of, rank, insert_by_rank, within,
  choose, candidates, fetch_queued_rows_capped,
}
use yalia_sii.Sweep.Capped.{
  group_of, chosen, taken, fetch-taken, length-fetch, In-by_age, All-by_age, All-rank,
}

listed : (rows : List TableRow) → All (λ r. In r rows) rows
listed rows = go rows rows (λ r m. m)
  where
    go :
        (rest all_rows : List TableRow)
        → ((r : TableRow) → In r rest → In r all_rows)
        → All (λ r. In r all_rows) rest
    go [] all_rows f = tt
    go (r ∷ rest) all_rows f = (f r (inl refl), go rest all_rows (λ s m. f s (inr m)))

In-by_age_inv : (a : TableRow) (rows : List TableRow) → In a (by_age rows) → In a rows
In-by_age_inv a rows h =
    All-In (λ r. In r rows) a (by_age rows) (All-by_age (λ r. In r rows) rows (listed rows)) h

count_of :
    (p : TableRow → Bool) (r : TableRow) (rows : List TableRow)
    → In r rows
    → p r ≡ true
    → 1 ≤ count p rows
count_of p r [] m h = absurd m
count_of p r (s ∷ rows) (inl e) h = rw (← e, h) (omega arith)
count_of p r (s ∷ rows) (inr m) h = ground (arith, count_of p r rows m h)

count-keep-has :
    (g : String) (gs : List String) (rows : List TableRow)
    → count (λ s. g == grp s) rows ≤ length (keep (λ r. has (grp r) (g ∷ gs)) rows)
count-keep-has g gs [] = omega arith
count-keep-has g gs (r ∷ rows) = ground (arith, count-keep-has g gs rows)

-- A group that some row of `rows` is in.
Peopled : List TableRow → Group → Type 0
Peopled rows g = 1 ≤ count (λ s. g.name == grp s) rows

All-Peopled :
    (rows rest : List TableRow)
    → All (λ r. In r rows) rest
    → All (Peopled rows) (groups_of rows rest)
unfolding groups_of Peopled
All-Peopled rows [] h = tt
All-Peopled rows (r ∷ rest) h = elim (Bool-cases (has (grp r) (names (groups_of rows rest)))) [
  | inl old ↦ rw old (All-Peopled rows rest h.1)
  | inr new ↦
      rw new
        (count_of (λ s. grp r == grp s) r rows h.0 (==_refl (grp r)), All-Peopled rows rest h.1)
]

length-insert_by_rank : (g : Group) (gs : List Group) → 1 ≤ length (insert_by_rank g gs)
unfolding insert_by_rank
length-insert_by_rank g [] = omega arith
length-insert_by_rank g (h ∷ gs) = ground arith

named : (x : String) (gs : List Group) → has x (names gs) ≡ true → 1 ≤ length gs
named x [] h = cc
named x (g ∷ gs) h = omega arith

length-groups_of :
    (rows rest : List TableRow) (r : TableRow) → 1 ≤ length (groups_of rows (r ∷ rest))
unfolding groups_of
length-groups_of rows rest r = ground (arith, named (grp r) (groups_of rows rest))

length-groups : (rows : List TableRow) → 1 ≤ length rows → 1 ≤ length (groups_of rows rows)
length-groups [] h = absurd (omega (arith, h))
length-groups (r ∷ rows) h = length-groups_of (r ∷ rows) rows r

length-rank : (gs : List Group) → 1 ≤ length gs → 1 ≤ length (rank gs)
unfolding rank
length-rank [] h = h
length-rank (g ∷ gs) h = length-insert_by_rank g (rank gs)

first_goes :
    (limit : ℕ) (rows : List TableRow) (gs : List Group)
    → 1 ≤ length gs
    → All (Peopled rows) gs
    → 1 ≤ length (keep (λ r. has (grp r) (choose limit gs)) rows)
unfolding choose Peopled
first_goes limit rows [] h hs = absurd (omega (arith, h))
first_goes limit rows (g ∷ gs) h hs =
    omega (arith, hs.0, count-keep-has g.name (within limit g.size gs) rows)

-- A sweep never splits a group: with one of its rows, every row of the group that can be sent goes
-- along. `r` and `s` are rows of the table that the sweep could take.
pub fetch_queued_rows_capped-whole :
    (key : String) (limit : ℕ) (conn : String) (rows : List TableRow) (r s : TableRow)
    → In s (candidates key conn rows)
    → grp r ≡ grp s
    → In (to_row_with_connection r) (fetch_queued_rows_capped key limit conn rows)
    → In (to_row_with_connection s) (fetch_queued_rows_capped key limit conn rows)
unfolding taken grp to_row_with_connection
fetch_queued_rows_capped-whole key limit conn rows r s stands same sent =
    let (r', m, e) =
      In-map_inv to_row_with_connection (to_row_with_connection r)
        (by_age (taken key limit conn rows))
        (subst (In (to_row_with_connection r)) (fetch-taken key limit conn rows) sent) in
    let (_, picked) =
      In-keep_inv (λ x. has (grp x) (chosen key limit conn rows)) r' (candidates key conn rows)
        (In-by_age_inv r' (taken key limit conn rows) m) in
    let alike : grp s ≡ grp r' = sym same ∙ ap group_of e in
    subst (In (to_row_with_connection s)) (sym (fetch-taken key limit conn rows)) (
      In-map to_row_with_connection s _ (
        In-by_age s (taken key limit conn rows) (
          In-keep (λ x. has (grp x) (chosen key limit conn rows)) s (candidates key conn rows)
            stands (ap (λ x. has x (chosen key limit conn rows)) alike ∙ picked))))

-- A sweep with something to send sends something: no group is too large to go out.
pub fetch_queued_rows_capped-progress :
    (key : String) (limit : ℕ) (conn : String) (rows : List TableRow)
    → 1 ≤ length (candidates key conn rows)
    → 1 ≤ length (fetch_queued_rows_capped key limit conn rows)
unfolding taken chosen
fetch_queued_rows_capped-progress key limit conn rows h =
    let c = candidates key conn rows in
    omega (
      arith,
      length-fetch key limit conn rows,
      first_goes limit c (rank (groups_of c c)) (length-rank (groups_of c c) (length-groups c h))
          (All-rank (Peopled c) (groups_of c c) (All-Peopled c c (listed c))),
    )
