-- ===== src/Sweep/Tests.antt =====
-- Runs of the sweep, and the theorems about it at concrete rows.
use yalia_sii.Prelude.{
  ℕ, ◌≤◌, String, ◌≡◌, ◌⊎◌, inl, inr, refl, none, some, List, [], ◌∷◌, map, length, In, All, arith,
}
use yalia_sii.Rows.{TableRow, is_queued}
use yalia_sii.Samples.{stored, invoice}
use yalia_sii.Sweep.{
  to_row_with_connection, by_age, grp, groups_of, rank, choose, candidates,
  fetch_queued_rows_capped,
}
use yalia_sii.Sweep.Capped.{group_of, fetch_queued_rows_capped-bounded}
use yalia_sii.Sweep.Whole.{fetch_queued_rows_capped-whole, fetch_queued_rows_capped-progress}

running : Unit {0}
unfolding fetch_queued_rows_capped candidates by_age groups_of grp rank choose
    to_row_with_connection is_queued
running = tt

abbrev queued_in : String → String → ℕ → TableRow
queued_in id group age = record (stored id (some "queued") none (invoice "1" "1" "x")) {
  group_id = some group;
  created_at = age;
}

abbrev table : List TableRow
table = queued_in "a" "g" 3 ∷ queued_in "b" "h" 2 ∷ queued_in "c" "g" 1 ∷ queued_in "d" "h" 4 ∷ []

-- The group `g` has the oldest row, and both groups do not fit.
sweep_run : map (λ r. r.id) (fetch_queued_rows_capped "invoices" 3 "" table) ≡ "c" ∷ "a" ∷ []
unfolding running
sweep_run = refl

fetch_queued_rows_capped-bounded_example :
    (length (fetch_queued_rows_capped "invoices" 3 "" table) ≤ 3)
    ⊎ ((g : String) × All (λ r. group_of r ≡ g) (fetch_queued_rows_capped "invoices" 3 "" table))
fetch_queued_rows_capped-bounded_example = fetch_queued_rows_capped-bounded "invoices" 3 "" table

stands : In (queued_in "c" "g" 1) (candidates "invoices" "" table)
unfolding running
stands = inr (inr (inl refl))

sent :
    In
      (to_row_with_connection (queued_in "a" "g" 3))
      (fetch_queued_rows_capped "invoices" 3 "" table)
unfolding running
sent = inr (inl refl)

alike : grp (queued_in "a" "g" 3) ≡ grp (queued_in "c" "g" 1)
unfolding running
alike = refl

fetch_queued_rows_capped-whole_example :
    In
      (to_row_with_connection (queued_in "c" "g" 1))
      (fetch_queued_rows_capped "invoices" 3 "" table)
fetch_queued_rows_capped-whole_example =
    fetch_queued_rows_capped-whole "invoices" 3 "" table (queued_in "a" "g" 3) (queued_in "c" "g" 1)
      stands alike sent

some_candidates : 1 ≤ length (candidates "invoices" "" table)
unfolding running
some_candidates = omega arith

fetch_queued_rows_capped-progress_example :
    1 ≤ length (fetch_queued_rows_capped "invoices" 3 "" table)
fetch_queued_rows_capped-progress_example =
    fetch_queued_rows_capped-progress "invoices" 3 "" table some_candidates
