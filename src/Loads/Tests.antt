-- ===== src/Loads/Tests.antt =====
-- Runs of the load staging, and the theorems about it at concrete inputs.
use yalia_sii.Prelude.{
  ℕ, zero, suc, ◌≤◌, ◌<◌, String, ◌≡◌, ◌⊎◌, refl, true, false, Option, none, some, List, [], ◌∷◌,
  any, all, subst, arith,
}
use mathlib.Core.Option.{some-injective}
use yalia_sii.Json.{text_at}
use yalia_sii.Template.{group_by_of}
use yalia_sii.Sql.{is_column_key}
use yalia_sii.Rows.{TableRow}
use yalia_sii.Samples.{plain, invoices, invoice, stored, grouped_write}
use yalia_sii.Loads.{build_group_id_sql, mark_queued, mark_staged, Store, sealed_load, is_staged_in}
use yalia_sii.Loads.Marking.{HasSafeKeys}
use yalia_sii.Loads.Delivery.{Delivery, batch, seal_of, has_batch, has_seal, deliver_all}
use yalia_sii.Loads.Complete.{rev_onto, deliver_all-sealed}
use yalia_sii.Loads.Early.{is_held, batches, deliver_all-held}

pub invoices-HasSafeKeys : HasSafeKeys invoices
unfolding is_column_key group_by_of
invoices-HasSafeKeys w e =
    subst (λ v. all is_column_key (group_by_of v) ≡ true) (some-injective grouped_write w e) refl

running : Unit {0}
unfolding deliver_all mark_queued mark_staged build_group_id_sql group_by_of is_column_key text_at
running = tt

-- Three rows just written, two in the first batch.
abbrev start : Store
start = record {
  rows =
      stored "a" none none (invoice "1" "1" "x")
      ∷ stored "b" none none (invoice "2" "1" "x")
      ∷ stored "c" none none (invoice "3" "1" "y")
      ∷ [];
  loads = [];
  load_batches = [];
}

-- The seal overtakes the second batch, and the first one is delivered twice.
abbrev history : List (ℕ × Delivery)
history =
    (1, batch ("a" ∷ "b" ∷ []) "c1" 0)
    ∷ (2, seal_of (some "c1"))
    ∷ (3, batch ("a" ∷ "b" ∷ []) "c1" 0)
    ∷ (4, batch ("c" ∷ []) "c1" 1)
    ∷ []

abbrev cut_history : List (ℕ × Delivery)
cut_history = (1, batch ("a" ∷ "b" ∷ []) "c1" 0) ∷ (2, seal_of (some "c1")) ∷ []

statuses : List TableRow → List (Option String)
statuses [] = []
statuses (r ∷ rows) = r.submission_status ∷ statuses rows

history_run :
    statuses (deliver_all plain invoices "L" 2 start history).rows
    ≡ some "queued" ∷ some "queued" ∷ some "queued" ∷ []
unfolding statuses running
history_run = refl

deliver_all-sealed_example :
    (sealed_load "L" (deliver_all plain invoices "L" 2 start history).loads ≡ true)
    × (any (is_staged_in "L") (deliver_all plain invoices "L" 2 start history).rows ≡ false)
deliver_all-sealed_example =
    deliver_all-sealed plain invoices "L" 2 start history invoices-HasSafeKeys refl refl
      (λ i h. in_history i h)
  where
    in_history : (i : ℕ) → i < 2 → has_batch i history ≡ true
    in_history zero h = refl
    in_history (suc zero) h = refl
    in_history (suc (suc i)) h = absurd (omega arith)

-- Without its second batch the load stays where it is.
deliver_all-held_example :
    let s' = deliver_all plain invoices "L" 2 start cut_history in
    ((sealed_load "L" s'.loads ≡ false) × (all (is_held "L") s'.rows ≡ true))
    ⊎ ((sealed_load "L" s'.loads ≡ true)
        × (has_seal cut_history ≡ true)
        × (2 ≤ batches (rev_onto cut_history [])))
deliver_all-held_example =
    deliver_all-held plain invoices "L" 2 start cut_history invoices-HasSafeKeys refl refl refl
