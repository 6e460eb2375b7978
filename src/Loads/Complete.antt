-- ===== src/Loads/Complete.antt =====
-- A load whose batches and seal have all arrived is sealed, and none of its rows is held back.
use yalia_sii.Prelude.{
  ℕ, zero, suc, ◌≤◌, ◌<◌, String, ◌≡◌, refl, ap, ◌∙◌, inl, inr, true, false, ◌&&◌, ◌||◌, none, List,
  [], ◌∷◌, ◌==◌, ltb, any, count, arith, Bool-cases,
}
use yalia_sii.Json.{Platform}
use yalia_sii.Template.{TableTemplate}
use yalia_sii.Loads.{Store, load_of, sealed_load, received, is_staged_in}
use yalia_sii.Loads.Marking.{HasSafeKeys}
use yalia_sii.Loads.Delivery.{
  Delivery, batch, seal_of, has_batch, has_seal, recorded, deliver_all, Inv, deliver-Inv,
}

-- The recorded batches of a load with a number below `n`.
abbrev below : String → ℕ → List (String × ℕ) → ℕ
below id n = count (λ b. b.0 == id && ltb b.1 n)

below_mono : (id : String) (n : ℕ) (bs : List (String × ℕ)) → below id n bs ≤ below id (suc n) bs
below_mono id n [] = omega arith
below_mono id n ((j, i) ∷ bs) = ground (arith, below_mono id n bs)

below-suc :
    (id : String) (n : ℕ) (bs : List (String × ℕ))
    → recorded id n bs ≡ true
    → suc (below id n bs) ≤ below id (suc n) bs
below-suc id n [] h = cc
below-suc id n ((j, i) ∷ bs) h = ground (arith, below-suc id n bs, below_mono id n bs)

below-le-received : (id : String) (n : ℕ) (bs : List (String × ℕ)) → below id n bs ≤ received id bs
below-le-received id n [] = omega arith
below-le-received id n ((j, i) ∷ bs) = ground (arith, below-le-received id n bs)

-- If every number below `n` is recorded, at least `n` batches are.
le-below :
    (id : String) (n m : ℕ) (bs : List (String × ℕ))
    → m ≤ n
    → ((i : ℕ) → i < n → recorded id i bs ≡ true)
    → m ≤ below id m bs
le-below id n zero bs h all = omega arith
le-below id n (suc m) bs h all =
    omega (arith, le-below id n m bs (omega arith) all, below-suc id m bs (all m h))

-- The deliveries `ds` put before `past`, the latest first.
unfoldable pub rev_onto : List (ℕ × Delivery) → List (ℕ × Delivery) → List (ℕ × Delivery)
rev_onto [] past = past
rev_onto (d ∷ ds) past = rev_onto ds (d ∷ past)

has_batch-rev_onto :
    (i : ℕ) (ds past : List (ℕ × Delivery))
    → has_batch i (rev_onto ds past) ≡ (has_batch i ds || has_batch i past)
unfolding rev_onto
has_batch-rev_onto i [] past = refl
has_batch-rev_onto i ((now, batch ids conn j) ∷ ds) past =
    ground (arith, has_batch-rev_onto i ds ((now, batch ids conn j) ∷ past))
has_batch-rev_onto i ((now, seal_of conn) ∷ ds) past =
    has_batch-rev_onto i ds ((now, seal_of conn) ∷ past)

pub has_seal-rev_onto :
    (ds past : List (ℕ × Delivery)) → has_seal (rev_onto ds past) ≡ (has_seal ds || has_seal past)
unfolding rev_onto
has_seal-rev_onto [] past = refl
has_seal-rev_onto ((now, batch ids conn j) ∷ ds) past =
    has_seal-rev_onto ds ((now, batch ids conn j) ∷ past)
has_seal-rev_onto ((now, seal_of conn) ∷ ds) past =
    ground (arith, has_seal-rev_onto ds ((now, seal_of conn) ∷ past))

module _ (host : Platform) (t : TableTemplate) (id : String) (total : ℕ)
    (safe : HasSafeKeys t) where
  deliver_all-Inv :
      (ds past : List (ℕ × Delivery)) (s : Store)
      → Inv host t id total past s
      → Inv host t id total (rev_onto ds past) (deliver_all host t id total s ds)
  unfolding rev_onto deliver_all
  deliver_all-Inv [] past s v = v
  deliver_all-Inv (d ∷ ds) past s v =
      deliver_all-Inv ds (d ∷ past) _ (deliver-Inv host t id total past s v safe d)

  pub start-Inv : (s : Store) → load_of id s.loads ≡ none → Inv host t id total [] s
  start-Inv s absent = record {
    settled = λ l n h e u. cc (h, absent);
    clean = λ h. cc (absent, h);
    counted = λ i h b. cc b;
    known = λ h b. cc b;
  }

  sealed_of_all :
      (ds : List (ℕ × Delivery)) (s : Store)
      → Inv host t id total ds s
      → has_seal ds ≡ true
      → ((i : ℕ) → i < total → has_batch i ds ≡ true)
      → sealed_load id s.loads ≡ true
  sealed_of_all ds s v sealed all = elim (Bool-cases (sealed_load id s.loads)) [
    | inl done ↦ done
    | inr waiting ↦
        let (l, found, e) = v.known waiting sealed in
        let enough : total ≤ received id s.load_batches = omega (
          arith,
          le-below id total total s.load_batches (omega arith)
              (λ i lt. v.counted i waiting (all i lt)),
          below-le-received id total s.load_batches,
        ) in
        absurd (omega (arith, v.settled l total found e (ground arith), enough))
  ]

-- Take a load that the table of loads does not know yet, and deliver its seal and its batches
-- 0 … total-1, each at least once, in any order, mixed with repetitions and other batch numbers.
-- If the grouping columns have safe names, then afterwards the load is sealed, and none of its rows
-- is left in `staged`.
pub deliver_all-sealed :
    (host : Platform) (t : TableTemplate) (id : String) (total : ℕ) (s : Store)
    (ds : List (ℕ × Delivery))
    → HasSafeKeys t
    → load_of id s.loads ≡ none
    → has_seal ds ≡ true
    → ((i : ℕ) → i < total → has_batch i ds ≡ true)
    → (sealed_load id (deliver_all host t id total s ds).loads ≡ true)
      × (any (is_staged_in id) (deliver_all host t id total s ds).rows ≡ false)
deliver_all-sealed host t id total s ds safe absent sealed all =
    let v =
      deliver_all-Inv host t id total safe ds [] s (start-Inv host t id total safe s absent) in
    let done =
      sealed_of_all host t id total safe (rev_onto ds []) _ v
        (has_seal-rev_onto ds [] ∙ ap (λ b. b || false) sealed)
        (λ i lt. has_batch-rev_onto i ds [] ∙ ap (λ b. b || has_batch i []) (all i lt)) in
    (done, v.clean done)
