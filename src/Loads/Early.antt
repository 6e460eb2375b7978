-- ===== src/Loads/Early.antt =====
-- What the deliveries of a load have let out before its batches and its seal are in.
use yalia_sii.Prelude.{
  ℕ, suc, ◌≤◌, String, ◌≡◌, refl, sym, ap, subst, ◌∙◌, ◌⊎◌, inl, inr, Bool, true, false, ◌&&◌,
  Option, none, some, List, [], ◌∷◌, ==_refl, if◌then◌else◌, is_text, all, arith, Bool-cases,
}
use mathlib.Core.Bool.{or-false}
use yalia_sii.Json.{Platform}
use yalia_sii.Template.{TableTemplate}
use yalia_sii.Rows.{TableRow, update_where, has_id}
use yalia_sii.Loads.{
  Store, TableLoad, load_of, sealed_load, received, record_batch, seal, is_sealed, expect_batches,
  seal_load, can_stage, stage,
}
use yalia_sii.Loads.Marking.{HasSafeKeys, Stages, kept, held}
use yalia_sii.Loads.Complete.{rev_onto, has_seal-rev_onto, start-Inv}
use yalia_sii.Loads.Sealing.{Flip, Flip-Flip, waits, seals, load_of-update_load}
use yalia_sii.Loads.Delivery.{
  Inv, deliver-Inv, Staged, late, early, batch-Staged, expect_batches-found, Delivery, batch,
  seal_of, has_batch, has_seal, recorded, deliver, deliver_all,
}

-- The number of different batches among the deliveries.
abbrev pub batches : List (ℕ × Delivery) → ℕ
batches [] = 0
batches ((now, batch ids conn i) ∷ ds) = if has_batch i ds then batches ds else suc (batches ds)
batches ((now, seal_of conn) ∷ ds) = batches ds

-- A row of the load is held back.
abbrev pub is_held : String → TableRow → Bool
is_held id r = if is_text r.load_id id then is_text r.submission_status "staged" else true

received-record_batch :
    (id : String) (i : ℕ) (bs : List (String × ℕ))
    → received id (record_batch id (some i) bs)
      ≡ (if recorded id i bs then received id bs else suc (received id bs))
unfolding record_batch
received-record_batch id i bs = ground (arith, ==_refl id)

module _ (host : Platform) (id : String) where
  held-stage :
      (ids : List String) (f : TableRow → Option String) (rows : List TableRow)
      → all (is_held id) rows ≡ true
      → all (is_held id) (
          update_where
            (λ r. has_id ids r && can_stage host r.submission_status)
            (stage host id f)
            rows)
        ≡ true
  unfolding stage
  held-stage ids f [] h = refl
  held-stage ids f (r ∷ rows) h =
      ground (arith, held-stage ids f rows, ==_refl "staged", ==_refl id)

  Stages-held :
      (ids : List String) (rows after : List TableRow)
      → Stages host ids id rows after
      → all (is_held id) rows ≡ true
      → all (is_held id) after ≡ true
  Stages-held ids rows after (kept e) h = rw e h
  Stages-held ids rows after (held f e) h = rw e (held-stage ids f rows h)

module _ (host : Platform) (t : TableTemplate) (id : String) (total : ℕ) where
  -- What an unfinished load guarantees after the deliveries `ds`, and what a sealed one has cost.
  record Quiet (ds : List (ℕ × Delivery)) (s : Store) : Type 0 where
    held : sealed_load id s.loads ≡ false → all (is_held id) s.rows ≡ true
    few : sealed_load id s.loads ≡ false → received id s.load_batches ≤ batches ds
    only :
        (l : TableLoad) (n : ℕ)
        → load_of id s.loads ≡ some l
        → l.expected_batches ≡ some n
        → (n ≡ total) × (has_seal ds ≡ true)
    earned : sealed_load id s.loads ≡ true → (has_seal ds ≡ true) × (total ≤ batches ds)

  seal-Quiet :
      (now : ℕ) (ds : List (ℕ × Delivery)) (s : Store) (k : TableLoad) (n : ℕ)
      → load_of id s.loads ≡ some k
      → k.sealed_at ≡ none
      → k.expected_batches ≡ some n
      → n ≤ received id s.load_batches
      → Quiet ds s
      → Quiet ds (seal now id s)
  unfolding seal
  seal-Quiet now ds s k n found fresh e enough q =
      let unsealed : sealed_load id s.loads ≡ false = ground arith in
      let (same, sealed) = q.only k n found e in
      let now_found =
        load_of-update_load id (λ l. record l { sealed_at = some now }) (λ l. refl) s.loads k
          found in
      record {
        held = λ h. cc (h, now_found);
        few = λ h. cc (h, now_found);
        only = λ l m h e'. q.only k m found (cc (h, now_found, e'));
        earned = λ h. (sealed, omega (arith, same, enough, q.few unsealed));
      }

  Flip-Quiet :
      (now : ℕ) (ds : List (ℕ × Delivery)) (s s' : Store)
      → Flip now id s s'
      → Quiet ds s
      → Quiet ds s'
  Flip-Quiet now ds s s' (waits e h) q = subst (Quiet ds) (sym e) q
  Flip-Quiet now ds s s' (seals k n found fresh e enough same) q =
      subst (Quiet ds) (sym same) (seal-Quiet now ds s k n found fresh e enough q)

  module _ (ds : List (ℕ × Delivery)) (s : Store) (v : Inv host t id total ds s)
      (q : Quiet ds s) where
    -- Recording a batch keeps the count below the number of different batches delivered.
    few-batch :
        (now : ℕ) (ids : List String) (conn : String) (i : ℕ)
        → sealed_load id s.loads ≡ false
        → received id (record_batch id (some i) s.load_batches)
          ≤ batches ((now, batch ids conn i) ∷ ds)
    few-batch now ids conn i was =
        rw (received-record_batch id i s.load_batches) (ground (arith, q.few was, v.counted i was))

    only-batch :
        (loads : List TableLoad)
        → ((l : TableLoad)
            → load_of id loads ≡ some l
            → (load_of id s.loads ≡ some l) ⊎ (l.expected_batches ≡ none))
        → (l : TableLoad) (n : ℕ) → load_of id loads ≡ some l
        → l.expected_batches ≡ some n
        → (n ≡ total) × (has_seal ds ≡ true)
    only-batch loads came l n h e = elim (came l h) [
      | inl old ↦ q.only l n old e
      | inr new ↦ cc (new, e)
    ]

    batches-batch :
        (now : ℕ) (ids : List String) (conn : String) (i : ℕ)
        → batches ds ≤ batches ((now, batch ids conn i) ∷ ds)
    batches-batch now ids conn i = ground arith

    batch-Quiet :
        (now : ℕ) (ids : List String) (conn : String) (i : ℕ) {s' : Store}
        → Staged host t id total now ids conn i s s'
        → Quiet ((now, batch ids conn i) ∷ ds) s'
    batch-Quiet now ids conn i (late rows {loads} closed marks still came e) =
        subst (Quiet ((now, batch ids conn i) ∷ ds)) (sym e) (record {
          held = λ h. cc (h, still);
          few = λ h. cc (h, still);
          only = only-batch loads came;
          earned = λ _. (
            (q.earned closed).0,
            omega (arith, (q.earned closed).1, batches-batch now ids conn i),
          );
        })
    batch-Quiet now ids conn i (early rows {loads} was still came keeps marks flip) =
        Flip-Quiet now ((now, batch ids conn i) ∷ ds) _ _ flip (record {
          held = λ _. Stages-held host id ids s.rows rows marks (q.held was);
          few = λ _. few-batch now ids conn i was;
          only = only-batch loads came;
          earned = λ h. cc (h, still);
        })

    seal_of-Quiet :
        (now : ℕ) (conn : Option String)
        → Quiet ((now, seal_of conn) ∷ ds) (deliver host t id total s (now, seal_of conn))
    unfolding deliver seal_load
    seal_of-Quiet now conn =
        let (l, found, known, same) = expect_batches-found host t id total now conn s.loads in
        let loads : List TableLoad = expect_batches host now t id total conn s.loads in
        let was : sealed_load id loads ≡ sealed_load id s.loads =
          ap (λ o. elim o [ none ↦ false | some k ↦ is_sealed k ]) found ∙ same in
        Flip-Quiet now ((now, seal_of conn) ∷ ds) (record s { loads = loads }) _
          (Flip-Flip now id _)
          (record {
            held = λ h. q.held (sym was ∙ h);
            few = λ h. q.few (sym was ∙ h);
            only = λ k n h e. (ground arith, refl);
            earned = λ h. (refl, (q.earned (sym was ∙ h)).1);
          })

    deliver-Quiet :
        HasSafeKeys t → (d : ℕ × Delivery) → Quiet (d ∷ ds) (deliver host t id total s d)
    deliver-Quiet safe (now, batch ids conn i) =
        batch-Quiet now ids conn i (batch-Staged host t id total now ids conn i s safe)
    deliver-Quiet safe (now, seal_of conn) = seal_of-Quiet now conn

  deliver_all-Quiet :
      (ds past : List (ℕ × Delivery)) (s : Store)
      → HasSafeKeys t
      → Inv host t id total past s
      → Quiet past s
      → Quiet (rev_onto ds past) (deliver_all host t id total s ds)
  unfolding rev_onto deliver_all
  deliver_all-Quiet [] past s safe v q = q
  deliver_all-Quiet (d ∷ ds) past s safe v q =
      deliver_all-Quiet ds (d ∷ past) _ safe (deliver-Inv host t id total past s v safe d)
        (deliver-Quiet past s v q safe d)

-- Take a load that is not known yet: no entry of it, no batch recorded, and no row of its own
-- outside `staged`. If the grouping columns have safe names, then any deliveries of batches and
-- seals end in one of two ways: the load is not sealed and every row of it is `staged`, or it is
-- sealed and its seal and at least `total` different batches have been delivered.
pub deliver_all-held :
    (host : Platform) (t : TableTemplate) (id : String) (total : ℕ) (s : Store)
    (ds : List (ℕ × Delivery))
    → HasSafeKeys t
    → load_of id s.loads ≡ none
    → received id s.load_batches ≡ 0
    → all (is_held id) s.rows ≡ true
    → let s' = deliver_all host t id total s ds in
      ((sealed_load id s'.loads ≡ false) × (all (is_held id) s'.rows ≡ true))
      ⊎ ((sealed_load id s'.loads ≡ true)
          × (has_seal ds ≡ true)
          × (total ≤ batches (rev_onto ds [])))
deliver_all-held host t id total s ds safe absent empty quiet =
    let q =
      deliver_all-Quiet host t id total ds [] s safe (start-Inv host t id total safe s absent)
        (record {
          held = λ _. quiet;
          few = λ _. omega (arith, empty);
          only = λ l n h e. cc (h, absent);
          earned = λ h. cc (h, absent);
        }) in
    elim (Bool-cases (sealed_load id (deliver_all host t id total s ds).loads)) [
      | inl done ↦
          let (sealed, enough) = q.earned done in
          inr (done, sym (has_seal-rev_onto ds [] ∙ or-false (has_seal ds)) ∙ sealed, enough)
      | inr waiting ↦ inl (waiting, q.held waiting)
    ]
