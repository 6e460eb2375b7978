-- ===== src/Loads/Delivery.antt =====
-- A load as the hub delivers it: batches and a seal, each a transaction, in any order and repeated
-- at will.
use yalia_sii.Prelude.{
  ℕ, String, ◌≡◌, refl, sym, ap, subst, ◌∙◌, ◌⊎◌, inl, inr, Bool, true, false, ◌&&◌, ◌||◌, Option,
  none, some, List, [], ◌∷◌, ◌==◌, ==_refl, ◌=ℕ◌, any, arith, Bool-cases, Option-cases,
}
use yalia_sii.Json.{Platform}
use yalia_sii.Template.{TableTemplate}
use yalia_sii.Rows.{TableRow}
use yalia_sii.Loads.{
  TableLoad, Store, LoadMeta, load_of, sealed_load, is_sealed, record_batch, fresh_load,
  ensure_load, or_null, first_of_two, stage_load_rows, expect_batches, seal_load,
}
use yalia_sii.Loads.Marking.{
  HasSafeKeys, mark_queued_total, mark_staged_total, Requeues, Stages, Requeues-none_staged,
}
use yalia_sii.Loads.Sealing.{
  Settled, Flip, Flip-Flip, Flip-Settled, NoStaged, Flip-NoStaged, Flip-sealed, Flip-received,
  Flip-expected, load_of-update_load,
}

-- What arrives: the rows of a batch, already written by `ingest`, with the batch's number; or the
-- seal, with the number of batches of the load.
pub data Delivery : Type 0 where
  batch : (ids : List String) (conn : String) (index : ℕ) → Delivery
  seal_of : (conn : Option String) → Delivery

abbrev pub after : Store → Option Store → Store
after s none = s
after s (some s') = s'

abbrev pub batch_meta : String → ℕ → LoadMeta
batch_meta id i = record {
  load_id = id;
  batch_index = some i;
  total_batches = none;
  load_complete = false;
}

-- `batch i` is among the deliveries; so is a seal.
abbrev pub has_batch : ℕ → List (ℕ × Delivery) → Bool
has_batch i [] = false
has_batch i ((now, batch ids conn j) ∷ ds) = j =ℕ i || has_batch i ds
has_batch i ((now, seal_of conn) ∷ ds) = has_batch i ds

abbrev pub has_seal : List (ℕ × Delivery) → Bool
has_seal [] = false
has_seal ((now, batch ids conn j) ∷ ds) = has_seal ds
has_seal ((now, seal_of conn) ∷ ds) = true

-- The batch `i` of the load is recorded.
abbrev pub recorded : String → ℕ → List (String × ℕ) → Bool
recorded id i bs = any (λ b. b.0 == id && b.1 =ℕ i) bs

unsealed_before : (b c : Bool) → (b ≡ true → c ≡ true) → c ≡ false → b ≡ false
unsealed_before true c h e = cc (h refl)
unsealed_before false c h e = refl

recorded-record_batch_self :
    (id : String) (j : ℕ) (bs : List (String × ℕ))
    → recorded id j (record_batch id (some j) bs) ≡ true
unfolding record_batch
recorded-record_batch_self id j bs = elim (Bool-cases (recorded id j bs)) [
  | inl old ↦ rw old old
  | inr new ↦ rw new (ground (arith, ==_refl id))
]

recorded-record_batch :
    (id : String) (i j : ℕ) (bs : List (String × ℕ))
    → recorded id i bs ≡ true
    → recorded id i (record_batch id (some j) bs) ≡ true
unfolding record_batch
recorded-record_batch id i j bs h = elim (Bool-cases (recorded id j bs)) [
  | inl old ↦ rw old h
  | inr new ↦ rw new (ground arith)
]

ensure_load-sealed :
    (now : ℕ) (id key : String) (conn : Option String) (loads : List TableLoad)
    → sealed_load id (ensure_load now id key conn loads) ≡ sealed_load id loads
unfolding ensure_load fresh_load
ensure_load-sealed now id key conn loads = elim (Option-cases (load_of id loads)) [
  | inl missing ↦ rw missing (ground (arith, ==_refl id))
  | inr (l, found) ↦ rw found (ground arith)
]

ensure_load-came :
    (now : ℕ) (id key : String) (conn : Option String) (loads : List TableLoad) (l : TableLoad)
    → load_of id (ensure_load now id key conn loads) ≡ some l
    → (load_of id loads ≡ some l) ⊎ (l.expected_batches ≡ none)
unfolding ensure_load fresh_load
ensure_load-came now id key conn loads l h = elim (Option-cases (load_of id loads)) [
  | inl missing ↦ inr (ground (arith, ==_refl id))
  | inr (k, found) ↦ inl (ground arith)
]

ensure_load-found :
    (now : ℕ) (id key : String) (conn : Option String) (loads : List TableLoad) (l : TableLoad)
    → load_of id loads ≡ some l
    → load_of id (ensure_load now id key conn loads) ≡ some l
unfolding ensure_load
ensure_load-found now id key conn loads l found = rw found found

module _ (host : Platform) (t : TableTemplate) (id : String) (total : ℕ) where
  -- One delivery; a transaction that throws leaves the tables as they were.
  unfoldable pub deliver : Store → ℕ × Delivery → Store
  unfolding stage_load_rows seal_load
  deliver s (now, batch ids conn i) =
      after s (stage_load_rows host now t ids conn (batch_meta id i) s)
  deliver s (now, seal_of conn) = seal_load host now t id total conn s

  unfoldable pub deliver_all : Store → List (ℕ × Delivery) → Store
  unfolding deliver
  deliver_all s [] = s
  deliver_all s (d ∷ ds) = deliver_all (deliver s d) ds

  -- The two ways of a batch: after the seal its rows are queued at once, before it they are held.
  pub data Staged (now : ℕ) (ids : List String) (conn : String) (i : ℕ) (s : Store)
      : Store → Type 0 where
    late :
        (rows : List TableRow) {loads : List TableLoad} {s' : Store}
        → sealed_load id s.loads ≡ true
        → Requeues host ids "queued" s.rows rows
        → sealed_load id loads ≡ true
        → ((l : TableLoad)
            → load_of id loads ≡ some l
            → (load_of id s.loads ≡ some l) ⊎ (l.expected_batches ≡ none))
        → s' ≡ record s { rows = rows; loads = loads }
        → Staged now ids conn i s s'
    early :
        (rows : List TableRow) {loads : List TableLoad} {s' : Store}
        → sealed_load id s.loads ≡ false
        → sealed_load id loads ≡ false
        → ((l : TableLoad)
            → load_of id loads ≡ some l
            → (load_of id s.loads ≡ some l) ⊎ (l.expected_batches ≡ none))
        → ((l : TableLoad) → load_of id s.loads ≡ some l → load_of id loads ≡ some l)
        → Stages host ids id s.rows rows
        → Flip now id
            (record s {
              rows = rows;
              loads = loads;
              load_batches = record_batch id (some i) s.load_batches;
            })
            s'
        → Staged now ids conn i s s'

  pub batch-Staged :
      (now : ℕ) (ids : List String) (conn : String) (i : ℕ) (s : Store)
      → HasSafeKeys t
      → Staged now ids conn i s (deliver s (now, batch ids conn i))
  unfolding deliver stage_load_rows
  batch-Staged now ids conn i s safe =
      let loads : List TableLoad = ensure_load now id t.key (or_null conn) s.loads in
      let same = ensure_load-sealed now id t.key (or_null conn) s.loads in
      elim (Bool-cases (sealed_load id s.loads)) [
        | inl closed ↦
            let (rows, done, marks) = mark_queued_total host t ids "queued" s.rows safe in
            late rows {loads = loads} closed marks (same ∙ closed)
              (ensure_load-came now id t.key (or_null conn) s.loads) (rw (same, closed, done))
        | inr open_yet ↦
            let (rows, done, marks) = mark_staged_total host t ids id s.rows safe in
            early rows {loads = loads} open_yet (same ∙ open_yet)
              (ensure_load-came now id t.key (or_null conn) s.loads)
              (ensure_load-found now id t.key (or_null conn) s.loads) marks
              (rw (same, open_yet, done) (Flip-Flip now id _))
      ]

  pub expect_batches-found :
      (now : ℕ) (conn : Option String) (loads : List TableLoad)
      → (l : TableLoad) × (load_of id (expect_batches host now t id total conn loads) ≡ some l)
        × (l.expected_batches ≡ some total)
        × (is_sealed l ≡ sealed_load id loads)
  unfolding expect_batches fresh_load
  expect_batches-found now conn loads = elim (Option-cases (load_of id loads)) [
    | inl missing ↦ (
      fresh_load now id t.key conn (some total),
      rw missing (ground (arith, ==_refl id)),
      refl,
      rw (missing, sealed_load),
    )
    | inr (l, found) ↦ (
      record l {
        expected_batches = some total;
        connection_id = first_of_two host now t l.connection_id conn;
      },
      rw found (
          load_of-update_load id
            (λ k. record k {
              expected_batches = some total;
              connection_id = first_of_two host now t k.connection_id conn;
            })
            (λ k. refl) loads l found),
      refl,
      rw (found, sealed_load),
    )
  ]

  -- What holds after the deliveries `ds`, the latest first.
  pub record Inv (ds : List (ℕ × Delivery)) (s : Store) : Type 0 where
    pub settled : Settled id s
    pub clean : NoStaged id s
    pub counted :
        (i : ℕ)
        → sealed_load id s.loads ≡ false
        → has_batch i ds ≡ true
        → recorded id i s.load_batches ≡ true
    pub known :
        sealed_load id s.loads ≡ false
        → has_seal ds ≡ true
        → (l : TableLoad) × (load_of id s.loads ≡ some l) × (l.expected_batches ≡ some total)

  -- `ds` is what came before; the step delivers `d`.
  module _ (ds : List (ℕ × Delivery)) (s : Store) (v : Inv ds s) where
    late-Inv :
        (now : ℕ) (ids : List String) (conn : String) (i : ℕ) (rows : List TableRow)
        (loads : List TableLoad)
        → sealed_load id s.loads ≡ true
        → Requeues host ids "queued" s.rows rows
        → sealed_load id loads ≡ true
        → Inv ((now, batch ids conn i) ∷ ds) (record s { rows = rows; loads = loads })
    late-Inv now ids conn i rows loads closed marks still = record {
      settled = λ l n h e u. cc (h, u, still);
      clean = λ _. Requeues-none_staged host id ids s.rows rows marks (v.clean closed);
      counted = λ j h. cc (h, still);
      known = λ h. cc (h, still);
    }

    early-Inv :
        (now : ℕ) (ids : List String) (conn : String) (i : ℕ) (rows : List TableRow)
        (loads : List TableLoad) (s' : Store)
        → sealed_load id s.loads ≡ false
        → sealed_load id loads ≡ false
        → ((l : TableLoad) → load_of id s.loads ≡ some l → load_of id loads ≡ some l)
        → Flip now id
            (record s {
              rows = rows;
              loads = loads;
              load_batches = record_batch id (some i) s.load_batches;
            })
            s'
        → Inv ((now, batch ids conn i) ∷ ds) s'
    early-Inv now ids conn i rows loads s' was still keeps flip = record {
      settled = Flip-Settled now id _ _ flip;
      clean = Flip-NoStaged now id _ _ flip (λ h. cc (h, still));
      counted = λ j h b. rw (Flip-received now id _ _ flip) (elim (Bool-cases (i =ℕ j)) [
        | inl same ↦
            let e : i ≡ j = ground arith in
            rw (← e) (recorded-record_batch_self id i s.load_batches)
        | inr other ↦ recorded-record_batch id j i s.load_batches (v.counted j was (ground arith))
      ]);
      known = λ h b.
          let (l, found, e) = v.known was b in
          let (k, found', e') = Flip-expected now id _ _ l flip (keeps l found) in
          (k, found', e' ∙ e);
    }

    seal-Inv :
        (now : ℕ) (conn : Option String)
        → Inv ((now, seal_of conn) ∷ ds) (deliver s (now, seal_of conn))
    unfolding deliver seal_load
    seal-Inv now conn =
        let loads : List TableLoad = expect_batches host now t id total conn s.loads in
        let (l, found, total_known, same) = expect_batches-found now conn s.loads in
        let flip = Flip-Flip now id (record s { loads = loads }) in
        let was : sealed_load id loads ≡ sealed_load id s.loads =
          ap (λ o. elim o [ none ↦ false | some k ↦ is_sealed k ]) found ∙ same in
        record {
          settled = Flip-Settled now id _ _ flip;
          clean = Flip-NoStaged now id _ _ flip (λ h. v.clean (sym was ∙ h));
          counted = λ j h b.
              rw (Flip-received now id _ _ flip) (
                v.counted j (unsealed_before _ _ (λ e. Flip-sealed now id _ _ flip (was ∙ e)) h) b);
          known = λ h b.
              let (k, found', e') = Flip-expected now id _ _ l flip found in
              (k, found', e' ∙ total_known);
        }

    pub deliver-Inv : HasSafeKeys t → (d : ℕ × Delivery) → Inv (d ∷ ds) (deliver s d)
    deliver-Inv safe (now, batch ids conn i) = elim (batch-Staged now ids conn i s safe) [
      | late rows {loads} closed marks still came e ↦
          subst (Inv ((now, batch ids conn i) ∷ ds)) (sym e)
            (late-Inv now ids conn i rows loads closed marks still)
      | early rows {loads} was still came keeps marks flip ↦
          early-Inv now ids conn i rows loads _ was still keeps flip
    ]
    deliver-Inv safe (now, seal_of conn) = seal-Inv now conn
