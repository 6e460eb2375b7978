-- ===== src/Ingest/Frozen.antt =====
-- The whole transaction of `ingest` keeps the accepted rows as they are.
use yalia_sii.Ingest.{append_row, clashes}
use yalia_sii.Prelude.{Bool-cases}
use yalia_sii.Prelude.{
  ℕ, suc, ◌≤◌, String, ◌≡◌, refl, sym, ap, subst, ◌∙◌, ◌⊎◌, inl, inr, Bool, true, false, not, ◌&&◌,
  Option, some, List, [], ◌∷◌, ◌++◌, ◌==◌, all, has, >>=-eq-some, arith, eq_iff,
}
use mathlib.Core.Option.{some-injective}
use mathlib.Core.List.{map-append, append-nil}
use yalia_sii.Json.{Object, Platform}
use yalia_sii.Template.{TableTemplate}
use yalia_sii.Rows.{
  TableRow, is_correcto, ids_of, Distinct, HasKey, accepted, Distinct-snoc, keep-append, has-append,
  update_where,
}
use yalia_sii.Ingest.{
  Upsert, inserted, updated, skipped, new_row, upsert_row, Progress, tally, upsert_chunk,
  upsert_chunks, insert_append, append_chunks,
}
use yalia_sii.Ingest.Accepted.{
  is_free, free_of_absent, Upserts, upsert_row-Upserts, Upserts-accepted, Upserts-ids,
  Upserts-is_free, inserted-is_free, updated-is_free,
}

all-append {ℓ} :
    {A : Type ℓ} (p : A → Bool) (xs ys : List A) → all p (xs ++ ys) ≡ (all p xs && all p ys)
all-append p [] ys = refl
all-append p (x ∷ xs) ys = ground (arith, all-append p xs ys)

pub all_mono {ℓ} :
    {A : Type ℓ} (p q : A → Bool) (xs : List A)
    → ((x : A) → p x ≡ true → q x ≡ true)
    → all p xs ≡ true
    → all q xs ≡ true
all_mono p q [] h a = refl
all_mono p q (x ∷ xs) h a = ground (arith, h x, all_mono p q xs h)

-- A row that is not accepted takes no freedom from an id.
is_free-snoc :
    (x : String) (rows : List TableRow) (r : TableRow)
    → is_correcto r.submission_status ≡ false
    → all (is_free x) rows ≡ true
    → all (is_free x) (rows ++ r ∷ []) ≡ true
is_free-snoc x rows r e h = all-append (is_free x) rows (r ∷ []) ∙ ground arith

-- An update that avoids the accepted rows, and accepts none, leaves them alone.
pub update_where-accepted :
    (p : TableRow → Bool) (f : TableRow → TableRow) (rows : List TableRow)
    → ((r : TableRow) → is_correcto (f r).submission_status ≡ false)
    → all (λ r. not (p r && is_correcto r.submission_status)) rows ≡ true
    → accepted (update_where p f rows) ≡ accepted rows
update_where-accepted p f [] h a = refl
update_where-accepted p f (r ∷ rows) h a = ground (arith, h r, update_where-accepted p f rows h)

-- Ids that each name no accepted row together name none.
avoids_one :
    (ids : List String) (r : TableRow) (rows : List TableRow)
    → all (λ x. all (is_free x) (r ∷ rows)) ids ≡ true
    → (has r.id ids && is_correcto r.submission_status) ≡ false
avoids_one [] r rows h = refl
avoids_one (x ∷ ids) r rows h = ground (arith, avoids_one ids r rows, eq_iff x r.id, eq_iff r.id x)

pub avoids_accepted :
    (ids : List String) (rows : List TableRow)
    → all (λ x. all (is_free x) rows) ids ≡ true
    → all (λ r. not (has r.id ids && is_correcto r.submission_status)) rows ≡ true
avoids_accepted ids [] h = refl
avoids_accepted ids (r ∷ rows) h = ground (
  arith,
  avoids_accepted ids rows (all_mono _ _ ids (λ x e. ground arith) h),
  avoids_one ids r rows h,
)

abbrev pub Injective : (ℕ → String) → Type 0
Injective f = (m n : ℕ) → (f m == f n) ≡ true → m ≡ n

module _ (host : Platform) (once : Injective host.uuid) (now : ℕ) (t : TableTemplate)
    (conn : String) (trace : Option String) where
  -- The accepted rows are still those of `rows₀`, and no id to be marked is one of theirs.
  pub record Frozen (rows₀ : List TableRow) (p : Progress host now t conn trace) : Type 0 where
    pub same : accepted p.rows ≡ accepted rows₀
    pub key : HasKey p.rows
    pub new : (k : ℕ) → p.drawn ≤ k → has (host.uuid k) (ids_of p.rows) ≡ false
    pub free : all (λ x. all (is_free x) p.rows) p.affected ≡ true

  new-suc :
      (n k : ℕ) (rows after : List TableRow)
      → ((j : ℕ) → n ≤ j → has (host.uuid j) (ids_of rows) ≡ false)
      → (ids_of after ≡ ids_of rows) ⊎ (ids_of after ≡ ids_of rows ++ host.uuid n ∷ [])
      → suc n ≤ k
      → has (host.uuid k) (ids_of after) ≡ false
  new-suc n k rows after h (inl e) lt = ap (has (host.uuid k)) e ∙ h k (omega arith)
  new-suc n k rows after h (inr e) lt = ground (
    arith,
    ap (has (host.uuid k)) e,
    has-append (host.uuid k) (ids_of rows) (host.uuid n ∷ []),
    h k,
    once n k,
  )

  key-suc :
      (n : ℕ) (rows after : List TableRow)
      → HasKey rows
      → has (host.uuid n) (ids_of rows) ≡ false
      → (ids_of after ≡ ids_of rows) ⊎ (ids_of after ≡ ids_of rows ++ host.uuid n ∷ [])
      → HasKey after
  key-suc n rows after key absent (inl e) = subst Distinct (sym e) key
  key-suc n rows after key absent (inr e) =
      subst Distinct (sym e) (Distinct-snoc (host.uuid n) (ids_of rows) key absent)

  free-snoc :
      (x : String) (xs : List String) (rows : List TableRow)
      → all (λ y. all (is_free y) rows) xs ≡ true
      → all (is_free x) rows ≡ true
      → all (λ y. all (is_free y) rows) (xs ++ x ∷ []) ≡ true
  free-snoc x xs rows h k = all-append (λ y. all (is_free y) rows) xs (x ∷ []) ∙ ground arith

  still-free :
      (rows₀ : List TableRow) (p : Progress host now t conn trace) (d : Object)
      (after : List TableRow) (what : Upsert)
      → Frozen rows₀ p
      → Upserts host now t conn trace (host.uuid p.drawn) d p.rows after what
      → all (λ x. all (is_free x) after) p.affected ≡ true
  still-free rows₀ p d after what v u =
      all_mono (λ x. all (is_free x) p.rows) (λ x. all (is_free x) after) p.affected
        (λ x. Upserts-is_free host now t conn trace x u) v.free

  tally-Frozen :
      (rows₀ : List TableRow) (p : Progress host now t conn trace) (d : Object)
      (after : List TableRow) (what : Upsert)
      → Frozen rows₀ p
      → Upserts host now t conn trace (host.uuid p.drawn) d p.rows after what
      → Frozen rows₀ (tally host now t conn trace p after what)
  unfolding tally
  tally-Frozen rows₀ p d after (inserted x) v u = record {
    same = Upserts-accepted host now t conn trace u ∙ v.same;
    key = key-suc p.drawn p.rows after v.key absent grows;
    new = λ k lt. new-suc p.drawn k p.rows after v.new grows lt;
    free =
        free-snoc x p.affected after (still-free rows₀ p d after (inserted x) v u)
          (inserted-is_free host now t conn trace u absent);
  }
    where
      absent : has (host.uuid p.drawn) (ids_of p.rows) ≡ false
      absent = v.new p.drawn (omega arith)

      grows :
          (ids_of after ≡ ids_of p.rows) ⊎ (ids_of after ≡ ids_of p.rows ++ host.uuid p.drawn ∷ [])
      grows = Upserts-ids host now t conn trace u
  tally-Frozen rows₀ p d after (updated x) v u = record {
    same = Upserts-accepted host now t conn trace u ∙ v.same;
    key =
        key-suc p.drawn p.rows after v.key (v.new p.drawn (omega arith))
          (Upserts-ids host now t conn trace u);
    new = λ k lt. new-suc p.drawn k p.rows after v.new (Upserts-ids host now t conn trace u) lt;
    free =
        free-snoc x p.affected after (still-free rows₀ p d after (updated x) v u)
          (updated-is_free host now t conn trace u v.key);
  }
  tally-Frozen rows₀ p d after skipped v u = record {
    same = Upserts-accepted host now t conn trace u ∙ v.same;
    key =
        key-suc p.drawn p.rows after v.key (v.new p.drawn (omega arith))
          (Upserts-ids host now t conn trace u);
    new = λ k lt. new-suc p.drawn k p.rows after v.new (Upserts-ids host now t conn trace u) lt;
    free = still-free rows₀ p d after skipped v u;
  }

  upsert_chunk-Frozen :
      (rows₀ : List TableRow) (ds : List Object) (p q : Progress host now t conn trace)
      → upsert_chunk host now t conn trace ds p ≡ some q
      → Frozen rows₀ p
      → Frozen rows₀ q
  unfolding upsert_chunk
  upsert_chunk-Frozen rows₀ [] p q e v = subst (Frozen rows₀) (some-injective p q e) v
  upsert_chunk-Frozen rows₀ (d ∷ ds) p q e v =
      let ((after, what), done, rest) =
        >>=-eq-some (upsert_row host now t conn trace (host.uuid p.drawn) d p.rows) _ e in
      upsert_chunk-Frozen rows₀ ds (tally host now t conn trace p after what) q rest (
        tally-Frozen rows₀ p d after what v
          (upsert_row-Upserts host now t conn trace _ d p.rows after what done))

  pub upsert_chunks-Frozen :
      (rows₀ : List TableRow) (cs : List (List Object)) (p q : Progress host now t conn trace)
      → upsert_chunks host now t conn trace cs p ≡ some q
      → Frozen rows₀ p
      → Frozen rows₀ q
  unfolding upsert_chunks
  upsert_chunks-Frozen rows₀ [] p q e v = subst (Frozen rows₀) (some-injective p q e) v
  upsert_chunks-Frozen rows₀ (c ∷ cs) p q e v =
      let (r, done, rest) = >>=-eq-some (upsert_chunk host now t conn trace c p) _ e in
      upsert_chunks-Frozen rows₀ cs r q rest (upsert_chunk-Frozen rows₀ c p r done v)

  append_row-Frozen :
      (rows₀ : List TableRow) (d : Object) (p : Progress host now t conn trace)
      → Frozen rows₀ p
      → Frozen rows₀ (append_row host now t conn trace d p)
  unfolding new_row is_correcto
  append_row-Frozen rows₀ d p v =
      let row = new_row host now t conn trace (host.uuid p.drawn) d in
      let absent = v.new p.drawn (omega arith) in
      let grows : ids_of (p.rows ++ row ∷ []) ≡ ids_of p.rows ++ host.uuid p.drawn ∷ [] =
        map-append (λ (r : TableRow). r.id) p.rows (row ∷ []) in
      record {
        same =
            keep-append (λ r. is_correcto r.submission_status) p.rows (row ∷ [])
            ∙ append-nil (accepted p.rows)
            ∙ v.same;
        key = key-suc p.drawn p.rows _ v.key absent (inr grows);
        new = λ k lt. new-suc p.drawn k p.rows _ v.new (inr grows) lt;
        free =
            free-snoc _ p.affected _
              (all_mono (λ x. all (is_free x) p.rows) (λ x. all (is_free x) (p.rows ++ row ∷ []))
                p.affected (λ x h. is_free-snoc x p.rows row refl h) v.free)
              (is_free-snoc _ p.rows row refl (free_of_absent _ p.rows absent));
      }

  insert_append-Frozen :
      (rows₀ : List TableRow) (ds : List Object) (p q : Progress host now t conn trace)
      → insert_append host now t conn trace ds p ≡ some q
      → Frozen rows₀ p
      → Frozen rows₀ q
  unfolding insert_append
  insert_append-Frozen rows₀ [] p q e v = subst (Frozen rows₀) (some-injective p q e) v
  insert_append-Frozen rows₀ (d ∷ ds) p q e v =
      elim (Bool-cases (clashes host now t conn trace d p.rows)) [
        | inl clash ↦ cc (rw (clash, insert_append) at e)
        | inr fresh ↦
            insert_append-Frozen rows₀ ds (append_row host now t conn trace d p) q
              (rw (fresh, insert_append) at e) (append_row-Frozen rows₀ d p v)
      ]

  pub append_chunks-Frozen :
      (rows₀ : List TableRow) (cs : List (List Object)) (p q : Progress host now t conn trace)
      → append_chunks host now t conn trace cs p ≡ some q
      → Frozen rows₀ p
      → Frozen rows₀ q
  unfolding append_chunks
  append_chunks-Frozen rows₀ [] p q e v = subst (Frozen rows₀) (some-injective p q e) v
  append_chunks-Frozen rows₀ (c ∷ cs) p q e v =
      let (r, done, rest) = >>=-eq-some (insert_append host now t conn trace c p) _ e in
      append_chunks-Frozen rows₀ cs r q rest (insert_append-Frozen rows₀ c p r done v)
