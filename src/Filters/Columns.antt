-- ===== src/Filters/Columns.antt =====
-- Which columns the conditions of a request read.
use yalia_sii.Prelude.{
  String, true, ◌&&◌, Option, none, some, List, [], ◌∷◌, ◌++◌, ◌==◌, ◌≡◌, inl, inr, if◌then◌else◌,
  All, arith, Bool-cases,
}
use yalia_sii.Template.{TableTemplate, ColumnType, date, number, boolean, string, json}
use yalia_sii.Filters.{
  Engine, Edge, from, until, Condition, write_status_is, submission_status_is, updated, is_blank,
  never, number_is, boolean_is, contains, date_bound, null_filter_value, Bounds, Where, add,
  typed_condition, type_of, is_date, column_filter, apply_filter, apply_each, set_bound,
  edge_condition, bound_conditions, apply_filters, is_filterable, range_match,
}

pub All-append {κ} :
    {A : Type 0} (P : A → Type κ) (xs ys : List A) → All P xs → All P ys → All P (xs ++ ys)
All-append P [] ys h k = k
All-append P (x ∷ xs) ys h k = (h.0, All-append P xs ys h.1 k)

module _ (t : TableTemplate) where
  -- A condition on the data of a row reads a filterable column, and a bound on dates one that
  -- holds dates.
  pub Declared : Condition → Type 0
  Declared (write_status_is v) = Unit {0}
  Declared (submission_status_is v) = Unit {0}
  Declared (updated e v) = Unit {0}
  Declared (is_blank k) = is_filterable t k ≡ true
  Declared never = Unit {0}
  Declared (number_is k v) = is_filterable t k ≡ true
  Declared (boolean_is k b) = is_filterable t k ≡ true
  Declared (contains k v) = is_filterable t k ≡ true
  Declared (date_bound e k v) = (is_filterable t k && is_date (type_of t k)) ≡ true

  abbrev IsDeclared : String × (Option String × Option String) → Type 0
  IsDeclared b = (is_filterable t b.0 && is_date (type_of t b.0)) ≡ true

  record WellFormed (w : Where) : Type 0 where
    conditions : All Declared w.conditions
    bounds : All IsDeclared w.bounds

  module _ (pg : Engine) where
    typed_condition-Declared :
        (k v : String) (type : Option ColumnType)
        → is_filterable t k ≡ true
        → Declared (typed_condition pg k v type)
    unfolding typed_condition Declared
    typed_condition-Declared k v none h = h
    typed_condition-Declared k v (some number) h = ground arith
    typed_condition-Declared k v (some boolean) h = h
    typed_condition-Declared k v (some string) h = h
    typed_condition-Declared k v (some date) h = h
    typed_condition-Declared k v (some json) h = h

    add-WellFormed : (c : Condition) (w : Where) → Declared c → WellFormed w → WellFormed (add c w)
    unfolding add
    add-WellFormed c w h v = record {
      conditions = All-append Declared w.conditions (c ∷ []) v.conditions (h, tt);
      bounds = v.bounds;
    }

    set_bound-IsDeclared :
        (k : String) (e : Edge) (v : String) (bs : Bounds)
        → (is_filterable t k && is_date (type_of t k)) ≡ true
        → All IsDeclared bs
        → All IsDeclared (set_bound k e v bs)
    unfolding set_bound
    set_bound-IsDeclared k e v [] h hs = (h, tt)
    set_bound-IsDeclared k e v ((j, b) ∷ bs) h hs = elim (Bool-cases (j == k)) [
      | inl here ↦ rw here hs
      | inr there ↦ rw there (hs.0, set_bound-IsDeclared k e v bs h hs.1)
    ]

    column_filter-WellFormed :
        (k v : String) (w : Where) → WellFormed w → WellFormed (column_filter pg t k v w)
    unfolding column_filter Declared
    column_filter-WellFormed k v w f = elim (Bool-cases (is_filterable t k)) [
      | inr unknown ↦ rw (unknown, column_filter) f
      | inl known ↦ elim (Bool-cases (v == null_filter_value)) [
        | inl blank ↦ rw (known, column_filter, blank) (add-WellFormed (is_blank k) w known f)
        | inr value ↦
            rw (known, column_filter, value)
              (add-WellFormed (typed_condition pg k v (type_of t k)) w
                (typed_condition-Declared k v (type_of t k) known) f)
      ]
    ]

    range_filter-WellFormed :
        (k v : String) (w : Where) (m : Option (String × Edge))
        → WellFormed w
        → WellFormed (elim m [
          | some (base, e) ↦
              if is_filterable t base && is_date (type_of t base)
              then record w { bounds = set_bound base e v w.bounds }
              else w
          | none ↦ column_filter pg t k v w
        ])
    range_filter-WellFormed k v w none f = column_filter-WellFormed k v w f
    range_filter-WellFormed k v w (some (base, e)) f =
        elim (Bool-cases (is_filterable t base && is_date (type_of t base))) [
          | inl known ↦ rw known (record {
            conditions = f.conditions;
            bounds = set_bound-IsDeclared base e v w.bounds known f.bounds;
          })
          | inr unknown ↦ rw unknown f
        ]

    apply_filter-WellFormed :
        (k v : String) (w : Where) → WellFormed w → WellFormed (apply_filter pg t k v w)
    unfolding apply_filter Declared
    apply_filter-WellFormed k v w f = elim (Bool-cases (v == "")) [
      | inl b ↦ rw (b, apply_filter) f
      | inr a ↦ elim (Bool-cases (k == "_writeStatus")) [
        | inl b ↦ rw (a, b, apply_filter) (add-WellFormed (write_status_is v) w tt f)
        | inr a1 ↦ elim (Bool-cases (k == "_submissionStatus")) [
          | inl b ↦ rw (a, a1, b, apply_filter) (add-WellFormed (submission_status_is v) w tt f)
          | inr a2 ↦ elim (Bool-cases (k == "_updatedAt_from")) [
            | inl b ↦ rw (a, a1, a2, b, apply_filter) (add-WellFormed (updated from v) w tt f)
            | inr a3 ↦ elim (Bool-cases (k == "_updatedAt_until")) [
              | inl b ↦
                  rw (a, a1, a2, a3, b, apply_filter) (add-WellFormed (updated until v) w tt f)
              | inr a4 ↦
                  rw (a, a1, a2, a3, a4, apply_filter)
                    (range_filter-WellFormed k v w (range_match k) f)
            ]
          ]
        ]
      ]
    ]

    apply_each-WellFormed :
        (fs : List (String × String)) (w : Where) → WellFormed w → WellFormed (apply_each pg t fs w)
    unfolding apply_each
    apply_each-WellFormed [] w f = f
    apply_each-WellFormed ((k, v) ∷ fs) w f =
        apply_each-WellFormed fs (apply_filter pg t k v w) (apply_filter-WellFormed k v w f)

    edge_condition-Declared :
        (e : Edge) (k : String) (v : Option String)
        → (is_filterable t k && is_date (type_of t k)) ≡ true
        → All Declared (edge_condition e k v)
    unfolding Declared
    edge_condition-Declared e k none h = tt
    edge_condition-Declared e k (some v) h = (h, tt)

    bound_conditions-Declared :
        (bs : Bounds) → All IsDeclared bs → All Declared (bound_conditions bs)
    unfolding bound_conditions
    bound_conditions-Declared [] h = tt
    bound_conditions-Declared ((k, b) ∷ bs) h =
        All-append Declared (edge_condition from k b.0 ++ edge_condition until k b.1) _
          (All-append Declared (edge_condition from k b.0) _
            (edge_condition-Declared from k b.0 h.0) (edge_condition-Declared until k b.1 h.0))
          (bound_conditions-Declared bs h.1)

    -- Whatever filters a request carries, each condition that they add reads a column of the row
    -- itself or a column that the template declares as filterable, and a bound on dates a filterable
    -- column that holds dates.
    pub apply_filters-Declared :
        (fs : List (String × String)) → All Declared (apply_filters pg t fs)
    unfolding apply_filters
    apply_filters-Declared fs =
        let w =
          apply_each-WellFormed fs (record { conditions = []; bounds = [] })
            (record { conditions = tt; bounds = tt }) in
        All-append Declared _ _ w.conditions (bound_conditions-Declared _ w.bounds)
