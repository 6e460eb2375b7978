-- ===== src/Outbox/Drain.antt =====
-- What a drain publishes.
use mathlib.Core.List.{append_assoc, append-nil}
use yalia_sii.Prelude.{
  ℕ, zero, suc, ◌≤◌, ◌<◌, String, ◌≡◌, refl, sym, subst, ◌∙◌, ◌⊎◌, inl, inr, Bool, true, false,
  if◌then◌else◌, List, [], ◌∷◌, ◌++◌, leb, keep, take, length, length-take, In, All, arith,
  Bool-cases,
}
use yalia_sii.Outbox.{
  DomainEventOutbox, HubEventJob, Spool, max_attempts, is_pending, insert_by_spool, by_spool,
  get_pending, to_envelope, Delivery, refused, added, unmarked, aborted, is_aborted, drain_item,
  drain_items, drain,
}

module _ (P : DomainEventOutbox → Type 0) where
  All-insert_by_spool :
      (e : DomainEventOutbox) (es : List DomainEventOutbox)
      → P e
      → All P es
      → All P (insert_by_spool e es)
  unfolding insert_by_spool
  All-insert_by_spool e [] h hs = (h, tt)
  All-insert_by_spool e (f ∷ es) h hs = ground (arith, All-insert_by_spool e es h hs.1)

  All-by_spool : (es : List DomainEventOutbox) → All P es → All P (by_spool es)
  unfolding by_spool
  All-by_spool [] hs = tt
  All-by_spool (e ∷ es) hs = All-insert_by_spool e (by_spool es) hs.0 (All-by_spool es hs.1)

  All-take : (n : ℕ) (es : List DomainEventOutbox) → All P es → All P (take n es)
  All-take zero es hs = tt
  All-take (suc n) [] hs = tt
  All-take (suc n) (e ∷ es) hs = (hs.0, All-take n es hs.1)

-- The event stands in the spool, neither drained nor dead.
abbrev pub Waits : List DomainEventOutbox → DomainEventOutbox → Type 0
Waits es e = In e es × (is_pending e ≡ true)

All-Waits :
    (es rest : List DomainEventOutbox)
    → ((e : DomainEventOutbox) → In e rest → In e es)
    → All (Waits es) (keep is_pending rest)
All-Waits es [] f = tt
All-Waits es (e ∷ rest) f = elim (Bool-cases (is_pending e)) [
  | inl waits ↦ rw waits ((f e (inl refl), waits), All-Waits es rest (λ x m. f x (inr m)))
  | inr done ↦ rw done (All-Waits es rest (λ x m. f x (inr m)))
]

All-get_pending : (n : ℕ) (es : List DomainEventOutbox) → All (Waits es) (get_pending n es)
unfolding get_pending
All-get_pending n es =
    All-take (Waits es) n (by_spool (keep is_pending es))
      (All-by_spool (Waits es) (keep is_pending es) (All-Waits es es (λ e m. m)))

-- The envelope of an event that waits and has attempts left.
abbrev pub Publishable : List DomainEventOutbox → HubEventJob → Type 0
Publishable es j =
    (e : DomainEventOutbox) × Waits es e × (e.attempts < max_attempts) × (j ≡ to_envelope e)

-- The jobs that were added to a queue.
abbrev pub Publishes : List DomainEventOutbox → ℕ → List HubEventJob → List HubEventJob → Type 0
Publishes es n before after =
    (js : List HubEventJob) × (after ≡ before ++ js) × (length js ≤ n) × All (Publishable es) js

module _ (es : List DomainEventOutbox) where
  Publishes-cons :
      (n : ℕ) (j : HubEventJob) (before after : List HubEventJob)
      → Publishable es j
      → Publishes es n (before ++ j ∷ []) after
      → Publishes es (suc n) before after
  Publishes-cons n j before after p (js, same, le, h) =
      (j ∷ js, same ∙ append_assoc before (j ∷ []) js, omega (arith, le), (p, h))

  Publishes-more :
      (n : ℕ) (before after : List HubEventJob)
      → Publishes es n before after
      → Publishes es (suc n) before after
  Publishes-more n before after (js, same, le, h) = (js, same, omega (arith, le), h)

  drain_item-queue :
      (now : ℕ) (d : Delivery) (e : DomainEventOutbox) (s : Spool)
      → ((drain_item now d e s).queue ≡ s.queue)
        ⊎ (((drain_item now d e s).queue ≡ s.queue ++ to_envelope e ∷ [])
            × (e.attempts < max_attempts))
  unfolding drain_item
  drain_item-queue now (refused message) e s = ground arith
  drain_item-queue now added e s = elim (Bool-cases (leb max_attempts e.attempts)) [
    | inl spent ↦ inl (rw (spent, drain_item) refl)
    | inr left ↦ inr (rw (left, drain_item) refl, ground (arith, left))
  ]
  drain_item-queue now (unmarked message) e s = elim (Bool-cases (leb max_attempts e.attempts)) [
    | inl spent ↦ inl (rw (spent, drain_item) refl)
    | inr left ↦ inr (rw (left, drain_item) refl, ground (arith, left))
  ]
  drain_item-queue now (aborted true) e s = elim (Bool-cases (leb max_attempts e.attempts)) [
    | inl spent ↦ inl (rw (spent, drain_item) refl)
    | inr left ↦ inr (rw (left, drain_item) refl, ground (arith, left))
  ]
  drain_item-queue now (aborted false) e s = ground arith

  -- A turn alone publishes at most its event.
  drain_item-Publishes :
      (n now : ℕ) (d : Delivery) (e : DomainEventOutbox) (s : Spool)
      → Waits es e
      → Publishes es (suc n) s.queue (drain_item now d e s).queue
  drain_item-Publishes n now d e s waits = elim (drain_item-queue now d e s) [
    | inl same ↦ ([], same ∙ sym (append-nil s.queue), omega arith, tt)
    | inr (one, left) ↦ (to_envelope e ∷ [], one, omega arith, ((e, waits, left, refl), tt))
  ]

  either-Publishes :
      (n : ℕ) (before : List HubEventJob) (b : Bool) (one other : Spool)
      → Publishes es n before one.queue
      → Publishes es n before other.queue
      → Publishes es n before (if b then one else other).queue
  either-Publishes n before true one other f g = f
  either-Publishes n before false one other f g = g

  drain_items-Publishes :
      (now : ℕ) (how : String → Delivery) (items : List DomainEventOutbox) (s : Spool)
      → All (Waits es) items
      → Publishes es (length items) s.queue (drain_items now how items s).queue
  unfolding drain_items
  drain_items-Publishes now how [] s h = ([], sym (append-nil s.queue), omega arith, tt)
  drain_items-Publishes now how (e ∷ items) s h =
      let after = drain_item now (how e.id) e s in
      let rest = drain_items-Publishes now how items after h.1 in
      either-Publishes (suc (length items)) s.queue (is_aborted (how e.id)) after
        (drain_items now how items after)
        (drain_item-Publishes (length items) now (how e.id) e s h.0)
        (elim (drain_item-queue now (how e.id) e s) [
          | inl same ↦ Publishes-more (length items) s.queue _ (
              subst (λ q. Publishes es (length items) q (drain_items now how items after).queue)
                same rest)
          | inr (one, left) ↦
              Publishes-cons (length items) (to_envelope e) s.queue _ (e, h.0, left, refl)
                (subst (λ q. Publishes es (length items) q (drain_items now how items after).queue)
                  one rest)
        ])

-- A drain adds at most fifty jobs to the hub's queue, after those that are there, and each is the
-- envelope of an event that is spooled, neither drained nor dead, and has fewer than five attempts,
-- whatever the queue and the store refuse.
pub drain-Publishes :
    (now : ℕ) (how : String → Delivery) (s : Spool)
    → Publishes s.events 50 s.queue (drain now how s).queue
unfolding drain get_pending
drain-Publishes now how s =
    let (js, same, le, h) =
      drain_items-Publishes s.events now how (get_pending 50 s.events) s
        (All-get_pending 50 s.events) in
    (js, same, omega (arith, le, length-take 50 (by_spool (keep is_pending s.events))), h)
