-- ===== src/Cron/Flights.antt =====
-- The sweeps in flight, and the set that the supervisor keeps of them.
use yalia_sii.Prelude.{
  ℕ, ◌+◌, ◌-◌, ◌*◌, ltb, String, Bool, true, false, not, ◌≡◌, refl, sym, ap, ◌∙◌, List, [], ◌∷◌,
  ◌++◌, ◌==◌, if◌then◌else◌, has, keep, inl, inr, Bool-cases, arith, eq_iff,
}
use yalia_sii.Connections.{list_write_cron_connections}
use yalia_sii.Cron.{
  WriteCron, dispatch_one, last_run_of, dispatch_due, remove_one, settle_sweep, SweepStep, begin,
  overlap, go_on, give_up, end_sweep, SweepReach, start, step,
}

unfoldable pub flights : String → List String → ℕ
flights x [] = 0
flights x (i ∷ is) = (if i == x then 1 else 0) + flights x is

-- One sweep of a connection that is in the set, and none of another.
unfoldable pub IsSingle : WriteCron → Type 0
unfolding flights
IsSingle s = (id : String) → flights id s.in_flight ≡ (if has id s.running then 1 else 0)

flights-append :
    (x i : String) (is : List String)
    → flights x (is ++ i ∷ []) ≡ flights x is + (if i == x then 1 else 0)
unfolding flights
flights-append x i [] = ground arith
flights-append x i (j ∷ is) = ground (arith, flights-append x i is)

flights-remove_one :
    (x : String) (is : List String) → flights x (remove_one x is) ≡ flights x is - 1
unfolding flights remove_one
flights-remove_one x [] = refl
flights-remove_one x (j ∷ is) = ground (arith, flights-remove_one x is)

flights-remove_one-other :
    (x i : String) (is : List String) → i == x ≡ false → flights x (remove_one i is) ≡ flights x is
unfolding flights remove_one
flights-remove_one-other x i [] h = refl
flights-remove_one-other x i (j ∷ is) h =
    ground (arith, flights-remove_one-other x i is h, eq_iff j i, eq_iff i x, eq_iff j x)

has-keep : (x : String) (is : List String) → has x (keep (λ i. not (i == x)) is) ≡ false
has-keep x [] = refl
has-keep x (j ∷ is) = ground (arith, has-keep x is)

has-keep-other :
    (x i : String) (is : List String)
    → i == x ≡ false
    → has x (keep (λ j. not (j == i)) is) ≡ has x is
has-keep-other x i [] h = refl
has-keep-other x i (j ∷ is) h =
    ground (arith, has-keep-other x i is h, eq_iff j i, eq_iff i x, eq_iff j x)

started :
    (id x : String) (running in_flight : List String)
    → has id running ≡ false
    → flights x in_flight ≡ (if has x running then 1 else 0)
    → flights x (in_flight ++ id ∷ []) ≡ (if has x (id ∷ running) then 1 else 0)
started id x running in_flight free single = elim (Bool-cases (id == x)) [
  | inr other ↦ ground (arith, flights-append x id in_flight)
  | inl same ↦
      let here : has x running ≡ false = rw (← (eq_iff id x).0 same) free in
      ground (arith, flights-append x id in_flight)
]

less_one : (b : Bool) → (if b then 1 else 0) - 1 ≡ 0
less_one true = refl
less_one false = refl

dispatch_one-IsSingle :
    (now : ℕ) (c : String × ℕ) (s : WriteCron) → IsSingle s → IsSingle (dispatch_one now c s)
unfolding dispatch_one IsSingle
dispatch_one-IsSingle now (id, sec) s single x = elim (Bool-cases (has id s.running)) [
  | inl taken ↦ rw (dispatch_one, taken) (single x)
  | inr free ↦ elim (Bool-cases (ltb (now - last_run_of id s.last_run) (sec * 1000))) [
    | inl early ↦ rw (dispatch_one, free, early) (single x)
    | inr due ↦ rw (dispatch_one, free, due) (started id x s.running s.in_flight free (single x))
  ]
]

dispatch_due-IsSingle :
    (now : ℕ) (conns : List (String × ℕ)) (s : WriteCron)
    → IsSingle s
    → IsSingle (dispatch_due now conns s)
unfolding dispatch_due
dispatch_due-IsSingle now [] s single = single
dispatch_due-IsSingle now (c ∷ conns) s single =
    dispatch_due-IsSingle now conns (dispatch_one now c s) (dispatch_one-IsSingle now c s single)

settle_sweep-IsSingle : (id : String) (s : WriteCron) → IsSingle s → IsSingle (settle_sweep id s)
unfolding settle_sweep IsSingle
settle_sweep-IsSingle id s single x = elim (Bool-cases (id == x)) [
  | inr other ↦
      flights-remove_one-other x id s.in_flight other
      ∙ single x
      ∙ ap (λ b. if b then 1 else 0) (sym (has-keep-other x id s.running other))
  | inl same ↦
      let e : id ≡ x = (eq_iff id x).0 same in
      rw (← e, has-keep id s.running)
        (flights-remove_one id s.in_flight
          ∙ ap (λ n. n - 1) (single id)
          ∙ less_one (has id s.running))
]

SweepStep-IsSingle : (s s' : WriteCron) → SweepStep s s' → IsSingle s → IsSingle s'
unfolding IsSingle
SweepStep-IsSingle s s' (begin _ _ idle e) single = rw e single
SweepStep-IsSingle s s' (overlap _ _ busy e) single = rw e single
SweepStep-IsSingle s s' (give_up _ _ busy e) single = rw e single
SweepStep-IsSingle s s' (go_on now connections _ _ busy e) single =
    rw e (dispatch_due-IsSingle now (list_write_cron_connections connections) s single)
SweepStep-IsSingle s s' (end_sweep id _ _ there e) single = rw e (settle_sweep-IsSingle id s single)

-- At any time a connection has one sweep in flight where the set of the supervisor holds it, and
-- none where it does not, so that no two sweeps of a connection overlap.
pub SweepReach-single :
    (s : WriteCron)
    → SweepReach s
    → (id : String) → flights id s.in_flight ≡ (if has id s.running then 1 else 0)
unfolding flights IsSingle
SweepReach-single s start id = refl
SweepReach-single s (step s₀ _ reached next) id =
    SweepStep-IsSingle s₀ s next (SweepReach-single s₀ reached) id
