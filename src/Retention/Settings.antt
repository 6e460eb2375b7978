-- ===== src/Retention/Settings.antt =====
-- Which settings of the targets are ever stored.
use yalia_sii.Prelude.{
  ℕ, ◌≤◌, ℤ, pos, negsuc, String, Bool, false, Option, none, some, List, [], ◌∷◌, ◌==◌, ◌≡◌, refl,
  sym, ap, subst, ◌∙◌, inl, inr, leb, leb→le, if◌then◌else◌, find, find-some, All, All-In, arith,
  eq_iff, Bool-cases, Option-cases,
}
use mathlib.Core.Option.{some-injective}
use yalia_sii.Http.{
  Reply, ok, bad_request, not_found, unauthorized, failed, value_or, ok-injective, both_answer,
}
use yalia_sii.Retention.{
  RetentionTargetDef, retention_catalog, trace_target, find_retention_target, RetentionSetting,
  RetentionConfigPatch, defaults, get_config, upsert, at_least, store_config, or_current,
  apply_patch, set_config,
}

-- The setting is one of a target that can be configured, and keeps to its bounds.
pub record Bounded (s : RetentionSetting) : Type 0 where
  pub target : RetentionTargetDef
  pub known : find_retention_target s.target_key ≡ some target
  pub configurable : target.read_only ≡ false
  pub days : target.min_retention_days ≤ s.retention_days
  pub interval : 1 ≤ s.interval_days

at_least-bounded :
    (least current n : ℕ) (o : Option (Option ℤ))
    → least ≤ current
    → at_least least current o ≡ ok n
    → least ≤ n
unfolding at_least
at_least-bounded least current n none h e = subst (λ m. least ≤ m) (ok-injective _ _ e) h
at_least-bounded least current n (some none) h e = cc
at_least-bounded least current n (some (some (pos k))) h e = elim (Bool-cases (leb least k)) [
  | inl fits ↦ subst (λ m. least ≤ m) (ok-injective _ _ (rw fits at e)) (leb→le least k fits)
  | inr low ↦ cc (rw low at e)
]
at_least-bounded least current n (some (some (negsuc k))) h e = cc

-- What the catalog says of a target that can be configured.
abbrev HasDefaults : RetentionTargetDef → Type 0
HasDefaults d =
    d.read_only ≡ false
    → (d.min_retention_days ≤ d.default_retention_days) × (1 ≤ d.default_interval_days)

catalog-HasDefaults : All HasDefaults retention_catalog
unfolding retention_catalog trace_target
catalog-HasDefaults = (
  λ e. (omega arith, omega arith),
  (λ e. (omega arith, omega arith), (λ e. (omega arith, omega arith), (λ e. cc, tt))),
)

find_retention_target-key :
    (key : String) (d : RetentionTargetDef)
    → find_retention_target key ≡ some d
    → HasDefaults d × (d.key ≡ key)
unfolding find_retention_target
find_retention_target-key key d e =
    let (m, named) = find-some (λ (t : RetentionTargetDef). t.key == key) retention_catalog d e in
    (All-In HasDefaults d retention_catalog catalog-HasDefaults m, (eq_iff d.key key).0 named)

module _ (key : String) (d : RetentionTargetDef) (found : find_retention_target key ≡ some d)
    (free : d.read_only ≡ false) where
  -- The days and the interval keep to the bounds of this target.
  abbrev InBounds : RetentionSetting → Type 0
  InBounds s = (d.min_retention_days ≤ s.retention_days) × (1 ≤ s.interval_days)

  Bounded-InBounds : (s : RetentionSetting) → Bounded s → s.target_key ≡ key → InBounds s
  Bounded-InBounds s b named =
      let same : b.target ≡ d =
        some-injective _ _ (sym b.known ∙ ap find_retention_target named ∙ found) in
      (
        subst (λ (t : RetentionTargetDef). t.min_retention_days ≤ s.retention_days) same b.days,
        b.interval,
      )

  get_config-InBounds :
      (settings : List RetentionSetting) → All Bounded settings → InBounds (get_config d settings)
  unfolding get_config defaults
  get_config-InBounds settings h =
      let (has_defaults, named) = find_retention_target-key key d found in
      elim (Option-cases (find (λ (s : RetentionSetting). s.target_key == d.key) settings)) [
        | inl unset ↦ rw (free, get_config, unset, defaults) (has_defaults free)
        | inr (s, set) ↦
            let (m, same) =
              find-some (λ (q : RetentionSetting). q.target_key == d.key) settings s set in
            rw (free, get_config, set)
              (Bounded-InBounds s (All-In Bounded s settings h m)
                ((eq_iff s.target_key d.key).0 same ∙ named))
      ]

  InBounds-Bounded : (s : RetentionSetting) → s.target_key ≡ key → InBounds s → Bounded s
  InBounds-Bounded s named (days, interval) = record {
    target = d;
    known = ap find_retention_target named ∙ found;
    configurable = free;
    days = days;
    interval = interval;
  }

  upsert-Bounded :
      (days interval : ℕ) (enabled : Bool) (settings : List RetentionSetting)
      → d.min_retention_days ≤ days
      → 1 ≤ interval
      → All Bounded settings
      → All Bounded (store_config d days interval enabled settings)
  unfolding store_config upsert
  upsert-Bounded days interval enabled [] p q h =
      (InBounds-Bounded _ (find_retention_target-key key d found).1 (p, q), tt)
  upsert-Bounded days interval enabled (s ∷ ss) p q h = elim (Bool-cases (s.target_key == d.key)) [
    | inl hit ↦
        let named = (eq_iff s.target_key d.key).0 hit ∙ (find_retention_target-key key d found).1 in
        rw (hit, store_config, upsert) (InBounds-Bounded _ named (p, q), h.1)
    | inr miss ↦
        rw (miss, store_config, upsert) (h.0, upsert-Bounded days interval enabled ss p q h.1)
  ]

  apply_patch-Bounded :
      (patch : RetentionConfigPatch) (settings after : List RetentionSetting)
      → apply_patch d patch settings ≡ ok after
      → All Bounded settings
      → All Bounded after
  unfolding apply_patch
  apply_patch-Bounded patch settings after e h =
      let current = get_config d settings in
      let (days_ok, interval_ok) = get_config-InBounds settings h in
      let (days, picked, rest) =
        both_answer (at_least d.min_retention_days current.retention_days patch.retention_days) _ _
          e in
      let (interval, chosen, stored) =
        both_answer (at_least 1 current.interval_days patch.interval_days) _ _ rest in
      subst (All Bounded) (ok-injective _ _ stored) (
        upsert-Bounded days interval (or_current patch.enabled current.enabled) settings
          (at_least-bounded _ _ days patch.retention_days days_ok picked)
          (at_least-bounded _ _ interval patch.interval_days interval_ok chosen) h)

set_config-keeps :
    (key : String) (patch : RetentionConfigPatch) (settings after : List RetentionSetting)
    → All Bounded settings
    → set_config key patch settings ≡ ok after
    → All Bounded after
unfolding set_config
set_config-keeps key patch settings after h e = elim (Option-cases (find_retention_target key)) [
  | inl unknown ↦ cc (rw (unknown, set_config) at e)
  | inr (d, found) ↦ elim (Bool-cases d.read_only) [
    | inl fixed ↦ cc (rw (found, set_config, fixed) at e)
    | inr free ↦
        apply_patch-Bounded key d found free patch settings after
          (subst (λ b. (if b then bad_request else apply_patch d patch settings) ≡ ok after) free
            (subst
              (λ o.
                (elim o as (λ _. Reply (List RetentionSetting)) [
                  | none ↦ bad_request
                  | some t ↦ if t.read_only then bad_request else apply_patch t patch settings
                ])
                ≡ ok after)
              found e))
          h
  ]
]

-- Patches one after the other; one that is refused changes nothing.
unfoldable pub set_configs :
    List (String × RetentionConfigPatch) → List RetentionSetting → List RetentionSetting
set_configs [] settings = settings
set_configs ((key, patch) ∷ patches) settings =
    set_configs patches (value_or settings (set_config key patch settings))

set_configs-keeps :
    (patches : List (String × RetentionConfigPatch)) (settings : List RetentionSetting)
    → All Bounded settings
    → All Bounded (set_configs patches settings)
unfolding set_configs
set_configs-keeps [] settings h = h
set_configs-keeps ((key, patch) ∷ patches) settings h =
    set_configs-keeps patches (value_or settings (set_config key patch settings)) (
      stored (set_config key patch settings)
        (λ after e. set_config-keeps key patch settings after h e))
  where
    stored :
        (reply : Reply (List RetentionSetting))
        → ((after : List RetentionSetting) → reply ≡ ok after → All Bounded after)
        → All Bounded (value_or settings reply)
    stored (ok after) f = f after refl
    stored bad_request f = h
    stored not_found f = h
    stored unauthorized f = h
    stored failed f = h

-- Whatever patches arrive, one after the other, from when no setting is stored: each stored setting
-- is one of a target that can be configured, keeps at least the days that its target demands, and
-- has an interval of a day at least.
pub set_configs-Bounded :
    (patches : List (String × RetentionConfigPatch)) → All Bounded (set_configs patches [])
set_configs-Bounded patches = set_configs-keeps patches [] tt
