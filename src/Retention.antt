-- ===== src/Retention.antt =====
-- src/retention/retention-catalog.ts and the settings of src/retention/retention.service.ts: the
-- targets, getConfig, setConfig and the countdown of buildView. Labels and sizes are left out.
pub mod Execute
pub mod Ledger
pub mod Purge
pub mod Schedule
pub mod Settings
mod Tests
use yalia_sii.Prelude.{
  ℕ, ◌+◌, ◌-◌, ◌*◌, ◌/◌, ℤ, pos, negsuc, String, Bool, true, false, not, ◌&&◌, Option, none, some,
  List, [], ◌∷◌, map, ◌==◌, leb, if◌then◌else◌, any, find,
}
use yalia_sii.Http.{Reply, ok, bad_request, ◌>>=◌}

pub data RetentionExecutor : Type 0 where
  batched : String → String → RetentionExecutor
  drop_chunks : String → String → RetentionExecutor

pub record RetentionTargetDef : Type 0 where
  pub key : String
  pub default_retention_days : ℕ
  pub default_interval_days : ℕ
  pub min_retention_days : ℕ
  pub default_enabled : Bool
  pub read_only : Bool
  pub executor : Option RetentionExecutor

unfoldable pub trace_target : String → ℕ → RetentionExecutor → RetentionTargetDef
trace_target key days executor = record {
  key = key;
  default_retention_days = days;
  default_interval_days = 1;
  min_retention_days = 1;
  default_enabled = true;
  read_only = false;
  executor = some executor;
}

-- RETENTION_CATALOG
unfoldable pub retention_catalog : List RetentionTargetDef
unfolding trace_target
retention_catalog =
    trace_target "table_delete_events" 30 (batched "table_delete_events" "created_at")
    ∷ trace_target "domain_event_outbox" 14 (batched "domain_event_outbox" "drained_at")
    ∷ trace_target "table_write_runs" 30 (drop_chunks "table_write_runs" "created_at")
    ∷ record {
      key = "table_rows";
      default_retention_days = 0;
      default_interval_days = 0;
      min_retention_days = 0;
      default_enabled = false;
      read_only = true;
      executor = none;
    }
    ∷ []

unfoldable pub find_retention_target : String → Option RetentionTargetDef
unfolding retention_catalog
find_retention_target key = find (λ (t : RetentionTargetDef). t.key == key) retention_catalog

pub record RetentionSetting : Type 0 where
  pub target_key : String
  pub retention_days : ℕ
  pub interval_days : ℕ
  pub enabled : Bool
  pub last_run_at : Option ℕ

-- A patch; a number is none inside where it is not an integer.
pub record RetentionConfigPatch : Type 0 where
  pub retention_days : Option (Option ℤ)
  pub interval_days : Option (Option ℤ)
  pub enabled : Option Bool

unfoldable pub defaults : RetentionTargetDef → RetentionSetting
defaults d = record {
  target_key = d.key;
  retention_days = d.default_retention_days;
  interval_days = d.default_interval_days;
  enabled = d.default_enabled;
  last_run_at = none;
}

unfoldable pub get_config : RetentionTargetDef → List RetentionSetting → RetentionSetting
unfolding defaults
get_config d settings =
    if d.read_only
    then defaults d
    else elim (find (λ (s : RetentionSetting). s.target_key == d.key) settings) [
      | none ↦ defaults d
      | some s ↦ s
    ]

-- `settings.upsert(next, ['targetKey'])`: `f` keeps what `next` does not name.
unfoldable pub upsert :
    String
    → (RetentionSetting → RetentionSetting)
    → RetentionSetting
    → List RetentionSetting
    → List RetentionSetting
upsert key f fresh [] = fresh ∷ []
upsert key f fresh (s ∷ ss) = if s.target_key == key then f s ∷ ss else s ∷ upsert key f fresh ss

-- `!Number.isInteger(n) || n < least` throws.
unfoldable pub at_least : ℕ → ℕ → Option (Option ℤ) → Reply ℕ
at_least least current none = ok current
at_least least current (some none) = bad_request
at_least least current (some (some (pos n))) = if leb least n then ok n else bad_request
at_least least current (some (some (negsuc n))) = bad_request

abbrev pub or_current : Option Bool → Bool → Bool
or_current none b = b
or_current (some a) b = a

unfoldable pub store_config :
    RetentionTargetDef → ℕ → ℕ → Bool → List RetentionSetting → List RetentionSetting
unfolding upsert
store_config d days interval enabled settings =
    upsert d.key
      (λ s. record s { retention_days = days; interval_days = interval; enabled = enabled })
      (record {
        target_key = d.key;
        retention_days = days;
        interval_days = interval;
        enabled = enabled;
        last_run_at = none;
      })
      settings

unfoldable pub apply_patch :
    RetentionTargetDef
    → RetentionConfigPatch
    → List RetentionSetting
    → Reply (List RetentionSetting)
unfolding at_least store_config get_config
apply_patch d patch settings =
    let current = get_config d settings in
    at_least d.min_retention_days current.retention_days patch.retention_days >>= λ days.
    at_least 1 current.interval_days patch.interval_days >>= λ interval.
    ok (store_config d days interval (or_current patch.enabled current.enabled) settings)

unfoldable pub set_config :
    String → RetentionConfigPatch → List RetentionSetting → Reply (List RetentionSetting)
unfolding apply_patch find_retention_target
set_config key patch settings = elim (find_retention_target key) [
  | none ↦ bad_request
  | some d ↦ if d.read_only then bad_request else apply_patch d patch settings
]

abbrev pub day_ms : ℕ
day_ms = 86400000

-- The countdown of buildView: when the next purge is due, and in how many days.
unfoldable pub next_run_ms : ℕ → RetentionSetting → ℕ
next_run_ms now c = elim c.last_run_at [ none ↦ now | some t ↦ t + c.interval_days * day_ms ]

-- `Math.max(0, Math.ceil((nextRunMs - Date.now()) / DAY_MS))`
unfoldable pub days_until_next_purge : ℕ → RetentionSetting → ℕ
unfolding next_run_ms
days_until_next_purge now c = (next_run_ms now c - now + (day_ms - 1)) / day_ms
