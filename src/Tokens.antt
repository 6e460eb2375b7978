-- ===== src/Tokens.antt =====
-- src/core/auth: ProvisionedTokenService, which holds the token of the management API, and
-- MgmtTokenGuard, which asks for it. The state is what `onModuleInit` reads back from
-- `provisioned_secrets`, where every `set` puts it. A missing text is none.
pub mod Rotation
mod Tests
use yalia_sii.Prelude.{
  ℕ, ◌+◌, ◌*◌, String, Bool, true, false, not, ◌&&◌, ◌||◌, Option, none, some, ◌==◌, ltb,
  if◌then◌else◌, is_some,
}
use yalia_sii.Http.{Reply, ok, unauthorized}

pub record TokenState : Type 0 where
  pub token : String
  pub issued_at : ℕ
  pub previous_token : Option String
  pub previous_until : Option ℕ

-- One row of `provisioned_secrets`, and what is held in memory.
pub record Tokens : Type 0 where
  pub stored : Option TokenState
  pub held : Option TokenState

-- `onModuleInit`
unfoldable pub on_module_init : Tokens → Tokens
on_module_init s = elim s.stored [ none ↦ s | some row ↦ record s { held = some row } ]

abbrev pub grace_ms : ℕ
grace_ms = 10 * 60 * 1000

-- `previousToken ? Date.now() + GRACE_MS : undefined`
abbrev until_of : Option String → ℕ → Option ℕ
until_of none now = none
until_of (some p) now = if p == "" then none else some (now + grace_ms)

abbrev token_of : Option TokenState → Option String
token_of none = none
token_of (some s) = some s.token

unfoldable pub set : String → ℕ → ℕ → Tokens → Tokens
set token issued_at now s =
    let next : TokenState = record {
      token = token;
      issued_at = issued_at;
      previous_token = token_of s.held;
      previous_until = until_of (token_of s.held) now;
    } in
    record { stored = some next; held = some next }

abbrev pub has_token : Tokens → Bool
has_token s = is_some s.held

-- The previous token, while its window is open. A window that ends at 0 counts as none.
unfoldable pub accepts_previous : String → ℕ → TokenState → Bool
accepts_previous presented now s = elim s.previous_token [
  | none ↦ false
  | some p ↦
      not (p == "")
      && elim s.previous_until [ none ↦ false | some u ↦ ltb 0 u && ltb now u && presented == p ]
]

unfoldable pub accepts : Option String → ℕ → Tokens → Bool
unfolding accepts_previous
accepts presented now s = elim presented [
  | none ↦ false
  | some p ↦
      not (p == "")
      && elim s.held [ none ↦ false | some h ↦ p == h.token || accepts_previous p now h ]
]

abbrev pub is_set : Option String → Bool
is_set none = false
is_set (some t) = not (t == "")

abbrev pub is_env : Option String → Option String → Bool
is_env none p = false
is_env (some t) none = false
is_env (some t) (some p) = not (t == "") && p == t

-- `canActivate`
unfoldable pub can_activate : Bool → Option String → Option String → ℕ → Tokens → Reply Bool
unfolding accepts
can_activate production env_token provided now s =
    if not (has_token s) && not (is_set env_token)
    then (if production then unauthorized else ok true)
    else if not (is_set provided)
    then unauthorized
    else if has_token s && accepts provided now s
    then ok true
    else if is_env env_token provided
    then ok true
    else unauthorized
