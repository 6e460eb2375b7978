-- ===== src/Tokens/Rotation.antt =====
-- What a rotation of the token does to the old one, and who gets through the guard.
use yalia_sii.Prelude.{
  ℕ, ◌+◌, String, ◌≡◌, refl, ap, ◌⊎◌, inl, inr, Bool, true, false, not, ◌&&◌, ◌||◌, Option, none,
  some, ◌==◌, ltb, lt→ltb, arith, Bool-cases,
}
use yalia_sii.Http.{ok, value_of}
use yalia_sii.Tokens.{
  TokenState, Tokens, on_module_init, grace_ms, set, has_token, accepts, accepts_previous, is_set,
  is_env, can_activate,
}

open_window : (now : ℕ) → ltb 0 (now + grace_ms) ≡ true
open_window now = lt→ltb 0 (now + grace_ms) (omega arith)

-- The tokens that are accepted while the rotated token is held: the new one, and within the ten
-- minutes the one before it.
abbrev pub accepted_of : String → String → ℕ → ℕ → String → Bool
accepted_of token previous rotated now p =
    p == token || (not (previous == "") && ltb now (rotated + grace_ms) && p == previous)

-- After a rotation, at once and after a restart, exactly two tokens are accepted: the new one at any
-- time, and the one it replaced for ten minutes. Every older token is refused at once, also within
-- its own ten minutes. `p` is not empty, and a token was held before.
pub set-accepts :
    (s : Tokens) (h : TokenState) (token : String) (issued_at rotated now : ℕ) (p : String)
    → s.held ≡ some h
    → (p == "") ≡ false
    → (accepts (some p) now (set token issued_at rotated s)
        ≡ accepted_of token h.token rotated now p)
      × (accepts (some p) now (on_module_init (set token issued_at rotated s))
          ≡ accepted_of token h.token rotated now p)
unfolding accepts accepts_previous set on_module_init
set-accepts s h token issued_at rotated now p held shown = (
  rw (held, shown) (ground (arith, open_window rotated)),
  rw (held, shown) (ground (arith, open_window rotated)),
)

-- The guard lets a request through only if nothing is configured outside production, or its token is
-- accepted, or it is the token of the environment.
pub can_activate-safe :
    (production : Bool) (env_token provided : Option String) (now : ℕ) (s : Tokens)
    → can_activate production env_token provided now s ≡ ok true
    → ((production ≡ false) × (has_token s ≡ false) × (is_set env_token ≡ false))
      ⊎ ((accepts provided now s ≡ true) ⊎ (is_env env_token provided ≡ true))
unfolding can_activate
can_activate-safe production env_token provided now s e =
    elim (Bool-cases (not (has_token s) && not (is_set env_token))) [
      | inl bare ↦ elim (Bool-cases production) [
        | inl live ↦ cc (ap value_of (rw (bare, live, can_activate) at e))
        | inr dev ↦ inl (dev, ground (arith, bare), ground (arith, bare))
      ]
      | inr guarded ↦ elim (Bool-cases (accepts provided now s)) [
        | inl known ↦ inr (inl known)
        | inr unknown ↦ elim (Bool-cases (is_env env_token provided)) [
          | inl env ↦ inr (inr env)
          | inr other ↦ cc (ap value_of e, closed guarded unknown other)
        ]
      ]
    ]
  where
    closed :
        (not (has_token s) && not (is_set env_token)) ≡ false
        → accepts provided now s ≡ false
        → is_env env_token provided ≡ false
        → value_of (can_activate production env_token provided now s) ≡ none
    closed guarded unknown other = elim (Bool-cases (is_set provided)) [
      | inl given ↦ rw (guarded, can_activate, given, unknown, other) (ground arith)
      | inr missing ↦ rw (guarded, can_activate, missing) refl
    ]
