-- ===== src/Tokens/Tests.antt =====
-- A rotation and a request at concrete tokens.
use yalia_sii.Prelude.{◌≡◌, ◌⊎◌, refl, true, false, none, some}
use yalia_sii.Http.{ok}
use yalia_sii.Tokens.{
  TokenState, Tokens, on_module_init, set, has_token, accepts, is_set, is_env, can_activate,
}
use yalia_sii.Tokens.Rotation.{accepted_of, set-accepts, can_activate-safe}

abbrev old : TokenState
old = record { token = "old"; issued_at = 1; previous_token = none; previous_until = none }

abbrev before : Tokens
before = record { stored = some old; held = some old }

-- The old token, one minute after the rotation.
set-accepts_example :
    (accepts (some "old") 70000 (set "new" 2 10000 before)
      ≡ accepted_of "new" "old" 10000 70000 "old")
    × (accepts (some "old") 70000 (on_module_init (set "new" 2 10000 before))
        ≡ accepted_of "new" "old" 10000 70000 "old")
set-accepts_example = set-accepts before old "new" 2 10000 70000 "old" refl refl

admitted : can_activate true none (some "old") 5 before ≡ ok true
unfolding can_activate accepts
admitted = refl

can_activate-safe_example :
    ((true ≡ false) × (has_token before ≡ false) × (is_set none ≡ false))
    ⊎ ((accepts (some "old") 5 before ≡ true) ⊎ (is_env none (some "old") ≡ true))
can_activate-safe_example = can_activate-safe true none (some "old") 5 before admitted
