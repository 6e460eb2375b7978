-- ===== src/Http.antt =====
-- What a request handler answers: its value, or the exception that it throws.
use yalia_sii.Prelude.{◌≡◌, refl, ap, Option, none, some}

pub data Reply {ℓ} (A : Type ℓ) : Type ℓ where
  ok : A → Reply A
  bad_request : Reply A
  not_found : Reply A
  unauthorized : Reply A
  failed : Reply A

infixl 5 ◌>>=◌
abbrev pub ◌>>=◌ {ℓ κ} : {A : Type ℓ} {B : Type κ} → Reply A → (A → Reply B) → Reply B
ok a >>= f = f a
bad_request >>= f = bad_request
not_found >>= f = not_found
unauthorized >>= f = unauthorized
failed >>= f = failed

-- An error of the code below, which is not one of the framework's exceptions.
abbrev pub or_failed {ℓ} : {A : Type ℓ} → Option A → Reply A
or_failed none = failed
or_failed (some a) = ok a

abbrev pub value_of {ℓ} : {A : Type ℓ} → Reply A → Option A
value_of (ok a) = some a
value_of _ = none

abbrev pub value_or : {A : Type 0} → A → Reply A → A
value_or a (ok b) = b
value_or a _ = a

pub ok-injective : {A : Type 0} (a b : A) → ok a ≡ ok b → a ≡ b
ok-injective a b e = ap (value_or a) e

-- A handler that answers with a value has gone through both of its parts.
pub both_answer :
    {A B : Type 0} (first : Reply A) (then_do : A → Reply B) (answer : B)
    → (first >>= then_do) ≡ ok answer
    → (got : A) × (first ≡ ok got) × (then_do got ≡ ok answer)
both_answer bad_request then_do answer e = cc
both_answer not_found then_do answer e = cc
both_answer unauthorized then_do answer e = cc
both_answer failed then_do answer e = cc
both_answer (ok got) then_do answer e = (got, refl, e)
