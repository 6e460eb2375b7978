-- ===== src/Payload/Camel.antt =====
-- A key in camel case is never `internal_ref`, so no field of a row overwrites its reference.
use Prim.Native.Char.{Char, code}
use yalia_sii.Prelude.{
  ℕ, zero, suc, ◌-◌, ◌<◌, String, ◌≡◌, refl, ap, ◌∙◌, inl, inr, Bool, true, false, not, ◌&&◌, ◌||◌,
  none, [], ◌∷◌, ◌==◌, ◌=ℕ◌, all, ==_ne, arith, Bool-cases,
}
use yalia_sii.Json.{Json, Fields, end, field, Object, get, put, merge, get-put}
use yalia_sii.Sql.{is_lower}
use yalia_sii.Payload.{capitals, char_at, to_upper, camel, camel_fields}

-- Some `_` stands before a letter a-z.
has_snake : String → Bool
has_snake String.[] = false
has_snake (String.◌∷◌ c String.[]) = false
has_snake (String.◌∷◌ c (String.◌∷◌ d s)) =
    (code c =ℕ b'_' && is_lower (code d)) || has_snake (String.◌∷◌ d s)

starts_lower : String → Bool
starts_lower String.[] = false
starts_lower (String.◌∷◌ c s) = is_lower (code c)

no_lower : String → Bool
no_lower String.[] = true
no_lower (String.◌∷◌ c s) = not (is_lower (code c) || code c =ℕ b'_') && no_lower s

long : String → ℕ
long String.[] = 0
long (String.◌∷◌ c s) = suc (long s)

char_at-no_lower :
    (n : ℕ) (d : Char) (s : String)
    → no_lower s ≡ true
    → n < long s
    → (is_lower (code (char_at n d s)) || code (char_at n d s) =ℕ b'_') ≡ false
unfolding char_at no_lower long
char_at-no_lower n d String.[] h lt = absurd (omega (arith, lt))
char_at-no_lower zero d (String.◌∷◌ c s) h lt = ground arith
char_at-no_lower (suc n) d (String.◌∷◌ c s) h lt =
    char_at-no_lower n d s (ground arith) (omega arith)

to_upper-not_lower :
    (c : Char)
    → is_lower (code c) ≡ true
    → (is_lower (code (to_upper c)) || code (to_upper c) =ℕ b'_') ≡ false
unfolding to_upper capitals no_lower long
to_upper-not_lower c h = char_at-no_lower (code c - 97) c capitals refl (ground arith)

starts_lower-camel :
    (c : Char) (s : String)
    → is_lower (code c) ≡ false
    → starts_lower (camel (String.◌∷◌ c s)) ≡ false
unfolding camel starts_lower
starts_lower-camel c String.[] h = h
starts_lower-camel c (String.◌∷◌ d s) h = elim (Bool-cases (code c =ℕ b'_' && is_lower (code d))) [
  | inl hit ↦ rw (hit, starts_lower) (ground (arith, to_upper-not_lower d))
  | inr miss ↦ rw (miss, starts_lower) h
]

has_snake_cons :
    (c : Char) (s : String)
    → has_snake s ≡ false
    → (code c =ℕ b'_' && starts_lower s) ≡ false
    → has_snake (String.◌∷◌ c s) ≡ false
unfolding has_snake starts_lower
has_snake_cons c String.[] h g = refl
has_snake_cons c (String.◌∷◌ d s) h g = ground arith

has_snake-camel : (s : String) → has_snake (camel s) ≡ false
unfolding camel has_snake
has_snake-camel String.[] = refl
has_snake-camel (String.◌∷◌ c String.[]) = refl
has_snake-camel (String.◌∷◌ c (String.◌∷◌ d s)) =
    elim (Bool-cases (code c =ℕ b'_' && is_lower (code d))) [
      | inl hit ↦
          rw (hit, has_snake)
            (has_snake_cons (to_upper d) (camel s) (has_snake-camel s)
              (ground (arith, to_upper-not_lower d)))
      | inr miss ↦
          rw (miss, has_snake)
            (has_snake_cons c (camel (String.◌∷◌ d s)) (has_snake-camel (String.◌∷◌ d s))
              (ground (arith, starts_lower-camel d s)))
    ]

camel-not_ref : (k : String) → (camel k == "internal_ref") ≡ false
unfolding has_snake
camel-not_ref k = ==_ne (camel k) "internal_ref" (λ e. cc (has_snake-camel k, ap has_snake e))

-- No field of the object has the name `k`.
abbrev pub lacks : String → Object → Bool
lacks k o = all (λ e. not (e.0 == k)) o

lacks-put :
    (k j : String) (v : Json) (o : Object)
    → (j == k) ≡ false
    → lacks k o ≡ true
    → lacks k (put j v o) ≡ true
unfolding put
lacks-put k j v [] h g = ground arith
lacks-put k j v ((i, w) ∷ o) h g = ground (arith, lacks-put k j v o h)

pub camel_fields-lacks_ref :
    (fs : Fields) (seen : Object)
    → lacks "internal_ref" seen ≡ true
    → lacks "internal_ref" (camel_fields fs seen) ≡ true
unfolding camel_fields
camel_fields-lacks_ref end seen h = h
camel_fields-lacks_ref (field k v fs) seen h =
    camel_fields-lacks_ref fs _ (lacks-put "internal_ref" (camel k) _ seen (camel-not_ref k) h)

pub get-lacks : (k : String) (o : Object) → lacks k o ≡ true → get k o ≡ none
unfolding get
get-lacks k [] h = refl
get-lacks k ((j, v) ∷ o) h = ground (arith, get-lacks k o)

pub get-merge : (k : String) (o p : Object) → lacks k p ≡ true → get k (merge o p) ≡ get k o
unfolding merge
get-merge k o [] h = refl
get-merge k o ((j, v) ∷ p) h =
    get-merge k (put j v o) p (ground arith) ∙ ground (arith, get-put j k v o)
