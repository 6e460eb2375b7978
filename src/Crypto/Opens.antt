-- ===== src/Crypto/Opens.antt =====
-- What is encrypted can be decrypted.
use yalia_sii.Prelude.{
  ℕ, suc, ◌+◌, String, ◌≡◌, refl, sym, ap, false, some, List, [], ◌∷◌, ◌++◌, ◌==◌, length, take,
  drop, length-append, subst, ◌∙◌, inl, inr, Bool-cases, eq_iff, arith, ◌>>=◌,
}
use yalia_sii.Json.{Json, str}
use yalia_sii.Crypto.{Buffer, Cipher, iv_len, tag_len, encrypt_json, decrypt_json}

-- What Node and JSON document of their functions.
pub record IsCipher (c : Cipher) : Type 0 where
  pub ivs : (n : ℕ) → length (c.iv n) ≡ iv_len
  pub tags : (v p : Buffer) → length (c.seal v p).1 ≡ tag_len
  pub unseals : (v p : Buffer) → c.unseal v (c.seal v p).1 (c.seal v p).0 ≡ some p
  pub base64 : (b : Buffer) → c.from_base64 (c.to_base64 b) ≡ b
  pub base64_empty : c.from_base64 "" ≡ []
  pub utf8 : (s : String) → c.from_utf8 (c.to_utf8 s) ≡ s
  pub json : (s : String) → c.parse (c.stringify (str s)) ≡ some (str s)

take-append : {A : Type 0} (xs ys : List A) → take (length xs) (xs ++ ys) ≡ xs
take-append [] ys = refl
take-append (x ∷ xs) ys = ap (λ (r : List _). x ∷ r) (take-append xs ys)

drop-append : {A : Type 0} (xs ys : List A) → drop (length xs) (xs ++ ys) ≡ ys
drop-append [] ys = refl
drop-append (x ∷ xs) ys = drop-append xs ys

drop-append_both :
    {A : Type 0} (xs ys zs : List A) → drop (length xs + length ys) (xs ++ (ys ++ zs)) ≡ zs
drop-append_both [] ys zs =
    let same : length ys ≡ 0 + length ys = omega arith in
    subst (λ k. drop k (ys ++ zs) ≡ zs) same (drop-append ys zs)
drop-append_both (x ∷ xs) ys zs =
    let same : suc (length xs + length ys) ≡ suc (length xs) + length ys = omega arith in
    subst (λ k. drop k (x ∷ (xs ++ (ys ++ zs))) ≡ zs) same (drop-append_both xs ys zs)

module _ (c : Cipher) (lawful : IsCipher c) where
  -- The three parts of a buffer with an iv and a tag of the right lengths.
  parts :
      (v t e : Buffer)
      → length v ≡ iv_len
      → length t ≡ tag_len
      → (take iv_len (v ++ (t ++ e)) ≡ v)
        × (take tag_len (drop iv_len (v ++ (t ++ e))) ≡ t)
        × (drop (iv_len + tag_len) (v ++ (t ++ e)) ≡ e)
  parts v t e lv lt = (
    subst (λ k. take k (v ++ (t ++ e)) ≡ v) lv (take-append v (t ++ e)),
    subst (λ k. take tag_len (drop k (v ++ (t ++ e))) ≡ t) lv
        (subst (λ b. take tag_len b ≡ t) (sym (drop-append v (t ++ e)))
          (subst (λ k. take k (t ++ e) ≡ t) lt (take-append t e))),
    subst (λ k. drop (k + tag_len) (v ++ (t ++ e)) ≡ e) lv
        (subst (λ k. drop (length v + k) (v ++ (t ++ e)) ≡ e) lt (drop-append_both v t e)),
  )

  decrypt-parts :
      (v t e p b : Buffer) (s : String)
      → (take iv_len b ≡ v)
      → (take tag_len (drop iv_len b) ≡ t)
      → (drop (iv_len + tag_len) b ≡ e)
      → c.unseal v t e ≡ some p
      → c.from_utf8 p ≡ s
      → (c.unseal (take iv_len b) (take tag_len (drop iv_len b)) (drop (iv_len + tag_len) b)
          >>= λ plaintext. c.parse (c.from_utf8 plaintext))
        ≡ c.parse s
  decrypt-parts v t e p b s fv ft fe opened text = rw (fv, ft, fe, opened, text) refl

  -- A text that is encrypted comes back.
  pub decrypt_json-encrypt_json :
      (n : ℕ) (s : String) → decrypt_json c (encrypt_json c n (str s)) ≡ some (str s)
  unfolding decrypt_json encrypt_json
  decrypt_json-encrypt_json n s =
      let p = c.to_utf8 (c.stringify (str s)) in
      let v = c.iv n in
      let t = (c.seal v p).1 in
      let e = (c.seal v p).0 in
      let back = lawful.base64 (v ++ (t ++ e)) in
      let (fv, ft, fe) = parts v t e (lawful.ivs n) (lawful.tags v p) in
      decrypt-parts v t e p (c.from_base64 (c.to_base64 (v ++ (t ++ e)))) (c.stringify (str s))
        (ap (λ b. take iv_len b) back ∙ fv) (ap (λ b. take tag_len (drop iv_len b)) back ∙ ft)
        (ap (λ b. drop (iv_len + tag_len) b) back ∙ fe) (lawful.unseals v p)
        (lawful.utf8 (c.stringify (str s)))
      ∙ lawful.json s

  pub encrypt_json-shown : (n : ℕ) (j : Json) → encrypt_json c n j == "" ≡ false
  unfolding encrypt_json
  encrypt_json-shown n j =
      let p = c.to_utf8 (c.stringify j) in
      let b = c.iv n ++ ((c.seal (c.iv n) p).1 ++ (c.seal (c.iv n) p).0) in
      elim (Bool-cases (c.to_base64 b == "")) [
        | inr full ↦ full
        | inl empty ↦
            let none_left : b ≡ [] =
              sym (lawful.base64 b)
              ∙ ap c.from_base64 ((eq_iff (c.to_base64 b) "").0 empty)
              ∙ lawful.base64_empty in
            let count : length b ≡ 0 = ap (λ (x : Buffer). length x) none_left in
            absurd (
              omega (
                arith,
                count,
                lawful.ivs n,
                length-append (c.iv n) ((c.seal (c.iv n) p).1 ++ (c.seal (c.iv n) p).0),
              ))
      ]
