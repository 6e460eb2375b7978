-- ===== src/Connections/Secret.antt =====
-- What the callback page of a connection shows, and what the receiver of callbacks looks up.
use yalia_sii.Prelude.{
  suc, String, true, false, ◌≡◌, refl, ap, some, List, [], ◌∷◌, ◌==◌, find, inl, inr, ◌⊎◌,
  Bool-cases, Option-cases,
}
use mathlib.Core.Option.{some-injective}
use yalia_sii.Json.{str}
use yalia_sii.Crypto.{encrypt_json, decrypt_json}
use yalia_sii.Crypto.Opens.{IsCipher, decrypt_json-encrypt_json, encrypt_json-shown}
use yalia_sii.Sql.{is_uuid}
use yalia_sii.Http.{ok, not_found, ok-injective, both_answer}
use yalia_sii.Connections.{
  SourceConnection, Vault, Host, SiiCallbackInfo, save_where, find_by_id, secret_text,
  build_callback_url, rotate_callback_secret, get_callback_info, find_callback_secret,
}

pub find-save_where :
    (id : String) (f : SourceConnection → SourceConnection) (cs : List SourceConnection)
    (c : SourceConnection)
    → ((o : SourceConnection) → (f o).id ≡ o.id)
    → find (λ (o : SourceConnection). o.id == id) cs ≡ some c
    → find (λ (o : SourceConnection). o.id == id) (save_where id f cs) ≡ some (f c)
unfolding save_where
find-save_where id f [] c keeps h = cc
find-save_where id f (o ∷ cs) c keeps h = elim (Bool-cases (o.id == id)) [
  | inl hit ↦
      let same : ((f o).id == id) ≡ true = rw (keeps o) hit in
      let first : o ≡ c = some-injective o c (rw hit at h) in
      rw (hit, same) (ap (λ x. some (f x)) first)
  | inr miss ↦ rw (miss, miss) (find-save_where id f cs c keeps (rw miss at h))
]

find_by_id-found :
    (id : String) (v : Vault) (c : SourceConnection)
    → is_uuid id ≡ true
    → find (λ (o : SourceConnection). o.id == id) v.connections ≡ some c
    → find_by_id id v ≡ ok c
unfolding find_by_id
find_by_id-found id v c good found = rw (good, found) refl

find_by_id-answers :
    (id : String) (v : Vault)
    → (find_by_id id v ≡ not_found)
      ⊎ ((c : SourceConnection) × (is_uuid id ≡ true)
          × (find (λ (o : SourceConnection). o.id == id) v.connections ≡ some c))
unfolding find_by_id
find_by_id-answers id v = elim (Bool-cases (is_uuid id)) [
  | inr bad ↦ inl (rw bad refl)
  | inl good ↦ elim (Option-cases (find (λ (o : SourceConnection). o.id == id) v.connections)) [
    | inl missing ↦ inl (rw (good, missing) refl)
    | inr (c, found) ↦ inr (c, good, found)
  ]
]

find_callback_secret-found :
    (host : Host) (id : String) (v : Vault) (c : SourceConnection) (secret : String)
    → is_uuid id ≡ true
    → find (λ (o : SourceConnection). o.id == id) v.connections ≡ some c
    → c.sii_callback_secret_encrypted == "" ≡ false
    → secret_text (decrypt_json host.cipher c.sii_callback_secret_encrypted) ≡ ok secret
    → find_callback_secret host id v ≡ ok (some secret)
unfolding find_callback_secret
find_callback_secret-found host id v c secret good found full opened =
    rw (good, found, full, opened) refl

module _ (host : Host) (lawful : IsCipher host.cipher) where
  rotate_callback_secret-found :
      (id : String) (v : Vault) (info : SiiCallbackInfo) (c : SourceConnection)
      → is_uuid id ≡ true
      → find (λ (o : SourceConnection). o.id == id) v.connections ≡ some c
      → (rotate_callback_secret host id v).1 ≡ ok info
      → find_callback_secret host id (rotate_callback_secret host id v).0 ≡ ok (some info.secret)
  unfolding rotate_callback_secret build_callback_url secret_text
  rotate_callback_secret-found id v info c good found h =
      let e = find_by_id-found id v c good found in
      let told = ok-injective _ info (rw (rotate_callback_secret, e) at h) in
      let renew : SourceConnection → SourceConnection = λ o. record o {
        sii_callback_secret_encrypted =
            encrypt_json host.cipher (suc v.drawn) (str (host.random_hex v.drawn));
      } in
      rw (rotate_callback_secret, e, ← told)
        (find_callback_secret-found host id _ (renew c) (host.random_hex v.drawn) good
          (find-save_where id renew v.connections c (λ o. refl) found)
          (encrypt_json-shown host.cipher lawful (suc v.drawn) (str (host.random_hex v.drawn)))
          (rw (decrypt_json-encrypt_json host.cipher lawful (suc v.drawn) (host.random_hex v.drawn))
            refl))

  pub get_callback_info-shown :
      (id : String) (v : Vault) (info : SiiCallbackInfo)
      → (get_callback_info host id v).1 ≡ ok info
      → find_callback_secret host id (get_callback_info host id v).0 ≡ ok (some info.secret)
  unfolding get_callback_info
  get_callback_info-shown id v info h = elim (find_by_id-answers id v) [
    | inl missing ↦
        (let none_told : not_found ≡ ok info = rw (get_callback_info, missing) at h in cc)
    | inr (c, good, found) ↦
        let e = find_by_id-found id v c good found in
        elim (Bool-cases (c.sii_callback_secret_encrypted == "")) [
          | inl empty ↦
              rw (get_callback_info, e, empty)
                (rotate_callback_secret-found id v info c good found
                  (rw (get_callback_info, e, empty) at h))
          | inr full ↦
              let (secret, opened, shown) =
                both_answer (secret_text (decrypt_json host.cipher c.sii_callback_secret_encrypted))
                  _ info (rw (get_callback_info, e, full) at h) in
              rw (get_callback_info, e, full, ← ok-injective _ info shown)
                (find_callback_secret-found host id v c secret good found full opened)
        ]
  ]
