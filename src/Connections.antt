-- ===== src/Connections.antt =====
-- src/connections/source-connections.service.ts: the connections to external systems with their
-- encrypted credentials and callback secrets. A text that may be missing is "" where it is. The ids
-- are written as Postgres prints them.
pub mod Secret
mod Tests
use yalia_sii.Prelude.{
  ℕ, suc, String, Bool, true, false, not, ◌&&◌, ◌||◌, Option, none, some, List, [], ◌∷◌, ◌++◌, map,
  ◌==◌, ◌=ℕ◌, ltb, if◌then◌else◌, is_empty, any, find, keep,
}
use Prim.Native.Char.{code}
use yalia_sii.Json.{Json, null, bool, num, str, Object, get}
use yalia_sii.Crypto.{Cipher, encrypt_json, decrypt_json}
use yalia_sii.Sql.{is_uuid}
use yalia_sii.Rules.{or_value}
use yalia_sii.Loads.{◌⧺◌}
use yalia_sii.Http.{Reply, ok, bad_request, not_found, failed, ◌>>=◌, or_failed}

pub record SourceConnection : Type 0 where
  pub id : String
  pub name : String
  pub clave : String
  pub write_cron_interval_sec : Option ℕ
  pub concurrency : Option ℕ
  pub base_url : String
  pub credentials_encrypted : String
  pub default_headers : List (String × String)
  pub handshake : Option Json
  pub active : Bool
  pub sii_callback_secret_encrypted : String

pub record UpsertSourceConnectionDto : Type 0 where
  pub name : String
  pub clave : String
  pub write_cron_interval_sec : Option ℕ
  pub concurrency : Option ℕ
  pub base_url : String
  pub credentials : Option Object
  pub default_headers : Option (List (String × String))
  pub handshake : Option Json
  pub active : Option Bool

-- What serialize leaves of a connection.
pub record PublicConnection : Type 0 where
  pub id : String
  pub name : String
  pub clave : String
  pub write_cron_interval_sec : Option ℕ
  pub concurrency : Option ℕ
  pub base_url : String
  pub default_headers : List (String × String)
  pub handshake : Option Json
  pub active : Bool

unfoldable pub serialize : SourceConnection → PublicConnection
serialize c = record {
  id = c.id;
  name = c.name;
  clave = c.clave;
  write_cron_interval_sec = c.write_cron_interval_sec;
  concurrency = c.concurrency;
  base_url = c.base_url;
  default_headers = c.default_headers;
  handshake = c.handshake;
  active = c.active;
}

pub record ResolvedSourceConnection : Type 0 where
  pub id : String
  pub name : String
  pub clave : String
  pub base_url : String
  pub credentials : Json
  pub default_headers : List (String × String)
  pub handshake : Option Json
  pub active : Bool

pub record SiiCallbackInfo : Type 0 where
  pub url : String
  pub secret : String

-- The stored connections, and the random draws so far.
pub record Vault : Type 0 where
  pub connections : List SourceConnection
  pub drawn : ℕ

-- Node's crypto, the ids of the database, the text functions of JavaScript and the configured base
-- of the callback URL.
pub record Host : Type 0 where
  pub cipher : Cipher
  pub random_hex : ℕ → String
  pub uuid : ℕ → String
  pub trim : String → String
  pub callback_base : String

-- `.replace(/\/+$/, '')`
unfoldable pub without_slashes : String → String
without_slashes String.[] = String.[]
without_slashes (String.◌∷◌ c s) =
    let rest = without_slashes s in if rest == "" && code c =ℕ b'/' then "" else String.◌∷◌ c rest

-- A value that is truthy, for the values of a JSON body.
unfoldable pub is_truthy : Option Json → Bool
is_truthy none = false
is_truthy (some null) = false
is_truthy (some (bool b)) = b
is_truthy (some (num n)) = not (n == "0")
is_truthy (some (str s)) = not (s == "")
is_truthy (some v) = true

-- validateCredentials
unfoldable pub validate_credentials : Option Object → Bool
unfolding is_truthy get
validate_credentials none = false
validate_credentials (some o) = is_truthy (get "token" o)

unfoldable pub save_where :
    String → (SourceConnection → SourceConnection) → List SourceConnection → List SourceConnection
save_where id f cs = map (λ (c : SourceConnection). if c.id == id then f c else c) cs

unfoldable pub find_by_id : String → Vault → Reply SourceConnection
find_by_id id v =
    if is_uuid id
    then elim (find (λ (c : SourceConnection). c.id == id) v.connections) [
      | none ↦ not_found
      | some c ↦ ok c
    ]
    else not_found

unfoldable pub exists : String → Vault → Bool
exists id v = is_uuid id && any (λ (c : SourceConnection). c.id == id) v.connections

-- `active` connections with `writeCronIntervalSec > 0`.
unfoldable pub list_write_cron_connections : List SourceConnection → List (String × ℕ)
list_write_cron_connections [] = []
list_write_cron_connections (c ∷ cs) =
    let rest = list_write_cron_connections cs in
    if c.active && ltb 0 (or_value c.write_cron_interval_sec 0)
    then (c.id, or_value c.write_cron_interval_sec 0) ∷ rest
    else rest

unfoldable pub remove : String → Vault → Vault × Reply (Unit {0})
remove id v =
    if not (is_uuid id)
    then (v, failed)
    else if any (λ (c : SourceConnection). c.id == id) v.connections
    then (
      record v { connections = keep (λ (c : SourceConnection). not (c.id == id)) v.connections },
      ok tt,
    )
    else (v, not_found)

resolved : SourceConnection → Json → ResolvedSourceConnection
resolved c credentials = record {
  id = c.id;
  name = c.name;
  clave = c.clave;
  base_url = c.base_url;
  credentials = credentials;
  default_headers = c.default_headers;
  handshake = c.handshake;
  active = c.active;
}

-- `decryptJson<string>(…)`
unfoldable pub secret_text : Option Json → Reply String
secret_text (some (str s)) = ok s
secret_text _ = failed

module _ (host : Host) where
  encrypted : Option Object → (Object → Json) → ℕ → String
  encrypted none wrap n = ""
  encrypted (some o) wrap n = encrypt_json host.cipher n (wrap o)

  -- The name is unique, by an index of the database.
  unfoldable pub create :
      (Object → Json) → UpsertSourceConnectionDto → Vault → Vault × Reply PublicConnection
  unfolding encrypted without_slashes
  create wrap d v =
      let c : SourceConnection = record {
        id = host.uuid v.drawn;
        name = d.name;
        clave = host.trim d.clave;
        write_cron_interval_sec = d.write_cron_interval_sec;
        concurrency = d.concurrency;
        base_url = without_slashes (host.trim d.base_url);
        credentials_encrypted = encrypted d.credentials wrap v.drawn;
        default_headers = or_value d.default_headers [];
        handshake = d.handshake;
        active = or_value d.active true;
        sii_callback_secret_encrypted =
            encrypt_json host.cipher (suc v.drawn) (str (host.random_hex v.drawn));
      } in
      if not (validate_credentials d.credentials)
      then (v, bad_request)
      else if any (λ (o : SourceConnection). o.name == d.name) v.connections
      then (v, failed)
      else (
        record { connections = v.connections ++ c ∷ []; drawn = suc (suc v.drawn) },
        ok (serialize c),
      )

  patched : UpsertSourceConnectionDto → String → SourceConnection → SourceConnection
  unfolding without_slashes
  patched d credentials c = record c {
    name = d.name;
    clave = host.trim d.clave;
    write_cron_interval_sec = d.write_cron_interval_sec;
    concurrency = d.concurrency;
    base_url = without_slashes (host.trim d.base_url);
    credentials_encrypted = credentials;
    default_headers = or_value d.default_headers [];
    handshake = d.handshake;
    active = or_value d.active true;
  }

  -- The credentials that an update stores: the new ones, or those that are there.
  new_credentials :
      (Object → Json) → UpsertSourceConnectionDto → SourceConnection → ℕ → Reply String
  unfolding validate_credentials
  new_credentials wrap d c n =
      let given = or_value d.credentials [] in
      if not (is_empty given)
      then (if validate_credentials (some given)
          then ok (encrypt_json host.cipher n (wrap given))
          else bad_request)
      else if c.credentials_encrypted == ""
      then bad_request
      else ok c.credentials_encrypted

  stored_update :
      String → UpsertSourceConnectionDto → Reply String → Vault → Vault × Reply PublicConnection
  unfolding patched save_where find_by_id
  stored_update id d (ok secret) v =
      if any (λ (o : SourceConnection). o.name == d.name && not (o.id == id)) v.connections
      then (v, failed)
      else let v' : Vault = record {
        connections = save_where id (patched d secret) v.connections;
        drawn = suc v.drawn;
      } in
        (v', find_by_id id v' >>= λ c. ok (serialize c))
  stored_update id d _ v = (v, bad_request)

  unfoldable pub update :
      (Object → Json) → String → UpsertSourceConnectionDto → Vault → Vault × Reply PublicConnection
  unfolding find_by_id new_credentials stored_update
  update wrap id d v = elim (find_by_id id v) [
    | ok c ↦ stored_update id d (new_credentials wrap d c v.drawn) v
    | _ ↦ (v, not_found)
  ]

  unfoldable pub resolve_by_id : String → Vault → Reply ResolvedSourceConnection
  unfolding find_by_id resolved
  resolve_by_id id v = find_by_id id v >>= λ c.
      if c.credentials_encrypted == ""
      then ok (resolved c null)
      else (or_failed (decrypt_json host.cipher c.credentials_encrypted) >>= λ j. ok (resolved c j))

  unfoldable pub build_callback_url : String → String
  build_callback_url id = without_slashes host.callback_base ⧺ "/v1/callbacks/sii/" ⧺ id

  unfoldable pub rotate_callback_secret : String → Vault → Vault × Reply SiiCallbackInfo
  unfolding find_by_id build_callback_url save_where
  rotate_callback_secret id v = elim (find_by_id id v) [
    | ok c ↦
        let secret = host.random_hex v.drawn in
        (
          record {
            connections =
                save_where id
                  (λ o. record o {
                    sii_callback_secret_encrypted =
                        encrypt_json host.cipher (suc v.drawn) (str secret);
                  })
                  v.connections;
            drawn = suc (suc v.drawn);
          },
          ok (record { url = build_callback_url c.id; secret = secret }),
        )
    | _ ↦ (v, not_found)
  ]

  unfoldable pub get_callback_info : String → Vault → Vault × Reply SiiCallbackInfo
  unfolding find_by_id rotate_callback_secret secret_text build_callback_url
  get_callback_info id v = elim (find_by_id id v) [
    | ok c ↦ if c.sii_callback_secret_encrypted == "" then rotate_callback_secret id v else (
      v,
      secret_text (decrypt_json host.cipher c.sii_callback_secret_encrypted) >>= λ s.
          ok (record { url = build_callback_url c.id; secret = s }),
    )
    | _ ↦ (v, not_found)
  ]

  -- `null` is none.
  unfoldable pub find_callback_secret : String → Vault → Reply (Option String)
  unfolding secret_text
  find_callback_secret id v =
      if is_uuid id
      then elim (find (λ (c : SourceConnection). c.id == id) v.connections) [
        | none ↦ ok none
        | some c ↦
            if c.sii_callback_secret_encrypted == ""
            then ok none
            else (secret_text (decrypt_json host.cipher c.sii_callback_secret_encrypted) >>= λ s.
                ok (some s))
      ]
      else ok none
