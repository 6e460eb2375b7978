-- ===== src/Connections/Tests.antt =====
-- Connections that a request creates and changes, on concrete data.
use yalia_sii.Prelude.{◌≡◌, refl, Option, none, some, [], ◌∷◌, map}
use yalia_sii.Crypto.{encrypt_json}
use yalia_sii.Sql.{is_uuid}
use yalia_sii.Json.{Json, str, obj, from_entries, Object, get}
use yalia_sii.Http.{bad_request, not_found}
use yalia_sii.Connections.{
  SourceConnection, UpsertSourceConnectionDto, Host, Vault, create, update, remove,
  validate_credentials, is_truthy, without_slashes, resolve_by_id, find_by_id,
}

abbrev host : Host
host = record {
  cipher = record {
    iv = λ n. [];
    seal = λ v p. (p, []);
    unseal = λ v t e. some e;
    to_base64 = λ b. "sealed";
    from_base64 = λ s. [];
    to_utf8 = λ s. [];
    from_utf8 = λ b. "";
    stringify = λ j. "";
    parse = λ s. some (obj (from_entries (("token", str "t") ∷ [])));
  };
  random_hex = λ n. "5ec3e7";
  uuid = λ n. "0a1b2c3d-0000-4000-8000-00000000000f";
  trim = λ s. s;
  callback_base = "https://hub/";
}

abbrev dto : Option Object → UpsertSourceConnectionDto
dto credentials = record {
  name = "A";
  clave = "a";
  write_cron_interval_sec = none;
  concurrency = none;
  base_url = "https://a//";
  credentials = credentials;
  default_headers = none;
  handshake = none;
  active = none;
}

abbrev empty : Vault
empty = record { connections = []; drawn = 0 }

abbrev wrap : Object → Json
wrap o = obj (from_entries o)

abbrev filled : Vault
filled = (create host wrap (dto (some (("token", str "t") ∷ []))) empty).0

create_run : map (λ (c : SourceConnection). c.base_url) filled.connections ≡ "https://a" ∷ []
unfolding create validate_credentials is_truthy without_slashes get
create_run = refl

-- A connection needs a token.
create_refused : create host wrap (dto (some (("token", str "") ∷ []))) empty ≡ (empty, bad_request)
unfolding create validate_credentials is_truthy get
create_refused = refl

-- An update without credentials keeps those that are there.
update_run :
    map
      (λ (c : SourceConnection). c.credentials_encrypted)
      (update host wrap "0a1b2c3d-0000-4000-8000-00000000000f" (dto none) filled).0.connections
    ≡ "sealed" ∷ []
unfolding encrypt_json create update find_by_id is_uuid validate_credentials is_truthy get
update_run = refl

remove_run : (remove "0a1b2c3d-0000-4000-8000-00000000000f" filled).0.connections ≡ []
unfolding create remove is_uuid validate_credentials is_truthy get
remove_run = refl

resolve_missing : resolve_by_id host "0a1b2c3d-0000-4000-8000-00000000000f" empty ≡ not_found
unfolding resolve_by_id find_by_id is_uuid
resolve_missing = refl
