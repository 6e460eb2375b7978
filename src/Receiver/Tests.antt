-- ===== src/Receiver/Tests.antt =====
-- Callbacks for a concrete connection, and the theorems about them.
use yalia_sii.Prelude.{String, true, ap, ◌≡◌, refl, ◌↔◌, ◌⊎◌, inl, Option, none, some, [], ◌∷◌, In}
use yalia_sii.Sql.{is_uuid}
use yalia_sii.Json.{Json, str}
use yalia_sii.Loads.{◌⧺◌}
use yalia_sii.Crypto.{Buffer, Cipher, encrypt_json, decrypt_json}
use yalia_sii.Crypto.Opens.{IsCipher}
use yalia_sii.Http.{ok, unauthorized}
use yalia_sii.Connections.{
  SourceConnection, Host, Vault, SiiCallbackInfo, find_by_id, rotate_callback_secret,
  get_callback_info, find_callback_secret, secret_text, build_callback_url, without_slashes,
  save_where,
}
use yalia_sii.Receiver.{
  CallbackJob, Digests, CallbackRequest, verify, enqueue, authenticate, job_of, add_job, receive,
}
use yalia_sii.Receiver.Signed.{IsSigned, receive-IsSigned, receive-shown}

abbrev letters : String → Buffer
letters String.[] = []
letters (String.◌∷◌ c s) = c ∷ letters s

abbrev spelled : Buffer → String
spelled [] = String.[]
spelled (c ∷ b) = String.◌∷◌ c (spelled b)

-- A letter before a text for its JSON.
abbrev quoted : Json → String
quoted (str s) = String.◌∷◌ "#" s
quoted _ = String.[]

abbrev unquoted : String → Option Json
unquoted String.[] = none
unquoted (String.◌∷◌ c s) = some (str s)

-- A cipher that leaves the text as it is.
abbrev cipher : Cipher
cipher = record {
  iv = λ n. letters "abcdefghijkl";
  seal = λ v p. (p, letters "abcdefghijklmnop");
  unseal = λ v t e. some e;
  to_base64 = spelled;
  from_base64 = letters;
  to_utf8 = letters;
  from_utf8 = spelled;
  stringify = quoted;
  parse = unquoted;
}

letters-spelled : (b : Buffer) → letters (spelled b) ≡ b
letters-spelled [] = refl
letters-spelled (c ∷ b) = ap (λ (r : Buffer). c ∷ r) (letters-spelled b)

spelled-letters : (s : String) → spelled (letters s) ≡ s
spelled-letters String.[] = refl
spelled-letters (String.◌∷◌ c s) = ap (λ r. String.◌∷◌ c r) (spelled-letters s)

cipher-IsCipher : IsCipher cipher
cipher-IsCipher = record {
  ivs = λ n. refl;
  tags = λ v p. refl;
  unseals = λ v p. refl;
  base64 = letters-spelled;
  base64_empty = refl;
  utf8 = spelled-letters;
  json = λ s. refl;
}

abbrev host : Host
host = record {
  cipher = cipher;
  random_hex = λ n. "5ec3e7";
  uuid = λ n. "0a1b2c3d-0000-4000-8000-00000000000f";
  trim = λ s. s;
  callback_base = "https://hub/";
}

abbrev digests : Digests
digests = record { hmac = λ k s. "h" ⧺ k ⧺ s; sha256 = λ s. s }

abbrev place : String
place = "0a1b2c3d-0000-4000-8000-00000000000f"

-- A connection from before the callbacks, which has no secret yet.
abbrev old : SourceConnection
old = record {
  id = place;
  name = "A";
  clave = "a";
  write_cron_interval_sec = none;
  concurrency = none;
  base_url = "https://a";
  credentials_encrypted = "";
  default_headers = [];
  handshake = none;
  active = true;
  sii_callback_secret_encrypted = "";
}

abbrev vault : Vault
vault = record { connections = old ∷ []; drawn = 0 }

abbrev page : SiiCallbackInfo
page = record { url = "https://hub/v1/callbacks/sii/" ⧺ place; secret = "5ec3e7" }

page_shown : (get_callback_info host place vault).1 ≡ ok page
unfolding get_callback_info rotate_callback_secret find_by_id build_callback_url without_slashes
    is_uuid
page_shown = refl

abbrev request : String → CallbackRequest
request sig = record { connection_id = place; raw_body = some "{}"; body = none; signature = sig }

abbrev shown_vault : Vault
shown_vault = (get_callback_info host place vault).0

receive_run : (receive host digests (request "h5ec3e7{}") shown_vault []).1 ≡ ok tt
unfolding encrypt_json decrypt_json receive authenticate enqueue verify find_callback_secret
    secret_text get_callback_info rotate_callback_secret find_by_id save_where is_uuid
receive_run = refl

forged_run : receive host digests (request "forged") shown_vault [] ≡ ([], unauthorized)
unfolding encrypt_json decrypt_json receive authenticate enqueue verify find_callback_secret
    secret_text get_callback_info rotate_callback_secret find_by_id save_where is_uuid
forged_run = refl

receive-shown_example :
    ((receive host digests (request "h5ec3e7{}") shown_vault []).1 ≡ ok tt)
    ↔ ((request "h5ec3e7{}").signature ≡ digests.hmac page.secret "{}")
receive-shown_example =
    receive-shown host digests cipher-IsCipher place vault page page_shown (request "h5ec3e7{}")
      "{}" [] refl refl refl refl

abbrev job : CallbackJob
job = job_of digests "{}" (request "h5ec3e7{}")

job_there : In job (receive host digests (request "h5ec3e7{}") shown_vault []).0
unfolding encrypt_json decrypt_json receive authenticate enqueue verify find_callback_secret
    secret_text get_callback_info rotate_callback_secret find_by_id save_where add_job is_uuid
job_there = inl refl

receive-IsSigned_example :
    In job []
    ⊎ ((secret : Option String) × (raw : String) × (find_callback_secret host place shown_vault
          ≡ ok secret)
        × IsSigned digests secret (request "h5ec3e7{}") raw
        × (job ≡ job_of digests raw (request "h5ec3e7{}")))
receive-IsSigned_example =
    receive-IsSigned host digests (request "h5ec3e7{}") shown_vault [] job job_there
