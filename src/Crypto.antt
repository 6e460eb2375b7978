-- ===== src/Crypto.antt =====
-- src/core/crypto/crypto.util.ts: how a JSON value is encrypted into a text, and back. The key has been
-- checked when the program starts (src/config/env.ts), so that getKey gives it.
pub mod Opens
use Prim.Native.Char.{Char}
use yalia_sii.Prelude.{ℕ, ◌+◌, String, Option, none, some, List, ◌++◌, take, drop, ◌>>=◌}
use yalia_sii.Json.{Json}

-- A buffer, one character for a byte.
abbrev pub Buffer : Type 0
Buffer = List Char

-- Node's crypto under the key, Buffer and JSON.
pub record Cipher : Type 0 where
  -- The n-th `randomBytes(12)`.
  pub iv : ℕ → Buffer
  -- `createCipheriv` on an iv and a text: what is encrypted, and the tag.
  pub seal : Buffer → Buffer → Buffer × Buffer
  -- `createDecipheriv` on an iv, a tag and what is encrypted: none where `final` throws.
  pub unseal : Buffer → Buffer → Buffer → Option Buffer
  pub to_base64 : Buffer → String
  pub from_base64 : String → Buffer
  pub to_utf8 : String → Buffer
  pub from_utf8 : Buffer → String
  pub stringify : Json → String
  -- None where it throws.
  pub parse : String → Option Json

abbrev pub iv_len : ℕ
iv_len = 12

abbrev pub tag_len : ℕ
tag_len = 16

module _ (c : Cipher) where
  unfoldable pub encrypt_json : ℕ → Json → String
  encrypt_json n payload =
      let (encrypted, tag) = c.seal (c.iv n) (c.to_utf8 (c.stringify payload)) in
      c.to_base64 (c.iv n ++ (tag ++ encrypted))

  unfoldable pub decrypt_json : String → Option Json
  decrypt_json token =
      let buf = c.from_base64 token in
      c.unseal (take iv_len buf) (take tag_len (drop iv_len buf)) (drop (iv_len + tag_len) buf)
      >>= λ plaintext. c.parse (c.from_utf8 plaintext)
