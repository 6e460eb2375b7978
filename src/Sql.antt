-- ===== src/Sql.antt =====
-- src/core/sql/sql-params.util.ts: the checks and quotings of text that goes into SQL.
use Prim.Native.Char.{code}
use yalia_sii.Prelude.{
  ℕ, suc, String, Bool, false, take, drop, ◌&&◌, ◌||◌, List, [], ◌∷◌, ◌++◌, ◌=ℕ◌, leb,
  if◌then◌else◌, all, length,
}

-- The code points of a text.
abbrev pub codes : String → List ℕ
codes String.[] = []
codes (String.◌∷◌ c s) = code c ∷ codes s

abbrev pub is_digit : ℕ → Bool
is_digit c = leb b'0' c && leb c b'9'

abbrev pub is_lower : ℕ → Bool
is_lower c = leb b'a' c && leb c b'z'

abbrev pub is_upper : ℕ → Bool
is_upper c = leb b'A' c && leb c b'Z'

-- `[a-z0-9-]`, the class of TABLE_KEY_RE.
is_table_char : ℕ → Bool
is_table_char c = is_lower c || is_digit c || c =ℕ b'-'

-- `[A-Za-z0-9_.-]`, the class of COLUMN_KEY_RE.
is_column_char : ℕ → Bool
is_column_char c = is_upper c || is_lower c || is_digit c || c =ℕ b'_' || c =ℕ b'.' || c =ℕ b'-'

some_of : (ℕ → Bool) → List ℕ → Bool
some_of p [] = false
some_of p (c ∷ cs) = p c && all p cs

-- `assertTableKey` and `assertColumnKey` throw unless these hold.
unfoldable pub is_table_key : String → Bool
unfolding is_table_char some_of
is_table_key s = some_of is_table_char (codes s)

unfoldable pub is_column_key : String → Bool
unfolding is_column_char some_of
is_column_key s = some_of is_column_char (codes s)

-- `s.replace(/'/g, "''")`.
unfoldable pub double_quotes : List ℕ → List ℕ
double_quotes [] = []
double_quotes (c ∷ cs) =
    if c =ℕ b'\'' then b'\'' ∷ b'\'' ∷ double_quotes cs else c ∷ double_quotes cs

unfoldable pub sql_string_literal : List ℕ → List ℕ
unfolding double_quotes
sql_string_literal s = b'\'' ∷ (double_quotes s ++ b'\'' ∷ [])

is_like_special : ℕ → Bool
is_like_special c = c =ℕ b'\\' || c =ℕ b'%' || c =ℕ b'_'

-- `s.replace(/[\\%_]/g, '\\$&')`.
unfoldable pub escape_like : List ℕ → List ℕ
unfolding is_like_special
escape_like [] = []
escape_like (c ∷ cs) = if is_like_special c then b'\\' ∷ c ∷ escape_like cs else c ∷ escape_like cs

-- Class ParamList: the values bound so far, and `push`, which returns the number of its `$n`.
unfoldable pub push {ℓ} : {A : Type ℓ} → A → List A → List A × ℕ
push v values = (values ++ v ∷ [], length (values ++ v ∷ []))

-- `[0-9a-f]` with the flag `i`.
is_hex : ℕ → Bool
is_hex c = is_digit c || (leb b'a' c && leb c b'f') || (leb b'A' c && leb c b'F')

starts_with_dash : List ℕ → Bool
starts_with_dash [] = false
starts_with_dash (c ∷ s) = c =ℕ b'-'

-- Runs of hexadecimal digits of these lengths, with a dash between two.
is_hex_runs : List ℕ → List ℕ → Bool
unfolding is_hex starts_with_dash
is_hex_runs [] s = false
is_hex_runs (n ∷ []) s = length s =ℕ n && all is_hex s
is_hex_runs (n ∷ m ∷ ns) s =
    let rest = is_hex_runs (m ∷ ns) (drop (suc n) s) in
    length (take n s) =ℕ n && all is_hex (take n s) && starts_with_dash (drop n s) && rest

-- UUID_RE
unfoldable pub is_uuid : String → Bool
unfolding is_hex_runs
is_uuid s = is_hex_runs (8 ∷ 4 ∷ 4 ∷ 4 ∷ 12 ∷ []) (codes s)
