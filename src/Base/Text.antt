-- ===== src/Base/Text.antt =====
-- Go strings as native texts.
pub use Prim.Native.String.{String}
pub use text.Mathlib.Text.{◌==◌ as str_eq, starts_with}
pub use text.Mathlib.TextEquality.{eq_iff as str_eq_iff}
use Prim.Native.Nat.{ℕ}
use Prim.Native.String.{◌++◌, compare, len, slice}
use text.Mathlib.Text.{is_le}
use mathlib.Core.Bool.{Bool}
use eth_research.Base.Dict.{Eq}

instance abbrev pub string_eq : Eq String
string_eq = record { beq = str_eq; beq_iff = str_eq_iff }

-- `s + t`
unfoldable pub concat : String → String → String
concat s t = s ++ t

-- `s[1:]`, of a text that begins with a character of one byte.
unfoldable pub drop1 : String → String
drop1 String.[] = String.[]
drop1 (String.◌∷◌ c s) = s

-- `s <= t`, by code points, which is the order of the bytes of UTF-8.
abbrev pub str_leb : String → String → Bool
str_leb s t = is_le (compare s t)

-- `len(s)`
unfoldable pub length_of : String → ℕ
length_of s = len s

-- `s[n:]`, between characters.
unfoldable pub drop_bytes : ℕ → String → String
drop_bytes n s = slice s n (len s)
