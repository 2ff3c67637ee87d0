-- ===== src/Text.antt =====
-- What the program uses of Rust's strings: case conversion, bytes, joining.
pub mod Letters
pub mod Split
use Prim.Native.Char.{Char, code}
use Prim.Native.String
use openidconnect_rs.Prelude.{
  ℕ, zero, suc, ◌+◌, ◌-◌, ◌/◌, ◌%◌, String, ◌≡◌, refl, List, [], ◌∷◌, ◌++◌, ltb, leb, ◌&&◌,
  if◌then◌else◌,
}

infixr 65 ◌+++◌
-- Text after text, as `format!` builds it.
abbrev pub ◌+++◌ : String → String → String
s +++ t = String.◌++◌ s t

-- `{}` between backquotes.
abbrev pub quoted : String → String
quoted s = "`" +++ s +++ "`"

-- `slice.join(sep)`
unfoldable pub join : String → List String → String
join sep [] = ""
join sep (s ∷ []) = s
join sep (s ∷ t ∷ rest) = s +++ sep +++ join sep (t ∷ rest)

digit : ℕ → String
digit n = String.◌∷◌ (String.char_at "0123456789" n) ""

-- One round for each decimal digit; `n + 1` rounds are more than any `n` has.
decimal_from : ℕ → ℕ → String
decimal_from zero n = ""
decimal_from (suc fuel) n =
    let higher = decimal_from fuel (n / 10) in
    if ltb n 10 then digit n else higher +++ digit (n % 10)

-- `{}` of a number.
unfoldable pub decimal : ℕ → String
unfolding decimal_from digit
decimal n = decimal_from (n + 1) n

upper_letter : Char → Char
upper_letter c =
    if leb b'a' (code c) && leb (code c) b'z'
    then String.char_at "ABCDEFGHIJKLMNOPQRSTUVWXYZ" (code c - b'a')
    else c

unfoldable pub lower_letter : Char → Char
lower_letter c =
    if leb b'A' (code c) && leb (code c) b'Z'
    then String.char_at "abcdefghijklmnopqrstuvwxyz" (code c - b'A')
    else c

-- `str::to_uppercase`. Letters outside ASCII are left alone: the program only compares the result
-- with "JWT", and no such letter has an upper case made of those letters.
unfoldable pub to_uppercase : String → String
unfolding upper_letter
to_uppercase String.[] = ""
to_uppercase (String.◌∷◌ c s) = String.◌∷◌ (upper_letter c) (to_uppercase s)

-- `str::to_lowercase`, of texts that hold ASCII only, as header values do.
unfoldable pub to_lowercase : String → String
unfolding lower_letter
to_lowercase String.[] = ""
to_lowercase (String.◌∷◌ c s) = String.◌∷◌ (lower_letter c) (to_lowercase s)

utf8_char : ℕ → List ℕ
utf8_char n =
    if ltb n 0x80
    then n ∷ []
    else if ltb n 0x800
    then (0xc0 + n / 64) ∷ (0x80 + n % 64) ∷ []
    else if ltb n 0x10000
    then (0xe0 + n / 4096) ∷ (0x80 + n / 64 % 64) ∷ (0x80 + n % 64) ∷ []
    else (0xf0 + n / 262144) ∷ (0x80 + n / 4096 % 64) ∷ (0x80 + n / 64 % 64) ∷ (0x80 + n % 64) ∷ []

-- `str::as_bytes`
unfoldable pub as_bytes : String → List ℕ
unfolding utf8_char
as_bytes String.[] = []
as_bytes (String.◌∷◌ c s) = utf8_char (code c) ++ as_bytes s

upper_test : to_uppercase "aJw-t9é" ≡ "AJW-T9é"
unfolding to_uppercase
upper_test = refl

bytes_test : as_bytes "aé€" ≡ 0x61 ∷ 0xc3 ∷ 0xa9 ∷ 0xe2 ∷ 0x82 ∷ 0xac ∷ []
unfolding as_bytes
bytes_test = refl

join_test : join ", " ("a" ∷ "b" ∷ "c" ∷ []) ≡ "a, b, c"
unfolding join
join_test = refl

decimal_test : decimal 1205 ≡ "1205"
unfolding decimal
decimal_test = refl
