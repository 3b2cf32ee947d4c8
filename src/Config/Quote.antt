-- ===== src/Config/Quote.antt =====
-- `urllib.parse.quote` with no safe characters: the bytes of the UTF-8 text that are not unreserved
-- become a percent sign and two hexadecimal digits.
use Prim.Native.Char.{Char, code}
use crypto_ledger_sandbox.Prelude.{
  ℕ, zero, suc, ◌+◌, ◌/◌, ◌%◌, Bool, ◌||◌, String, ◌++◌, List, [], ◌∷◌, ◌==◌, ltb, if◌then◌else◌,
  ◌≡◌, refl, is_alphanumeric,
}

-- The bytes of a character in UTF-8.
abbrev pub utf8 : ℕ → List ℕ
utf8 n =
    if ltb n 128
    then (n ∷ [])
    else if ltb n 2048
    then ((192 + n / 64) ∷ (128 + n % 64) ∷ [])
    else if ltb n 65536
    then ((224 + n / 4096) ∷ (128 + (n / 64) % 64) ∷ (128 + n % 64) ∷ [])
    else ((240 + n / 262144)
        ∷ (128 + (n / 4096) % 64)
        ∷ (128 + (n / 64) % 64)
        ∷ (128 + n % 64)
        ∷ [])

-- The letters, the digits and `_.-~`.
abbrev pub is_unreserved : ℕ → Bool
is_unreserved n = is_alphanumeric n || n == b'_' || n == b'.' || n == b'-' || n == b'~'

-- The text of one character of a text.
unfoldable pub char_at : ℕ → String → String
char_at n String.[] = ""
char_at zero (String.◌∷◌ c s) = String.◌∷◌ c ""
char_at (suc n) (String.◌∷◌ c s) = char_at n s

abbrev pub hex_digit : ℕ → String
hex_digit n = char_at n "0123456789ABCDEF"

unfoldable pub percent_encoded : List ℕ → String
percent_encoded [] = ""
percent_encoded (b ∷ bytes) =
    "%" ++ (hex_digit (b / 16) ++ (hex_digit (b % 16) ++ percent_encoded bytes))

abbrev pub quote_char : Char → String
quote_char c = if is_unreserved (code c) then String.◌∷◌ c "" else percent_encoded (utf8 (code c))

unfoldable pub quote : String → String
quote String.[] = ""
quote (String.◌∷◌ c s) = quote_char c ++ quote s

quote_lem : quote "p@ss:w/ö€~" ≡ "p%40ss%3Aw%2F%C3%B6%E2%82%AC~"
unfolding quote percent_encoded char_at
quote_lem = refl
