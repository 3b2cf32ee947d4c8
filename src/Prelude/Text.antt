-- ===== src/Prelude/Text.antt =====
-- Texts: `str.upper` and `str.lower` on ASCII, lengths, and the classes of characters.
use Prim.Native.Nat.{ℕ, suc, ◌+◌, ◌-◌, ◌<◌}
use Prim.Native.Char.{Char, char, code, IsScalar}
use Prim.Native.String.{String}
use mathlib.Core.Path.{◌≡◌, refl}
use mathlib.Core.Bool.{Bool, true, false, ◌&&◌, ◌||◌}
use native.Mathlib.Omega.{arith}
use crypto_ledger_sandbox.Prelude.Tests.{leb}

small-IsScalar : (n : ℕ) → n < 55296 → IsScalar n
small-IsScalar n h = ground arith

abbrev pub is_lower : ℕ → Bool
is_lower n = leb b'a' n && leb n b'z'

pub is_lower-IsScalar : (n : ℕ) → is_lower n ≡ true → IsScalar (n - 32)
is_lower-IsScalar n h = small-IsScalar (n - 32) (ground arith)

upper_if : (b : Bool) (c : Char) → is_lower (code c) ≡ b → Char
upper_if true c lower = char (code c - 32) (is_lower-IsScalar (code c) lower)
upper_if false c other = c

upper_char : Char → Char
unfolding upper_if
upper_char c = upper_if (is_lower (code c)) c refl

-- `str.upper()` of a text whose characters are ASCII; any other character is left alone.
unfoldable pub upper : String → String
unfolding upper_char
upper String.[] = String.[]
upper (String.◌∷◌ c s) = String.◌∷◌ (upper_char c) (upper s)

upper_lem : upper "usdT-9" ≡ "USDT-9"
unfolding upper
upper_lem = refl

abbrev pub is_upper : ℕ → Bool
is_upper n = leb b'A' n && leb n b'Z'

pub is_upper-IsScalar : (n : ℕ) → is_upper n ≡ true → IsScalar (n + 32)
is_upper-IsScalar n h = small-IsScalar (n + 32) (ground arith)

lower_if : (b : Bool) (c : Char) → is_upper (code c) ≡ b → Char
lower_if true c upper = char (code c + 32) (is_upper-IsScalar (code c) upper)
lower_if false c other = c

lower_char : Char → Char
unfolding lower_if
lower_char c = lower_if (is_upper (code c)) c refl

-- `str.lower()` of a text whose characters are ASCII; any other character is left alone.
unfoldable pub lower : String → String
unfolding lower_char
lower String.[] = String.[]
lower (String.◌∷◌ c s) = String.◌∷◌ (lower_char c) (lower s)

lower_lem : lower "Ann@Example.COM" ≡ "ann@example.com"
unfolding lower
lower_lem = refl

-- `len(s)`
unfoldable pub text_length : String → ℕ
text_length String.[] = 0
text_length (String.◌∷◌ c s) = suc (text_length s)

abbrev pub is_alphanumeric : ℕ → Bool
is_alphanumeric n = is_upper n || is_lower n || leb b'0' n && leb n b'9'

-- Every character passes the test.
unfoldable pub all_codes : (ℕ → Bool) → String → Bool
all_codes p String.[] = true
all_codes p (String.◌∷◌ c s) = p (code c) && all_codes p s
