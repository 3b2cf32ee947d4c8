-- ===== src/Tests/Tokens.antt =====
-- A library of tokens and hashes in the plain: a token spells its times in strokes before its
-- subject, and a hash its salt before the password.
use Prim.Native.Char.{code}
use Prim.Native.String.{String}
use crypto_ledger_sandbox.Prelude.{
  ℕ, zero, suc, Bool, true, false, ◌&&◌, Option, some, none, ltb, leb, ◌==◌, str_eq, eq_iff,
  if◌then◌else◌, ◌≡◌, refl,
}
use crypto_ledger_sandbox.Api.Security.{Library, IsLawful}
use crypto_ledger_sandbox.Tests.Sample.{sample_platform, strokes}

abbrev write_number : ℕ → String → String
write_number zero s = String.◌∷◌ "." s
write_number (suc n) s = String.◌∷◌ "1" (write_number n s)

abbrev counted : Bool → Option (ℕ × String) → String → Option (ℕ × String)
counted true none s = none
counted true (some (n, rest)) s = some (suc n, rest)
counted false o s = some (0, s)

abbrev read_number : String → Option (ℕ × String)
read_number String.[] = none
read_number (String.◌∷◌ c s) = counted (code c == 49) (read_number s) s

read-write_number : (n : ℕ) (s : String) → read_number (write_number n s) ≡ some (n, s)
read-write_number zero s = refl
read-write_number (suc n) s = rw (read-write_number n s) refl

abbrev valid_subject : ℕ → ℕ → Option (ℕ × String) → Option (Option String)
valid_subject now iat none = none
valid_subject now iat (some (exp, sub)) =
    if leb iat now && ltb now exp then some (some sub) else none

abbrev decode_rest : ℕ → Option (ℕ × String) → Option (Option String)
decode_rest now none = none
decode_rest now (some (iat, rest)) = valid_subject now iat (read_number rest)

abbrev verify : String → Option (ℕ × String) → Bool
verify password none = false
verify password (some (salt, hashed)) = str_eq hashed password

abbrev more : Bool → Option ℕ → Option ℕ
more true (some n) = some (suc n)
more true none = none
more false o = none

abbrev count_strokes : String → Option ℕ
count_strokes String.[] = some 0
count_strokes (String.◌∷◌ c s) = more (code c == 49) (count_strokes s)

abbrev pub sample_library : Library
sample_library = record {
  hash_password = write_number;
  verify_password = λ password hashed. verify password (read_number hashed);
  jwt_encode = λ claims. write_number claims.iat (write_number claims.exp claims.sub);
  jwt_decode = λ now token. decode_rest now (read_number token);
  parse_uuid = count_strokes;
}

count-strokes : (k : ℕ) → count_strokes (strokes k) ≡ some k
count-strokes zero = refl
count-strokes (suc k) = rw (count-strokes k) refl

pub sample_library-IsLawful : IsLawful sample_platform sample_library
sample_library-IsLawful = record {
  verified =
      λ salt password. rw (read-write_number salt password) ((eq_iff password password).1 refl);
  decoded = λ now claims.
      rw
        (
          read-write_number claims.iat (write_number claims.exp claims.sub),
          read-write_number claims.exp claims.sub,
        )
        refl;
  parsed = count-strokes;
}
