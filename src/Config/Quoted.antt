-- ===== src/Config/Quoted.antt =====
-- The characters that a quoted text and the digits of a number do not have.
use Prim.Native.Char.{Char, code}
use Prim.Native.String.append
use crypto_ledger_sandbox.Prelude.{
  ℕ, zero, suc, ◌/◌, ◌%◌, Bool, Bool-cases, true, false, not, String, ◌++◌, List, [], ◌∷◌, ◌==◌,
  ◌≡◌, refl, ap, ◌∙◌, inl, inr, ltb, all_codes, arith,
}
use crypto_ledger_sandbox.Config.Quote.{
  utf8, is_unreserved, char_at, hex_digit, percent_encoded, quote_char, quote,
}
use crypto_ledger_sandbox.Config.{digits_from}

abbrev pub free_of : ℕ → ℕ → Bool
free_of k n = not (n == k)

module _ (k : ℕ) where
  pub all_codes-append :
      (s t : String)
      → all_codes (free_of k) s ≡ true
      → all_codes (free_of k) t ≡ true
      → all_codes (free_of k) (s ++ t) ≡ true
  unfolding all_codes
  all_codes-append String.[] t h l = ap (all_codes (free_of k)) (append.nil t) ∙ l
  all_codes-append (String.◌∷◌ c s) t h l =
      ap (all_codes (free_of k)) (append.cons c s t) ∙ ground (arith, all_codes-append s t)

  all_codes-char_at :
      (n : ℕ) (s : String)
      → all_codes (free_of k) s ≡ true
      → all_codes (free_of k) (char_at n s) ≡ true
  unfolding all_codes char_at
  all_codes-char_at n String.[] h = refl
  all_codes-char_at zero (String.◌∷◌ c s) h = ground arith
  all_codes-char_at (suc n) (String.◌∷◌ c s) h = all_codes-char_at n s (ground arith)

-- No percent sign, no hexadecimal digit and no unreserved character is the character.
pub record IsReserved (k : ℕ) : Type 0 where
  percent : all_codes (free_of k) "%" ≡ true
  digits : all_codes (free_of k) "0123456789ABCDEF" ≡ true
  others : (n : ℕ) → is_unreserved n ≡ true → (n == k) ≡ false

module _ (k : ℕ) (reserved : IsReserved k) where
  encoded-free_of : (bytes : List ℕ) → all_codes (free_of k) (percent_encoded bytes) ≡ true
  unfolding percent_encoded all_codes
  encoded-free_of [] = refl
  encoded-free_of (b ∷ bytes) = all_codes-append k "%" _ reserved.percent (
      all_codes-append k (hex_digit (b / 16)) _
        (all_codes-char_at k (b / 16) "0123456789ABCDEF" reserved.digits)
        (all_codes-append k (hex_digit (b % 16)) _
          (all_codes-char_at k (b % 16) "0123456789ABCDEF" reserved.digits)
          (encoded-free_of bytes)))

  quote_char-free_of : (c : Char) → all_codes (free_of k) (quote_char c) ≡ true
  unfolding all_codes
  quote_char-free_of c = elim (Bool-cases (is_unreserved (code c))) [
    | inl plain ↦ rw plain (rw (reserved.others (code c) plain) refl)
    | inr encoded ↦ rw encoded (encoded-free_of (utf8 (code c)))
  ]

  pub quote-free_of : (s : String) → all_codes (free_of k) (quote s) ≡ true
  unfolding quote all_codes
  quote-free_of String.[] = refl
  quote-free_of (String.◌∷◌ c s) =
      all_codes-append k (quote_char c) (quote s) (quote_char-free_of c) (quote-free_of s)

  pub digits_from-free_of : (fuel n : ℕ) → all_codes (free_of k) (digits_from fuel n) ≡ true
  unfolding digits_from all_codes
  digits_from-free_of zero n = refl
  digits_from-free_of (suc fuel) n = elim (Bool-cases (ltb n 10)) [
    | inl few ↦ rw (digits_from, few) (all_codes-char_at k n "0123456789ABCDEF" reserved.digits)
    | inr many ↦
        rw (digits_from, many)
          (all_codes-append k (digits_from fuel (n / 10)) _ (digits_from-free_of fuel (n / 10))
            (all_codes-char_at k (n % 10) "0123456789ABCDEF" reserved.digits))
  ]

pub at_sign : IsReserved b'@'
unfolding all_codes
at_sign = record { percent = refl; digits = refl; others = λ n h. ground arith }

pub colon : IsReserved b':'
unfolding all_codes
colon = record { percent = refl; digits = refl; others = λ n h. ground arith }

pub slash : IsReserved b'/'
unfolding all_codes
slash = record { percent = refl; digits = refl; others = λ n h. ground arith }
