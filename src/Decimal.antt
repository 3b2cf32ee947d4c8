-- ===== src/Decimal.antt =====
-- Python's `decimal.Decimal`, as the services use it, and the NUMERIC(38, 18) columns.
-- A `Decimal` is a whole number of units of 10^-36: prices, quantities and amounts have at most 18
-- decimal places (schemas), so a product of two has at most 36. The default context rounds every
-- sum, difference and product to 28 significant digits, half to even; that is written out here.
pub mod Exact
use crypto_ledger_sandbox.Prelude.{
  ℕ, zero, suc, ◌+◌, ◌*◌, ◌/◌, ◌%◌, ◌^◌, ◌<◌, ◌≡◌, refl, ltb, ◌==◌, if◌then◌else◌, ℤ, pos, negsuc,
  pos_part, neg_part, sub_ℕ, ◌+ℤ◌, ◌-ℤ◌, ◌*ℤ◌,
}

abbrev pub Decimal : Type 0
Decimal = ℤ

-- Units in 1.
abbrev pub one : ℕ
one = 10 ^ 36

-- Units in 10^-18, the step of a NUMERIC(38, 18) column.
abbrev pub step : ℕ
step = 10 ^ 18

-- Units in 10^10: a sum below it on the column's grid has at most 28 significant digits.
abbrev pub exact_limit : ℕ
exact_limit = 10 ^ 46

-- The weight of the last of the 28 digits that are kept of `c`, from the weight `p` on.
digit_weight : ℕ → ℕ → ℕ → ℕ
digit_weight zero p c = p
digit_weight (suc fuel) p c =
    let coarser = digit_weight fuel (p * 10) c in if ltb c (10 ^ 28 * p) then p else coarser

-- The nearest multiple of `p`, half to even.
half_even : ℕ → ℕ → ℕ
half_even p c =
    let q = c / p in
    let r = c % p in
    if ltb (2 * r) p
    then q * p
    else if ltb p (2 * r)
    then (q + 1) * p
    else if q % 2 == 0
    then q * p
    else (q + 1) * p

-- ROUND_HALF_EVEN to 28 significant digits.
round_context : ℕ → ℕ
unfolding digit_weight half_even
round_context c = half_even (digit_weight c 1 c) c

round_signed : ℤ → ℤ
unfolding round_context
round_signed a = sub_ℕ (round_context (pos_part a)) (round_context (neg_part a))

-- Drops what lies below 10^-36 of a product in units of 10^-72.
rescale : ℤ → ℤ
rescale a = sub_ℕ (pos_part a / one) (neg_part a / one)

unfoldable pub add : Decimal → Decimal → Decimal
unfolding round_signed ◌+ℤ◌
add a b = round_signed (a +ℤ b)

unfoldable pub sub : Decimal → Decimal → Decimal
unfolding round_signed ◌-ℤ◌
sub a b = round_signed (a -ℤ b)

unfoldable pub mul : Decimal → Decimal → Decimal
unfolding round_signed rescale ◌*ℤ◌
mul a b = round_signed (rescale (a *ℤ b))

-- An amount that the columns hold exactly and that stays below 10^10.
abbrev pub IsMoney : Decimal → Type 0
IsMoney (pos n) = (n % step ≡ 0) × (n < exact_limit)
IsMoney (negsuc n) = ⊥

mul_prices : mul (pos (20000 * one)) (pos (one / 1000)) ≡ pos (20 * one)
unfolding mul
mul_prices = refl

-- 29 digits: the last one is dropped.
add_rounds : add (pos (10 ^ 46)) (pos (step * 5)) ≡ pos (10 ^ 46)
unfolding add
add_rounds = refl
