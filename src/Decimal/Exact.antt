-- ===== src/Decimal/Exact.antt =====
-- Sums and differences of money in the default context: the rounding below 10^10.
use native.Mathlib.Nat.{pow-suc, mul-mod_left, mul-div_cancel}
use crypto_ledger_sandbox.Prelude.{
  ℕ, zero, suc, ◌*◌, ◌/◌, ◌%◌, ◌^◌, ◌<◌, ◌≡◌, sym, ap, subst, inl, inr, Bool-cases, ltb, pos,
  negsuc, ◌+ℤ◌, ◌-ℤ◌, ◌≤ℤ◌, ◌-◌, arith,
}
use crypto_ledger_sandbox.Decimal.{
  Decimal, step, exact_limit, digit_weight, half_even, round_context, round_signed, add, sub,
  IsMoney,
}

-- Below 10^10 no digit of weight above 10^-18 is dropped.
digit_weight-step :
    (fuel p k c : ℕ)
    → p * 10 ^ k ≡ step
    → c < exact_limit
    → (t : ℕ) × (digit_weight fuel p c * t ≡ step)
unfolding digit_weight
digit_weight-step zero p k c e h = (10 ^ k, e)
digit_weight-step (suc fuel) p zero c e h = (1, ground arith)
digit_weight-step (suc fuel) p (suc k) c e h = elim (Bool-cases (ltb c (10 ^ 28 * p))) [
  | inl fits ↦ (10 ^ suc k, rw fits e)
  | inr more ↦
      let (t, divides) =
        digit_weight-step fuel (p * 10) k c
          (omega (arith, pow-suc 10 k, ap (λ (x : ℕ). p * x) (pow-suc 10 k))) h in
      (t, rw more divides)
]

half_even_multiple : (p q : ℕ) → 0 < p → half_even p (q * p) ≡ q * p
unfolding half_even
half_even_multiple p q h = rw (mul-mod_left q p, mul-div_cancel q h) (ground arith)

-- Money is a fixed point of the context's rounding.
round_context-money : (c : ℕ) → c % step ≡ 0 → c < exact_limit → round_context c ≡ c
unfolding round_context
round_context-money c grid h =
    let (t, divides) = digit_weight-step c 1 18 c (omega arith) h in
    let p = digit_weight c 1 c in
    let e : c ≡ c / step * t * p = omega (arith, ap (λ (x : ℕ). c / step * x) divides) in
    subst (λ (x : ℕ). half_even p x ≡ x) (sym e)
      (half_even_multiple p (c / step * t) (grind (arith, divides)))

round_signed-money : (a : Decimal) → IsMoney a → round_signed a ≡ a
unfolding round_signed
round_signed-money (pos n) (grid, h) =
    rw (round_context-money n grid h, round_context-money 0 (omega arith) (omega arith))
      (ground arith)
round_signed-money (negsuc n) h = absurd h

pub add-exact : (a b : Decimal) → IsMoney (a +ℤ b) → add a b ≡ a +ℤ b
unfolding add
add-exact a b h = round_signed-money (a +ℤ b) h

pub sub-exact : (a b : Decimal) → IsMoney (a -ℤ b) → sub a b ≡ a -ℤ b
unfolding sub
sub-exact a b h = round_signed-money (a -ℤ b) h

-- What is left of an amount after a smaller one is money again.
pub IsMoney-left : (a b : Decimal) → IsMoney a → IsMoney b → b ≤ℤ a → IsMoney (a -ℤ b)
unfolding ◌-ℤ◌
IsMoney-left (pos n) (pos m) ha hb le = ground arith
IsMoney-left (negsuc n) b ha hb le = absurd ha
IsMoney-left (pos n) (negsuc m) ha hb le = absurd hb

pub IsMoney-sum :
    (a b : Decimal) → IsMoney a → IsMoney b → a +ℤ b ≤ℤ pos (exact_limit - 1) → IsMoney (a +ℤ b)
unfolding ◌+ℤ◌
IsMoney-sum (pos n) (pos m) ha hb le = ground arith
IsMoney-sum (negsuc n) b ha hb le = absurd ha
IsMoney-sum (pos n) (negsuc m) ha hb le = absurd hb

-- An amount that one balance covers fits on top of another, where the two together are money.
pub IsMoney-moved :
    (a l r : Decimal)
    → IsMoney a
    → IsMoney l
    → IsMoney (a +ℤ l)
    → IsMoney r
    → r ≤ℤ a
    → IsMoney (l +ℤ r)
unfolding ◌+ℤ◌
IsMoney-moved (pos a) (pos l) (pos r) ha hl hs hr le = ground arith
IsMoney-moved (negsuc a) l r ha hl hs hr le = absurd ha
IsMoney-moved (pos a) (negsuc l) r ha hl hs hr le = absurd hl
IsMoney-moved (pos a) (pos l) (negsuc r) ha hl hs hr le = absurd hr
