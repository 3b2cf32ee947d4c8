-- ===== src/Prelude/Every.antt =====
-- Properties that every row of a table has, and sums of rows that are not negative.
use Prim.Native.Nat.{ℕ}
use mathlib.Core.Path.{◌≡◌, sym, subst}
use mathlib.Core.Logic.{inl, inr}
use mathlib.Core.Bool.{Bool, false}
use mathlib.Core.Option.{some}
use mathlib.Core.List.{List, [], ◌∷◌}
use native.Mathlib.Omega.{arith}
use crypto_ledger_sandbox.Prelude.Tests.{◌==◌, ==_refl, Bool-cases}
use crypto_ledger_sandbox.Prelude.Int.{ℤ, pos, ◌+ℤ◌, ◌≤ℤ◌, int_laws}
use crypto_ledger_sandbox.Prelude.Rows.{
  find?, any?, update, total, Unique, find?-any, update_absent,
}

module _ {ℓ} {A : Type ℓ} where
  -- Every row has the property.
  abbrev pub All {κ} : (A → Type κ) → List A → Type κ
  All P [] = Unit
  All P (x ∷ xs) = P x × All P xs

  pub All-find? {κ} :
      (P : A → Type κ) (p : A → Bool) (xs : List A) {x : A} → All P xs → find? p xs ≡ some x → P x
  unfolding find?
  All-find? P p [] a h = cc
  All-find? P p (y ∷ xs) {x} a h = elim (Bool-cases (p y)) [
    | inl here ↦ subst P (ground arith) a.0
    | inr later ↦ All-find? P p xs a.1 (ground arith)
  ]

  -- An update keeps a property that the changed rows have.
  pub All-update {κ} :
      (P : A → Type κ) (key : A → ℕ) (k : ℕ) (f : A → A) (xs : List A)
      → ((x : A) → P x → P (f x))
      → All P xs
      → All P (update key k f xs)
  unfolding update
  All-update P key k f [] h a = tt
  All-update P key k f (x ∷ xs) h a = elim (Bool-cases (key x == k)) [
    | inl hit ↦ rw hit (h x a.0, All-update P key k f xs h a.1)
    | inr miss ↦ rw miss (a.0, All-update P key k f xs h a.1)
  ]

module _ {ℓ} {A : Type ℓ} where
  pub All-weaken {κ μ} :
      {P : A → Type κ} {Q : A → Type μ} (weaken : (x : A) → P x → Q x) (xs : List A)
      → All P xs
      → All Q xs
  All-weaken weaken [] a = tt
  All-weaken weaken (x ∷ xs) a = (weaken x a.0, All-weaken weaken xs a.1)

  total-nonneg :
      (weight : A → ℤ) (xs : List A) → All (λ x. pos 0 ≤ℤ weight x) xs → pos 0 ≤ℤ total weight xs
  unfolding total
  total-nonneg weight [] a = omega arith
  total-nonneg weight (x ∷ xs) a = omega (int_laws, a.0, total-nonneg weight xs a.1)

  -- A sum of numbers that are not negative covers each of them.
  pub total-covers :
      (p : A → Bool) (weight : A → ℤ) (xs : List A) {x : A}
      → All (λ y. pos 0 ≤ℤ weight y) xs
      → find? p xs ≡ some x
      → weight x ≤ℤ total weight xs
  unfolding find? total
  total-covers p weight [] a h = cc
  total-covers p weight (y ∷ xs) {x} a h = elim (Bool-cases (p y)) [
    | inl here ↦
        let same : y ≡ x = ground arith in
        subst (λ z. weight z ≤ℤ weight y +ℤ total weight xs) same
          (omega (int_laws, total-nonneg weight xs a.1))
    | inr later ↦
        let rest : weight x ≤ℤ total weight xs = total-covers p weight xs a.1 (ground arith) in
        omega (int_laws, a.0, rest)
  ]

module _ {ℓ} {A : Type ℓ} where
  All-update_head {κ} :
      (P : A → Type κ) (key : A → ℕ) (f : A → A) (y : A) (xs : List A)
      → any? (λ z. key z == key y) xs ≡ false
      → P (f y)
      → All P xs
      → All P (update key (key y) f (y ∷ xs))
  unfolding update
  All-update_head P key f y xs absent h a =
      rw (==_refl (key y)) (h, subst (All P) (sym (update_absent key (key y) f xs absent)) a)

  -- An update of the row that a query finds keeps a property that the changed row has.
  pub All-update_found {κ} :
      (P : A → Type κ) (p : A → Bool) (key : A → ℕ) (f : A → A) (xs : List A) {x : A}
      → Unique key xs
      → find? p xs ≡ some x
      → P (f x)
      → All P xs
      → All P (update key (key x) f xs)
  unfolding find? update
  All-update_found P p key f [] u e h a = tt
  All-update_found P p key f (y ∷ xs) {x} u e h a = elim (Bool-cases (p y)) [
    | inl here ↦
        let same : y ≡ x = ground arith in
        subst (λ z. All P (update key (key z) f (y ∷ xs))) same
          (All-update_head P key f y xs u.0 (subst (λ z. P (f z)) (sym same) h) a.1)
    | inr later ↦
        let found : find? p xs ≡ some x = ground arith in
        let apart : (key y == key x) ≡ false =
          ground (arith, find?-any p (λ w. key w == key y) xs found u.0) in
        rw apart (a.0, All-update_found P p key f xs u.1 found h a.1)
  ]
