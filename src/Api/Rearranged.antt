-- ===== src/Api/Rearranged.antt =====
-- The rows of a query in another order, as an ORDER BY answers them, and what that keeps.
use crypto_ledger_sandbox.Prelude.{
  ℕ, Bool, false, ◌≡◌, refl, sym, subst, ◌∙◌, List, [], ◌∷◌, ◌==◌, any?, Unique, All, arith,
}

module _ {A : Type 0} where
  -- The same rows, each as often, in another order.
  pub data Rearranged : List A → List A → Type 0 where
    nothing : Rearranged [] []
    keep : {a b : A} {xs ys : List A} → a ≡ b → Rearranged xs ys → Rearranged (a ∷ xs) (b ∷ ys)
    swap : {a b a' b' : A} {xs : List A} → a ≡ b' → b ≡ a' → Rearranged (a ∷ b ∷ xs) (a' ∷ b' ∷ xs)
    and_then : {xs ys zs : List A} → Rearranged xs ys → Rearranged ys zs → Rearranged xs zs

  pub any?-rearranged : (p : A → Bool) {xs ys : List A} → Rearranged xs ys → any? p xs ≡ any? p ys
  unfolding any?
  any?-rearranged p nothing = refl
  any?-rearranged p (keep {a} {b} e h) = rw (e, any?-rearranged p h) refl
  any?-rearranged p (swap {a} {b} {a'} {b'} {xs} e f) = rw (e, f) (ground arith)
  any?-rearranged p (and_then h k) = any?-rearranged p h ∙ any?-rearranged p k

  pub All-rearranged : (P : A → Type 0) {xs ys : List A} → Rearranged xs ys → All P xs → All P ys
  All-rearranged P nothing a = tt
  All-rearranged P (keep e h) a = (subst P e a.0, All-rearranged P h a.1)
  All-rearranged P (swap e f) a = (subst P f a.1.0, (subst P e a.0, a.1.1))
  All-rearranged P (and_then h k) a = All-rearranged P k (All-rearranged P h a)

  swapped :
      (key : A → ℕ) (a b a' b' : A) (xs : List A)
      → a ≡ b'
      → b ≡ a'
      → Unique key (a ∷ b ∷ xs)
      → Unique key (a' ∷ b' ∷ xs)
  unfolding any?
  swapped key a b a' b' xs e f ((h, (k, u))) =
      subst (λ c. Unique key (c ∷ b' ∷ xs)) f
        (subst (λ c. Unique key (b ∷ c ∷ xs)) e (ground arith, (ground arith, u)))

  pub Unique-rearranged :
      (key : A → ℕ) {xs ys : List A} → Rearranged xs ys → Unique key xs → Unique key ys
  Unique-rearranged key nothing u = tt
  Unique-rearranged key (keep {a} {b} {xs} {ys} e h) u = (
    sym (any?-rearranged (λ y. key y == key b) h)
        ∙ subst (λ c. any? (λ y. key y == key c) xs ≡ false) e u.0,
    Unique-rearranged key h u.1,
  )
  Unique-rearranged key (swap {a} {b} {a'} {b'} {xs} e f) u = swapped key a b a' b' xs e f u
  Unique-rearranged key (and_then h k) u = Unique-rearranged key k (Unique-rearranged key h u)
