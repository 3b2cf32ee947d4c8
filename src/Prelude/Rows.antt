-- ===== src/Prelude/Rows.antt =====
-- Tables as lists of rows, the newest first: queries, updates by key, sums over the rows.
use Prim.Native.Nat.{ℕ}
use mathlib.Core.Path.{◌≡◌, refl, sym, ap, subst}
use mathlib.Core.Logic.{inl, inr}
use mathlib.Core.Bool.{Bool, true, false, ◌||◌}
use mathlib.Core.Option.{Option, none, some}
use mathlib.Core.List.{List, [], ◌∷◌}
use native.Mathlib.Omega.{arith}
use crypto_ledger_sandbox.Prelude.Tests.{◌==◌, ==_iff, ==_refl, Bool-cases, if◌then◌else◌}
use crypto_ledger_sandbox.Prelude.Int.{ℤ, pos, ◌+ℤ◌, int_laws}

module _ {ℓ} {A : Type ℓ} where
  -- The first row that passes the test.
  unfoldable pub find? : (A → Bool) → List A → Option A
  find? p [] = none
  find? p (x ∷ xs) = if p x then some x else find? p xs

  unfoldable pub any? : (A → Bool) → List A → Bool
  any? p [] = false
  any? p (x ∷ xs) = p x || any? p xs

  -- Changes every row with the key.
  unfoldable pub update : (A → ℕ) → ℕ → (A → A) → List A → List A
  update key k f [] = []
  update key k f (x ∷ xs) = (if key x == k then f x else x) ∷ update key k f xs

  unfoldable pub total : (A → ℤ) → List A → ℤ
  total weight [] = pos 0
  total weight (x ∷ xs) = weight x +ℤ total weight xs

  -- What `update` makes of a query's answer.
  abbrev pub updated : (A → ℕ) → ℕ → (A → A) → Option A → Option A
  updated key k f none = none
  updated key k f (some x) = some (if key x == k then f x else x)

  -- No two rows have the same key.
  abbrev pub Unique : (A → ℕ) → List A → Type 0
  Unique key [] = Unit
  Unique key (x ∷ xs) = (any? (λ y. key y == key x) xs ≡ false) × Unique key xs

  pub find?-test : (p : A → Bool) (xs : List A) {x : A} → find? p xs ≡ some x → p x ≡ true
  unfolding find?
  find?-test p [] h = cc
  find?-test p (y ∷ xs) {x} h = ground (arith, find?-test p xs {x = x})

  -- A row that is found passes no test that no row passes.
  pub find?-any :
      (p q : A → Bool) (xs : List A) {x : A} → find? p xs ≡ some x → any? q xs ≡ false → q x ≡ false
  unfolding find? any?
  find?-any p q [] h none_passes = cc
  find?-any p q (y ∷ xs) {x} h none_passes = ground (arith, find?-any p q xs {x = x})

  pub find?-none : (p : A → Bool) (xs : List A) → any? p xs ≡ false → find? p xs ≡ none
  unfolding find? any?
  find?-none p [] h = refl
  find?-none p (y ∷ xs) h = ground (arith, find?-none p xs)

  pub any?-none : (p : A → Bool) (xs : List A) → find? p xs ≡ none → any? p xs ≡ false
  unfolding find? any?
  any?-none p [] h = refl
  any?-none p (y ∷ xs) h = ground (arith, any?-none p xs)

  -- A row that is found passes the tests that it passes.
  pub any?-found :
      (p q : A → Bool) (xs : List A) {x : A} → find? p xs ≡ some x → q x ≡ true → any? q xs ≡ true
  unfolding find? any?
  any?-found p q [] h k = cc
  any?-found p q (y ∷ xs) {x} h k = ground (arith, any?-found p q xs {x = x})

  -- A query whose test the update does not touch finds the updated row.
  pub find?-update :
      (p : A → Bool) (key : A → ℕ) (k : ℕ) (f : A → A) (xs : List A)
      → ((x : A) → p (f x) ≡ p x)
      → find? p (update key k f xs) ≡ updated key k f (find? p xs)
  unfolding find? update
  find?-update p key k f [] h = refl
  find?-update p key k f (x ∷ xs) h = ground (arith, h x, find?-update p key k f xs h)

  pub any?-update :
      (p : A → Bool) (key : A → ℕ) (k : ℕ) (f : A → A) (xs : List A)
      → ((x : A) → p (f x) ≡ p x)
      → any? p (update key k f xs) ≡ any? p xs
  unfolding any? update
  any?-update p key k f [] h = refl
  any?-update p key k f (x ∷ xs) h = ground (arith, h x, any?-update p key k f xs h)

  -- Two queries of a table with unique keys that answer rows with one key answer one row.
  pub find?_same :
      (p q : A → Bool) (key : A → ℕ) (xs : List A) {x y : A}
      → Unique key xs
      → find? p xs ≡ some x
      → find? q xs ≡ some y
      → key x ≡ key y
      → x ≡ y
  unfolding find?
  find?_same p q key [] u hp hq e = cc
  find?_same p q key (z ∷ xs) {x} {y} u hp hq e = ground (
    arith,
    find?_same p q key xs {x = x} {y = y} u.1,
    find?-any p (λ w. key w == key z) xs {x = x},
    find?-any q (λ w. key w == key z) xs {x = y},
  )

module _ {ℓ} {A : Type ℓ} where
  pub update_absent :
      (key : A → ℕ) (k : ℕ) (f : A → A) (xs : List A)
      → any? (λ y. key y == k) xs ≡ false
      → update key k f xs ≡ xs
  unfolding any? update
  update_absent key k f [] h = refl
  update_absent key k f (x ∷ xs) h = ground (arith, update_absent key k f xs)

  total-update_head :
      (key : A → ℕ) (weight : A → ℤ) (f : A → A) (y : A) (xs : List A)
      → any? (λ z. key z == key y) xs ≡ false
      → total weight (update key (key y) f (y ∷ xs)) +ℤ weight y
        ≡ total weight (y ∷ xs) +ℤ weight (f y)
  unfolding update total
  total-update_head key weight f y xs h =
      rw (==_refl (key y)) (grind (int_laws, ap (total weight) (update_absent key (key y) f xs h)))

  -- An update of one row moves a sum by what it moves that row's weight.
  pub total-update :
      (p : A → Bool) (key : A → ℕ) (weight : A → ℤ) (f : A → A) (xs : List A) {x : A}
      → Unique key xs
      → find? p xs ≡ some x
      → total weight (update key (key x) f xs) +ℤ weight x ≡ total weight xs +ℤ weight (f x)
  unfolding find? update total
  total-update p key weight f [] u h = cc
  total-update p key weight f (y ∷ xs) {x} u h = elim (Bool-cases (p y)) [
    | inl here ↦
        let e : y ≡ x = ground arith in
        subst
          (λ z.
            total weight (update key (key z) f (y ∷ xs)) +ℤ weight z
            ≡ total weight (y ∷ xs) +ℤ weight (f z))
          e (total-update_head key weight f y xs u.0)
    | inr later ↦
        let found : find? p xs ≡ some x = ground arith in
        let apart : (key y == key x) ≡ false =
          ground (arith, find?-any p (λ w. key w == key y) xs found u.0) in
        rw apart (grind (int_laws, total-update p key weight f xs u.1 found))
  ]

  pub update-Unique :
      (key : A → ℕ) (k : ℕ) (f : A → A) (xs : List A)
      → ((x : A) → key (f x) ≡ key x)
      → Unique key xs
      → Unique key (update key k f xs)
  unfolding update
  update-Unique key k f [] h u = tt
  update-Unique key k f (x ∷ xs) h u = (
    ground (
      arith,
      h x,
      any?-update (λ y. key y == key x) key k f xs (λ y. ground (arith, h y)),
      any?-update (λ y. key y == key (f x)) key k f xs (λ y. ground (arith, h y)),
    ),
    update-Unique key k f xs h u.1,
  )

module _ {ℓ} {A : Type ℓ} where
  pub find?_key :
      (p : A → Bool) (key : A → ℕ) (xs : List A) {x : A}
      → Unique key xs
      → find? p xs ≡ some x
      → find? (λ y. key y == key x) xs ≡ some x
  unfolding find?
  find?_key p key [] u h = cc
  find?_key p key (y ∷ xs) {x} u h =
      ground (arith, find?_key p key xs {x = x} u.1, find?-any p (λ w. key w == key y) xs {x = x})

  updated_other :
      (key : A → ℕ) (k j : ℕ) (f : A → A) (o : Option A)
      → ((y : A) → o ≡ some y → (key y == j) ≡ true)
      → (j == k) ≡ false
      → updated key k f o ≡ o
  updated_other key k j f none h other = refl
  updated_other key k j f (some y) h other = ground (arith, h y refl)

  -- A query by key after an update of another key, or of the key.
  pub find?-update_key :
      (key : A → ℕ) (k j : ℕ) (f : A → A) (xs : List A) {x : A}
      → ((y : A) → key (f y) ≡ key y)
      → find? (λ y. key y == k) xs ≡ some x
      → find? (λ y. key y == j) (update key k f xs)
        ≡ (if j == k then some (f x) else find? (λ y. key y == j) xs)
  find?-update_key key k j f xs {x} h e =
      rw (find?-update (λ y. key y == j) key k f xs (λ y. ground (arith, h y)))
        (elim (Bool-cases (j == k)) [
          | inl same ↦
              let e' : find? (λ y. key y == j) xs ≡ some x =
                subst (λ i. find? (λ y. key y == i) xs ≡ some x) (sym ((==_iff j k).0 same)) e in
              rw (same, e', find?-test (λ y. key y == k) xs e)
          | inr other ↦ rw other (
              updated_other key k j f (find? (λ y. key y == j) xs)
                (λ y. find?-test (λ z. key z == j) xs {x = y}) other)
        ])
