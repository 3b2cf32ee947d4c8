-- ===== src/Accounts/Balances.antt =====
-- The services as moves of an abstract ledger, which knows how much of an asset a user has,
-- available and locked, and the kinds and amounts that are posted.
use crypto_ledger_sandbox.Prelude.{
  Bool-cases, true, some, List, ◌∷◌, map, ltb_ℤ, ◌≡◌, refl, sym, ap, subst, ◌∙◌, inl, inr,
  if◌then◌else◌, pos, ◌+ℤ◌, ◌-ℤ◌, ◌≤ℤ◌, int_laws, find?, Unique, update,
}
use crypto_ledger_sandbox.Decimal.{Decimal}
use crypto_ledger_sandbox.Models.{
  Uuid, Wallet, BalanceBucket, available, locked, LedgerTransactionType, funding, order_reserve,
  order_release,
}
use crypto_ledger_sandbox.Db.{Db}
use crypto_ledger_sandbox.Ledger.{is_user_wallet}
use crypto_ledger_sandbox.Ledger.Posted.{set_balance}
use crypto_ledger_sandbox.Accounts.{bucket_value, value_or_zero}
use crypto_ledger_sandbox.Accounts.Backed.{is_owner, with_balances, found_by_owner, bucket-update}

abbrev pub Balances : Type 0
Balances = Uuid → Uuid → BalanceBucket → Decimal

-- What the tables say, a missing wallet being an empty one.
unfoldable pub balances : Db → Balances
balances db u a b = value_or_zero b (find? (is_user_wallet u a) db.wallets)

abbrev pub deposited : Decimal → BalanceBucket → Decimal
deposited r available = r
deposited r locked = pos 0

abbrev pub held : Decimal → BalanceBucket → Decimal
held r available = pos 0 -ℤ r
held r locked = r

abbrev pub freed : Decimal → BalanceBucket → Decimal
freed r available = r
freed r locked = pos 0 -ℤ r

-- One user's balances in one asset change.
abbrev pub changed : Uuid → Uuid → (BalanceBucket → Decimal) → Balances → Balances
changed user_id asset_id delta s u a b =
    if is_owner user_id asset_id u a then s u a b +ℤ delta b else s u a b

-- The abstract ledger: the kinds of its transactions and the amounts of its entries, the last
-- first, and what every user has.
pub record LedgerView : Type 0 where
  pub kinds : List LedgerTransactionType
  pub amounts : List Decimal
  pub users : Balances

abbrev pub kinds_of : Db → List LedgerTransactionType
kinds_of db = map (λ t. t.transaction_type) db.transactions

abbrev pub amounts_of : Db → List Decimal
amounts_of db = map (λ e. e.amount) db.entries

unfoldable pub view : Db → LedgerView
view db = record { kinds = kinds_of db; amounts = amounts_of db; users = balances db }

-- One transaction more, with a debit and a credit of one amount, and the balances after it.
abbrev pub posted : LedgerTransactionType → Decimal → Balances → LedgerView → LedgerView
posted kind r users s = record {
  kinds = kind ∷ s.kinds;
  amounts = r ∷ r ∷ s.amounts;
  users = users;
}

-- The moves: a deposit, a hold of what is available, a release of what is held, or none. Each is
-- of a positive amount and is one transaction of its kind.
pub data Move (s t : LedgerView) : Type 0 where
  deposit :
      (user_id asset_id : Uuid) (r : Decimal)
      → ltb_ℤ (pos 0) r ≡ true
      → t ≡ posted funding r (changed user_id asset_id (deposited r) s.users) s
      → Move s t
  hold :
      (user_id asset_id : Uuid) (r : Decimal)
      → ltb_ℤ (pos 0) r ≡ true
      → r ≤ℤ s.users user_id asset_id available
      → t ≡ posted order_reserve r (changed user_id asset_id (held r) s.users) s
      → Move s t
  free :
      (user_id asset_id : Uuid) (r : Decimal)
      → ltb_ℤ (pos 0) r ≡ true
      → r ≤ℤ s.users user_id asset_id locked
      → t ≡ posted order_release r (changed user_id asset_id (freed r) s.users) s
      → Move s t
  rest : t ≡ s → Move s t

pub same_balances :
    {s t : Balances} → ((u a : Uuid) (b : BalanceBucket) → t u a b ≡ s u a b) → t ≡ s
same_balances h i u a b = h u a b i

-- An update of one user's wallet, and what it adds to each bucket.
pub update-changed :
    (user_id asset_id : Uuid) (wallets : List Wallet) (wallet : Wallet) (f : Wallet → Wallet)
    (delta : BalanceBucket → Decimal) (db' : Db) (s : Balances)
    → Unique (λ w. w.id) wallets
    → find? (is_user_wallet user_id asset_id) wallets ≡ some wallet
    → ((u a : Uuid) (w : Wallet) → is_user_wallet u a (f w) ≡ is_user_wallet u a w)
    → ((b : BalanceBucket) → bucket_value b (f wallet) ≡ bucket_value b wallet +ℤ delta b)
    → ((u a : Uuid) (b : BalanceBucket)
        → value_or_zero b (find? (is_user_wallet u a) wallets) ≡ s u a b)
    → db'.wallets ≡ update (λ w. w.id) wallet.id f wallets
    → balances db' ≡ changed user_id asset_id delta s
unfolding balances
update-changed user_id asset_id wallets wallet f delta db' s ids found same_test adds says ws =
    same_balances (λ u a b. rw ws (
      bucket-update user_id asset_id wallets wallet ids found f b u a (same_test u a)
      ∙ elim (Bool-cases (is_owner user_id asset_id u a)) [
        | inl own ↦ rw own (
            adds b
            ∙ ap (λ v. v +ℤ delta b)
                (sym (
                    ap (value_or_zero b)
                      (found_by_owner user_id asset_id wallets wallet ids found f b u a own))
                  ∙ says u a b))
        | inr other ↦ rw other (says u a b)
      ]))

minus : (a l r : Decimal) → a -ℤ r ≡ a +ℤ (pos 0 -ℤ r)
minus a l r = omega int_laws

plus_zero : (l : Decimal) → l ≡ l +ℤ pos 0
plus_zero l = omega int_laws

pub holds_so :
    (y z : Decimal) (r : Decimal) (wallet : Wallet)
    → y ≡ wallet.available_balance -ℤ r
    → z ≡ wallet.locked_balance +ℤ r
    → (b : BalanceBucket)
    → bucket_value b (with_balances y z wallet) ≡ bucket_value b wallet +ℤ held r b
holds_so y z r wallet e f available = e ∙ minus wallet.available_balance r r
holds_so y z r wallet e f locked = f

pub frees_so :
    (y z : Decimal) (r : Decimal) (wallet : Wallet)
    → y ≡ wallet.available_balance +ℤ r
    → z ≡ wallet.locked_balance -ℤ r
    → (b : BalanceBucket)
    → bucket_value b (with_balances y z wallet) ≡ bucket_value b wallet +ℤ freed r b
frees_so y z r wallet e f available = e
frees_so y z r wallet e f locked = f ∙ minus wallet.locked_balance r r

pub puts_so :
    (z : Decimal) (r : Decimal) (wallet : Wallet)
    → z ≡ wallet.available_balance +ℤ r
    → (b : BalanceBucket)
    → bucket_value b (set_balance z wallet) ≡ bucket_value b wallet +ℤ deposited r b
puts_so z r wallet e available = e
puts_so z r wallet e locked = plus_zero wallet.locked_balance

-- What the tables say of a wallet that is found.
pub found_balance :
    (u a : Uuid) (b : BalanceBucket) (db : Db) {wallet : Wallet}
    → find? (is_user_wallet u a) db.wallets ≡ some wallet
    → balances db u a b ≡ bucket_value b wallet
unfolding balances
found_balance u a b db found = ap (value_or_zero b) found

pub said :
    (db : Db) (u a : Uuid) (b : BalanceBucket)
    → value_or_zero b (find? (is_user_wallet u a) db.wallets) ≡ balances db u a b
unfolding balances
said db u a b = refl

-- The moves, with what they need.
abbrev pub IsHold : Uuid → Uuid → Decimal → Db → Db → Type 0
IsHold user_id asset_id r db db' =
    (r ≤ℤ balances db user_id asset_id available)
    × (balances db' ≡ changed user_id asset_id (held r) (balances db))

abbrev pub IsFree : Uuid → Uuid → Decimal → Db → Db → Type 0
IsFree user_id asset_id r db db' =
    (r ≤ℤ balances db user_id asset_id locked)
    × (balances db' ≡ changed user_id asset_id (freed r) (balances db))

pub same_call :
    (Is : Uuid → Uuid → Decimal → Type 0) {u u' a a' : Uuid} {r r' : Decimal}
    → u ≡ u'
    → a ≡ a'
    → r ≡ r'
    → Is u a r
    → Is u' a' r'
same_call Is {u} {u'} {a} {a'} {r} {r'} e f g h =
    subst (λ v. Is v a' r') e (subst (λ b. Is u b r') f (subst (Is u a) g h))
