-- ===== src/Wallet/Total.antt =====
-- The sum of all balances, and what a change of one balance does to it.
use multi_trade_platform.Base.{
  ℕ, ◌+◌, ◌≡◌, ◌≢◌, refl, arith, Bool, List, [], ◌∷◌, none, some, ◌==◌, find_row, Bool-cases, inl,
  inr,
}
use multi_trade_platform.Store.{Wallet}
use multi_trade_platform.Wallet.Repository.{at_version, set_balance}

abbrev pub total : List Wallet → ℕ
total [] = 0
total (x ∷ xs) = x.balance + total xs

abbrev pub has_wallet_id : ℕ → Wallet → Bool
has_wallet_id id x = x.id == id

-- No two wallets have the same id: it is the table's primary key.
abbrev pub HasKeys : List Wallet → Type 0
HasKeys [] = Unit
HasKeys (x ∷ xs) = (find_row (has_wallet_id x.id) xs ≡ none) × HasKeys xs

set_balance-absent :
    (id v n : ℕ) (xs : List Wallet)
    → find_row (has_wallet_id id) xs ≡ none
    → total (set_balance id v n xs) ≡ total xs
set_balance-absent id v n [] h = refl
set_balance-absent id v n (x ∷ xs) h = elim (Bool-cases (x.id == id)) [
  | inl k ↦ absurd (ground arith)
  | inr k ↦ let same = set_balance-absent id v n xs (ground arith) in ground arith
]

pub found_key :
    (p : Wallet → Bool) (xs : List Wallet) (x : Wallet)
    → find_row p xs ≡ some x
    → find_row (has_wallet_id x.id) xs ≢ none
found_key p [] x h = absurd (ground arith)
found_key p (y ∷ ys) x h = elim (Bool-cases (p y)) [
  | inl k ↦ let is_y : y ≡ x = ground arith in ground arith
  | inr k ↦ let later = found_key p ys x (ground arith) in ground arith
]

-- A balance that is set moves the sum by as much as it moves the balance.
pub total-set_balance :
    (p : Wallet → Bool) (n : ℕ) (xs : List Wallet) (x : Wallet)
    → HasKeys xs
    → find_row p xs ≡ some x
    → total (set_balance x.id x.version n xs) + x.balance ≡ total xs + n
total-set_balance p n [] x keys found = absurd (ground arith)
total-set_balance p n (y ∷ ys) x keys found = elim (Bool-cases (p y)) [
  | inl k ↦
      let is_y : y ≡ x = ground arith in
      let same = set_balance-absent x.id x.version n ys (let absent = keys.0 in ground arith) in
      ground arith
  | inr k ↦
      let later : find_row p ys ≡ some x = ground arith in
      let there = found_key p ys x later in
      let rest = total-set_balance p n ys x keys.1 later in
      let other : y.id ≢ x.id = λ e. there (let absent = keys.0 in ground arith) in ground arith
]

find_row-set_balance :
    (id i v n : ℕ) (xs : List Wallet)
    → find_row (has_wallet_id id) xs ≡ none
    → find_row (has_wallet_id id) (set_balance i v n xs) ≡ none
find_row-set_balance id i v n [] h = refl
find_row-set_balance id i v n (x ∷ xs) h =
    let rest = find_row-set_balance id i v n xs in
    elim (Bool-cases (x.id == id)) [ inl k ↦ absurd (ground arith) | inr k ↦ ground arith ]

pub set_balance-HasKeys :
    (i v n : ℕ) (xs : List Wallet) → HasKeys xs → HasKeys (set_balance i v n xs)
set_balance-HasKeys i v n [] keys = tt
set_balance-HasKeys i v n (x ∷ xs) keys =
    let rest = set_balance-HasKeys i v n xs keys.1 in
    let absent = find_row-set_balance x.id i v n xs keys.0 in
    elim (Bool-cases (at_version i v x)) [ inl k ↦ ground arith | inr k ↦ ground arith ]
