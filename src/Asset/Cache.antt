-- ===== src/Asset/Cache.antt =====
-- internal/redis/cache.go: the prices that Redis keeps for ten minutes. A price in the cache is the
-- text of a column, so it is kept as the column's units.
use multi_trade_platform.Base.{
  ℕ, Bool, false, List, [], ◌∷◌, Option, none, some, ◌==◌, if◌then◌else◌,
}

-- The keys asset:N:price. `faults` is the schedule of the calls that fail, past its end none does.
pub record Cache : Type 0 where
  pub price : ℕ → Option ℕ
  pub faults : List Bool

abbrev fails : List Bool → Bool
fails [] = false
fails (f ∷ fs) = f

abbrev later : List Bool → List Bool
later [] = []
later (f ∷ fs) = fs

abbrev pub put : ℕ → Option ℕ → (ℕ → Option ℕ) → ℕ → Option ℕ
put id p prices n = if n == id then p else prices n

-- A call of Redis that stores or deletes; its failure is only logged.
abbrev pub store_price : ℕ → Option ℕ → Cache → Cache
store_price id p c = record {
  price = if fails c.faults then c.price else put id p c.price;
  faults = later c.faults;
}

unfoldable pub set_price : ℕ → ℕ → Cache → Cache
set_price id p c = store_price id (some p) c

unfoldable pub invalidate_price : ℕ → Cache → Cache
invalidate_price id c = store_price id none c

-- GetPrice: a key that is missing and a call that fails look the same.
unfoldable pub get_price : ℕ → Cache → Option ℕ × Cache
get_price id c = (if fails c.faults then none else c.price id, record c { faults = later c.faults })

-- The time to live of a key is over.
abbrev pub expire : ℕ → Cache → Cache
expire id c = record c { price = put id none c.price }
