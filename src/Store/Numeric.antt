-- ===== src/Store/Numeric.antt =====
-- Writing the texts that the services print, which have eight places.
use multi_trade_platform.Base.{ℕ, ◌≡◌, arith, some}
use multi_trade_platform.Base.Int.{ℤ, pos}
use multi_trade_platform.Decimal.Exact.{column}
use multi_trade_platform.Store.Columns.{numeric, non_negative, units}

pub numeric-column_eq : (n : ℕ) (v : ℤ) → numeric (column n) ≡ some v → v ≡ pos n
unfolding numeric units
numeric-column_eq n v e = ground arith

pub non_negative-column_eq : (n m : ℕ) → non_negative (numeric (column n)) ≡ some m → m ≡ n
unfolding numeric units non_negative
non_negative-column_eq n m e = ground arith
