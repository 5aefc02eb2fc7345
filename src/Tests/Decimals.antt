-- ===== src/Tests/Decimals.antt =====
-- pkg/decimal at concrete texts.
use multi_trade_platform.Base.{◌≡◌, ◌*◌, ◌^◌, ℕ, some, arith}
use multi_trade_platform.Decimal.Exact.{column, Close}
use multi_trade_platform.Decimal.{mul}
use multi_trade_platform.Decimal.Laws.{through, through-mul}

-- 0.00000003 * 0.5 is printed as a number of units within 0.6 of 1.5.
through-mul_example :
    (k : ℕ) × (through mul (column 3) (column 50000000) ≡ some (column k))
    × Close 10 (k * 10 ^ 8) (3 * 50000000) (6 * 10 ^ 8)
through-mul_example = through-mul 3 50000000 (omega arith) (omega arith)
