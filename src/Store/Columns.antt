-- ===== src/Store/Columns.antt =====
-- Writing a text to a NUMERIC(20, 8) column: it is rounded to eight places, half away from zero, and
-- refused from 10^12 on.
use multi_trade_platform.Base.{
  ℕ, ◌+◌, ◌-◌, ◌*◌, ◌/◌, ◌^◌, Bool, Option, none, some, leb, ◌==◌, if◌then◌else◌,
}
use multi_trade_platform.Base.Int.{ℤ, pos, negsuc}
use multi_trade_platform.Decimal.BigFloat.{NumText, malformed, number}

abbrev pub numeric_limit : ℕ
numeric_limit = 10 ^ 20

-- The units of 10^-8 in c / 10^places.
unfoldable pub units : ℕ → ℕ → ℕ
units c places =
    if leb places 8
    then c * 10 ^ (8 - places)
    else (2 * c + 10 ^ (places - 8)) / (2 * 10 ^ (places - 8))

signed : Bool → ℕ → Option ℤ
signed sign u =
    if leb numeric_limit u
    then none
    else some (if sign then (if u == 0 then pos 0 else negsuc (u - 1)) else pos u)

unfoldable pub numeric : NumText → Option ℤ
unfolding signed
numeric malformed = none
numeric (number sign c places) = signed sign (units c places)

-- A column with CHECK (… >= 0).
unfoldable pub non_negative : Option ℤ → Option ℕ
non_negative none = none
non_negative (some (pos n)) = some n
non_negative (some (negsuc n)) = none
