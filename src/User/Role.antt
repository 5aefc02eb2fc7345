-- ===== src/User/Role.antt =====
-- The roles of internal/user/model.go.
use Prim.Native.String.{String}

abbrev pub admin : String
admin = "admin"

abbrev pub broker : String
broker = "broker"

abbrev pub trader : String
trader = "trader"

abbrev pub support : String
support = "support"
