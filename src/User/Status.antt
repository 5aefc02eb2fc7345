-- ===== src/User/Status.antt =====
-- The statuses of internal/user/model.go.
use Prim.Native.String.{String}

abbrev pub active : String
active = "ACTIVE"

abbrev pub suspended : String
suspended = "SUSPENDED"
