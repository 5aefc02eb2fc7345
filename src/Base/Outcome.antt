-- ===== src/Base/Outcome.antt =====
-- A Go call that returns `(value, error)`: exactly one of the two.
pub data Result (E : Type 0) (A : Type 0) : Type 0 where
  ok : A → Result E A
  err : E → Result E A
