-- ===== src/Base/Times.antt =====
-- A Python `datetime`: whether it has a time zone, and its instant in microseconds of UTC since year 1.
use Prim.Native.Nat.{ℕ, ◌/◌}
use mathlib.Core.Bool.{Bool}

pub record Datetime : Type 0 where
  pub aware : Bool
  pub micros : ℕ

-- `now.date()`, as a count of days
unfoldable pub date_of : ℕ → ℕ
date_of now = now / 86400000000
