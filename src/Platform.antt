-- ===== src/Platform.antt =====
-- What the gateway takes from Go's time package and from its floating-point numbers, as a
-- parameter of the definitions that use them.
use zx909_gw.Prelude.{ℕ, Bool}
use zx909_gw.Prelude.Int.{ℤ}

-- The calendar fields of a time in UTC.
pub record Civil : Type 0 where
  pub year : ℕ
  pub month : ℕ
  pub day : ℕ
  pub hour : ℕ
  pub minute : ℕ
  pub second : ℕ

pub record Platform : Type 1 where
  pub Time : Type 0
  pub Float : Type 0
  -- `time.Date(year, month, day, hour, min, sec, 0, time.UTC)`.
  pub date : ℤ → ℤ → ℤ → ℤ → ℤ → ℤ → Time
  -- `t.UTC()` with `Year()`, `Month()`, … of it.
  pub utc : Time → Civil
  -- `t.IsZero()`.
  pub is_zero : Time → Bool
  -- `float64(n)`, `x / y` and `x != 0`.
  pub float : ℕ → Float
  pub quotient : Float → Float → Float
  pub ne_zero : Float → Bool
