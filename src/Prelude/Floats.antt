-- ===== src/Prelude/Floats.antt =====
-- Go's `float64`, which is abstract here: the operations that the program uses, with no law assumed.
use mathlib.Core.Bool.{Bool}
use mathlib.Core.Option.{Option}
use cdtalive.Prelude.Int.{ℤ}
use cdtalive.Prelude.Text.{Text}

pub record FloatOps (F : Type 0) : Type 0 where
  pub of_int : ℤ → F
  -- `int(x)`
  pub to_int : F → ℤ
  pub add : F → F → F
  pub sub : F → F → F
  pub mul : F → F → F
  pub div : F → F → F
  -- `x < y` and `x >= y`; both fail on a NaN
  pub lt : F → F → Bool
  pub ge : F → F → Bool
  -- `math.Max` and `math.Round`
  pub max : F → F → F
  pub round_half : F → F
  -- `strconv.ParseFloat(s, 64)`
  pub parse : Text → Option F
