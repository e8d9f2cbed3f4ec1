-- ===== src/Prelude/Float.antt =====
-- Go's float64, which the development does not define: a type with the operations that the program
-- uses. Nothing is assumed of them here; a lemma that needs a law of IEEE 754 names it.
use mathlib.Core.Bool.{Bool}
use mathlib.Core.Option.{Option}
use runcodes.Prelude.Strings.{Text}
use runcodes.Prelude.Int.{ℤ}
use Prim.Native.Nat.{ℕ}

pub record Floats : Type 1 where
  pub Float : Type 0
  -- strconv.ParseFloat(s, 64), where `none` is its error
  pub parse : Text → Option Float
  -- float64(n)
  pub of_int : ℤ → Float
  -- the literal m / 10 ^ k
  pub literal : ℕ → ℕ → Float
  pub sub : Float → Float → Float
  pub mul : Float → Float → Float
  pub div : Float → Float → Float
  pub neg : Float → Float
  pub lt : Float → Float → Bool
  pub le : Float → Float → Bool
