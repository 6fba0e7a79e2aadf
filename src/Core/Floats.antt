-- ===== src/Core/Floats.antt =====
-- float64, a parameter: the type, its comparison, and the operations that the program applies.
use ioc.Base.{ℕ, Bool}

pub record Floats : Type 1 where
  pub Float : Type 0
  -- the constant n / 10 ^ k
  pub decimal : ℕ → ℕ → Float
  -- `<`
  pub lt : Float → Float → Bool
  pub add : Float → Float → Float
  pub sub : Float → Float → Float
  pub mul : Float → Float → Float
  pub div : Float → Float → Float
  -- `==`
  pub eq : Float → Float → Bool
  -- `float64(n)`, and `float64(x)` of a float32 by its bit pattern
  pub of_int : ℕ → Float
  pub of_float32 : ℕ → Float
  -- `-x`, and package math
  pub neg : Float → Float
  pub exp : Float → Float
  pub log : Float → Float
  pub pow : Float → Float → Float
