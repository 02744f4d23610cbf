-- ===== src/Floats.antt =====
-- Go's float64. A value is its 64-bit pattern; arithmetic and comparison are the operations of a
-- record that the definitions take as a parameter, since the kernel has no floats.
use tas_agent_builder.Base.{ℕ, Bool, ℤ}

pub record Float : Type 0 where
  pub bits : ℕ

pub record FloatOps : Type 0 where
  pub of_int : ℤ → Float
  -- A decimal literal of the source, `ratio 7 10` for 0.7.
  pub ratio : ℕ → ℕ → Float
  pub add : Float → Float → Float
  pub sub : Float → Float → Float
  pub mul : Float → Float → Float
  pub div : Float → Float → Float
  pub lt : Float → Float → Bool
  pub le : Float → Float → Bool
  -- `int(f)`
  pub to_int : Float → ℤ
