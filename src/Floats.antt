-- ===== src/Floats.antt =====
-- Python's `float` as a parameter: the operations that the simulator applies to one. No law is
-- assumed here; a theorem that needs laws takes them as a named hypothesis.
pub mod Thousandths
use vda5050_sim.Prelude.{ℕ, String, Option, Bool, if◌then◌else◌}

pub record Float (R : Type 0) : Type 0 where
  -- The literal m · 10⁻ᵏ.
  pub decimal : ℕ → ℕ → R
  pub add : R → R → R
  pub sub : R → R → R
  pub mul : R → R → R
  pub div : R → R → R
  -- Python's `%`, whose result has the sign of the divisor.
  pub fmod : R → R → R
  pub neg : R → R
  pub abs : R → R
  pub lt : R → R → Bool
  pub le : R → R → Bool
  pub eq : R → R → Bool
  pub pi : R
  pub hypot : R → R → R
  pub atan2 : R → R → R
  -- float(text), where that does not raise.
  pub parse : String → Option R

module _ {R : Type 0} ⦃fl : Float R⦄ where
  open fl use {decimal, mul, div, lt, pi}

  abbrev pub nought : R
  nought = decimal 0 0

  -- Python's min(a, b) and max(a, b): the first argument unless the second is strictly better.
  abbrev pub min_float : R → R → R
  min_float a b = if lt b a then b else a

  abbrev pub max_float : R → R → R
  max_float a b = if lt a b then b else a

  -- math.radians
  abbrev pub radians : R → R
  radians d = mul d (div pi (decimal 180 0))
