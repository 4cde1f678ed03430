-- ===== src/Floats/Thousandths.antt =====
-- Numbers on which definitions and theorems are run: signed counts of thousandths. Sums, orders and
-- distances along an axis are exact, products and quotients are cut to a thousandth, and angles
-- are those of the four directions. No text is a number.
use vda5050_sim.Prelude.{
  ℕ, suc, ◌+◌, ◌-◌, ◌*◌, ◌/◌, ◌%◌, ◌≡◌, Bool, true, false, not, ◌&&◌, none, ltb, leb, arith,
  if◌then◌else◌, nat_eq,
}
use Prim.Native.Nat.{◌^◌}
use vda5050_sim.Floats.{Float}

-- `negsuc n` is -(n + 1).
pub data ℤ : Type 0 where
  pos : ℕ → ℤ
  negsuc : ℕ → ℤ

abbrev pub pos_part : ℤ → ℕ
pos_part (pos n) = n
pos_part (negsuc n) = 0

abbrev pub neg_part : ℤ → ℕ
neg_part (pos n) = 0
neg_part (negsuc n) = suc n

abbrev sub_ℕ : ℕ → ℕ → ℤ
sub_ℕ a b = if leb b a then pos (a - b) else negsuc (b - a - 1)

abbrev magnitude : ℤ → ℕ
magnitude a = pos_part a + neg_part a

abbrev is_negative : ℤ → Bool
is_negative (pos n) = false
is_negative (negsuc n) = true

abbrev signed : Bool → ℕ → ℤ
signed true n = sub_ℕ 0 n
signed false n = pos n

abbrev same_sign : ℤ → ℤ → Bool
same_sign (pos a) (pos b) = true
same_sign (negsuc a) (negsuc b) = true
same_sign _ _ = false

abbrev add_ℤ : ℤ → ℤ → ℤ
add_ℤ a b = sub_ℕ (pos_part a + pos_part b) (neg_part a + neg_part b)

abbrev neg_ℤ : ℤ → ℤ
neg_ℤ a = sub_ℕ (neg_part a) (pos_part a)

abbrev sub_ℤ : ℤ → ℤ → ℤ
sub_ℤ a b = add_ℤ a (neg_ℤ b)

abbrev mul_ℤ : ℤ → ℤ → ℤ
mul_ℤ a b = signed (not (same_sign a b)) (magnitude a * magnitude b / 1000)

abbrev div_ℤ : ℤ → ℤ → ℤ
div_ℤ a b = signed (not (same_sign a b)) (magnitude a * 1000 / magnitude b)

-- The remainder by a positive number.
abbrev mod_ℤ : ℤ → ℤ → ℤ
mod_ℤ (pos a) b = pos (a % magnitude b)
mod_ℤ (negsuc a) b = pos (magnitude b - 1 - a % magnitude b)

abbrev lt_ℤ : ℤ → ℤ → Bool
lt_ℤ a b = ltb (pos_part a + neg_part b) (pos_part b + neg_part a)

abbrev le_ℤ : ℤ → ℤ → Bool
le_ℤ a b = leb (pos_part a + neg_part b) (pos_part b + neg_part a)

abbrev eq_ℤ : ℤ → ℤ → Bool
eq_ℤ a b = le_ℤ a b && le_ℤ b a

-- Exact where one of the two is zero.
abbrev hypot_ℤ : ℤ → ℤ → ℤ
hypot_ℤ a b = pos (magnitude a + magnitude b)

-- The direction of the axis: 0, π/2, π or -π/2.
abbrev atan2_ℤ : ℤ → ℤ → ℤ
atan2_ℤ y x =
    if lt_ℤ (pos 0) y
    then pos 1571
    else if lt_ℤ y (pos 0)
    then negsuc 1570
    else if is_negative x
    then pos 3142
    else pos 0

instance abbrev pub thousandths : Float ℤ
thousandths = record {
  decimal = λ m k. pos (m * 1000 / 10 ^ k);
  add = add_ℤ;
  sub = sub_ℤ;
  mul = mul_ℤ;
  div = div_ℤ;
  fmod = mod_ℤ;
  neg = neg_ℤ;
  abs = λ a. pos (magnitude a);
  lt = lt_ℤ;
  le = le_ℤ;
  eq = eq_ℤ;
  pi = pos 3142;
  hypot = hypot_ℤ;
  atan2 = atan2_ℤ;
  parse = λ t. none;
}

pub eq_self : (a : ℤ) → thousandths.eq a a ≡ true
eq_self a = ground arith
