-- ===== src/Tests/BatteryTests.antt =====
-- The battery: the laws of floats for thousandths, and the theorem at the sample robot.
use vda5050_sim.Prelude.{true, false, ◌≡◌, refl, arith, after}
use vda5050_sim.Floats.Thousandths.{ℤ, pos, negsuc, thousandths}
use vda5050_sim.Tick.{tick}
use vda5050_sim.Battery.Bounds.{BatteryLaws, InRange}
use vda5050_sim.Battery.Ticks.{tick-InRange}
use vda5050_sim.Tests.Samples.{clock}
use vda5050_sim.Tests.OrderTests.{ordering, busy_robot}

lt_le : (a b : ℤ) → thousandths.lt a b ≡ true → thousandths.le a b ≡ true
lt_le a b h = ground arith

add_positive :
    (a b : ℤ)
    → thousandths.le (pos 0) a ≡ true
    → thousandths.le (pos 0) b ≡ true
    → thousandths.le (pos 0) (thousandths.add a b) ≡ true
add_positive a b h k = ground arith

mul_positive :
    (a b : ℤ)
    → thousandths.lt (pos 0) a ≡ true
    → thousandths.le (pos 0) b ≡ true
    → thousandths.lt (thousandths.mul a b) (pos 0) ≡ false
mul_positive (pos a) (pos b) h k = ground arith
mul_positive (pos a) (negsuc b) h k = ground arith
mul_positive (negsuc a) b h k = ground arith

sub_below :
    (a b : ℤ)
    → thousandths.le a (pos 100_000) ≡ true
    → thousandths.lt b (pos 0) ≡ false
    → thousandths.lt (pos 0) (thousandths.sub a b) ≡ true
    → thousandths.le (thousandths.sub a b) (pos 100_000) ≡ true
sub_below (pos a) (pos b) h k l = ground arith
sub_below (negsuc a) (pos b) h k l = ground arith
sub_below a (negsuc b) h k l = ground arith

pub thousandths-BatteryLaws : BatteryLaws thousandths
thousandths-BatteryLaws = record {
  lt_le = lt_le;
  zero_le_zero = refl;
  zero_le_hundred = refl;
  hundred_le_hundred = refl;
  add_positive = add_positive;
  mul_positive = mul_positive;
  sub_below = sub_below;
}

tick-InRange_example : InRange (after (tick clock (pos 500) busy_robot)).battery_soc
unfolding ordering
tick-InRange_example =
    tick-InRange thousandths-BatteryLaws clock (pos 500) busy_robot refl refl (refl, refl)
