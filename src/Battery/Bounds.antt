-- ===== src/Battery/Bounds.antt =====
-- agv.py: `_update_charging` and the drain of `tick`, for the range of the charge.
use vda5050_sim.Prelude.{
  true, false, ◌&&◌, ◌≡◌, refl, ◌∙◌, ap, subst, sym, Option, some, arith, if_ind,
}
use vda5050_sim.Floats.{Float, nought, min_float, max_float}
use vda5050_sim.Schemas.{Edge, Node}
use vda5050_sim.Robot.{Agv, Setup}
use vda5050_sim.Movement.{step_towards, arrive_at, translate, pre_rotate}
use vda5050_sim.Tick.{update_charging, drain, drive}
use vda5050_sim.Battery.Kept.{Kept, Kept-trans}

-- What IEEE 754 says of comparisons and of the arithmetic near 0 and 100, infinities and NaN
-- included.
pub record BatteryLaws {R : Type 0} (fl : Float R) : Type 0 where
  pub lt_le : (a b : R) → fl.lt a b ≡ true → fl.le a b ≡ true
  pub zero_le_zero : fl.le (fl.decimal 0 0) (fl.decimal 0 0) ≡ true
  pub zero_le_hundred : fl.le (fl.decimal 0 0) (fl.decimal 100 0) ≡ true
  pub hundred_le_hundred : fl.le (fl.decimal 100 0) (fl.decimal 100 0) ≡ true
  pub add_positive :
      (a b : R)
      → fl.le (fl.decimal 0 0) a ≡ true
      → fl.le (fl.decimal 0 0) b ≡ true
      → fl.le (fl.decimal 0 0) (fl.add a b) ≡ true
  pub mul_positive :
      (a b : R)
      → fl.lt (fl.decimal 0 0) a ≡ true
      → fl.le (fl.decimal 0 0) b ≡ true
      → fl.lt (fl.mul a b) (fl.decimal 0 0) ≡ false
  pub sub_below :
      (a b : R)
      → fl.le a (fl.decimal 100 0) ≡ true
      → fl.lt b (fl.decimal 0 0) ≡ false
      → fl.lt (fl.decimal 0 0) (fl.sub a b) ≡ true
      → fl.le (fl.sub a b) (fl.decimal 100 0) ≡ true

module _ {R : Type 0} ⦃fl : Float R⦄ where
  open fl use {le, lt, decimal, mul, sub, add}

  -- 0.0 <= battery_soc <= 100.0
  abbrev pub InRange : R → Type 0
  InRange b = (le nought b ≡ true) × (le b (decimal 100 0) ≡ true)

  motion_step :
      (node : Node R) (dt : R) (edge : Option (Edge R)) (s : Agv R)
      → Kept s (step_towards node dt edge s).0
  unfolding step_towards translate pre_rotate
  motion_step node dt edge s = record { setup = ground arith; battery = ground arith }

  -- The charge is in range, and driving costs nothing less than nothing.
  pub record IsSound (s : Agv R) : Type 0 where
    pub in_range : InRange s.battery_soc
    pub drains : le nought s.battery_drain_percent_per_meter ≡ true

  pub Kept-IsSound : (s t : Agv R) → Kept s t → IsSound s → IsSound t
  Kept-IsSound s t k h = record {
    in_range = subst InRange (sym k.battery) h.in_range;
    drains = ap (λ (c : Setup R). le nought c.battery_drain_percent_per_meter) k.setup ∙ h.drains;
  }

  min-InRange :
      (laws : BatteryLaws fl) (b : R) → le nought b ≡ true → InRange (min_float (decimal 100 0) b)
  min-InRange laws b h =
      if_ind InRange (lt b (decimal 100 0)) (λ e. (h, laws.lt_le b (decimal 100 0) e))
        (λ _. (laws.zero_le_hundred, laws.hundred_le_hundred))

  max-InRange :
      (laws : BatteryLaws fl) (a b : R)
      → le a (decimal 100 0) ≡ true
      → lt b nought ≡ false
      → InRange (max_float nought (sub a b))
  max-InRange laws a b h k =
      if_ind InRange (lt nought (sub a b))
        (λ e. (laws.lt_le nought (sub a b) e, laws.sub_below a b h k e))
        (λ _. (laws.zero_le_zero, laws.zero_le_hundred))

  setup-update_charging : (dt : R) (s : Agv R) → (update_charging dt s).setup ≡ s.setup
  unfolding update_charging
  setup-update_charging dt s = ground arith

  pub update_charging-IsSound :
      (laws : BatteryLaws fl) (dt : R) (s : Agv R)
      → le nought (mul s.battery_charge_percent_per_s dt) ≡ true
      → IsSound s
      → IsSound (update_charging dt s)
  unfolding update_charging
  update_charging-IsSound laws dt s charges h =
      if_ind IsSound (s.charging && lt s.battery_soc (decimal 100 0))
        (λ _. record {
          in_range = min-InRange laws (add s.battery_soc (mul s.battery_charge_percent_per_s dt)) (
              laws.add_positive s.battery_soc (mul s.battery_charge_percent_per_s dt) h.in_range.0
                charges);
          drains = h.drains;
        })
        (λ _. h)

  drain-InRange : (laws : BatteryLaws fl) (s : Agv R) → IsSound s → InRange (drain s).battery_soc
  unfolding drain
  drain-InRange laws s h =
      if_ind (λ (t : Agv R). InRange t.battery_soc) (lt nought s.last_step_distance)
        (λ far.
          max-InRange laws s.battery_soc
            (mul s.last_step_distance s.battery_drain_percent_per_meter) h.in_range.1
            (laws.mul_positive s.last_step_distance s.battery_drain_percent_per_meter far h.drains))
        (λ _. h.in_range)

  pub drive-InRange :
      (laws : BatteryLaws fl) (dt : R) (node : Node R) (edge : Edge R) (next_node : Node R)
      (s : Agv R)
      → IsSound s
      → InRange (drive dt node edge next_node s).battery_soc
  unfolding drive arrive_at
  drive-InRange laws dt node edge next_node s h =
      let started = record s { motion = record s.motion { driving = true } } in
      let moved = (step_towards next_node dt (some edge) started).0 in
      let in_range = drain-InRange laws moved (
        Kept-IsSound s moved
          (Kept-trans s started moved (record { setup = refl; battery = refl })
            (motion_step next_node dt (some edge) started))
          h) in
      if_ind (λ (t : Agv R). InRange t.battery_soc)
        (step_towards next_node dt (some edge) started).1 (λ _. in_range) (λ _. in_range)
