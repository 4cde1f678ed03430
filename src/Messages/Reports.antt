-- ===== src/Messages/Reports.antt =====
-- agv.py: `build_state_message` between two ticks.
use vda5050_sim.Prelude.{
  ℕ, suc, ◌≡◌, refl, ◌∙◌, subst, sym, ap, String, string_eq, true, Option, some, [], lookup,
  lookup-insert, after,
}
use vda5050_sim.Floats.{Float, nought}
use vda5050_sim.Schemas.{StateMessage}
use vda5050_sim.Robot.{Agv, Motion}
use vda5050_sim.Zones.{Clock}
use vda5050_sim.Tick.{tick}
use vda5050_sim.Battery.Bounds.{BatteryLaws, InRange}
use vda5050_sim.Battery.Ticks.{tick-InRange}
use vda5050_sim.Messages.Builders.{build_state_message}
use vda5050_sim.Messages.Counting.{counted, build_state_message-eq}

module _ {R : Type 0} ⦃fl : Float R⦄ where
  open fl use {le, mul}

  -- `m` is the state message of `s` with the number behind `n`, and `t` the robot that has sent it.
  pub record Reports (s : Agv R) (n : ℕ) (m : StateMessage R) (t : Agv R) : Type 0 where
    pub numbered : m.header_id ≡ suc n
    pub errors : m.errors ≡ s.pending_errors
    pub charge : m.power_supply.state_of_charge ≡ s.battery_soc
    pub settled : t.pending_errors ≡ []
    pub counts : lookup "state" t.header_ids ≡ some (suc n)
    pub graph : t.graph ≡ s.graph
    pub tracking : t.tracking ≡ s.tracking
    pub motion : t.motion ≡ s.motion

  build_state_message-Reports :
      (now : String) (s : Agv R) (n : ℕ)
      → InRange s.battery_soc
      → lookup "state" s.header_ids ≡ some n
      → (m : StateMessage R) × ((build_state_message now s).0 ≡ some m)
        × Reports s n m (build_state_message now s).1
  unfolding build_state_message counted
  build_state_message-Reports now s n h e =
      subst
        (λ (p : Option (StateMessage R) × Agv R).
          (m : StateMessage R) × (p.0 ≡ some m) × Reports s n m p.1)
        (sym (build_state_message-eq now s n h e))
        (
          _,
          refl,
          record {
            numbered = refl;
            errors = refl;
            charge = refl;
            settled = refl;
            counts = lookup-insert "state" "state" (suc n) s.header_ids;
            graph = refl;
            tracking = refl;
            motion = refl;
          },
        )

  -- After a tick of a robot whose charge was in range, also after one that ended in an exception,
  -- the state message goes out: it carries the next number, the robot's charge and every
  -- pending error, and takes these errors off the robot's list, so that the state message behind
  -- it, numbered one higher, has none. Neither message changes the order, the actions or the pose.
  pub tick-Reports :
      (laws : BatteryLaws fl) (clock : Clock) (dt : R) (now later : String) (s : Agv R) (n : ℕ)
      → le nought s.battery_drain_percent_per_meter ≡ true
      → le nought (mul s.battery_charge_percent_per_s dt) ≡ true
      → InRange s.battery_soc
      → let t = after (tick clock dt s) in
        let u = (build_state_message now t).1 in
        let v = (build_state_message later u).1 in
        lookup "state" t.header_ids ≡ some n
        → ((m : StateMessage R) × ((build_state_message now t).0 ≡ some m) × Reports t n m u)
          × ((m : StateMessage R) × ((build_state_message later u).0 ≡ some m)
              × (m.errors ≡ [])
              × Reports u (suc n) m v)
  tick-Reports laws clock dt now later s n drains charges h e =
      let in_range = tick-InRange laws clock dt s drains charges h in
      let (m, built, first) =
        build_state_message-Reports now (after (tick clock dt s)) n in_range e in
      let (m2, built2, second) =
        build_state_message-Reports later (build_state_message now (after (tick clock dt s))).1
          (suc n) (subst InRange (sym (ap (λ (x : Motion R). x.battery_soc) first.motion)) in_range)
          first.counts in
      ((m, built, first), (m2, built2, second.errors ∙ first.settled, second))
