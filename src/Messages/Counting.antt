-- ===== src/Messages/Counting.antt =====
-- agv.py: `_next_header_id`, where the counter is there, and `build_state_message`.
use vda5050_sim.Prelude.{ℕ, suc, ◌≡◌, refl, String, string_eq, Bool, some, [], lookup, insert}
use vda5050_sim.Floats.{Float}
use vda5050_sim.Robot.{Agv}
use vda5050_sim.Battery.Bounds.{InRange}
use vda5050_sim.Messages.Builders.{
  next_header_id, supplied, power_supply, state_message, build_state_message,
}

module _ {R : Type 0} where
  -- The robot that has counted a message of type `k`, its counter having stood at `n`.
  unfoldable pub counted : String → ℕ → Agv R → Agv R
  counted k n s = record s { mode = record s.mode { header_ids = insert k (suc n) s.header_ids } }

  pub next_header_id-eq :
      (k : String) (s : Agv R) (n : ℕ)
      → lookup k s.header_ids ≡ some n
      → next_header_id k s ≡ (some (suc n), counted k n s)
  unfolding next_header_id counted
  next_header_id-eq k s n e = rw (e, next_header_id) refl

module _ {R : Type 0} ⦃fl : Float R⦄ where
  power_supply-InRange :
      (b : R) (charging : Bool) → InRange b → power_supply b charging ≡ some (supplied b charging)
  unfolding power_supply
  power_supply-InRange b charging h = rw (h.0, h.1) refl

  pub build_state_message-eq :
      (now : String) (s : Agv R) (n : ℕ)
      → InRange s.battery_soc
      → lookup "state" s.header_ids ≡ some n
      → let t = counted "state" n (record s { mode = record s.mode { pending_errors = [] } }) in
        build_state_message now s ≡ (
          some (state_message now (suc n) s.pending_errors (supplied s.battery_soc s.charging) t),
          t,
        )
  unfolding build_state_message state_message counted
  build_state_message-eq now s n h e =
      let cleared = record s { mode = record s.mode { pending_errors = [] } } in
      rw (next_header_id-eq "state" cleared n e, power_supply-InRange s.battery_soc s.charging h)
        refl
