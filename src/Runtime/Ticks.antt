-- ===== src/Runtime/Ticks.antt =====
-- agv.py: `tick`, for the same invariant.
use vda5050_sim.Prelude.{
  string_eq, not, ◌||◌, ◌∙◌, arith, if_ind, is_some, Run, done, raised, after, ◌>>=◌,
}
use vda5050_sim.Floats.{Float}
use vda5050_sim.Robot.{Agv}
use vda5050_sim.Actions.{advance_all_pending, finish_cancel, clear_active_order}
use vda5050_sim.Zones.{Clock, check_lease_expiry, update_zone_actions}
use vda5050_sim.Tick.{
  maybe_auto_wake, update_charging, progress, active_tick, awake_tick, tick, traverse, is_automatic,
}
use vda5050_sim.Runtime.Traverse.{traverse-Alike}
use vda5050_sim.Runtime.Sound.{IsSound, Alike, Alike-IsSound}
use vda5050_sim.Runtime.Progress.{advance_all_pending-IsSound}
use vda5050_sim.Runtime.Zones.{enter_zones-Alike, exit_zones-Alike, check_lease_expiry-Alike}

module _ {R : Type 0} ⦃fl : Float R⦄ where
  update_zone_actions-Alike : (s : Agv R) → Alike s (update_zone_actions s)
  unfolding update_zone_actions
  update_zone_actions-Alike s =
      let entered = enter_zones-Alike _ s in
      let left = exit_zones-Alike _ s.zone_occupancy _ in
      record { ids = left.ids ∙ entered.ids; maps = left.maps ∙ entered.maps }

  progress-IsSound :
      (clock : Clock) (dt : R) (s : Agv R) → IsSound s → IsSound (after (progress clock dt s))
  unfolding progress
  progress-IsSound clock dt s h =
      let clocked = record s { motion = record s.motion { elapsed_s = fl.add s.elapsed_s dt } } in
      first (advance_all_pending clocked) (
        advance_all_pending-IsSound clocked
          (record { distinct = h.distinct; consistent = h.consistent }))
    where
      second :
          (m : Run (Agv R))
          → IsSound (after m)
          → IsSound (after (m >>= λ u. done (update_zone_actions u)))
      second (raised u) k = k
      second (done u) k = Alike-IsSound u (update_zone_actions u) (update_zone_actions-Alike u) k

      first :
          (m : Run (Agv R))
          → IsSound (after m)
          → IsSound
              (after (m >>= λ u. check_lease_expiry clock u >>= λ v. done (update_zone_actions v)))
      first (raised u) k = k
      first (done u) k = second (check_lease_expiry clock u) (
          Alike-IsSound u (after (check_lease_expiry clock u)) (check_lease_expiry-Alike clock u) k)

  active_tick-IsSound :
      (clock : Clock) (dt : R) (s : Agv R) → IsSound s → IsSound (after (active_tick clock dt s))
  unfolding active_tick
  active_tick-IsSound clock dt s h = go (progress clock dt s) (progress-IsSound clock dt s h)
    where
      go : (m : Run (Agv R)) → IsSound (after m) → IsSound (after (m >>= λ u. done (traverse dt u)))
      go (raised u) k = k
      go (done u) k = Alike-IsSound u (traverse dt u) (traverse-Alike dt u) k

  awake_tick-IsSound :
      (clock : Clock) (dt : R) (s : Agv R) → IsSound s → IsSound (after (awake_tick clock dt s))
  unfolding awake_tick finish_cancel clear_active_order
  awake_tick-IsSound clock dt s h =
      if_ind (λ (r : Run (Agv R)). IsSound (after r)) (is_some s.cancel_requested_action_id)
        (λ _. record { distinct = tt; consistent = h.consistent })
        (λ _.
          if_ind (λ (r : Run (Agv R)). IsSound (after r))
            (s.paused || not (is_automatic s.operating_mode)) (λ _. h)
            (λ _. active_tick-IsSound clock dt s h))

  maybe_auto_wake-Alike : (clock : Clock) (s : Agv R) → Alike s (after (maybe_auto_wake clock s))
  unfolding maybe_auto_wake
  maybe_auto_wake-Alike clock s = record { ids = ground arith; maps = ground arith }

  update_charging-Alike : (dt : R) (s : Agv R) → Alike s (update_charging dt s)
  unfolding update_charging
  update_charging-Alike dt s = record { ids = ground arith; maps = ground arith }

  pub tick-IsSound :
      (clock : Clock) (dt : R) (s : Agv R) → IsSound s → IsSound (after (tick clock dt s))
  unfolding tick
  tick-IsSound clock dt s h =
      if_ind (λ (r : Run (Agv R)). IsSound (after r)) s.hibernating
        (λ _. Alike-IsSound s (after (maybe_auto_wake clock s)) (maybe_auto_wake-Alike clock s) h)
        (λ _.
          awake_tick-IsSound clock dt (update_charging dt s)
            (Alike-IsSound s (update_charging dt s) (update_charging-Alike dt s) h))
