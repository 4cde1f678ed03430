-- ===== src/Tick/Posing.antt =====
-- agv.py: the pose while actions, leases and zones progress.
use vda5050_sim.Prelude.{
  String, string_eq, ◌≡◌, ◌⊎◌, inl, inr, refl, ◌∙◌, List, [], ◌∷◌, ◌++◌, arith, if_ind, is_some,
  lookup, Dict, Run, done, raised, after, ◌>>=◌,
}
use vda5050_sim.Floats.{Float}
use vda5050_sim.Schemas.{Action, Zone}
use vda5050_sim.Robot.{Agv, append_zone_state}
use vda5050_sim.Actions.{advance_all_pending}
use vda5050_sim.Zones.{
  Clock, check_lease_expiry, expire_all, register_zone_action, register_zone_actions, enter_zones,
  exit_zones, update_zone_actions,
}
use vda5050_sim.Tick.{progress}
use vda5050_sim.Tick.Stays.{pose, Places}
use vda5050_sim.Tick.Placing.{advance_all_pending-Stays}

module _ {R : Type 0} where
  pose-register_zone_actions :
      (actions : List (Action R)) (s : Agv R) → pose (register_zone_actions actions s) ≡ pose s
  unfolding register_zone_actions register_zone_action append_zone_state
  pose-register_zone_actions [] s = refl
  pose-register_zone_actions (a ∷ actions) s =
      pose-register_zone_actions actions (register_zone_action a s) ∙ ground arith

  pose-enter_zones : (d : Dict String (Zone R)) (s : Agv R) → pose (enter_zones d s) ≡ pose s
  unfolding enter_zones
  pose-enter_zones [] s = refl
  pose-enter_zones ((zone_id, zone) ∷ rest) s =
      let actions = zone.entry_actions ++ zone.during_actions in
      if_ind (λ t. pose (enter_zones rest t) ≡ pose s) (is_some (lookup zone_id s.zone_occupancy))
        (λ _. pose-enter_zones rest s)
        (λ _.
          pose-enter_zones rest (register_zone_actions actions s)
          ∙ pose-register_zone_actions actions s)

  pose-exit_zones :
      (present d : Dict String (Zone R)) (s : Agv R) → pose (exit_zones present d s) ≡ pose s
  unfolding exit_zones
  pose-exit_zones present [] s = refl
  pose-exit_zones present ((zone_id, zone) ∷ rest) s =
      if_ind (λ t. pose (exit_zones present rest t) ≡ pose s) (is_some (lookup zone_id present))
        (λ _. pose-exit_zones present rest s)
        (λ _.
          pose-exit_zones present rest (register_zone_actions zone.exit_actions s)
          ∙ pose-register_zone_actions zone.exit_actions s)

  pose-check_lease_expiry :
      (clock : Clock) (s : Agv R) → pose (after (check_lease_expiry clock s)) ≡ pose s
  unfolding check_lease_expiry expire_all
  pose-check_lease_expiry clock s = ground arith

module _ {R : Type 0} ⦃fl : Float R⦄ where
  pose-update_zone_actions : (s : Agv R) → pose (update_zone_actions s) ≡ pose s
  unfolding update_zone_actions
  pose-update_zone_actions s = pose-exit_zones _ s.zone_occupancy _ ∙ pose-enter_zones _ s

  leases_and_zones :
      (m : Run (Agv R)) → pose (after (m >>= λ u. done (update_zone_actions u))) ≡ pose (after m)
  leases_and_zones (raised u) = refl
  leases_and_zones (done u) = pose-update_zone_actions u

  pub progress-Places :
      (clock : Clock) (dt : R) (s : Agv R)
      → (pose (after (progress clock dt s)) ≡ pose s) ⊎ Places s
  unfolding progress
  progress-Places clock dt s =
      let clocked = record s { motion = record s.motion { elapsed_s = fl.add s.elapsed_s dt } } in
      elim (advance_all_pending-Stays clocked) [
        | inl still ↦ inl (rest (advance_all_pending clocked) ∙ still)
        | inr p ↦ inr (record {
          id = p.id;
          action = p.action;
          tracked = p.tracked;
          registered = p.registered;
          places = p.places;
        })
      ]
    where
      rest :
          (m : Run (Agv R))
          → pose
              (after (m >>= λ u. check_lease_expiry clock u >>= λ v. done (update_zone_actions v)))
            ≡ pose (after m)
      rest (raised u) = refl
      rest (done u) =
          leases_and_zones (check_lease_expiry clock u) ∙ pose-check_lease_expiry clock u
