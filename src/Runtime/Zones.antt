-- ===== src/Runtime/Zones.antt =====
-- agv.py: leases and zone actions, for the same invariant.
use vda5050_sim.Prelude.{
  String, string_eq, List, [], ◌∷◌, ◌++◌, arith, if_ind, lookup, Dict, is_some, after,
}
use vda5050_sim.Schemas.{Action, Zone}
use vda5050_sim.Robot.{Agv, append_zone_state}
use vda5050_sim.Zones.{
  Clock, check_lease_expiry, expire_all, register_zone_action, register_zone_actions, enter_zones,
  exit_zones,
}
use vda5050_sim.Runtime.Sound.{Alike, Alike-refl, Alike-trans}

module _ {R : Type 0} where
  register_zone_action-Alike :
      (action : Action R) (s : Agv R) → Alike s (register_zone_action action s)
  unfolding register_zone_action append_zone_state
  register_zone_action-Alike action s = record { ids = ground arith; maps = ground arith }

  register_zone_actions-Alike :
      (actions : List (Action R)) (s : Agv R) → Alike s (register_zone_actions actions s)
  unfolding register_zone_actions
  register_zone_actions-Alike [] s = Alike-refl s
  register_zone_actions-Alike (a ∷ actions) s =
      let s1 = register_zone_action a s in
      Alike-trans s s1 (register_zone_actions actions s1) (register_zone_action-Alike a s)
        (register_zone_actions-Alike actions s1)

  pub enter_zones-Alike : (d : Dict String (Zone R)) (s : Agv R) → Alike s (enter_zones d s)
  unfolding enter_zones
  enter_zones-Alike [] s = Alike-refl s
  enter_zones-Alike ((zone_id, zone) ∷ rest) s =
      let s1 = register_zone_actions (zone.entry_actions ++ zone.during_actions) s in
      if_ind (λ t. Alike s (enter_zones rest t)) (is_some (lookup zone_id s.zone_occupancy))
        (λ _. enter_zones-Alike rest s)
        (λ _.
          Alike-trans s s1 (enter_zones rest s1) (register_zone_actions-Alike _ s)
            (enter_zones-Alike rest s1))

  pub exit_zones-Alike :
      (present d : Dict String (Zone R)) (s : Agv R) → Alike s (exit_zones present d s)
  unfolding exit_zones
  exit_zones-Alike present [] s = Alike-refl s
  exit_zones-Alike present ((zone_id, zone) ∷ rest) s =
      let s1 = register_zone_actions zone.exit_actions s in
      if_ind (λ t. Alike s (exit_zones present rest t)) (is_some (lookup zone_id present))
        (λ _. exit_zones-Alike present rest s)
        (λ _.
          Alike-trans s s1 (exit_zones present rest s1) (register_zone_actions-Alike _ s)
            (exit_zones-Alike present rest s1))

  pub check_lease_expiry-Alike :
      (clock : Clock) (s : Agv R) → Alike s (after (check_lease_expiry clock s))
  unfolding check_lease_expiry expire_all
  check_lease_expiry-Alike clock s = record { ids = ground arith; maps = ground arith }
