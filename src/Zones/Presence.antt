-- ===== src/Zones/Presence.antt =====
-- agv.py: `_update_zone_actions` and `_register_zone_action`.
use vda5050_sim.Prelude.{
  String, string_eq, ◌<>◌, Bool, true, false, not, none, some, List, [], ◌∷◌, ◌++◌, if◌then◌else◌,
  lookup, insert, Dict, is_some,
}
use vda5050_sim.Floats.{Float}
use vda5050_sim.Schemas.{Action, ActionScope, ActionStatus, Zone, ZoneType}
use vda5050_sim.Robot.{Agv, append_zone_state, in_scope, lacks_capability}
use vda5050_sim.Zones.Geometry.{zone_objects_containing}

abbrev pub is_action_zone : ZoneType → Bool
is_action_zone ZoneType.action = true
is_action_zone _ = false

module _ {R : Type 0} where
  unfoldable pub register_zone_action : Action R → Agv R → Agv R
  register_zone_action action s =
      if is_some (lookup action.action_id s.action_registry)
      then s
      else if not (in_scope ActionScope.zone action.action_type)
      then append_zone_state action ActionStatus.failed
          (some ("'" <> action.action_type <> "' is not a ZONE-scoped action")) s
      else if lacks_capability s action.action_type
      then append_zone_state action ActionStatus.failed
          (some ("'" <> action.action_type <> "' is not a supported capability of this robot")) s
      else append_zone_state action ActionStatus.waiting none (record s {
        tracking = record s.tracking {
          action_registry = insert action.action_id action s.action_registry;
        };
      })

  unfoldable pub register_zone_actions : List (Action R) → Agv R → Agv R
  register_zone_actions [] s = s
  register_zone_actions (action ∷ actions) s =
      register_zone_actions actions (register_zone_action action s)

  -- {z.zoneId: z for z in zones if z.zoneType == ACTION}
  unfoldable pub action_zones : Dict String (Zone R) → List (Zone R) → Dict String (Zone R)
  action_zones d [] = d
  action_zones d (z ∷ zs) =
      action_zones (if is_action_zone z.zone_type then insert z.zone_id z d else d) zs

  -- The loop over the zones that the robot is in now.
  unfoldable pub enter_zones : Dict String (Zone R) → Agv R → Agv R
  enter_zones [] s = s
  enter_zones ((zone_id, zone) ∷ rest) s = enter_zones rest (
      if is_some (lookup zone_id s.zone_occupancy)
      then s
      else register_zone_actions (zone.entry_actions ++ zone.during_actions) s)

  -- The loop over the zones that it was in.
  unfoldable pub exit_zones : Dict String (Zone R) → Dict String (Zone R) → Agv R → Agv R
  exit_zones present [] s = s
  exit_zones present ((zone_id, zone) ∷ rest) s =
      exit_zones present rest
        (if is_some (lookup zone_id present) then s else register_zone_actions zone.exit_actions s)

module _ {R : Type 0} ⦃fl : Float R⦄ where
  unfoldable pub update_zone_actions : Agv R → Agv R
  update_zone_actions s =
      let present = action_zones [] (zone_objects_containing s.x s.y s) in
      let s1 = exit_zones present s.zone_occupancy (enter_zones present s) in
      record s1 { site = record s1.site { zone_occupancy = present } }
