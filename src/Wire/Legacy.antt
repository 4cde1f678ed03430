-- ===== src/Wire/Legacy.antt =====
-- src/vda5050_sim/legacy_shapes.py. A result is `none` where the code raises KeyError or TypeError.
use vda5050_sim.Prelude.{
  String, string_eq, Bool, true, ◌||◌, Option, none, some, [], ◌∷◌, Dict, lookup, insert, remove,
  ◌==◌, if◌then◌else◌, before_dot,
}
use vda5050_sim.Wire.Values.{Json, flag, text, dict, item, known, ◌>>=◌}

unfoldable pub is_legacy : String → Bool
unfolding before_dot
is_legacy version = let major = before_dot version in major == "1" || major == "2"

module _ {R : Type 0} where
  -- value.get(k, default), of a value that was found
  abbrev json_or : Json R → Option (Json R) → Json R
  json_or d none = d
  json_or d (some v) = v

  abbrev pub position_entries : Json R → Json R → Json R → Json R → Json R → Json R
  position_entries x y theta map_id localized = dict (
      ("x", x)
      ∷ ("y", y)
      ∷ ("theta", theta)
      ∷ ("mapId", map_id)
      ∷ ("positionInitialized", localized)
      ∷ [])

  unfoldable pub agv_position : Json R → Option (Json R)
  agv_position pos = do
    x ← item "x" pos
    y ← item "y" pos
    theta ← item "theta" pos
    map_id ← item "mapId" pos
    some (position_entries x y theta map_id (json_or (flag true) (item "localized" pos)))

  -- if value is not None: d[k] = value
  abbrev optional : String → Option (Json R) → Dict String (Json R) → Dict String (Json R)
  optional k none rest = rest
  optional k (some v) rest = (k, v) ∷ rest

  abbrev pub battery_entries :
      Json R → Json R → Option (Json R) → Option (Json R) → Option (Json R) → Json R
  battery_entries charge charging voltage health range = dict (
      ("batteryCharge", charge)
      ∷ ("charging", charging)
      ∷ optional "batteryVoltage" voltage
          (optional "batteryHealth" health (optional "reach" range [])))

  unfoldable pub battery_state : Json R → Option (Json R)
  battery_state power = do
    charge ← item "stateOfCharge" power
    charging ← item "charging" power
    some (
        battery_entries charge charging (known (item "batteryVoltage" power))
          (known (item "batteryHealth" power)) (known (item "range" power)))

  abbrev pub safety_entries : Json R → Json R → Json R
  safety_entries emergency_stop field_violation =
      dict (("eStop", emergency_stop) ∷ ("fieldViolation", field_violation) ∷ [])

  unfoldable pub legacy_safety : Json R → Option (Json R)
  legacy_safety safety = do
    emergency_stop ← item "activeEmergencyStop" safety
    field_violation ← item "fieldViolation" safety
    some (safety_entries emergency_stop field_violation)

  abbrev pub put : String → Option (Json R) → Dict String (Json R) → Option (Dict String (Json R))
  put new none d = none
  put new (some v) d = some (insert new v d)

  -- part = d.pop(old, None); if part is not None: d[new] = shape(part)
  unfoldable pub move_part :
      String
      → String
      → (Json R → Option (Json R))
      → Dict String (Json R)
      → Option (Dict String (Json R))
  move_part old new shape d = elim (known (lookup old d)) [
    | none ↦ some (remove old d)
    | some part ↦ put new (shape part) (remove old d)
  ]

  unfoldable pub downgrade_safety : Dict String (Json R) → Option (Dict String (Json R))
  unfolding legacy_safety
  downgrade_safety d = elim (known (lookup "safetyState" d)) [
    | none ↦ some d
    | some safety ↦ put "safetyState" (legacy_safety safety) d
  ]

  unfoldable pub downgrade_parts : Dict String (Json R) → Option (Dict String (Json R))
  unfolding move_part agv_position battery_state downgrade_safety
  downgrade_parts d = do
    d1 ← move_part "mobileRobotPosition" "agvPosition" agv_position d
    d2 ← move_part "powerSupply" "batteryState" battery_state d1
    downgrade_safety d2

  unfoldable pub downgrade_state : Dict String (Json R) → String → Option (Dict String (Json R))
  unfolding is_legacy downgrade_parts
  downgrade_state d version =
      let stamped = insert "version" (text version) d in
      if is_legacy version then downgrade_parts stamped else some stamped

  -- d.get(k) == t
  abbrev is_text : Option (Json R) → String → Bool
  is_text (some (text s)) t = s == t
  is_text _ t = Bool.false

  unfoldable pub downgrade_connection : Dict String (Json R) → String → Dict String (Json R)
  unfolding is_legacy
  downgrade_connection d version =
      let stamped = insert "version" (text version) d in
      let state = lookup "connectionState" stamped in
      if is_legacy version
      then if is_text state "CONNECTION_BROKEN"
        then insert "connectionState" (text "CONNECTIONBROKEN") stamped
        else if is_text state "HIBERNATING"
        then insert "connectionState" (text "OFFLINE") stamped
        else stamped
      else stamped
