-- ===== src/Wire/Parts.antt =====
-- legacy_shapes.py: the parts of a state message, and what its receiver reads of them.
use vda5050_sim.Prelude.{String, string_eq, ◌≡◌, refl, ◌∙◌, Option, none, some, arith}
use vda5050_sim.Wire.Values.{bind_some, Json, item, known, ◌>>=◌}
use vda5050_sim.Wire.Legacy.{
  position_entries, battery_entries, safety_entries, agv_position, battery_state, legacy_safety,
}

-- The pose, the energy and the safety of a robot, as a message tells them.
pub record Pose (R : Type 0) : Type 0 where
  pub x : Json R
  pub y : Json R
  pub theta : Json R
  pub map_id : Json R
  pub localized : Json R

pub record Energy (R : Type 0) : Type 0 where
  pub charge : Json R
  pub charging : Json R
  pub voltage : Option (Json R)
  pub health : Option (Json R)
  pub range : Option (Json R)

pub record Safety (R : Type 0) : Type 0 where
  pub emergency_stop : Json R
  pub field_violation : Json R

module _ {R : Type 0} where
  -- How a receiver reads them, given the names that its version has for some members.
  abbrev pub read_pose : String → Json R → Option (Pose R)
  read_pose localized v = do
    x ← item "x" v
    y ← item "y" v
    theta ← item "theta" v
    map_id ← item "mapId" v
    initialized ← item localized v
    some (record { x = x; y = y; theta = theta; map_id = map_id; localized = initialized })

  abbrev pub read_energy : String → String → Json R → Option (Energy R)
  read_energy state_of_charge range v = do
    charge ← item state_of_charge v
    charging ← item "charging" v
    some (record {
      charge = charge;
      charging = charging;
      voltage = known (item "batteryVoltage" v);
      health = known (item "batteryHealth" v);
      range = known (item range v);
    })

  abbrev pub read_safety : String → Json R → Option (Safety R)
  read_safety stop v = do
    emergency_stop ← item stop v
    field_violation ← item "fieldViolation" v
    some (record { emergency_stop = emergency_stop; field_violation = field_violation })

  agv_position-eq :
      (v : Json R) {x y theta map_id localized : Json R}
      → item "x" v ≡ some x
      → item "y" v ≡ some y
      → item "theta" v ≡ some theta
      → item "mapId" v ≡ some map_id
      → item "localized" v ≡ some localized
      → agv_position v ≡ some (position_entries x y theta map_id localized)
  unfolding agv_position
  agv_position-eq v ex ey et em el = rw (ex, ey, et, em, el) refl

  pub pose-agv_position :
      (v : Json R) (p : Pose R)
      → read_pose "localized" v ≡ some p
      → (w : Json R) × (agv_position v ≡ some w) × (read_pose "positionInitialized" w ≡ some p)
  pose-agv_position v p e =
      let (x, ex, e1) = bind_some (item "x" v) e in
      let (y, ey, e2) = bind_some (item "y" v) e1 in
      let (theta, et, e3) = bind_some (item "theta" v) e2 in
      let (map_id, em, e4) = bind_some (item "mapId" v) e3 in
      let (localized, el, e5) = bind_some (item "localized" v) e4 in
      (position_entries x y theta map_id localized, agv_position-eq v ex ey et em el, e5)

  known-known : (o : Option (Json R)) → known (known o) ≡ known o
  known-known o = ground arith

  read-battery_entries :
      (charge charging : Json R) (voltage health range : Option (Json R))
      → known voltage ≡ voltage
      → known health ≡ health
      → known range ≡ range
      → read_energy "batteryCharge" "reach" (battery_entries charge charging voltage health range)
        ≡ some (record {
          charge = charge;
          charging = charging;
          voltage = voltage;
          health = health;
          range = range;
        })
  read-battery_entries charge charging none none none hv hh hr = refl
  read-battery_entries charge charging none none (some c) hv hh hr = rw hr refl
  read-battery_entries charge charging none (some b) none hv hh hr = rw hh refl
  read-battery_entries charge charging none (some b) (some c) hv hh hr = rw (hh, hr) refl
  read-battery_entries charge charging (some a) none none hv hh hr = rw hv refl
  read-battery_entries charge charging (some a) none (some c) hv hh hr = rw (hv, hr) refl
  read-battery_entries charge charging (some a) (some b) none hv hh hr = rw (hv, hh) refl
  read-battery_entries charge charging (some a) (some b) (some c) hv hh hr = rw (hv, hh, hr) refl

  battery_state-eq :
      (v : Json R) {charge charging : Json R}
      → item "stateOfCharge" v ≡ some charge
      → item "charging" v ≡ some charging
      → battery_state v
        ≡ some (
            battery_entries charge charging
              (known (item "batteryVoltage" v))
              (known (item "batteryHealth" v))
              (known (item "range" v)))
  unfolding battery_state
  battery_state-eq v ec eg = rw (ec, eg) refl

  pub energy-battery_state :
      (v : Json R) (p : Energy R)
      → read_energy "stateOfCharge" "range" v ≡ some p
      → (w : Json R) × (battery_state v ≡ some w) × (read_energy "batteryCharge" "reach" w ≡ some p)
  energy-battery_state v p e =
      let (charge, ec, e1) = bind_some (item "stateOfCharge" v) e in
      let (charging, eg, e2) = bind_some (item "charging" v) e1 in
      (
        _,
        battery_state-eq v ec eg,
        read-battery_entries charge charging (known (item "batteryVoltage" v))
              (known (item "batteryHealth" v)) (known (item "range" v))
              (known-known (item "batteryVoltage" v)) (known-known (item "batteryHealth" v))
              (known-known (item "range" v))
            ∙ e2,
      )

  legacy_safety-eq :
      (v : Json R) {stop violation : Json R}
      → item "activeEmergencyStop" v ≡ some stop
      → item "fieldViolation" v ≡ some violation
      → legacy_safety v ≡ some (safety_entries stop violation)
  unfolding legacy_safety
  legacy_safety-eq v es ev = rw (es, ev) refl

  pub safety-legacy_safety :
      (v : Json R) (p : Safety R)
      → read_safety "activeEmergencyStop" v ≡ some p
      → (w : Json R) × (legacy_safety v ≡ some w) × (read_safety "eStop" w ≡ some p)
  safety-legacy_safety v p e =
      let (stop, es, e1) = bind_some (item "activeEmergencyStop" v) e in
      let (violation, ev, e2) = bind_some (item "fieldViolation" v) e1 in
      (_, legacy_safety-eq v es ev, e2)
