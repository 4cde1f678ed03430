-- ===== src/Fleet/Loading.antt =====
-- fleet.py: `load_fleet_config`, on the robots of the parsed file. A key that is missing is `none`;
-- the calls of `float` and `str` are done. The result is `none` where the code raises KeyError.
use vda5050_sim.Prelude.{
  String, string_eq, Option, none, some, List, [], ◌∷◌, lookup, ◌==◌, if◌then◌else◌,
}
use vda5050_sim.Floats.{Float, nought}
use vda5050_sim.Robot.{RobotConfig, FaultProfile}
use vda5050_sim.Specs.{RobotSpec, robot_specs, spec_get, get_manufacturer}
use vda5050_sim.Wire.{◌>>=◌}

pub record FaultEntry (R : Type 0) : Type 0 where
  pub connection_drop_probability : Option R
  pub error_injection_probability : Option R
  pub field_violation_probability : Option R
  pub service_mode_probability : Option R
  pub emergency_stop_probability : Option R

pub record RobotEntry (R : Type 0) : Type 0 where
  pub id : Option String
  pub model : Option String
  pub manufacturer : Option String
  pub supported_actions : Option (List String)
  pub max_speed : Option R
  pub angular_speed : Option R
  pub initial_battery : Option R
  pub battery_drain_percent_per_meter : Option R
  pub battery_charge_percent_per_s : Option R
  pub initial_x : Option R
  pub initial_y : Option R
  pub initial_theta : Option R
  pub protocol_version : Option String
  pub fault_profile : Option (FaultEntry R)

-- entry.get(key, default)
abbrev pub get_or : {A : Type 0} → A → Option A → A
get_or d none = d
get_or d (some a) = a

-- entry.get(key), with a fallback for None
abbrev pub or_else : {A : Type 0} → Option A → Option A → Option A
or_else (some a) fallback = some a
or_else none fallback = fallback

-- `__post_init__` of RobotConfig
unfoldable pub filled_in : (R : Type 0) ⦃fl : Float R⦄ → String → String → String
unfolding get_manufacturer
filled_in R manufacturer model =
    if manufacturer == "" then get_manufacturer R model else manufacturer

module _ {R : Type 0} ⦃fl : Float R⦄ where
  open fl use {decimal}

  -- `entry.get("fault_profile") or {}`
  abbrev fault_profile_of : Option (FaultEntry R) → FaultProfile R
  fault_profile_of none = record {
    connection_drop_probability = nought;
    error_injection_probability = nought;
    field_violation_probability = nought;
    service_mode_probability = nought;
    emergency_stop_probability = nought;
  }
  fault_profile_of (some fault) = record {
    connection_drop_probability = get_or nought fault.connection_drop_probability;
    error_injection_probability = get_or nought fault.error_injection_probability;
    field_violation_probability = get_or nought fault.field_violation_probability;
    service_mode_probability = get_or nought fault.service_mode_probability;
    emergency_stop_probability = get_or nought fault.emergency_stop_probability;
  }

  -- RobotConfig(…), with the model's published speeds where the entry has none.
  unfoldable pub robot_config : String → String → RobotEntry R → RobotConfig R
  unfolding filled_in
  robot_config id model entry =
      let spec : Option (RobotSpec R) = lookup model robot_specs in
      record {
        id = id;
        model = model;
        manufacturer = filled_in R (get_or "" entry.manufacturer) model;
        supported_actions = get_or [] entry.supported_actions;
        max_speed = or_else entry.max_speed (spec_get (λ s. s.maximum_speed) spec);
        angular_speed = or_else entry.angular_speed (spec_get (λ s. s.maximum_angular_speed) spec);
        initial_battery = get_or (decimal 1000 1) entry.initial_battery;
        battery_drain_percent_per_meter = entry.battery_drain_percent_per_meter;
        battery_charge_percent_per_s = entry.battery_charge_percent_per_s;
        initial_x = get_or nought entry.initial_x;
        initial_y = get_or nought entry.initial_y;
        initial_theta = get_or nought entry.initial_theta;
        fault_profile = fault_profile_of entry.fault_profile;
        protocol_version = get_or "3.0.0" entry.protocol_version;
      }

  unfoldable pub load_robot : RobotEntry R → Option (RobotConfig R)
  unfolding robot_config
  load_robot entry = do model ← entry.model; id ← entry.id; some (robot_config id model entry)

  unfoldable pub load_fleet_config : List (RobotEntry R) → Option (List (RobotConfig R))
  unfolding load_robot
  load_fleet_config [] = some []
  load_fleet_config (entry ∷ entries) =
      let rest = load_fleet_config entries in
      do robot ← load_robot entry; robots ← rest; some (robot ∷ robots)
