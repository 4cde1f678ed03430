-- ===== src/Robot/Config.antt =====
-- agv.py: `FaultProfile` and `RobotConfig`, and what `__init__` derives from the latter.
use vda5050_sim.Prelude.{ℕ, String, Option, none, some, List, if◌then◌else◌}
use vda5050_sim.Floats.{Float, nought}

pub record FaultProfile (R : Type 0) : Type 0 where
  pub connection_drop_probability : R
  pub error_injection_probability : R
  pub field_violation_probability : R
  pub service_mode_probability : R
  pub emergency_stop_probability : R

-- After `__post_init__`: the manufacturer is filled in.
pub record RobotConfig (R : Type 0) : Type 0 where
  pub id : String
  pub model : String
  pub manufacturer : String
  pub supported_actions : List String
  pub max_speed : Option R
  pub angular_speed : Option R
  pub initial_battery : R
  pub battery_drain_percent_per_meter : Option R
  pub battery_charge_percent_per_s : Option R
  pub initial_x : R
  pub initial_y : R
  pub initial_theta : R
  pub fault_profile : FaultProfile R
  pub protocol_version : String

-- The keyword arguments of `SimulatedAgv.__init__`, less `on_log`.
pub record Defaults (R : Type 0) : Type 0 where
  pub action_duration_s : R
  pub default_speed_mps : R
  pub default_angular_speed_rad_s : R
  pub horizon_threshold_nodes : ℕ
  pub default_battery_drain_percent_per_meter : R
  pub default_battery_charge_percent_per_s : R

pub record Setup (R : Type 0) : Type 0 where
  pub cfg : RobotConfig R
  pub manufacturer : String
  pub serial_number : String
  pub action_duration_s : R
  pub speed : R
  pub angular_speed : R
  pub horizon_threshold_nodes : ℕ
  pub battery_drain_percent_per_meter : R
  pub battery_charge_percent_per_s : R

module _ {R : Type 0} ⦃fl : Float R⦄ where
  -- `value or default`: zero counts as missing.
  abbrev or_default : Option R → R → R
  or_default none d = d
  or_default (some v) d = if fl.eq v nought then d else v

  -- `value if value is not None else default`
  abbrev unless_none : Option R → R → R
  unless_none none d = d
  unless_none (some v) d = v

  unfoldable pub setup : RobotConfig R → Defaults R → Setup R
  setup cfg d = record {
    cfg = cfg;
    manufacturer = cfg.manufacturer;
    serial_number = cfg.id;
    action_duration_s = d.action_duration_s;
    speed = or_default cfg.max_speed d.default_speed_mps;
    angular_speed = or_default cfg.angular_speed d.default_angular_speed_rad_s;
    horizon_threshold_nodes = d.horizon_threshold_nodes;
    battery_drain_percent_per_meter =
        unless_none cfg.battery_drain_percent_per_meter d.default_battery_drain_percent_per_meter;
    battery_charge_percent_per_s =
        unless_none cfg.battery_charge_percent_per_s d.default_battery_charge_percent_per_s;
  }
