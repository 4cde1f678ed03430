-- ===== src/Fleet/Group.antt =====
-- fleet.py: `Fleet`. A transport stands for its identity, which the factory gives.
use vda5050_sim.Prelude.{
  ℕ, nat_eq, String, string_eq, Bool, Option, none, some, List, [], ◌∷◌, map, Dict, lookup, insert,
  ◌==◌, if◌then◌else◌,
}
use vda5050_sim.Floats.{Float}
use vda5050_sim.Settings.{Settings}
use vda5050_sim.Robot.{RobotConfig, Defaults, init, is_idle}
use vda5050_sim.Fleet.Runtime.{RobotRuntime, init_runtime, start, stop}

-- `closed` lists the transports whose `close` was called.
pub record Fleet (R : Type 0) : Type 0 where
  pub settings : Settings R
  pub runtimes : Dict String (RobotRuntime R)
  pub transports : Dict ℕ ℕ
  pub closed : List ℕ

pub record Position (R : Type 0) : Type 0 where
  pub x : R
  pub y : R
  pub theta : R
  pub map_id : String

pub record RobotSnapshot (R : Type 0) : Type 0 where
  pub id : String
  pub model : String
  pub manufacturer : String
  pub online : Bool
  pub order_id : String
  pub order_update_id : ℕ
  pub driving : Bool
  pub paused : Bool
  pub idle : Bool
  pub position : Position R
  pub battery : R

module _ {R : Type 0} where
  unfoldable pub init_fleet : Settings R → Fleet R
  init_fleet settings = record { settings = settings; runtimes = []; transports = []; closed = [] }

  abbrev pub defaults_of : Settings R → Defaults R
  defaults_of settings = record {
    action_duration_s = settings.action_duration_s;
    default_speed_mps = settings.default_speed_mps;
    default_angular_speed_rad_s = settings.default_angular_speed_rad_s;
    horizon_threshold_nodes = settings.horizon_threshold_nodes;
    default_battery_drain_percent_per_meter = settings.default_battery_drain_percent_per_meter;
    default_battery_charge_percent_per_s = settings.default_battery_charge_percent_per_s;
  }

module _ {R : Type 0} ⦃fl : Float R⦄ (factory : RobotConfig R → ℕ) where
  -- The runtime of a robot, started.
  unfoldable pub started_runtime : Settings R → RobotConfig R → RobotRuntime R
  unfolding init init_runtime start
  started_runtime settings cfg =
      start (init_runtime (init cfg (defaults_of settings)) (factory cfg) settings)

  unfoldable pub start_robot : RobotConfig R → Fleet R → Fleet R
  unfolding started_runtime
  start_robot cfg fleet = record fleet {
    transports = insert (factory cfg) (factory cfg) fleet.transports;
    runtimes = insert cfg.id (started_runtime fleet.settings cfg) fleet.runtimes;
  }

  unfoldable pub start_fleet : List (RobotConfig R) → Fleet R → Fleet R
  unfolding start_robot
  start_fleet [] fleet = fleet
  start_fleet (cfg ∷ configs) fleet = start_fleet configs (start_robot cfg fleet)

module _ {R : Type 0} ⦃fl : Float R⦄ (str : R → String) (now : String) where
  unfoldable pub stop_fleet : Fleet R → Fleet R
  unfolding stop
  stop_fleet fleet = record fleet {
    runtimes = map (λ e. (e.0, stop str now e.1)) fleet.runtimes;
    closed = map (λ e. e.1) fleet.transports;
  }

abbrev pub matching : {R : Type 0} → String → Option (RobotRuntime R) → Option (RobotRuntime R)
matching manufacturer none = none
matching manufacturer (some rt) = if rt.agv.manufacturer == manufacturer then some rt else none

unfoldable pub find_runtime : {R : Type 0} → String → String → Fleet R → Option (RobotRuntime R)
find_runtime manufacturer serial fleet = matching manufacturer (lookup serial fleet.runtimes)

unfoldable pub snapshot : {R : Type 0} → Fleet R → List (RobotSnapshot R)
unfolding is_idle
snapshot fleet =
    map
      (λ (rid, rt). record {
        id = rid;
        model = rt.agv.cfg.model;
        manufacturer = rt.agv.manufacturer;
        online = rt.online;
        order_id = rt.agv.order_id;
        order_update_id = rt.agv.order_update_id;
        driving = rt.agv.driving;
        paused = rt.agv.paused;
        idle = is_idle rt.agv;
        position = record {
          x = rt.agv.x;
          y = rt.agv.y;
          theta = rt.agv.theta;
          map_id = rt.agv.map_id;
        };
        battery = rt.agv.battery_soc;
      })
      fleet.runtimes
