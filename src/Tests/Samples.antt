-- ===== src/Tests/Samples.antt =====
-- A robot at the origin, and an order of two nodes joined by an edge.
use vda5050_sim.Prelude.{ℕ, String, Bool, true, Option, none, some, List, [], ◌∷◌}
use vda5050_sim.Floats.Thousandths.{ℤ, pos, thousandths}
use vda5050_sim.Schemas.{Action, BlockingType, Node, NodePosition, Edge, Corridor, OrderMessage}
use vda5050_sim.Robot.{RobotConfig, FaultProfile, Defaults, Agv, init, setup}
use vda5050_sim.Zones.{Clock, aware}

abbrev pub faultless : FaultProfile ℤ
faultless = record {
  connection_drop_probability = pos 0;
  error_injection_probability = pos 0;
  field_violation_probability = pos 0;
  service_mode_probability = pos 0;
  emergency_stop_probability = pos 0;
}

abbrev pub config : RobotConfig ℤ
config = record {
  id = "r1";
  model = "mir250";
  manufacturer = "MiR";
  supported_actions = "pick" ∷ "waitForTrigger" ∷ "wave" ∷ [];
  max_speed = none;
  angular_speed = none;
  initial_battery = pos 90_000;
  battery_drain_percent_per_meter = none;
  battery_charge_percent_per_s = none;
  initial_x = pos 0;
  initial_y = pos 0;
  initial_theta = pos 0;
  fault_profile = faultless;
  protocol_version = "3.0.0";
}

abbrev pub defaults : Defaults ℤ
defaults = record {
  action_duration_s = pos 1000;
  default_speed_mps = pos 500;
  default_angular_speed_rad_s = pos 1000;
  horizon_threshold_nodes = 2;
  default_battery_drain_percent_per_meter = pos 50;
  default_battery_charge_percent_per_s = pos 5000;
}

unfoldable pub robot : Agv ℤ
unfolding init setup
robot = init config defaults

abbrev pub action : String → String → BlockingType → Action ℤ
action id type blocking = record {
  action_id = id;
  action_type = type;
  blocking_type = blocking;
  action_descriptor = none;
  action_parameters = [];
  retriable = none;
}

abbrev pub at_point : ℤ → ℤ → NodePosition ℤ
at_point x y = record {
  x = x;
  y = y;
  map_id = "default";
  theta = none;
  allowed_deviation_xy = none;
  allowed_deviation_theta = none;
}

abbrev pub node : String → ℕ → Bool → NodePosition ℤ → List (Action ℤ) → Node ℤ
node id seq released position actions = record {
  node_id = id;
  sequence_id = seq;
  released = released;
  node_descriptor = none;
  node_position = some position;
  actions = actions;
}

abbrev pub edge : String → ℕ → Bool → Option (Corridor ℤ) → List (Action ℤ) → Edge ℤ
edge id seq released corridor actions = record {
  edge_id = id;
  sequence_id = seq;
  released = released;
  edge_descriptor = none;
  maximum_speed = none;
  maximum_mobile_robot_height = none;
  minimum_load_handling_device_height = none;
  orientation = none;
  orientation_type = none;
  direction = none;
  reach_orientation_before_entering = none;
  max_rotation_speed = none;
  trajectory = none;
  length = none;
  corridor = corridor;
  actions = actions;
}

abbrev pub order : String → ℕ → List (Node ℤ) → List (Edge ℤ) → OrderMessage ℤ
order id update nodes edges = record {
  header_id = 1;
  timestamp = "2026-01-01T00:00:00Z";
  version = "3.0.0";
  manufacturer = "MiR";
  serial_number = "r1";
  order_id = id;
  order_update_id = update;
  order_description = none;
  nodes = nodes;
  edges = edges;
}

-- One metre along the x axis, with a pick at the start and an action of an unknown type.
abbrev pub short_order : OrderMessage ℤ
short_order =
    order "o1" 3
      (node "n0" 0 true (at_point (pos 0) (pos 0))
          (action "a1" "pick" BlockingType.none ∷ action "a2" "dance" BlockingType.hard ∷ [])
        ∷ node "n1" 2 true (at_point (pos 1000) (pos 0)) []
        ∷ [])
      (edge "e1" 1 true none (action "a3" "wave" BlockingType.none ∷ []) ∷ [])

abbrev pub clock : Clock
clock = record { now = 100; fromisoformat = λ t. aware 200 }
