-- ===== src/Messages/Builders.antt =====
-- agv.py: `_next_header_id` and the message builders. A result is the message, or `none` where the
-- builder raises, with the robot as it left it. `now` is the result of `_now()`.
use vda5050_sim.Prelude.{
  ℕ, suc, String, string_eq, Bool, true, ◌&&◌, Option, none, some, List, [], map, values, lookup,
  insert, if◌then◌else◌,
}
use vda5050_sim.Floats.{Float, nought}
use vda5050_sim.Schemas.{
  Node, Edge, ZoneSet, Error, ConnectionState, NodeState, EdgeState, ZoneSetState, PowerSupply,
  MobileRobotPosition, Velocity, StateMessage, VisualizationMessage, ConnectionMessage,
  FactsheetMessage,
}
use vda5050_sim.Robot.{Agv}
use vda5050_sim.Specs.{text_or, build_supported_actions, build_factsheet}

unfoldable pub next_header_id : {R : Type 0} → String → Agv R → Option ℕ × Agv R
next_header_id kind s = elim (lookup kind s.header_ids) [
  | none ↦ (none, s)
  | some n ↦ (
    some (suc n),
    record s { mode = record s.mode { header_ids = insert kind (suc n) s.header_ids } },
  )
]

abbrev pub with_header :
    {R M : Type 0} → Option ℕ × Agv R → (ℕ → Agv R → Option M × Agv R) → Option M × Agv R
with_header (none, s) message = (none, s)
with_header (some header_id, s) message = message header_id s

unfoldable pub node_state : {R : Type 0} → Node R → NodeState R
node_state n = record {
  node_id = n.node_id;
  sequence_id = n.sequence_id;
  released = n.released;
  node_descriptor = n.node_descriptor;
  node_position = n.node_position;
}

unfoldable pub edge_state : {R : Type 0} → Edge R → EdgeState R
edge_state e = record {
  edge_id = e.edge_id;
  sequence_id = e.sequence_id;
  released = e.released;
  edge_descriptor = e.edge_descriptor;
  trajectory = none;
}

unfoldable pub zone_set_state : {R : Type 0} → Agv R → ZoneSet R → ZoneSetState
zone_set_state s zs = record {
  zone_set_id = zs.zone_set_id;
  map_id = zs.map_id;
  zone_set_status = text_or "ENABLED" (lookup zs.zone_set_id s.zone_set_status);
}

unfoldable pub robot_position : {R : Type 0} → Agv R → MobileRobotPosition R
robot_position s = record {
  x = s.x;
  y = s.y;
  theta = s.theta;
  map_id = s.map_id;
  localized = true;
  localization_score = none;
  deviation_range = none;
}

abbrev pub no_velocity : {R : Type 0} → Velocity R
no_velocity = record { vx = none; vy = none; omega = none }

abbrev pub supplied : {R : Type 0} → R → Bool → PowerSupply R
supplied state_of_charge charging = record {
  state_of_charge = state_of_charge;
  charging = charging;
  battery_voltage = none;
  battery_current = none;
  battery_health = none;
  range = none;
}

module _ {R : Type 0} ⦃fl : Float R⦄ where
  open fl use {decimal, le}

  -- PowerSupply(stateOfCharge=…, charging=…), which checks 0 <= stateOfCharge <= 100.
  unfoldable pub power_supply : R → Bool → Option (PowerSupply R)
  power_supply state_of_charge charging =
      if le nought state_of_charge && le state_of_charge (decimal 100 0)
      then some (supplied state_of_charge charging)
      else none

  unfoldable pub state_message : String → ℕ → List Error → PowerSupply R → Agv R → StateMessage R
  unfolding node_state edge_state zone_set_state robot_position
  state_message now header_id errors power s = record {
    header_id = header_id;
    timestamp = now;
    version = "3.0.0";
    manufacturer = s.manufacturer;
    serial_number = s.serial_number;
    order_id = s.order_id;
    order_update_id = s.order_update_id;
    last_node_id = s.last_node_id;
    last_node_sequence_id = s.last_node_sequence_id;
    node_states = map node_state s.nodes;
    edge_states = map edge_state s.edges;
    driving = s.driving;
    paused = s.paused;
    new_base_request = s.new_base_request;
    mobile_robot_position = some (robot_position s);
    velocity = some no_velocity;
    power_supply = power;
    operating_mode = s.operating_mode;
    action_states = s.action_states;
    instant_action_states = s.instant_action_states;
    zone_action_states = s.zone_action_states;
    errors = errors;
    information = [];
    loads = s.loads;
    safety_state = record {
      active_emergency_stop = s.emergency_stop;
      field_violation = s.field_violation;
    };
    distance_since_last_node = some s.distance_since_last_node;
    maps = values s.maps;
    zone_sets = map (zone_set_state s) (values s.zone_sets);
    planned_path = none;
    intermediate_path = none;
    zone_requests = s.zone_requests;
    edge_requests = s.edge_requests;
  }

  abbrev powered :
      String → ℕ → List Error → Option (PowerSupply R) → Agv R → Option (StateMessage R)
  powered now header_id errors none s = none
  powered now header_id errors (some power) s = some (state_message now header_id errors power s)

  -- The errors are cleared and the id is counted before the charge is checked.
  unfoldable pub build_state_message : String → Agv R → Option (StateMessage R) × Agv R
  unfolding next_header_id power_supply state_message
  build_state_message now s =
      let cleared = record s { mode = record s.mode { pending_errors = [] } } in
      with_header (next_header_id "state" cleared) (λ header_id t.
        (powered now header_id s.pending_errors (power_supply t.battery_soc t.charging) t, t))

  unfoldable pub factsheet_message : (str : R → String) → String → ℕ → Agv R → FactsheetMessage R
  unfolding build_factsheet build_supported_actions
  factsheet_message str now header_id s =
      build_factsheet str s.cfg.model s.serial_number header_id now
        (some (build_supported_actions s.cfg.supported_actions))

  unfoldable pub build_factsheet_message :
      (str : R → String) → String → Agv R → Option (FactsheetMessage R) × Agv R
  unfolding next_header_id factsheet_message
  build_factsheet_message str now s = with_header (next_header_id "factsheet" s) (λ header_id t. (
    some (
        build_factsheet str t.cfg.model t.serial_number header_id now
          (some (build_supported_actions t.cfg.supported_actions))),
    t,
  ))

unfoldable pub visualization_message :
    {R : Type 0} → String → ℕ → ℕ → Agv R → VisualizationMessage R
unfolding robot_position
visualization_message now reference_state_header_id header_id s = record {
  header_id = header_id;
  timestamp = now;
  version = "3.0.0";
  manufacturer = s.manufacturer;
  serial_number = s.serial_number;
  reference_state_header_id = reference_state_header_id;
  mobile_robot_position = some (robot_position s);
  velocity = some no_velocity;
  planned_path = none;
  intermediate_path = none;
}

unfoldable pub build_visualization_message :
    {R : Type 0} → String → ℕ → Agv R → Option (VisualizationMessage R) × Agv R
unfolding next_header_id visualization_message
build_visualization_message now reference_state_header_id s =
    with_header (next_header_id "visualization" s)
      (λ header_id t. (some (visualization_message now reference_state_header_id header_id t), t))

unfoldable pub connection_message :
    {R : Type 0} → String → ConnectionState → ℕ → Agv R → ConnectionMessage
connection_message now state header_id s = record {
  header_id = header_id;
  timestamp = now;
  version = "3.0.0";
  manufacturer = s.manufacturer;
  serial_number = s.serial_number;
  connection_state = state;
}

unfoldable pub build_connection_message :
    {R : Type 0} → String → ConnectionState → Agv R → Option ConnectionMessage × Agv R
unfolding next_header_id connection_message
build_connection_message now state s =
    with_header (next_header_id "connection" s)
      (λ header_id t. (some (connection_message now state header_id t), t))
