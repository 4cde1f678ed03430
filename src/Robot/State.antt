-- ===== src/Robot/State.antt =====
-- agv.py: the attributes of `SimulatedAgv`, in groups, and `__init__`.
use vda5050_sim.Prelude.{ℕ, String, string_eq, Bool, true, false, Option, none, List, [], ◌∷◌, Dict}
use vda5050_sim.Floats.{Float, nought}
use vda5050_sim.Schemas.{
  Action, ActionState, Node, Edge, OrderMessage, Zone, ZoneSet, ZoneRequest, EdgeRequest, MapState,
  Load, Error, EmergencyStopType, OperatingMode,
}
use vda5050_sim.Robot.Config.{RobotConfig, Defaults, Setup, setup}

-- The order and the part of its graph that is not yet consumed.
pub record Graph (R : Type 0) : Type 0 where
  pub order_id : String
  pub order_update_id : ℕ
  pub order_snapshot : Option (OrderMessage R)
  pub nodes : List (Node R)
  pub edges : List (Edge R)
  pub last_node_id : String
  pub last_node_sequence_id : ℕ
  pub new_base_request : Bool
  pub zone_requests : List ZoneRequest
  pub edge_requests : List EdgeRequest

-- The action states and what their progress reads. `next_ref` is the identity of the next state.
pub record Tracking (R : Type 0) : Type 0 where
  pub action_states : List ActionState
  pub instant_action_states : List ActionState
  pub zone_action_states : List ActionState
  pub action_registry : Dict String (Action R)
  pub action_started_at : Dict String R
  pub cancel_requested_action_id : Option String
  pub next_ref : ℕ

-- Maps, zone sets, leases and loads: what outlives an order.
pub record Site (R : Type 0) : Type 0 where
  pub maps : Dict (String × String) MapState
  pub zone_sets : Dict String (ZoneSet R)
  pub zone_set_status : Dict String String
  pub request_lease_expiry : Dict String String
  pub zone_occupancy : Dict String (Zone R)
  pub loads : List Load

pub record Motion (R : Type 0) : Type 0 where
  pub driving : Bool
  pub x : R
  pub y : R
  pub theta : R
  pub map_id : String
  pub battery_soc : R
  pub charging : Bool
  pub last_step_distance : R
  pub distance_since_last_node : R
  pub elapsed_s : R

pub record Faults (R : Type 0) : Type 0 where
  pub emergency_stop : EmergencyStopType
  pub field_violation : Bool
  pub operating_mode : OperatingMode
  pub fault_elapsed_s : R
  pub field_violation_until : R
  pub operating_mode_fault_until : R
  pub emergency_stop_until : R

-- Hibernation, pause and what the next messages report. `state_request_event` is `none` until the
-- state loop has made the event, and then says whether it is set.
pub record Mode : Type 0 where
  pub hibernating : Bool
  pub wake_up_at : Option String
  pub shutdown_requested : Bool
  pub state_request_event : Option Bool
  pub paused : Bool
  pub factsheet_requested : Bool
  pub pending_errors : List Error
  pub header_ids : Dict String ℕ

pub record Agv (R : Type 0) : Type 0 where
  pub setup : Setup R
  pub open setup use *
  pub graph : Graph R
  pub open graph use *
  pub tracking : Tracking R
  pub open tracking use *
  pub site : Site R
  pub open site use *
  pub motion : Motion R
  pub open motion use *
  pub faults : Faults R
  pub open faults use *
  pub mode : Mode
  pub open mode use *

abbrev no_graph : {R : Type 0} → Graph R
no_graph = record {
  order_id = "";
  order_update_id = 0;
  order_snapshot = none;
  nodes = [];
  edges = [];
  last_node_id = "";
  last_node_sequence_id = 0;
  new_base_request = false;
  zone_requests = [];
  edge_requests = [];
}

abbrev no_tracking : {R : Type 0} → Tracking R
no_tracking = record {
  action_states = [];
  instant_action_states = [];
  zone_action_states = [];
  action_registry = [];
  action_started_at = [];
  cancel_requested_action_id = none;
  next_ref = 0;
}

abbrev no_site : {R : Type 0} → Site R
no_site = record {
  maps = [];
  zone_sets = [];
  zone_set_status = [];
  request_lease_expiry = [];
  zone_occupancy = [];
  loads = [];
}

abbrev first_mode : Mode
first_mode = record {
  hibernating = false;
  wake_up_at = none;
  shutdown_requested = false;
  state_request_event = none;
  paused = false;
  factsheet_requested = true;
  pending_errors = [];
  header_ids = ("state", 0) ∷ ("visualization", 0) ∷ ("connection", 0) ∷ ("factsheet", 0) ∷ [];
}

module _ {R : Type 0} ⦃fl : Float R⦄ where
  unfoldable pub init : RobotConfig R → Defaults R → Agv R
  init cfg d = record {
    setup = setup cfg d;
    graph = no_graph;
    tracking = no_tracking;
    site = no_site;
    motion = record {
      driving = false;
      x = cfg.initial_x;
      y = cfg.initial_y;
      theta = cfg.initial_theta;
      map_id = "default";
      battery_soc = cfg.initial_battery;
      charging = false;
      last_step_distance = nought;
      distance_since_last_node = nought;
      elapsed_s = nought;
    };
    faults = record {
      emergency_stop = EmergencyStopType.none;
      field_violation = false;
      operating_mode = OperatingMode.automatic;
      fault_elapsed_s = nought;
      field_violation_until = nought;
      operating_mode_fault_until = nought;
      emergency_stop_until = nought;
    };
    mode = first_mode;
  }
