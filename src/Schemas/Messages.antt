-- ===== src/Schemas/Messages.antt =====
-- schemas.py: the messages that the robot sends, and the parts that only they have. A value of type
-- `Any` is a `Value`.
use vda5050_sim.Prelude.{ℕ, String, Bool, Option, List}
use vda5050_sim.Schemas.Enums.{ConnectionState, EmergencyStopType, OperatingMode}
use vda5050_sim.Schemas.Orders.{Value, NodePosition, ZoneSet, Response}
use vda5050_sim.Schemas.States.{ActionState, Error, Load, ZoneRequest, EdgeRequest, MapState}

pub data InfoLevel : Type 0 where
  info debug : InfoLevel

pub record Velocity (R : Type 0) : Type 0 where
  pub vx : Option R
  pub vy : Option R
  pub omega : Option R

pub record MobileRobotPosition (R : Type 0) : Type 0 where
  pub x : R
  pub y : R
  pub theta : R
  pub map_id : String
  pub localized : Bool
  pub localization_score : Option R
  pub deviation_range : Option R

pub record PowerSupply (R : Type 0) : Type 0 where
  pub state_of_charge : R
  pub charging : Bool
  pub battery_voltage : Option R
  pub battery_current : Option R
  pub battery_health : Option R
  pub range : Option R

pub record SafetyState : Type 0 where
  pub active_emergency_stop : EmergencyStopType
  pub field_violation : Bool

pub record ErrorReference : Type 0 where
  pub reference_key : String
  pub reference_value : String

pub record Information : Type 0 where
  pub info_type : String
  pub info_level : InfoLevel
  pub info_references : List ErrorReference
  pub info_descriptor : Option String

pub record NodeState (R : Type 0) : Type 0 where
  pub node_id : String
  pub sequence_id : ℕ
  pub released : Bool
  pub node_descriptor : Option String
  pub node_position : Option (NodePosition R)

pub record EdgeState (R : Type 0) : Type 0 where
  pub edge_id : String
  pub sequence_id : ℕ
  pub released : Bool
  pub edge_descriptor : Option String
  pub trajectory : Option (Value R)

pub record ZoneSetState : Type 0 where
  pub zone_set_id : String
  pub map_id : String
  pub zone_set_status : String

pub record ConnectionMessage : Type 0 where
  pub header_id : ℕ
  pub timestamp : String
  pub version : String
  pub manufacturer : String
  pub serial_number : String
  pub connection_state : ConnectionState

pub record StateMessage (R : Type 0) : Type 0 where
  pub header_id : ℕ
  pub timestamp : String
  pub version : String
  pub manufacturer : String
  pub serial_number : String
  pub order_id : String
  pub order_update_id : ℕ
  pub last_node_id : String
  pub last_node_sequence_id : ℕ
  pub node_states : List (NodeState R)
  pub edge_states : List (EdgeState R)
  pub driving : Bool
  pub paused : Bool
  pub new_base_request : Bool
  pub mobile_robot_position : Option (MobileRobotPosition R)
  pub velocity : Option (Velocity R)
  pub power_supply : PowerSupply R
  pub operating_mode : OperatingMode
  pub action_states : List ActionState
  pub instant_action_states : List ActionState
  pub zone_action_states : List ActionState
  pub errors : List Error
  pub information : List Information
  pub loads : List Load
  pub safety_state : SafetyState
  pub distance_since_last_node : Option R
  pub maps : List MapState
  pub zone_sets : List ZoneSetState
  pub planned_path : Option (Value R)
  pub intermediate_path : Option (Value R)
  pub zone_requests : List ZoneRequest
  pub edge_requests : List EdgeRequest

pub record VisualizationMessage (R : Type 0) : Type 0 where
  pub header_id : ℕ
  pub timestamp : String
  pub version : String
  pub manufacturer : String
  pub serial_number : String
  pub reference_state_header_id : ℕ
  pub mobile_robot_position : Option (MobileRobotPosition R)
  pub velocity : Option (Velocity R)
  pub planned_path : Option (Value R)
  pub intermediate_path : Option (Value R)

pub record ZoneSetMessage (R : Type 0) : Type 0 where
  pub header_id : ℕ
  pub timestamp : String
  pub version : String
  pub manufacturer : String
  pub serial_number : String
  pub zone_set : ZoneSet R

pub record ResponsesMessage : Type 0 where
  pub header_id : ℕ
  pub timestamp : String
  pub version : String
  pub manufacturer : String
  pub serial_number : String
  pub responses : List Response
