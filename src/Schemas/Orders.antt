-- ===== src/Schemas/Orders.antt =====
-- schemas.py: actions, the order graph and the messages that fleet control sends. An optional
-- field is an `Option`; a value of type `Any` is a `Value`.
use vda5050_sim.Prelude.{ℕ, String, Bool, Option, List}
use vda5050_sim.Schemas.Enums.{BlockingType, OrientationType, GrantType, ZoneType}

-- A JSON value as the code reads it. A number carries the text that `str` gives for it, and an
-- array or object that text and whether it is non-empty.
pub data Value (R : Type 0) : Type 0 where
  text : String → Value R
  number : R → String → Value R
  flag : Bool → Value R
  null : Value R
  compound : String → Bool → Value R

pub record ActionParameter (R : Type 0) : Type 0 where
  pub key : String
  pub value : Value R

pub record Action (R : Type 0) : Type 0 where
  pub action_id : String
  pub action_type : String
  pub blocking_type : BlockingType
  pub action_descriptor : Option String
  pub action_parameters : List (ActionParameter R)
  pub retriable : Option Bool

pub record NodePosition (R : Type 0) : Type 0 where
  pub x : R
  pub y : R
  pub map_id : String
  pub theta : Option R
  pub allowed_deviation_xy : Option R
  pub allowed_deviation_theta : Option R

pub record Node (R : Type 0) : Type 0 where
  pub node_id : String
  pub sequence_id : ℕ
  pub released : Bool
  pub node_descriptor : Option String
  pub node_position : Option (NodePosition R)
  pub actions : List (Action R)

pub record Corridor (R : Type 0) : Type 0 where
  pub left_width : R
  pub right_width : R
  pub corridor_reference_point : Option String
  pub release_required : Option Bool
  pub release_loss_behavior : Option String

pub record Edge (R : Type 0) : Type 0 where
  pub edge_id : String
  pub sequence_id : ℕ
  pub released : Bool
  pub edge_descriptor : Option String
  pub maximum_speed : Option R
  pub maximum_mobile_robot_height : Option R
  pub minimum_load_handling_device_height : Option R
  pub orientation : Option R
  pub orientation_type : Option OrientationType
  pub direction : Option String
  pub reach_orientation_before_entering : Option Bool
  pub max_rotation_speed : Option R
  pub trajectory : Option (Value R)
  pub length : Option R
  pub corridor : Option (Corridor R)
  pub actions : List (Action R)

pub record OrderMessage (R : Type 0) : Type 0 where
  pub header_id : ℕ
  pub timestamp : String
  pub version : String
  pub manufacturer : String
  pub serial_number : String
  pub order_id : String
  pub order_update_id : ℕ
  pub order_description : Option String
  pub nodes : List (Node R)
  pub edges : List (Edge R)

pub record InstantActionsMessage (R : Type 0) : Type 0 where
  pub header_id : ℕ
  pub timestamp : String
  pub version : String
  pub manufacturer : String
  pub serial_number : String
  pub actions : List (Action R)

pub record Vertex2d (R : Type 0) : Type 0 where
  pub x : R
  pub y : R

pub record Zone (R : Type 0) : Type 0 where
  pub zone_id : String
  pub zone_type : ZoneType
  pub vertices : List (Vertex2d R)
  pub zone_descriptor : Option String
  pub maximum_speed : Option R
  pub entry_actions : List (Action R)
  pub during_actions : List (Action R)
  pub exit_actions : List (Action R)
  pub priority_factor : Option R
  pub penalty_factor : Option R
  pub direction : Option R
  pub limitation : Option String

pub record ZoneSet (R : Type 0) : Type 0 where
  pub map_id : String
  pub zone_set_id : String
  pub zone_set_descriptor : Option String
  pub zones : List (Zone R)

pub record Response : Type 0 where
  pub request_id : String
  pub grant_type : GrantType
  pub lease_expiry : Option String
