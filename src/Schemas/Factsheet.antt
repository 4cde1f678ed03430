-- ===== src/Schemas/Factsheet.antt =====
-- schemas.py: the factsheet message.
use vda5050_sim.Prelude.{ℕ, String, Bool, Option, List}
use vda5050_sim.Schemas.Enums.{ActionScope, BlockingType}
use vda5050_sim.Schemas.Orders.{Value, Vertex2d}

pub record TypeSpecification (R : Type 0) : Type 0 where
  pub series_name : String
  pub mobile_robot_class : String
  pub maximum_load_mass : R
  pub localization_types : List String
  pub navigation_types : List String
  pub series_description : Option String
  pub mobile_robot_kinematics : Option String

pub record PhysicalParameters (R : Type 0) : Type 0 where
  pub minimum_speed : R
  pub maximum_speed : R
  pub maximum_acceleration : R
  pub maximum_deceleration : R
  pub minimum_height : R
  pub maximum_height : R
  pub width : R
  pub length : R
  pub minimum_angular_speed : Option R
  pub maximum_angular_speed : Option R

pub record MaximumStringLengths : Type 0 where
  pub maximum_id_length : Option ℕ
  pub maximum_topic_serial_length : Option ℕ
  pub maximum_topic_element_length : Option ℕ

pub record MaximumArrayLengths : Type 0 where
  pub instant_actions : Option ℕ

pub record Timing (R : Type 0) : Type 0 where
  pub minimum_order_interval : R
  pub minimum_state_interval : R
  pub default_state_interval : Option R
  pub visualization_interval : Option R

pub record ProtocolLimits (R : Type 0) : Type 0 where
  pub maximum_string_lengths : MaximumStringLengths
  pub maximum_array_lengths : MaximumArrayLengths
  pub timing : Timing R

pub record ActionParameterDefinition : Type 0 where
  pub key : String
  pub value_data_type : String
  pub description : Option String
  pub is_optional : Option Bool

pub record MobileRobotActionDef : Type 0 where
  pub action_type : String
  pub action_scopes : List ActionScope
  pub pause_allowed : String
  pub cancel_allowed : String
  pub action_description : Option String
  pub action_parameters : List ActionParameterDefinition
  pub blocking_types : List BlockingType

pub record OptionalParameter : Type 0 where
  pub parameter : String
  pub support : String
  pub description : Option String

pub record ProtocolFeatures : Type 0 where
  pub mobile_robot_actions : List MobileRobotActionDef
  pub optional_parameters : List OptionalParameter

pub record Envelope2d (R : Type 0) : Type 0 where
  pub envelope2d_id : String
  pub vertices : List (Vertex2d R)
  pub description : Option String

pub record MobileRobotGeometry (R : Type 0) : Type 0 where
  pub envelopes2d : List (Envelope2d R)

pub record LoadSpecification (R : Type 0) : Type 0 where
  pub load_positions : List (Value R)
  pub load_sets : List (Value R)

pub record FactsheetMessage (R : Type 0) : Type 0 where
  pub header_id : ℕ
  pub timestamp : String
  pub version : String
  pub manufacturer : String
  pub serial_number : String
  pub type_specification : TypeSpecification R
  pub physical_parameters : PhysicalParameters R
  pub protocol_limits : ProtocolLimits R
  pub protocol_features : ProtocolFeatures
  pub mobile_robot_geometry : MobileRobotGeometry R
  pub load_specification : LoadSpecification R
