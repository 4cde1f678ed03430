-- ===== src/Schemas/States.antt =====
-- schemas.py: what the robot keeps and reports.
use vda5050_sim.Prelude.{ℕ, String, Option}
use vda5050_sim.Schemas.Enums.{
  ActionStatus, ErrorLevel, ZoneRequestType, EdgeRequestType, RequestStatus,
}

-- `ref` is the object's identity: the code writes to an action state through a reference to it,
-- and two states may carry the same action id.
pub record ActionState : Type 0 where
  pub ref : ℕ
  pub action_id : String
  pub action_status : ActionStatus
  pub action_type : Option String
  pub action_descriptor : Option String
  pub action_result : Option String

pub record Error : Type 0 where
  pub error_type : String
  pub error_level : ErrorLevel
  pub error_description : Option String

pub record Load : Type 0 where
  pub load_id : Option String
  pub load_type : Option String
  pub load_position : Option String

pub record ZoneRequest : Type 0 where
  pub request_id : String
  pub request_type : ZoneRequestType
  pub zone_id : String
  pub zone_set_id : String
  pub request_status : RequestStatus

pub record EdgeRequest : Type 0 where
  pub request_id : String
  pub request_type : EdgeRequestType
  pub edge_id : String
  pub sequence_id : ℕ
  pub request_status : RequestStatus

pub record MapState : Type 0 where
  pub map_id : String
  pub map_version : String
  pub map_status : String
