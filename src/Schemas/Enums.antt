-- ===== src/Schemas/Enums.antt =====
-- schemas.py: the enumerations. A value keeps the source's word in lower case.

pub data OperatingMode : Type 0 where
  startup automatic semiautomatic intervened manual service teach_in : OperatingMode

pub data ActionStatus : Type 0 where
  waiting initializing running paused retriable finished failed : ActionStatus

pub data ErrorLevel : Type 0 where
  warning urgent critical fatal : ErrorLevel

pub data BlockingType : Type 0 where
  none soft single hard : BlockingType

pub data ConnectionState : Type 0 where
  online offline hibernating connection_broken : ConnectionState

pub data EmergencyStopType : Type 0 where
  manual remote none : EmergencyStopType

pub data OrientationType : Type 0 where
  global tangential : OrientationType

pub data ActionScope : Type 0 where
  instant node edge zone : ActionScope

pub data ZoneType : Type 0 where
  blocked line_guided release coordinated_replanning speed_limit : ZoneType
  action priority penalty directed bidirected : ZoneType

pub data ZoneRequestType : Type 0 where
  access replanning : ZoneRequestType

pub data EdgeRequestType : Type 0 where
  corridor : EdgeRequestType

pub data RequestStatus : Type 0 where
  requested granted revoked expired : RequestStatus

pub data GrantType : Type 0 where
  granted queued revoked rejected : GrantType
