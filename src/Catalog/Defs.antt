-- ===== src/Catalog/Defs.antt =====
-- action_catalog.py: the records of the dictionary.
use vda5050_sim.Prelude.{String, Bool, List, [], ◌∷◌}
use vda5050_sim.Schemas.{ActionScope, BlockingType}

pub record ActionParamDef : Type 0 where
  pub key : String
  pub value_data_type : String
  pub description : String
  pub optional : Bool

pub record ActionDef : Type 0 where
  pub action_type : String
  pub description : String
  pub scopes : List ActionScope
  pub blocking_types : List BlockingType
  pub pause_allowed : Bool
  pub cancel_allowed : Bool
  pub params : List ActionParamDef
  pub core : Bool

abbrev pub timer_blocking : List BlockingType
timer_blocking =
    BlockingType.none ∷ BlockingType.soft ∷ BlockingType.single ∷ BlockingType.hard ∷ []

abbrev pub control_blocking : List BlockingType
control_blocking = BlockingType.none ∷ []

abbrev pub param : String → String → String → Bool → ActionParamDef
param key type description optional = record {
  key = key;
  value_data_type = type;
  description = description;
  optional = optional;
}

-- An item of the dictionary: its key is the action type of its value.
abbrev pub entry :
    String
    → String
    → List ActionScope
    → List BlockingType
    → Bool
    → Bool
    → List ActionParamDef
    → Bool
    → String × ActionDef
entry action_type description scopes blocking_types pause_allowed cancel_allowed params core = (
  action_type,
  record {
    action_type = action_type;
    description = description;
    scopes = scopes;
    blocking_types = blocking_types;
    pause_allowed = pause_allowed;
    cancel_allowed = cancel_allowed;
    params = params;
    core = core;
  },
)
