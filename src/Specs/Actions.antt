-- ===== src/Specs/Actions.antt =====
-- robot_specs.py: the actions that a factsheet declares.
use vda5050_sim.Prelude.{
  String, string_eq, Bool, true, false, Option, none, some, List, [], ◌∷◌, ◌++◌, map, filter, Dict,
  lookup, values, ◌==◌, if◌then◌else◌,
}
use vda5050_sim.Schemas.{ActionScope, BlockingType, ActionParameterDefinition, MobileRobotActionDef}
use vda5050_sim.Catalog.{ActionDef, ActionParamDef, action_catalog}

-- `text or None`
abbrev or_none : String → Option String
or_none t = if t == "" then none else some t

-- `items or default`
abbrev or_list : {A : Type 0} → List A → List A → List A
or_list [] d = d
or_list (x ∷ xs) d = x ∷ xs

-- `scopes` and `blocking` are empty where the argument is left out.
unfoldable pub action_def :
    String → String → List ActionScope → List BlockingType → String → String → MobileRobotActionDef
action_def action_type description scopes blocking pause_allowed cancel_allowed = record {
  action_type = action_type;
  action_scopes = or_list scopes (ActionScope.instant ∷ []);
  pause_allowed = pause_allowed;
  cancel_allowed = cancel_allowed;
  action_description = or_none description;
  action_parameters = [];
  blocking_types = or_list blocking (BlockingType.none ∷ []);
}

unfoldable pub value_data_type_map : Dict String String
value_data_type_map = ("string", "STRING") ∷ ("float64", "NUMBER") ∷ ("string[]", "ARRAY") ∷ []

abbrev pub text_or : String → Option String → String
text_or d none = d
text_or d (some t) = t

abbrev bool_text : Bool → String
bool_text true = "true"
bool_text false = "false"

unfoldable pub parameter_def : ActionParamDef → ActionParameterDefinition
unfolding value_data_type_map
parameter_def p = record {
  key = p.key;
  value_data_type = text_or "STRING" (lookup p.value_data_type value_data_type_map);
  description = or_none p.description;
  is_optional = some p.optional;
}

unfoldable pub factsheet_action_def : ActionDef → MobileRobotActionDef
unfolding parameter_def
factsheet_action_def entry = record {
  action_type = entry.action_type;
  action_scopes = entry.scopes;
  pause_allowed = bool_text entry.pause_allowed;
  cancel_allowed = bool_text entry.cancel_allowed;
  action_description = some entry.description;
  action_parameters = map parameter_def entry.params;
  blocking_types = entry.blocking_types;
}

-- ACTION_CATALOG[a] if a in ACTION_CATALOG else the generic declaration
unfoldable pub declare_action : String → MobileRobotActionDef
unfolding factsheet_action_def action_def
declare_action a = elim (lookup a action_catalog) [
  | none ↦ action_def a a [] [] "false" "true"
  | some entry ↦ factsheet_action_def entry
]

unfoldable pub build_supported_actions : List String → List MobileRobotActionDef
unfolding factsheet_action_def declare_action
build_supported_actions supported_actions =
    map factsheet_action_def (filter (λ (e : ActionDef). e.core) (values action_catalog))
    ++ map declare_action supported_actions
