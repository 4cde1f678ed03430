-- ===== src/Catalog.antt =====
-- src/vda5050_sim/action_catalog.py: the predefined actions and what the robot asks of them.
mod Defs
mod Core
mod Capabilities
unfoldable pub use Core.{control_actions, resource_actions}
unfoldable pub use Capabilities.{payload_actions, reply_actions}
pub use Defs.{ActionDef, ActionParamDef}
use vda5050_sim.Prelude.{
  String, string_eq, Bool, true, false, not, Option, none, some, List, ◌++◌, Dict, lookup,
}
use vda5050_sim.Schemas.{ActionScope}

unfoldable pub action_catalog : Dict String ActionDef
unfolding control_actions resource_actions payload_actions reply_actions
action_catalog = control_actions ++ (resource_actions ++ (payload_actions ++ reply_actions))

-- `none` for a type outside the catalogue.
unfoldable pub scopes_for : String → Option (List ActionScope)
unfolding action_catalog
scopes_for action_type = elim (lookup action_type action_catalog) [
  | none ↦ none
  | some entry ↦ some entry.scopes
]

unfoldable pub requires_capability : String → Bool
unfolding action_catalog
requires_capability action_type = elim (lookup action_type action_catalog) [
  | none ↦ false
  | some entry ↦ not entry.core
]

abbrev pub same_scope : ActionScope → ActionScope → Bool
same_scope ActionScope.instant ActionScope.instant = true
same_scope ActionScope.node ActionScope.node = true
same_scope ActionScope.edge ActionScope.edge = true
same_scope ActionScope.zone ActionScope.zone = true
same_scope _ _ = false
