-- ===== src/Robot/Scopes.antt =====
-- agv.py: the two checks that order, instant and zone actions share.
use vda5050_sim.Prelude.{String, string_eq, Bool, true, not, ◌&&◌, none, some, any, contains}
use vda5050_sim.Schemas.{ActionScope}
use vda5050_sim.Catalog.{scopes_for, requires_capability, same_scope}
use vda5050_sim.Robot.State.{Agv}

-- not (scopes is not None and required_scope not in scopes)
unfoldable pub in_scope : ActionScope → String → Bool
in_scope required action_type = elim (scopes_for action_type) [
  | none ↦ true
  | some scopes ↦ any (same_scope required) scopes
]

-- requires_capability(action_type) if scopes is not None else True
unfoldable pub capability_required : String → Bool
capability_required action_type = elim (scopes_for action_type) [
  | none ↦ true
  | some scopes ↦ requires_capability action_type
]

unfoldable pub lacks_capability : {R : Type 0} → Agv R → String → Bool
lacks_capability s action_type =
    capability_required action_type && not (contains action_type s.cfg.supported_actions)
