-- ===== src/Specs/Declared.antt =====
-- robot_specs.py and agv.py: what a robot declares in its factsheet, and what it takes on.
use vda5050_sim.Prelude.{
  String, string_eq, Bool, true, false, ◌||◌, ◌≡◌, refl, ◌∙◌, some, List, [], ◌∷◌, ◌++◌, map, any,
  filter, All, values, Dict, lookup, contains, arith, Option-cases, inl, inr, ◌==◌,
}
use vda5050_sim.Schemas.{MobileRobotActionDef}
use vda5050_sim.Catalog.{ActionDef, action_catalog, scopes_for, requires_capability}
use vda5050_sim.Robot.{Agv, lacks_capability, capability_required}
use vda5050_sim.Specs.Actions.{factsheet_action_def, declare_action, build_supported_actions}

-- An action type that a list of declarations names.
abbrev pub declares : String → List MobileRobotActionDef → Bool
declares a defs = any (λ (m : MobileRobotActionDef). m.action_type == a) defs

-- The key of an item is the type of its action.
abbrev IsKeyed : Dict String ActionDef → Type 0
IsKeyed d = All (λ (e : String × ActionDef). e.1.action_type ≡ e.0) d

action_catalog-IsKeyed : IsKeyed action_catalog
unfolding action_catalog
action_catalog-IsKeyed = ground arith

declares-append :
    (a : String) (xs ys : List MobileRobotActionDef)
    → declares a (xs ++ ys) ≡ (declares a xs || declares a ys)
declares-append a [] ys = refl
declares-append a (x ∷ xs) ys = ground (arith, declares-append a xs ys)

declares_core :
    (a : String) (d : Dict String ActionDef) (entry : ActionDef)
    → IsKeyed d
    → lookup a d ≡ some entry
    → entry.core ≡ true
    → declares a (map factsheet_action_def (filter (λ (e : ActionDef). e.core) (values d))) ≡ true
unfolding factsheet_action_def
declares_core a [] entry keyed e core = absurd (cc e)
declares_core a ((k, first) ∷ d) entry (same, keyed) e core = ground (
  arith,
  e,
  core,
  same,
  string_eq.beq_iff k a,
  string_eq.beq_iff first.action_type a,
  declares_core a d entry keyed,
)

type_of_found :
    (a : String) (d : Dict String ActionDef) (entry : ActionDef)
    → IsKeyed d
    → lookup a d ≡ some entry
    → entry.action_type ≡ a
type_of_found a [] entry keyed e = absurd (cc e)
type_of_found a ((k, first) ∷ d) entry (same, keyed) e =
    ground (arith, e, same, string_eq.beq_iff k a, type_of_found a d entry keyed)

type-declare_action : (a : String) → (declare_action a).action_type ≡ a
unfolding declare_action
type-declare_action a = elim (Option-cases (lookup a action_catalog)) [
  | inl e ↦ rw (e, declare_action) refl
  | inr (entry, e) ↦
      rw (e, declare_action) (type_of_found a action_catalog entry action_catalog-IsKeyed e)
]

declares_supported :
    (a : String) (supported : List String)
    → contains a supported ≡ true
    → declares a (map declare_action supported) ≡ true
declares_supported a [] h = absurd (cc h)
declares_supported a (b ∷ supported) h =
    ground (arith, h, type-declare_action b, declares_supported a supported)

declares_required :
    (a : String)
    → capability_required a ≡ false
    → declares a
        (map factsheet_action_def (filter (λ (e : ActionDef). e.core) (values action_catalog)))
      ≡ true
unfolding capability_required scopes_for requires_capability
declares_required a h = elim (Option-cases (lookup a action_catalog)) [
  | inl e ↦ absurd (cc (rw (e, capability_required, scopes_for) at h))
  | inr (entry, e) ↦
      declares_core a action_catalog entry action_catalog-IsKeyed e
        (ground (arith, rw (e, capability_required, scopes_for, requires_capability) at h))
]

-- Every action type that the robot does not lack the capability for is declared in its factsheet:
-- the predefined ones that need none, and all that it is configured with.
pub lacks_capability_declared :
    {R : Type 0} (s : Agv R) (a : String)
    → lacks_capability s a ≡ false
    → declares a (build_supported_actions s.cfg.supported_actions) ≡ true
unfolding lacks_capability build_supported_actions
lacks_capability_declared s a h =
    declares-append a
      (map factsheet_action_def (filter (λ (e : ActionDef). e.core) (values action_catalog)))
      (map declare_action s.cfg.supported_actions)
    ∙ ground (arith, h, declares_required a, declares_supported a s.cfg.supported_actions)
