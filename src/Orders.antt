-- ===== src/Orders.antt =====
-- src/vda5050_sim/agv.py: `handle_order` and what it calls.
mod Content
pub mod Registration
pub mod Acceptance
pub mod Updates
pub mod Verdicts
pub mod Answers
pub mod Redelivery
unfoldable pub use Content.{order_content_equal}
use vda5050_sim.Prelude.{
  show_number, ℕ, zero, suc, ◌+◌, ◌/◌, ◌%◌, nat_eq, String, string_eq, ◌<>◌, Bool, true, false, not,
  ◌&&◌, ◌||◌, Option, none, some, List, [], ◌∷◌, ◌++◌, map, ltb, ◌==◌, if◌then◌else◌, any, contains,
  insert, values,
}
use vda5050_sim.Floats.{Float}
use vda5050_sim.Schemas.{Action, ActionScope, ActionStatus, Node, Edge, OrderMessage}
use vda5050_sim.Robot.{
  Agv, Graph, Tracking, append_action_state, report, is_idle, in_scope, lacks_capability,
}

abbrev pub scope_value : ActionScope → String
scope_value ActionScope.instant = "INSTANT"
scope_value ActionScope.node = "NODE"
scope_value ActionScope.edge = "EDGE"
scope_value ActionScope.zone = "ZONE"

abbrev pub not_scoped : String → ActionScope → String
not_scoped action_type scope =
    "'" <> action_type <> "' is not a " <> scope_value scope <> "-scoped action"

abbrev pub not_supported : String → String
not_supported action_type = "'" <> action_type <> "' is not a supported capability of this robot"

module _ {R : Type 0} where
  unfoldable pub map_enabled : Agv R → String → Bool
  map_enabled s map_id =
      if map_id == "default"
      then true
      else any (λ m. m.map_id == map_id && m.map_status == "ENABLED") (values s.maps)

  -- The map of a node that lies on a map which is not enabled.
  abbrev unknown_map : Agv R → Node R → Option String
  unknown_map s n = elim n.node_position [
    | none ↦ none
    | some p ↦
        if not (p.map_id == "default") && not (map_enabled s p.map_id) then some p.map_id else none
  ]

  -- The set of these maps, in the order of their last nodes. (The code's set has no fixed order.)
  unfoldable pub unknown_maps : Agv R → List (Node R) → List String
  unknown_maps s [] = []
  unknown_maps s (n ∷ ns) =
      let rest = unknown_maps s ns in
      elim (unknown_map s n) [ none ↦ rest | some m ↦ if contains m rest then rest else m ∷ rest ]

  unfoldable pub report_unknown_maps : List String → Agv R → Agv R
  report_unknown_maps [] s = s
  report_unknown_maps (m ∷ ms) s =
      report_unknown_maps ms
        (report "unknownMapId" ("map '" <> m <> "' is not enabled on this robot") s)

  unfoldable pub reject_order_action : Action R → String → Agv R → Agv R
  reject_order_action action reason s =
      report "validationError" reason
        (append_action_state action ActionStatus.failed (some reason) s)

  unfoldable pub register_order_action : Action R → ActionScope → Agv R → Agv R
  register_order_action action required_scope s =
      if not (in_scope required_scope action.action_type)
      then reject_order_action action (not_scoped action.action_type required_scope) s
      else if lacks_capability s action.action_type
      then reject_order_action action (not_supported action.action_type) s
      else append_action_state action ActionStatus.waiting none (record s {
        tracking = record s.tracking {
          action_registry = insert action.action_id action s.action_registry;
        };
      })

  abbrev pub state_ids : Agv R → List String
  state_ids s = map (λ st. st.action_id) s.action_states

  -- for action in actions: `known` is the set `known_ids`.
  unfoldable pub register_actions :
      ActionScope → List (Action R) → List String → Agv R → List String × Agv R
  register_actions scope [] known s = (known, s)
  register_actions scope (action ∷ actions) known s =
      let skipped = register_actions scope actions known s in
      let registered =
        register_actions scope actions (known ++ action.action_id ∷ [])
          (register_order_action action scope s) in
      if contains action.action_id known then skipped else registered

  abbrev pub node_actions : List (Node R) → List (Action R)
  node_actions [] = []
  node_actions (n ∷ ns) = n.actions ++ node_actions ns

  abbrev pub edge_actions : List (Edge R) → List (Action R)
  edge_actions [] = []
  edge_actions (e ∷ es) = e.actions ++ edge_actions es

  -- The assignments at the head of `_accept_order`.
  unfoldable pub take_over : OrderMessage R → Bool → Agv R → Agv R
  take_over order is_update s =
      let graph = record s.graph {
        order_id = order.order_id;
        order_update_id = order.order_update_id;
        order_snapshot = some order;
        nodes = order.nodes;
        edges = order.edges;
      } in
      if is_update then record s { graph = graph } else record s {
        graph = record graph {
          last_node_id = "";
          last_node_sequence_id = 0;
          zone_requests = [];
          edge_requests = [];
        };
        tracking = record s.tracking { action_states = [] };
      }

  unfoldable pub accept_order : OrderMessage R → Bool → Agv R → Agv R
  accept_order order is_update s =
      let begun = take_over order is_update s in
      let (known, s1) =
        register_actions ActionScope.node (node_actions order.nodes) (state_ids begun) begun in
      let (known', s2) = register_actions ActionScope.edge (edge_actions order.edges) known s1 in
      record s2 { graph = record s2.graph { new_base_request = false } }

module _ {R : Type 0} ⦃fl : Float R⦄ where
  -- An order with the id of the one at hand.
  unfoldable pub handle_update : OrderMessage R → Agv R → Agv R
  handle_update order s =
      if ltb s.order_update_id order.order_update_id
      then accept_order order true s
      else if order.order_update_id == s.order_update_id
      then (if order_content_equal s.order_snapshot order
          then s
          else report "sameOrderUpdateId"
              ("orderUpdateId "
                <> show_number order.order_update_id
                <> " already processed with different content")
              s)
      else report "outdatedOrderUpdate"
          ("orderUpdateId "
            <> show_number order.order_update_id
            <> " is lower than current "
            <> show_number s.order_update_id)
          s

  unfoldable pub handle_other : OrderMessage R → Agv R → Agv R
  handle_other order s =
      if is_idle s
      then accept_order order false s
      else report "otherOrderActive" ("robot is executing order " <> s.order_id) s

  -- The test on the order's id, once the maps are checked.
  unfoldable pub dispatch_order : OrderMessage R → Agv R → Agv R
  dispatch_order order s =
      if not (s.order_id == "") && order.order_id == s.order_id
      then handle_update order s
      else handle_other order s

  unfoldable pub handle_order : OrderMessage R → Agv R → Agv R
  handle_order order s =
      if s.hibernating
      then s
      else dispatch_order order (report_unknown_maps (unknown_maps s order.nodes) s)
