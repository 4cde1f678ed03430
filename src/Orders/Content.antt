-- ===== src/Orders/Content.antt =====
-- agv.py: `_order_content_equal`, the comparison of two dumped messages field by field.
use vda5050_sim.Prelude.{
  nat_eq, String, string_eq, Bool, true, false, ◌&&◌, Option, none, some, List, [], ◌∷◌, ◌==◌,
}
use vda5050_sim.Floats.{Float, nought}
use vda5050_sim.Schemas.{
  Value, ActionParameter, Action, BlockingType, NodePosition, Node, Corridor, Edge, OrientationType,
  OrderMessage,
}

abbrev pub eq_bool : Bool → Bool → Bool
eq_bool true b = b
eq_bool false true = false
eq_bool false false = true

abbrev pub eq_option {ℓ} : {A : Type ℓ} → (A → A → Bool) → Option A → Option A → Bool
eq_option eq none none = true
eq_option eq (some a) (some b) = eq a b
eq_option eq _ _ = false

abbrev pub eq_list {ℓ} : {A : Type ℓ} → (A → A → Bool) → List A → List A → Bool
eq_list eq [] [] = true
eq_list eq (x ∷ xs) (y ∷ ys) = eq x y && eq_list eq xs ys
eq_list eq _ _ = false

abbrev pub eq_text : String → String → Bool
eq_text a b = a == b

abbrev pub eq_blocking : BlockingType → BlockingType → Bool
eq_blocking BlockingType.none BlockingType.none = true
eq_blocking BlockingType.soft BlockingType.soft = true
eq_blocking BlockingType.single BlockingType.single = true
eq_blocking BlockingType.hard BlockingType.hard = true
eq_blocking _ _ = false

abbrev pub eq_orientation : OrientationType → OrientationType → Bool
eq_orientation OrientationType.global OrientationType.global = true
eq_orientation OrientationType.tangential OrientationType.tangential = true
eq_orientation _ _ = false

module _ {R : Type 0} ⦃fl : Float R⦄ where
  -- Python's True == 1 and False == 0
  abbrev pub as_number : Bool → R
  as_number true = fl.decimal 1 0
  as_number false = nought

  unfoldable pub eq_value : Value R → Value R → Bool
  eq_value (Value.text a) (Value.text b) = a == b
  eq_value (Value.number a s) (Value.number b t) = fl.eq a b
  eq_value (Value.number a s) (Value.flag b) = fl.eq a (as_number b)
  eq_value (Value.flag a) (Value.number b t) = fl.eq (as_number a) b
  eq_value (Value.flag a) (Value.flag b) = eq_bool a b
  eq_value Value.null Value.null = true
  eq_value (Value.compound a s) (Value.compound b t) = a == b
  eq_value _ _ = false

  unfoldable pub eq_parameter : ActionParameter R → ActionParameter R → Bool
  eq_parameter a b = a.key == b.key && eq_value a.value b.value

  unfoldable pub eq_action : Action R → Action R → Bool
  eq_action a b =
      a.action_id == b.action_id
      && a.action_type == b.action_type
      && eq_blocking a.blocking_type b.blocking_type
      && eq_option eq_text a.action_descriptor b.action_descriptor
      && eq_list eq_parameter a.action_parameters b.action_parameters
      && eq_option eq_bool a.retriable b.retriable

  unfoldable pub eq_position : NodePosition R → NodePosition R → Bool
  eq_position a b =
      fl.eq a.x b.x
      && fl.eq a.y b.y
      && a.map_id == b.map_id
      && eq_option fl.eq a.theta b.theta
      && eq_option fl.eq a.allowed_deviation_xy b.allowed_deviation_xy
      && eq_option fl.eq a.allowed_deviation_theta b.allowed_deviation_theta

  unfoldable pub eq_node : Node R → Node R → Bool
  eq_node a b =
      a.node_id == b.node_id
      && a.sequence_id == b.sequence_id
      && eq_bool a.released b.released
      && eq_option eq_text a.node_descriptor b.node_descriptor
      && eq_option eq_position a.node_position b.node_position
      && eq_list eq_action a.actions b.actions

  unfoldable pub eq_corridor : Corridor R → Corridor R → Bool
  eq_corridor a b =
      fl.eq a.left_width b.left_width
      && fl.eq a.right_width b.right_width
      && eq_option eq_text a.corridor_reference_point b.corridor_reference_point
      && eq_option eq_bool a.release_required b.release_required
      && eq_option eq_text a.release_loss_behavior b.release_loss_behavior

  unfoldable pub eq_edge : Edge R → Edge R → Bool
  eq_edge a b =
      a.edge_id == b.edge_id
      && a.sequence_id == b.sequence_id
      && eq_bool a.released b.released
      && eq_option eq_text a.edge_descriptor b.edge_descriptor
      && eq_option fl.eq a.maximum_speed b.maximum_speed
      && eq_option fl.eq a.maximum_mobile_robot_height b.maximum_mobile_robot_height
      && eq_option fl.eq a.minimum_load_handling_device_height b.minimum_load_handling_device_height
      && eq_option fl.eq a.orientation b.orientation
      && eq_option eq_orientation a.orientation_type b.orientation_type
      && eq_option eq_text a.direction b.direction
      && eq_option eq_bool a.reach_orientation_before_entering b.reach_orientation_before_entering
      && eq_option fl.eq a.max_rotation_speed b.max_rotation_speed
      && eq_option eq_value a.trajectory b.trajectory
      && eq_option fl.eq a.length b.length
      && eq_option eq_corridor a.corridor b.corridor
      && eq_list eq_action a.actions b.actions

  -- model_dump(include={"orderId", "orderUpdateId", "nodes", "edges"}) of both
  unfoldable pub eq_order : OrderMessage R → OrderMessage R → Bool
  eq_order a b =
      a.order_id == b.order_id
      && a.order_update_id == b.order_update_id
      && eq_list eq_node a.nodes b.nodes
      && eq_list eq_edge a.edges b.edges

  unfoldable pub order_content_equal : Option (OrderMessage R) → OrderMessage R → Bool
  order_content_equal none order = false
  order_content_equal (some snapshot) order = eq_order snapshot order
