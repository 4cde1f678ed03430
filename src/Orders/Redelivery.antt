-- ===== src/Orders/Redelivery.antt =====
-- agv.py: the same order message delivered twice, as MQTT's QoS 1 allows.
use vda5050_sim.Prelude.{
  nat_eq, string_eq, Eq, Bool, true, false, ◌≡◌, ◌≢◌, inl, inr, refl, ◌∙◌, none, some, List, [],
  ◌∷◌, arith, ==_refl,
}
use vda5050_sim.Floats.{Float}
use vda5050_sim.Schemas.{Value, Node, OrderMessage}
use vda5050_sim.Robot.{Agv}
use vda5050_sim.Orders.{
  map_enabled, unknown_maps, order_content_equal, handle_update, dispatch_order, handle_order,
}
use vda5050_sim.Orders.Content.{
  eq_bool, eq_option, eq_list, eq_text, eq_blocking, eq_orientation, eq_value, eq_parameter,
  eq_action, eq_position, eq_node, eq_corridor, eq_edge, eq_order,
}
use vda5050_sim.Orders.Acceptance.{Accepts}
use vda5050_sim.Orders.Verdicts.{handle_order_known, handle_order-Outcome, Outcome}

-- A comparison that finds every value equal to itself.
abbrev Reflexive {ℓ} : {A : Type ℓ} → (A → A → Bool) → Type ℓ
Reflexive {A} eq = (a : A) → eq a a ≡ true

eq_option-Reflexive {ℓ} : {A : Type ℓ} (eq : A → A → Bool) → Reflexive eq → Reflexive (eq_option eq)
eq_option-Reflexive eq r none = refl
eq_option-Reflexive eq r (some a) = r a

eq_list-Reflexive {ℓ} : {A : Type ℓ} (eq : A → A → Bool) → Reflexive eq → Reflexive (eq_list eq)
eq_list-Reflexive eq r [] = refl
eq_list-Reflexive eq r (a ∷ as') = rw (r a, eq_list-Reflexive eq r as')

eq_bool-Reflexive : Reflexive eq_bool
eq_bool-Reflexive a = ground arith

eq_text-Reflexive : Reflexive eq_text
eq_text-Reflexive a = ==_refl a

eq_blocking-Reflexive : Reflexive eq_blocking
eq_blocking-Reflexive a = ground arith

eq_orientation-Reflexive : Reflexive eq_orientation
eq_orientation-Reflexive a = ground arith

module _ {R : Type 0} ⦃fl : Float R⦄ (self : (a : R) → fl.eq a a ≡ true) where
  eq_value-Reflexive : Reflexive (eq_value {R = R})
  unfolding eq_value
  eq_value-Reflexive (Value.text a) = ==_refl a
  eq_value-Reflexive (Value.number a t) = self a
  eq_value-Reflexive (Value.flag a) = eq_bool-Reflexive a
  eq_value-Reflexive Value.null = refl
  eq_value-Reflexive (Value.compound a b) = ==_refl a

  eq_parameter-Reflexive : Reflexive (eq_parameter {R = R})
  unfolding eq_parameter
  eq_parameter-Reflexive a = rw (==_refl a.key, eq_value-Reflexive a.value)

  eq_action-Reflexive : Reflexive (eq_action {R = R})
  unfolding eq_action
  eq_action-Reflexive a = simp (
    ==_refl,
    eq_blocking-Reflexive a.blocking_type,
    eq_option-Reflexive eq_text eq_text-Reflexive a.action_descriptor,
    eq_list-Reflexive eq_parameter eq_parameter-Reflexive a.action_parameters,
    eq_option-Reflexive eq_bool eq_bool-Reflexive a.retriable,
  )

  eq_position-Reflexive : Reflexive (eq_position {R = R})
  unfolding eq_position
  eq_position-Reflexive a = simp (
    ==_refl,
    self,
    eq_option-Reflexive fl.eq self a.theta,
    eq_option-Reflexive fl.eq self a.allowed_deviation_xy,
    eq_option-Reflexive fl.eq self a.allowed_deviation_theta,
  )

  eq_node-Reflexive : Reflexive (eq_node {R = R})
  unfolding eq_node
  eq_node-Reflexive a = simp (
    ==_refl,
    eq_bool-Reflexive a.released,
    eq_option-Reflexive eq_text eq_text-Reflexive a.node_descriptor,
    eq_option-Reflexive eq_position eq_position-Reflexive a.node_position,
    eq_list-Reflexive eq_action eq_action-Reflexive a.actions,
  )

  eq_corridor-Reflexive : Reflexive (eq_corridor {R = R})
  unfolding eq_corridor
  eq_corridor-Reflexive a = simp (
    self,
    eq_option-Reflexive eq_text eq_text-Reflexive a.corridor_reference_point,
    eq_option-Reflexive eq_bool eq_bool-Reflexive a.release_required,
    eq_option-Reflexive eq_text eq_text-Reflexive a.release_loss_behavior,
  )

  eq_edge-Reflexive : Reflexive (eq_edge {R = R})
  unfolding eq_edge
  eq_edge-Reflexive a = simp (
    ==_refl,
    eq_bool-Reflexive a.released,
    eq_option-Reflexive eq_text eq_text-Reflexive a.edge_descriptor,
    eq_option-Reflexive fl.eq self a.maximum_speed,
    eq_option-Reflexive fl.eq self a.maximum_mobile_robot_height,
    eq_option-Reflexive fl.eq self a.minimum_load_handling_device_height,
    eq_option-Reflexive fl.eq self a.orientation,
    eq_option-Reflexive eq_orientation eq_orientation-Reflexive a.orientation_type,
    eq_option-Reflexive eq_text eq_text-Reflexive a.direction,
    eq_option-Reflexive eq_bool eq_bool-Reflexive a.reach_orientation_before_entering,
    eq_option-Reflexive fl.eq self a.max_rotation_speed,
    eq_option-Reflexive eq_value eq_value-Reflexive a.trajectory,
    eq_option-Reflexive fl.eq self a.length,
    eq_option-Reflexive eq_corridor eq_corridor-Reflexive a.corridor,
    eq_list-Reflexive eq_action eq_action-Reflexive a.actions,
  )

  eq_order-Reflexive : Reflexive (eq_order {R = R})
  unfolding eq_order
  eq_order-Reflexive a = simp (
    ==_refl,
    eq_list-Reflexive eq_node eq_node-Reflexive a.nodes,
    eq_list-Reflexive eq_edge eq_edge-Reflexive a.edges,
  )

  unknown_maps-site :
      (s t : Agv R) (ns : List (Node R)) → t.site ≡ s.site → unknown_maps t ns ≡ unknown_maps s ns
  unfolding unknown_maps map_enabled
  unknown_maps-site s t [] e = refl
  unknown_maps-site s t (n ∷ ns) e = ground (arith, unknown_maps-site s t ns e)

  -- The robot has taken the order over.
  at_hand :
      (order : OrderMessage R) (t : Agv R)
      → t.hibernating ≡ false
      → unknown_maps t order.nodes ≡ []
      → order.order_id ≢ ""
      → Accepts order t
      → handle_order order t ≡ t
  unfolding dispatch_order handle_update order_content_equal
  at_hand order t awake known named a =
      handle_order_known order t awake known
      ∙ ground (
        arith,
        eq_order-Reflexive order,
        Eq.beq_iff string_eq t.order_id "",
        Eq.beq_iff string_eq order.order_id t.order_id,
        a.order_id,
        a.order_update_id,
        a.snapshot,
      )

  -- An order that was taken over is a duplicate when it comes again: handling it twice is handling
  -- it once. The order has an id, its maps are known, and every float equals itself, as all but NaN
  -- do.
  pub handle_order_twice :
      (order : OrderMessage R) (s : Agv R)
      → unknown_maps s order.nodes ≡ []
      → order.order_id ≢ ""
      → (handle_order order s).graph ≢ s.graph
      → handle_order order (handle_order order s) ≡ handle_order order s
  handle_order_twice order s known named changed = decided (handle_order-Outcome order s)
    where
      decided :
          Outcome order s (handle_order order s)
          → handle_order order (handle_order order s) ≡ handle_order order s
      decided (inl (same, _)) = absurd (changed same)
      decided (inr (a, u, w)) =
          at_hand order (handle_order order s) (u.hibernating ∙ w.listens)
            (unknown_maps-site s (handle_order order s) order.nodes u.site ∙ known) named a
