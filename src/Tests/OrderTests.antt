-- ===== src/Tests/OrderTests.antt =====
-- Orders: runs, and the theorems at the sample robot.
use vda5050_sim.Prelude.{true, false, [], ◌∷◌, ◌≡◌, ◌≢◌, refl, arith, map, ap, Eq, string_eq}
use vda5050_sim.Floats.Thousandths.{ℤ, pos, thousandths, eq_self}
use vda5050_sim.Schemas.{BlockingType, ActionState, ActionStatus, OrderMessage}
use vda5050_sim.Catalog.{scopes_for, requires_capability}
use vda5050_sim.Robot.{
  Agv, Graph, report, is_idle, append_action_state, in_scope, capability_required, lacks_capability,
}
use vda5050_sim.Orders.{
  handle_order, dispatch_order, handle_update, handle_other, accept_order, take_over,
  register_actions, register_order_action, reject_order_action, unknown_maps, report_unknown_maps,
  map_enabled,
}
use vda5050_sim.Orders.Acceptance.{IsTracked, accept_order-IsTracked}
use vda5050_sim.Orders.Updates.{Extends, accept_update-Extends}
use vda5050_sim.Orders.Verdicts.{Outcome, handle_order-Outcome}
use vda5050_sim.Orders.Answers.{Answer, handle_order-Answer}
use vda5050_sim.Orders.Redelivery.{handle_order_twice}
use vda5050_sim.Tests.Samples.{action, robot, short_order, order, node, at_point}

unfoldable pub ordering : Unit {0}
unfolding handle_order dispatch_order handle_update handle_other accept_order take_over
    register_actions register_order_action reject_order_action append_action_state report
    unknown_maps report_unknown_maps map_enabled in_scope capability_required lacks_capability
    scopes_for requires_capability is_idle robot
ordering = tt

abbrev pub busy_robot : Agv ℤ
busy_robot = handle_order short_order robot

abbrev other_order : OrderMessage ℤ
other_order = order "o2" 0 (node "n0" 0 true (at_point (pos 0) (pos 0)) [] ∷ []) []

-- The unknown type is refused, the two capabilities wait.
statuses :
    map (λ (st : ActionState). st.action_status) busy_robot.action_states
    ≡ ActionStatus.waiting ∷ ActionStatus.failed ∷ ActionStatus.waiting ∷ []
unfolding ordering
statuses = refl

handle_order-Outcome_example : Outcome short_order robot busy_robot
handle_order-Outcome_example = handle_order-Outcome short_order robot

accept_order-IsTracked_example :
    IsTracked short_order false robot (accept_order short_order false robot)
unfolding robot
accept_order-IsTracked_example = accept_order-IsTracked short_order false robot tt

other_id : other_order.order_id ≢ busy_robot.order_id
unfolding ordering
other_id = ground (arith, Eq.beq_iff string_eq "o2" "o1")

handle_order-Answer_example :
    Answer other_order busy_robot.pending_errors busy_robot (handle_order other_order busy_robot)
unfolding ordering
handle_order-Answer_example = handle_order-Answer other_order busy_robot refl

some_id : short_order.order_id ≢ ""
some_id = ground (arith, Eq.beq_iff string_eq "o1" "")

changed : busy_robot.graph ≢ robot.graph
unfolding ordering
changed e = absurd (some_id (ap (λ (g : Graph ℤ). g.order_id) e))

handle_order_twice_example :
    handle_order short_order (handle_order short_order robot) ≡ handle_order short_order robot
unfolding ordering
handle_order_twice_example = handle_order_twice eq_self short_order robot refl some_id changed

abbrev update : OrderMessage ℤ
update = record short_order {
  order_update_id = 4;
  nodes =
      node "n1" 2 true (at_point (pos 1000) (pos 0))
        (action "a1" "pick" BlockingType.none ∷ action "a4" "pick" BlockingType.none ∷ [])
      ∷ [];
}

accept_update-Extends_example : Extends update busy_robot (accept_order update true busy_robot)
accept_update-Extends_example = accept_update-Extends update busy_robot
