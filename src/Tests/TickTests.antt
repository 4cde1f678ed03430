-- ===== src/Tests/TickTests.antt =====
-- Tick: the theorems at the sample robot on its way along an order.
use vda5050_sim.Prelude.{List, length, ◌+◌, ◌≤◌, true, none, [], ◌∷◌, ◌≡◌, refl, after}
use vda5050_sim.Floats.Thousandths.{ℤ, pos, thousandths}
use vda5050_sim.Schemas.{Edge, Node, OrderMessage}
use vda5050_sim.Robot.{Agv}
use vda5050_sim.Orders.{handle_order}
use vda5050_sim.Zones.{
  check_access_gates, corridor_gate, node_gates, zone_gates, zone_objects_containing,
}
use vda5050_sim.Zones.Safety.{IsReleased, HasOpenZones, check_access_gates_open}
use vda5050_sim.Tick.{tick}
use vda5050_sim.Tick.Advances.{looks, advances, looks_end}
use vda5050_sim.Tick.Pose.{PoseRule, tick-PoseRule}
use vda5050_sim.Tests.Samples.{robot, short_order, clock, edge, node, at_point, order}

abbrev under_way : Agv ℤ
under_way = handle_order short_order robot

tick-PoseRule_example : PoseRule clock (pos 500) under_way (after (tick clock (pos 500) under_way))
tick-PoseRule_example = tick-PoseRule clock (pos 500) under_way

abbrev way : Edge ℤ
way = edge "e1" 1 true none []

abbrev goal : Node ℤ
goal = node "n1" 2 true (at_point (pos 1000) (pos 0)) []

check_access_gates_open_example :
    ((check_access_gates way goal robot).0 ≡ robot) × IsReleased robot way × HasOpenZones robot goal
unfolding check_access_gates corridor_gate node_gates zone_objects_containing zone_gates robot
check_access_gates_open_example = check_access_gates_open way goal robot refl

-- Two nodes joined by an edge, without actions.
abbrev bare_order : OrderMessage ℤ
bare_order = order "o2" 0 (node "n0" 0 true (at_point (pos 0) (pos 0)) [] ∷ goal ∷ []) (way ∷ [])

abbrev bare_robot : Agv ℤ
bare_robot = handle_order bare_order robot

abbrev dts : List ℤ
dts = pos 500 ∷ pos 500 ∷ pos 500 ∷ []

looks_end_example :
    advances dts bare_robot + length (looks dts bare_robot).nodes ≤ length bare_robot.nodes
looks_end_example = looks_end dts bare_robot
