-- ===== src/Tests/RuntimeTests.antt =====
-- A robot's life: an order, a tick and a cancelOrder.
use vda5050_sim.Prelude.{[], ◌∷◌, after}
use vda5050_sim.Floats.Thousandths.{ℤ, pos, thousandths}
use vda5050_sim.Schemas.{BlockingType}
use vda5050_sim.Robot.{Agv, init}
use vda5050_sim.Orders.{handle_order}
use vda5050_sim.Actions.{handle_instant_actions}
use vda5050_sim.Tick.{tick}
use vda5050_sim.Runtime.Sound.{IsSound}
use vda5050_sim.Runtime.Steps.{
  Reachable, start, more, ordered, instructed, ticked, Reachable-IsSound,
}
use vda5050_sim.Tests.Samples.{config, defaults, short_order, clock, action}

-- After an order, a tick of half a second and a cancelOrder.
abbrev late : Agv ℤ
late =
    handle_instant_actions "t" (action "c1" "cancelOrder" BlockingType.none ∷ [])
      (after (tick clock (pos 500) (handle_order short_order (init config defaults))))

gets_there : Reachable config defaults late
gets_there =
    more (more (more start (ordered short_order)) (ticked clock (pos 500)))
      (instructed "t" (action "c1" "cancelOrder" BlockingType.none ∷ []))

Reachable-IsSound_example : IsSound late
Reachable-IsSound_example = Reachable-IsSound config defaults late gets_there
