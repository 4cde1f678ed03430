-- ===== src/Tests/ActionTests.antt =====
-- Actions, maps, cancelling and pausing: the theorems at the sample robot with an order.
use vda5050_sim.Prelude.{
  String, [], ◌∷◌, ◌≡◌, ◌≢◌, ◌⊎◌, refl, arith, after, Eq, string_eq, pair_eq, done,
}
use vda5050_sim.Floats.Thousandths.{ℤ, pos, thousandths}
use vda5050_sim.Schemas.{Action, ActionParameter, BlockingType, Value}
use vda5050_sim.Robot.{Agv}
use vda5050_sim.Maps.{map_state, apply_enable_map}
use vda5050_sim.Maps.Exclusive.{IsConsistent, maps_after, Enabled, apply_enable_map_lem}
use vda5050_sim.Actions.{advance_all_pending, apply_action_effect, handle_instant_action}
use vda5050_sim.Actions.Replies.{Answered}
use vda5050_sim.Actions.Answers.{IsIgnored, handle_instant_action-Answered}
use vda5050_sim.Actions.MapEffects.{apply_action_effect-IsConsistent}
use vda5050_sim.Actions.Transitions.{OrderAdvanced, advance_all_pending-OrderAdvanced}
use vda5050_sim.Tick.{tick}
use vda5050_sim.Tick.Cancel.{Cancelled, cancel_order-Cancelled}
use vda5050_sim.Tick.Frozen.{ticks}
use vda5050_sim.Tick.Paused.{Resumed, pause-Resumed}
use vda5050_sim.Tests.Samples.{robot, clock, action}
use vda5050_sim.Tests.OrderTests.{ordering, busy_robot}

abbrev instant : String → String → Action ℤ
instant id type = action id type BlockingType.none

abbrev text_param : String → String → ActionParameter ℤ
text_param key text = record { key = key; value = Value.text text }

abbrev enable_map : Action ℤ
enable_map = record (action "m1" "enableMap" BlockingType.none) {
  action_parameters = text_param "mapId" "hall" ∷ text_param "mapVersion" "2" ∷ [];
}

-- Two versions of a map, the first one enabled.
abbrev robot_with_maps : Agv ℤ
robot_with_maps = record robot {
  site = record robot.site {
    maps =
        (("hall", "1"), map_state ("hall", "1") "ENABLED")
        ∷ (("hall", "2"), map_state ("hall", "2") "DISABLED")
        ∷ [];
  };
}

consistent : IsConsistent robot_with_maps.maps
consistent = record { keyed = (refl, refl, (refl, refl, tt)); exclusive = (refl, (refl, tt)) }

handle_instant_action-Answered_example :
    (IsIgnored (instant "i1" "shutdown") busy_robot
      × (handle_instant_action "t" (instant "i1" "shutdown") busy_robot ≡ busy_robot))
    ⊎ Answered
        (instant "i1" "shutdown")
        busy_robot
        (handle_instant_action "t" (instant "i1" "shutdown") busy_robot)
handle_instant_action-Answered_example =
    handle_instant_action-Answered "t" (instant "i1" "shutdown") busy_robot

advance_all_pending-OrderAdvanced_example :
    OrderAdvanced busy_robot (after (advance_all_pending busy_robot))
advance_all_pending-OrderAdvanced_example = advance_all_pending-OrderAdvanced busy_robot

apply_action_effect-IsConsistent_example :
    IsConsistent (maps_after (apply_action_effect enable_map robot_with_maps))
apply_action_effect-IsConsistent_example =
    apply_action_effect-IsConsistent enable_map robot_with_maps consistent

apply_enable_map_lem_example :
    Enabled enable_map robot_with_maps (apply_enable_map enable_map robot_with_maps)
apply_enable_map_lem_example = apply_enable_map_lem enable_map robot_with_maps

has_order : busy_robot.order_id ≢ ""
unfolding ordering
has_order = ground (arith, Eq.beq_iff string_eq "o1" "")

cancel_order-Cancelled_example :
    (t : Agv ℤ) × (tick clock
        (pos 500)
        (handle_instant_action "t" (instant "c1" "cancelOrder") busy_robot)
      ≡ done t)
    × Cancelled (instant "c1" "cancelOrder") busy_robot t
unfolding ordering
cancel_order-Cancelled_example =
    cancel_order-Cancelled clock (pos 500) "t" (instant "c1" "cancelOrder") busy_robot refl refl
      has_order refl

pause-Resumed_example :
    (t : Agv ℤ) × (ticks clock
        (pos 500 ∷ pos 500 ∷ [])
        (handle_instant_action "t" (instant "p1" "startPause") busy_robot)
      ≡ done t)
    × Resumed
        (instant "p1" "startPause")
        (instant "p2" "stopPause")
        busy_robot
        (handle_instant_action "u" (instant "p2" "stopPause") t)
unfolding ordering
pause-Resumed_example =
    pause-Resumed clock (pos 500 ∷ pos 500 ∷ []) "t" "u" (instant "p1" "startPause")
      (instant "p2" "stopPause") busy_robot refl refl refl refl (refl, (refl, (refl, tt))) tt tt
