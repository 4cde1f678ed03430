-- ===== src/Tests/MessageTests.antt =====
-- Messages and factsheets of the sample robots.
use vda5050_sim.Prelude.{
  String, string_eq, true, ◌≡◌, refl, none, some, List, [], ◌∷◌, length, after, lower,
}
use vda5050_sim.Floats.Thousandths.{ℤ, pos, thousandths}
use vda5050_sim.Schemas.{StateMessage, online, ConnectionMessage}
use vda5050_sim.Robot.{Agv, report, setup, init}
use vda5050_sim.Tick.{tick, awake_tick, progress, update_charging, active_tick, traverse}
use vda5050_sim.Actions.{advance_all_pending, advance_refs}
use vda5050_sim.Zones.{
  check_lease_expiry, update_zone_actions, exit_zones, enter_zones, action_zones,
  zone_objects_containing,
}
use vda5050_sim.Movement.{current_node, find_node_by_seq}
use vda5050_sim.Specs.{
  robot_specs, spec_of, spot, get_manufacturer, build_supported_actions, build_factsheet,
}
use vda5050_sim.Specs.Declared.{declares, lacks_capability_declared}
use vda5050_sim.Fleet.{RobotEntry, robot_config}
use vda5050_sim.Fleet.Loaded.{Loads, load_fleet_config-Loads}
use vda5050_sim.Fleet.Speeds.{speed-declared}
use vda5050_sim.Messages.{
  Build, Message, build_all, build_state_message, next_header_id, build_connection_message,
  connection_message,
}
use vda5050_sim.Messages.Headers.{ids, IsConsecutive, HasCounters, build_all-IsConsecutive}
use vda5050_sim.Messages.Reports.{Reports, tick-Reports}
use vda5050_sim.Messages.Identity.{build-Identity}
use vda5050_sim.Tests.Samples.{robot, config, defaults, clock}
use vda5050_sim.Tests.BatteryTests.{thousandths-BatteryLaws}
use vda5050_sim.Tests.OrderTests.{ordering}

abbrev str : ℤ → String
str x = "0.0"

abbrev calls : List Build
calls = Build.state ∷ Build.connection online ∷ Build.state ∷ Build.factsheet ∷ []

robot-HasCounters : HasCounters str "t" robot
unfolding robot
robot-HasCounters Build.state = (0, refl)
robot-HasCounters (Build.visualization n) = (0, refl)
robot-HasCounters (Build.connection c) = (0, refl)
robot-HasCounters Build.factsheet = (0, refl)

build_all-IsConsecutive_example :
    (length (build_all str "t" calls robot).0 ≡ length calls)
    × IsConsecutive 0 (ids "state" (build_all str "t" calls robot).0)
unfolding robot
build_all-IsConsecutive_example =
    build_all-IsConsecutive str "t" calls robot "state" 0 (refl, refl) robot-HasCounters refl

-- A robot with an error to report, and the two state messages behind a tick.
abbrev refused : Agv ℤ
refused = report "unknownMapError" "no such map" robot

tick-Reports_example :
    let t = after (tick clock (pos 500) refused) in
    let u = (build_state_message "t" t).1 in
    let v = (build_state_message "u" u).1 in
    ((m : StateMessage ℤ) × ((build_state_message "t" t).0 ≡ some m) × Reports t 0 m u)
    × ((m : StateMessage ℤ) × ((build_state_message "u" u).0 ≡ some m)
        × (m.errors ≡ [])
        × Reports u 1 m v)
unfolding ordering tick awake_tick progress update_charging active_tick advance_all_pending
    advance_refs check_lease_expiry traverse current_node update_zone_actions find_node_by_seq
    exit_zones enter_zones action_zones zone_objects_containing
tick-Reports_example =
    tick-Reports thousandths-BatteryLaws clock (pos 500) "t" "u" refused 0 refl refl (refl, refl)
      refl

abbrev hello : ConnectionMessage
hello = record {
  header_id = 1;
  timestamp = "t";
  version = "3.0.0";
  manufacturer = "BostonDynamics";
  serial_number = "r1";
  connection_state = online;
}

unfoldable spot_robot : Agv ℤ
unfolding init setup
spot_robot = init (record config { model = "spot"; manufacturer = "BostonDynamics" }) defaults

build-Identity_example :
    (hello.manufacturer ≡ spot_robot.manufacturer)
    × (hello.serial_number ≡ spot_robot.serial_number)
unfolding spot_robot lower spec_of robot_specs get_manufacturer build_connection_message
    connection_message next_header_id
build-Identity_example =
    build-Identity str "t" (Build.connection online) spot_robot (Message.connection hello) refl refl

lacks_capability_declared_example :
    declares "pick" (build_supported_actions robot.cfg.supported_actions) ≡ true
unfolding ordering
lacks_capability_declared_example = lacks_capability_declared robot "pick" refl

abbrev spot_entry : RobotEntry ℤ
spot_entry = record {
  id = some "s1";
  model = some "spot";
  manufacturer = none;
  supported_actions = none;
  max_speed = none;
  angular_speed = none;
  initial_battery = none;
  battery_drain_percent_per_meter = none;
  battery_charge_percent_per_s = none;
  initial_x = none;
  initial_y = none;
  initial_theta = none;
  protocol_version = none;
  fault_profile = none;
}

speed-declared_example :
    (setup (robot_config "s1" "spot" spot_entry) defaults).speed
    ≡ (build_factsheet str "spot" "s1" 1 "t" none).physical_parameters.maximum_speed
unfolding robot_specs lower
speed-declared_example =
    speed-declared str defaults "s1" "spot" spot_entry spot 1 "t" none refl refl refl refl

-- The second entry has no id.
load_fleet_config-Loads_example : Loads (spot_entry ∷ record spot_entry { id = none } ∷ [])
load_fleet_config-Loads_example =
    load_fleet_config-Loads (spot_entry ∷ record spot_entry { id = none } ∷ [])
