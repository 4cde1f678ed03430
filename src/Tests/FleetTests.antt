-- ===== src/Tests/FleetTests.antt =====
-- Fleets: the robots of a file, their runtimes, and what arrives for them.
use vda5050_sim.Prelude.{
  ℕ, nat_eq, String, string_eq, Bool, true, false, ◌≡◌, refl, none, some, List, [], ◌∷◌, All,
  contains, after, find, if◌then◌else◌,
}
use vda5050_sim.Floats.Thousandths.{ℤ, pos, thousandths}
use vda5050_sim.Settings.{Settings, default_settings}
use vda5050_sim.Robot.{RobotConfig, init}
use vda5050_sim.Runtime.Sound.{IsSound}
use vda5050_sim.Runtime.Steps.{Reachable}
use vda5050_sim.Transport.{Validators, run_handler}
use vda5050_sim.Fleet.{
  RobotRuntime, connection_round, on_order, stop, init_fleet, init_runtime, start, start_fleet,
  stop_fleet, started_runtime, find_runtime, defaults_of,
}
use vda5050_sim.Fleet.Rounds.{Round, Runs, started, then, ordered, stopped}
use vda5050_sim.Fleet.Refines.{Runs-Reachable}
use vda5050_sim.Fleet.Announced.{Runs-IsAnnounced}
use vda5050_sim.Fleet.Online.{IsAnnounced}
use vda5050_sim.Fleet.Members.{IsDistinct, map_option, robot_is, find_runtime-start_fleet}
use vda5050_sim.Fleet.Closing.{stop_fleet-start_fleet}
use vda5050_sim.Tests.Samples.{config, short_order}

abbrev pub str : ℤ → String
str x = "0.0"

unfoldable pub settings : Settings ℤ
unfolding default_settings
settings = default_settings

abbrev second : RobotConfig ℤ
second = record config { id = "r2"; model = "spot"; manufacturer = "BostonDynamics" }

abbrev configs : List (RobotConfig ℤ)
configs = config ∷ second ∷ []

-- Both robots share one transport.
abbrev shared : RobotConfig ℤ → ℕ
shared cfg = 0

find_runtime-start_fleet_example :
    find_runtime "MiR" "r1" (start_fleet shared configs (init_fleet settings))
    ≡ map_option (started_runtime shared settings) (find (robot_is "MiR" "r1") configs)
find_runtime-start_fleet_example =
    find_runtime-start_fleet shared configs settings "MiR" "r1" (refl, (refl, tt))

stop_fleet-start_fleet_example :
    let fleet = stop_fleet str "t" (start_fleet shared configs (init_fleet settings)) in
    All (λ cfg. contains (shared cfg) fleet.closed ≡ true) configs
    × IsDistinct fleet.closed
    × All (λ (e : String × RobotRuntime ℤ). e.1.tasks ≡ []) fleet.runtimes
stop_fleet-start_fleet_example = stop_fleet-start_fleet shared str "t" configs settings

-- A payload that is an order, or not valid.
abbrev pub validators : Validators ℤ Bool
validators = record {
  order = λ b. if b then some short_order else none;
  instant_actions = λ _. none;
  zone_set = λ _. none;
  responses = λ _. none;
}

abbrev pub new : RobotRuntime ℤ
new = start (init_runtime (init config (defaults_of settings)) 0 settings)

-- An order, a payload that is not valid, and the end.
abbrev ended : RobotRuntime ℤ
ended = stop str "t" (
    after
      (run_handler validators on_order false (after (run_handler validators on_order true new))))

lived : Runs str validators config (defaults_of settings) 0 settings ended
lived = (then) ((then) ((then) started (ordered true)) (ordered false)) (stopped "t")

Runs-Reachable_example : Reachable config (defaults_of settings) ended.agv × IsSound ended.agv
Runs-Reachable_example =
    Runs-Reachable str validators config (defaults_of settings) 0 settings ended lived

-- After two rounds of the connection loop, with an order in between.
abbrev connected : RobotRuntime ℤ
connected =
    connection_round str "u" (pos 0)
      (after (run_handler validators on_order true (connection_round str "t" (pos 0) new)))

lived_on : Runs str validators config (defaults_of settings) 0 settings connected
lived_on =
    (then) ((then) ((then) started (Round.connected "t" (pos 0))) (ordered true))
      (Round.connected "u" (pos 0))

Runs-IsAnnounced_example : IsAnnounced connected
Runs-IsAnnounced_example =
    Runs-IsAnnounced str validators config (defaults_of settings) 0 settings connected lived_on
