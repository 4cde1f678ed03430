-- ===== src/Fleet/Rounds.antt =====
-- fleet.py: what happens to a robot's runtime, and the states that it reaches.
use vda5050_sim.Prelude.{String, after, ℕ}
use vda5050_sim.Floats.{Float}
use vda5050_sim.Settings.{Settings}
use vda5050_sim.Robot.{RobotConfig, Defaults, init}
use vda5050_sim.Zones.{Clock}
use vda5050_sim.Faults.{Draws, set_battery, trigger_fault}
use vda5050_sim.Runtime.Steps.{kept_or}
use vda5050_sim.Transport.{Validators, run_handler}
use vda5050_sim.Fleet.Runtime.{
  RobotRuntime, init_runtime, start, stop, on_order, on_instant_actions, on_zone_set, on_responses,
}
use vda5050_sim.Fleet.Loops.{
  movement_round, connection_round, state_round, visualization_round, start_state_loop,
}

module _ {R B : Type 0} ⦃fl : Float R⦄ (str : R → String) (v : Validators R B) where
  -- A round of one of the loops, a payload for one of the four handlers, valid or not, a debug route
  -- for the battery or for faults, or the end.
  pub data Round : RobotRuntime R → RobotRuntime R → Type 0 where
    moved :
        {rt : RobotRuntime R} (now : String) (clock : Clock) (draws : Draws R)
        → Round rt (movement_round str now clock draws rt)
    connected :
        {rt : RobotRuntime R} (now : String) (draw : R)
        → Round rt (connection_round str now draw rt)
    readied : {rt : RobotRuntime R} → Round rt (start_state_loop rt)
    reported : {rt : RobotRuntime R} (now : String) → Round rt (state_round str now rt)
    shown : {rt : RobotRuntime R} (now : String) → Round rt (visualization_round str now rt)
    ordered :
        {rt : RobotRuntime R} (payload : B) → Round rt (after (run_handler v on_order payload rt))
    instructed :
        {rt : RobotRuntime R} (stamp : String) (payload : B)
        → Round rt (after (run_handler v (on_instant_actions stamp) payload rt))
    zoned :
        {rt : RobotRuntime R} (payload : B)
        → Round rt (after (run_handler v on_zone_set payload rt))
    answered :
        {rt : RobotRuntime R} (payload : B)
        → Round rt (after (run_handler v on_responses payload rt))
    charged :
        {rt : RobotRuntime R} (percent : R)
        → Round rt (record rt { agv = set_battery percent rt.agv })
    provoked :
        {rt : RobotRuntime R} (type : String)
        → Round rt (record rt { agv = kept_or rt.agv (trigger_fault type rt.agv) })
    stopped : {rt : RobotRuntime R} (now : String) → Round rt (stop str now rt)

  -- The states of the runtime of a robot that `Fleet.start` has started.
  pub data Runs (cfg : RobotConfig R) (d : Defaults R) (transport : ℕ) (settings : Settings R)
      : RobotRuntime R → Type 0 where
    started : Runs cfg d transport settings (start (init_runtime (init cfg d) transport settings))
    then :
        {rt next : RobotRuntime R}
        → Runs cfg d transport settings rt
        → Round rt next
        → Runs cfg d transport settings next
