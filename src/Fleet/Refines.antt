-- ===== src/Fleet/Refines.antt =====
-- fleet.py: the robot in its runtime, over its whole life.
use vda5050_sim.Prelude.{String, Bool, ◌≡◌, sym, arith, subst, Option, none, some, done, after, ℕ}
use vda5050_sim.Floats.{Float}
use vda5050_sim.Settings.{Settings}
use vda5050_sim.Robot.{RobotConfig, Defaults, Agv, init}
use vda5050_sim.Orders.{handle_order}
use vda5050_sim.Actions.{handle_instant_actions}
use vda5050_sim.Zones.{handle_zone_set, handle_responses}
use vda5050_sim.Messages.{Build}
use vda5050_sim.Runtime.Sound.{IsSound}
use vda5050_sim.Runtime.Steps.{
  Reachable, more, noted, ordered, instructed, zoned, answered, charged, provoked,
  Reachable-IsSound,
}
use vda5050_sim.Transport.{Validators, handle_valid}
use vda5050_sim.Fleet.Runtime.{
  RobotRuntime, Task, init_runtime, start, send, subscribe_channel, on_order, on_instant_actions,
  on_zone_set, on_responses,
}
use vda5050_sim.Fleet.Loops.{
  connection_round, connection_step, visualization_round, start_state_loop,
}
use vda5050_sim.Fleet.Lives.{
  Lives, send-Lives, ending-Lives, connection_step-Lives, stop-Lives, movement_round-Lives,
  state_round-Lives,
}
use vda5050_sim.Fleet.Rounds.{Round, Runs, started, then}

module _ {R B : Type 0} ⦃fl : Float R⦄ (str : R → String) (v : Validators R B) (cfg : RobotConfig R)
    (d : Defaults R) where
  -- A handler's payload, valid or not.
  received-Lives :
      {M : Type 0} (o : Option M) (f : M → Agv R → Agv R) (rt : RobotRuntime R)
      → ((m : M) → Reachable cfg d (f m rt.agv))
      → Lives str cfg d rt
      → Lives str cfg d (after (handle_valid o (λ m t. done (record t { agv = f m t.agv })) rt))
  received-Lives none f rt steps h = h
  received-Lives (some m) f rt steps h = steps m

  Round-Lives :
      (rt next : RobotRuntime R) → Round str v rt next → Lives str cfg d rt → Lives str cfg d next
  unfolding connection_round visualization_round start_state_loop on_order on_instant_actions
      on_zone_set on_responses
  Round-Lives rt _ (Round.moved now clock draws) h =
      movement_round-Lives str cfg d now clock draws rt h
  Round-Lives rt _ (Round.connected now draw) h =
      ending-Lives str cfg d Task.connection (connection_step str now draw rt rt.phase)
        (connection_step-Lives str cfg d now draw rt rt.phase h)
  Round-Lives rt _ Round.readied h = more h (noted rt.agv.factsheet_requested (some Bool.false))
  Round-Lives rt _ (Round.reported now) h = state_round-Lives str cfg d now rt h
  Round-Lives rt _ (Round.shown now) h =
      ending-Lives str cfg d Task.visualization
        (send str now (Build.visualization rt.last_state_header_id) rt)
        (send-Lives str cfg d now (Build.visualization rt.last_state_header_id) rt h)
  Round-Lives rt _ (Round.ordered payload) h =
      received-Lives (v.order payload) (λ m. handle_order m) rt (λ m. more h (ordered m)) h
  Round-Lives rt _ (Round.instructed stamp payload) h =
      received-Lives (v.instant_actions payload) (λ m. handle_instant_actions stamp m.actions) rt
        (λ m. more h (instructed stamp m.actions)) h
  Round-Lives rt _ (Round.zoned payload) h =
      received-Lives (v.zone_set payload) (λ m. handle_zone_set m.zone_set) rt
        (λ m. more h (zoned m.zone_set)) h
  Round-Lives rt _ (Round.answered payload) h =
      received-Lives (v.responses payload) (λ m. handle_responses m.responses) rt
        (λ m. more h (answered m.responses)) h
  Round-Lives rt _ (Round.charged percent) h = more h (charged percent)
  Round-Lives rt _ (Round.provoked type) h = more h (provoked type)
  Round-Lives rt _ (Round.stopped now) h = stop-Lives str cfg d now rt h

  agv-start : (rt : RobotRuntime R) → (start rt).agv ≡ rt.agv
  unfolding start subscribe_channel
  agv-start rt = ground arith

  -- Whatever happens to the runtime of a robot, rounds of its loops in any order, payloads for its
  -- handlers, valid or not, debug requests and the end, the robot in it is in a state that
  -- messages, ticks, faults, reports and debug requests lead to, and so no action of its order is
  -- tracked twice and no map has two enabled versions.
  pub Runs-Reachable :
      (transport : ℕ) (settings : Settings R) (rt : RobotRuntime R)
      → Runs str v cfg d transport settings rt
      → Reachable cfg d rt.agv × IsSound rt.agv
  unfolding init_runtime
  Runs-Reachable transport settings rt r =
      let h = lives rt r in (h, Reachable-IsSound cfg d rt.agv h)
    where
      lives : (t : RobotRuntime R) → Runs str v cfg d transport settings t → Lives str cfg d t
      lives _ started =
          subst (Reachable cfg d) (sym (agv-start (init_runtime (init cfg d) transport settings)))
            Reachable.start
      lives _ (then before round) = Round-Lives _ _ round (lives _ before)
