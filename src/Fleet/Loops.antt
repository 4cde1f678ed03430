-- ===== src/Fleet/Loops.antt =====
-- fleet.py: the loops of `RobotRuntime`, round by round. A round is what a loop does between two of its
-- sleeps. An exception that escapes from a round ends its task.
use vda5050_sim.Prelude.{
  String, Bool, true, false, not, Option, none, some, filter, if◌then◌else◌, Run, done, raised,
  ◌>>=◌,
}
use vda5050_sim.Floats.{Float}
use vda5050_sim.Schemas.{ConnectionState}
use vda5050_sim.Robot.{Agv}
use vda5050_sim.Zones.{Clock}
use vda5050_sim.Tick.{tick}
use vda5050_sim.Faults.{Draws, maybe_inject_fault, should_drop_connection}
use vda5050_sim.Messages.{Message, Build, build, header_id}
use vda5050_sim.Fleet.Runtime.{
  RobotRuntime, Task, Phase, starting, broken, beating, dropped, same_task, publish_message, send,
  do_shutdown,
}

module _ {R : Type 0} where
  -- The task ends.
  abbrev pub without : Task → RobotRuntime R → RobotRuntime R
  without task rt = record rt { tasks = filter (λ t. not (same_task task t)) rt.tasks }

  abbrev pub ending : Task → Run (RobotRuntime R) → RobotRuntime R
  ending task (done rt) = rt
  ending task (raised rt) = without task rt

  abbrev pub set_requests : Bool → Option Bool → RobotRuntime R → RobotRuntime R
  set_requests factsheet event rt = record rt {
    agv = record rt.agv {
      mode = record rt.agv.mode { factsheet_requested = factsheet; state_request_event = event };
    };
  }

  -- self.agv.state_request_event = asyncio.Event()
  unfoldable pub start_state_loop : RobotRuntime R → RobotRuntime R
  start_state_loop rt = set_requests rt.agv.factsheet_requested (some false) rt

  abbrev pub goes_on : Phase → RobotRuntime R → Run (RobotRuntime R)
  goes_on phase rt = done (record rt { phase = phase })

  abbrev pub send_built_state : Option (Message R) × Agv R → RobotRuntime R → Run (RobotRuntime R)
  send_built_state (none, agv) rt = raised (record rt { agv = agv })
  send_built_state (some message, agv) rt =
      let sent =
        publish_message message
          (record rt { agv = agv; last_state_header_id = header_id message }) in
      done (set_requests sent.agv.factsheet_requested (some false) sent)

module _ {R : Type 0} ⦃fl : Float R⦄ (str : R → String) (now : String) where
  -- After `tick`, the rest of a round of the movement loop, whose `return` ends the task.
  unfoldable pub finish_movement : Draws R → RobotRuntime R → RobotRuntime R
  unfolding maybe_inject_fault do_shutdown
  finish_movement draws rt =
      let rt2 = record rt { agv = maybe_inject_fault draws rt.settings.tick_s rt.agv } in
      if rt2.agv.shutdown_requested then without Task.movement (do_shutdown str now rt2) else rt2

  abbrev pub ticked : Draws R → RobotRuntime R → Run (Agv R) → RobotRuntime R
  ticked draws rt (raised agv) = without Task.movement (record rt { agv = agv })
  ticked draws rt (done agv) = finish_movement draws (record rt { agv = agv })

  unfoldable pub movement_round : Clock → Draws R → RobotRuntime R → RobotRuntime R
  unfolding tick finish_movement
  movement_round clock draws rt = ticked draws rt (tick clock rt.settings.tick_s rt.agv)

  -- Between two heartbeats. `draw` is the random number of `should_drop_connection`.
  unfoldable pub heartbeat : R → Bool → RobotRuntime R → Run (RobotRuntime R)
  unfolding send should_drop_connection
  heartbeat draw was_hibernating rt =
      if rt.agv.hibernating
      then if was_hibernating
        then goes_on (beating true) rt
        else send str now (Build.connection ConnectionState.hibernating) rt
          >>= goes_on (beating true)
      else if was_hibernating
      then send str now (Build.connection ConnectionState.online) rt >>= goes_on (beating false)
      else if should_drop_connection draw rt.agv
      then send str now (Build.connection ConnectionState.connection_broken)
          (record rt { online = false })
        >>= goes_on dropped
      else send str now (Build.connection ConnectionState.online) rt >>= goes_on (beating false)

  unfoldable pub connection_step : R → RobotRuntime R → Phase → Run (RobotRuntime R)
  unfolding send heartbeat
  connection_step draw rt starting =
      send str now (Build.connection ConnectionState.connection_broken) rt >>= goes_on broken
  connection_step draw rt broken =
      send str now (Build.connection ConnectionState.online) (record rt { online = true })
      >>= goes_on (beating false)
  connection_step draw rt (beating was_hibernating) = heartbeat draw was_hibernating rt
  connection_step draw rt dropped =
      send str now (Build.connection ConnectionState.online) (record rt { online = true })
      >>= goes_on (beating false)

  unfoldable pub connection_round : R → RobotRuntime R → RobotRuntime R
  unfolding connection_step
  connection_round draw rt = ending Task.connection (connection_step draw rt rt.phase)

  unfoldable pub send_factsheet : RobotRuntime R → Run (RobotRuntime R)
  unfolding send
  send_factsheet rt =
      if rt.agv.factsheet_requested
      then send str now Build.factsheet (set_requests false rt.agv.state_request_event rt)
      else done rt

  unfoldable pub send_state : RobotRuntime R → Run (RobotRuntime R)
  unfolding publish_message
  send_state rt = send_built_state (build str now Build.state rt.agv) rt

  unfoldable pub state_round : RobotRuntime R → RobotRuntime R
  unfolding send_factsheet send_state
  state_round rt =
      if rt.agv.hibernating then rt else ending Task.state (send_factsheet rt >>= send_state)

  unfoldable pub visualization_round : RobotRuntime R → RobotRuntime R
  unfolding send
  visualization_round rt =
      ending Task.visualization (send str now (Build.visualization rt.last_state_header_id) rt)
