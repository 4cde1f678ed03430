-- ===== src/Fleet/Lives.antt =====
-- fleet.py: the robot in its runtime.
use vda5050_sim.Prelude.{
  String, Bool, ◌≡◌, refl, sym, subst, Option, none, some, Run, done, raised, ◌>>=◌, after, if_ind,
  List, [], ◌∷◌, filter,
}
use vda5050_sim.Floats.{Float}
use vda5050_sim.Schemas.{ConnectionState, online, offline, hibernating, connection_broken}
use vda5050_sim.Robot.{RobotConfig, Defaults, Agv}
use vda5050_sim.Zones.{Clock}
use vda5050_sim.Tick.{tick}
use vda5050_sim.Faults.{Draws, maybe_inject_fault, should_drop_connection}
use vda5050_sim.Messages.{Message, Build, build}
use vda5050_sim.Runtime.Steps.{Reachable, more, ticked, faulted, reported, noted}
use vda5050_sim.Fleet.Runtime.{
  RobotRuntime, Task, Phase, same_task, Channel, starting, broken, beating, dropped, stop,
  do_shutdown, send, publish_message, publish_built, unsubscribe_all,
}
use vda5050_sim.Fleet.Loops.{
  ending, movement_round, finish_movement, connection_step, heartbeat, goes_on, set_requests,
  state_round, send_factsheet, send_state, send_built_state, ticked as after_tick,
}

module _ {R : Type 0} where
  agv-ending : (task : Task) (r : Run (RobotRuntime R)) → (ending task r).agv ≡ (after r).agv
  agv-ending task (done rt) = refl
  agv-ending task (raised rt) = refl

  agv-unsubscribe_all :
      (channels : List Channel) (rt : RobotRuntime R) → (unsubscribe_all channels rt).agv ≡ rt.agv
  agv-unsubscribe_all [] rt = refl
  agv-unsubscribe_all (channel ∷ channels) rt = agv-unsubscribe_all channels _

  agv-publish_built :
      (o : Option (Message R) × Agv R) (rt : RobotRuntime R)
      → (after (publish_built o rt)).agv ≡ o.1
  unfolding publish_message
  agv-publish_built (none, agv) rt = refl
  agv-publish_built (some message, agv) rt = refl

module _ {R : Type 0} ⦃fl : Float R⦄ (str : R → String) (cfg : RobotConfig R) (d : Defaults R) where
  abbrev pub Lives : RobotRuntime R → Type 0
  Lives rt = Reachable cfg d rt.agv

  pub send-Lives :
      (now : String) (b : Build) (rt : RobotRuntime R)
      → Lives rt
      → Lives (after (send str now b rt))
  unfolding send
  send-Lives now b rt h =
      subst (Reachable cfg d) (sym (agv-publish_built (build str now b rt.agv) rt))
        (more h (reported str now b))

  goes_on-Lives :
      (p : Phase) (r : Run (RobotRuntime R)) → Lives (after r) → Lives (after (r >>= goes_on p))
  goes_on-Lives p (done rt) h = h
  goes_on-Lives p (raised rt) h = h

  announces-Lives :
      (now : String) (c : ConnectionState) (p : Phase) (rt : RobotRuntime R)
      → Lives rt
      → Lives (after (send str now (Build.connection c) rt >>= goes_on p))
  announces-Lives now c p rt h =
      goes_on-Lives p (send str now (Build.connection c) rt)
        (send-Lives now (Build.connection c) rt h)

  pub connection_step-Lives :
      (now : String) (draw : R) (rt : RobotRuntime R) (p : Phase)
      → Lives rt
      → Lives (after (connection_step str now draw rt p))
  unfolding connection_step heartbeat
  connection_step-Lives now draw rt starting h = announces-Lives now connection_broken broken rt h
  connection_step-Lives now draw rt broken h =
      announces-Lives now online (beating Bool.false) (record rt { online = Bool.true }) h
  connection_step-Lives now draw rt dropped h =
      announces-Lives now online (beating Bool.false) (record rt { online = Bool.true }) h
  connection_step-Lives now draw rt (beating was) h =
      let P = λ (r : Run (RobotRuntime R)). Lives (after r) in
      if_ind P rt.agv.hibernating
        (λ _. if_ind P was (λ _. h) (λ _. announces-Lives now hibernating (beating Bool.true) rt h))
        (λ _.
          if_ind P was (λ _. announces-Lives now online (beating Bool.false) rt h)
            (λ _.
              if_ind P (should_drop_connection draw rt.agv)
                (λ _.
                  announces-Lives now connection_broken dropped (record rt { online = Bool.false })
                    h)
                (λ _. announces-Lives now online (beating Bool.false) rt h)))

  pub ending-Lives :
      (task : Task) (r : Run (RobotRuntime R)) → Lives (after r) → Lives (ending task r)
  ending-Lives task r h = subst (Reachable cfg d) (sym (agv-ending task r)) h

  do_shutdown-Lives :
      (now : String) (rt : RobotRuntime R) → Lives rt → Lives (do_shutdown str now rt)
  unfolding do_shutdown
  do_shutdown-Lives now rt h =
      let told = after (send str now (Build.connection offline) rt) in
      subst (Reachable cfg d)
        (sym (
          agv-unsubscribe_all told.subs
            (record told { tasks = filter (same_task Task.movement) told.tasks })))
        (send-Lives now (Build.connection offline) rt h)

  pub stop-Lives : (now : String) (rt : RobotRuntime R) → Lives rt → Lives (stop str now rt)
  unfolding stop
  stop-Lives now rt h =
      let told = after (send str now (Build.connection offline) rt) in
      subst (Reachable cfg d) (sym (agv-unsubscribe_all told.subs (record told { tasks = [] })))
        (send-Lives now (Build.connection offline) rt h)

  finish_movement-Lives :
      (now : String) (draws : Draws R) (rt : RobotRuntime R)
      → Lives rt
      → Lives (finish_movement str now draws rt)
  unfolding finish_movement
  finish_movement-Lives now draws rt h =
      let rt2 = record rt { agv = maybe_inject_fault draws rt.settings.tick_s rt.agv } in
      let here : Lives rt2 = more h (faulted draws rt.settings.tick_s) in
      if_ind Lives rt2.agv.shutdown_requested (λ _. do_shutdown-Lives now rt2 here) (λ _. here)

  pub movement_round-Lives :
      (now : String) (clock : Clock) (draws : Draws R) (rt : RobotRuntime R)
      → Lives rt
      → Lives (movement_round str now clock draws rt)
  unfolding movement_round
  movement_round-Lives now clock draws rt h =
      go (tick clock rt.settings.tick_s rt.agv) (more h (ticked clock rt.settings.tick_s))
    where
      go : (r : Run (Agv R)) → Reachable cfg d (after r) → Lives (after_tick str now draws rt r)
      go (raised agv) k = k
      go (done agv) k = finish_movement-Lives now draws (record rt { agv = agv }) k

  send_state-Lives :
      (now : String) (rt : RobotRuntime R) → Lives rt → Lives (after (send_state str now rt))
  unfolding send_state publish_message
  send_state-Lives now rt h =
      go (build str now Build.state rt.agv) (more h (reported str now Build.state))
    where
      go :
          (o : Option (Message R) × Agv R)
          → Reachable cfg d o.1
          → Lives (after (send_built_state o rt))
      go (none, agv) k = k
      go (some message, agv) k = more k (noted agv.factsheet_requested (some Bool.false))

  send_factsheet-Lives :
      (now : String) (rt : RobotRuntime R) → Lives rt → Lives (after (send_factsheet str now rt))
  unfolding send_factsheet
  send_factsheet-Lives now rt h =
      if_ind (λ (r : Run (RobotRuntime R)). Lives (after r)) rt.agv.factsheet_requested
        (λ _.
          send-Lives now Build.factsheet (set_requests Bool.false rt.agv.state_request_event rt)
            (more h (noted Bool.false rt.agv.state_request_event)))
        (λ _. h)

  pub state_round-Lives :
      (now : String) (rt : RobotRuntime R) → Lives rt → Lives (state_round str now rt)
  unfolding state_round
  state_round-Lives now rt h =
      if_ind Lives rt.agv.hibernating (λ _. h)
        (λ _.
          ending-Lives Task.state (send_factsheet str now rt >>= send_state str now)
            (go (send_factsheet str now rt) (send_factsheet-Lives now rt h)))
    where
      go : (r : Run (RobotRuntime R)) → Lives (after r) → Lives (after (r >>= send_state str now))
      go (done t) k = send_state-Lives now t k
      go (raised t) k = k
