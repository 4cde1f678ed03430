-- ===== src/Fleet/Announced.antt =====
-- fleet.py: `online` and the connection messages, over the life of a runtime.
use vda5050_sim.Prelude.{
  ◌==◌, string_eq, String, false, ◌≡◌, refl, ap, ◌∙◌, Option, none, some, Run, done, raised, after,
  if_ind, any, filter, List, [], ◌∷◌, ℕ,
}
use vda5050_sim.Floats.{Float}
use vda5050_sim.Settings.{Settings}
use vda5050_sim.Robot.{RobotConfig, Defaults, Agv, init}
use vda5050_sim.Orders.{handle_order}
use vda5050_sim.Actions.{handle_instant_actions}
use vda5050_sim.Zones.{Clock, handle_zone_set, handle_responses}
use vda5050_sim.Tick.{tick}
use vda5050_sim.Faults.{Draws, maybe_inject_fault}
use vda5050_sim.Messages.{Build}
use vda5050_sim.Schemas.{ConnectionState}
use vda5050_sim.Transport.{Validators, handle_valid}
use vda5050_sim.Fleet.Runtime.{
  instant_actions, order, zone_set, RobotRuntime, Task, same_task, init_runtime, start, stop,
  do_shutdown, send, subscribe_channel, on_order, on_instant_actions, on_zone_set, on_responses,
}
use vda5050_sim.Fleet.Loops.{
  without, movement_round, finish_movement, start_state_loop, ticked as after_tick,
}
use vda5050_sim.Fleet.Told.{last_told}
use vda5050_sim.Fleet.Keeps.{
  has_task, Keeps, Keeps-refl, with_agv-Keeps, ending-Keeps, tasks-unsubscribe_all,
  visualization_round-Keeps, state_round-Keeps,
}
use vda5050_sim.Fleet.Online.{Agrees, IsAnnounced, connection_round-IsAnnounced}
use vda5050_sim.Fleet.Rounds.{Round, Runs, started, then}

only_movement :
    (ts : List Task) → any (same_task Task.connection) (filter (same_task Task.movement) ts) ≡ false
only_movement [] = refl
only_movement (Task.movement ∷ ts) = only_movement ts
only_movement (Task.connection ∷ ts) = only_movement ts
only_movement (Task.state ∷ ts) = only_movement ts
only_movement (Task.visualization ∷ ts) = only_movement ts

module _ {R : Type 0} where
  Keeps-IsAnnounced : (rt t : RobotRuntime R) → Keeps rt t → IsAnnounced rt → IsAnnounced t
  Keeps-IsAnnounced rt t k h running = rw (k.phase, k.online, k.told) (h (k.runs running))

  -- Without its task.
  silent : (rt : RobotRuntime R) → has_task Task.connection rt ≡ false → IsAnnounced rt
  silent rt gone running = absurd (cc (gone, running))

  without-IsAnnounced :
      (task : Task) (rt : RobotRuntime R) → IsAnnounced rt → IsAnnounced (without task rt)
  without-IsAnnounced task rt h =
      Keeps-IsAnnounced rt (without task rt) (ending-Keeps rt task (raised rt) (Keeps-refl rt)) h

  received-Keeps :
      {M : Type 0} (o : Option M) (f : M → Agv R → Agv R) (rt : RobotRuntime R)
      → Keeps rt (after (handle_valid o (λ m t. done (record t { agv = f m t.agv })) rt))
  received-Keeps none f rt = with_agv-Keeps rt rt.agv
  received-Keeps (some m) f rt = with_agv-Keeps rt (f m rt.agv)

module _ {R : Type 0} ⦃fl : Float R⦄ (str : R → String) (now : String) where
  do_shutdown_silent :
      (rt : RobotRuntime R) → has_task Task.connection (do_shutdown str now rt) ≡ false
  unfolding do_shutdown
  do_shutdown_silent rt =
      let told = after (send str now (Build.connection ConnectionState.offline) rt) in
      ap (λ ts. any (same_task Task.connection) ts)
        (tasks-unsubscribe_all told.subs
          (record told { tasks = filter (same_task Task.movement) told.tasks }))
      ∙ only_movement told.tasks

  stop_silent : (rt : RobotRuntime R) → has_task Task.connection (stop str now rt) ≡ false
  unfolding stop
  stop_silent rt =
      let told = after (send str now (Build.connection ConnectionState.offline) rt) in
      ap (λ ts. any (same_task Task.connection) ts)
        (tasks-unsubscribe_all told.subs (record told { tasks = [] }))

  finish_movement-IsAnnounced :
      (draws : Draws R) (rt : RobotRuntime R)
      → IsAnnounced rt
      → IsAnnounced (finish_movement str now draws rt)
  unfolding finish_movement
  finish_movement-IsAnnounced draws rt h =
      let rt2 = record rt { agv = maybe_inject_fault draws rt.settings.tick_s rt.agv } in
      if_ind IsAnnounced rt2.agv.shutdown_requested
        (λ _.
          let gone = do_shutdown str now rt2 in
          without-IsAnnounced Task.movement gone (silent gone (do_shutdown_silent rt2)))
        (λ _. Keeps-IsAnnounced rt rt2 (with_agv-Keeps rt rt2.agv) h)

  movement_round-IsAnnounced :
      (clock : Clock) (draws : Draws R) (rt : RobotRuntime R)
      → IsAnnounced rt
      → IsAnnounced (movement_round str now clock draws rt)
  unfolding movement_round
  movement_round-IsAnnounced clock draws rt h = go (tick clock rt.settings.tick_s rt.agv)
    where
      go : (r : Run (Agv R)) → IsAnnounced (after_tick str now draws rt r)
      go (raised agv) =
          without-IsAnnounced Task.movement (record rt { agv = agv })
            (Keeps-IsAnnounced rt (record rt { agv = agv }) (with_agv-Keeps rt agv) h)
      go (done agv) =
          finish_movement-IsAnnounced draws (record rt { agv = agv })
            (Keeps-IsAnnounced rt (record rt { agv = agv }) (with_agv-Keeps rt agv) h)

module _ {R B : Type 0} ⦃fl : Float R⦄ (str : R → String) (v : Validators R B) where
  Round-IsAnnounced :
      (rt next : RobotRuntime R) → Round str v rt next → IsAnnounced rt → IsAnnounced next
  unfolding start_state_loop on_order on_instant_actions on_zone_set on_responses
  Round-IsAnnounced rt _ (Round.moved now clock draws) h =
      movement_round-IsAnnounced str now clock draws rt h
  Round-IsAnnounced rt _ (Round.connected now draw) h =
      connection_round-IsAnnounced str now draw rt h
  Round-IsAnnounced rt _ Round.readied h = h
  Round-IsAnnounced rt _ (Round.reported now) h =
      Keeps-IsAnnounced rt _ (state_round-Keeps str now rt) h
  Round-IsAnnounced rt _ (Round.shown now) h =
      Keeps-IsAnnounced rt _ (visualization_round-Keeps str now rt) h
  Round-IsAnnounced rt _ (Round.ordered payload) h =
      Keeps-IsAnnounced rt _ (received-Keeps (v.order payload) handle_order rt) h
  Round-IsAnnounced rt _ (Round.instructed stamp payload) h =
      Keeps-IsAnnounced rt _
        (received-Keeps (v.instant_actions payload) (λ m. handle_instant_actions stamp m.actions)
          rt)
        h
  Round-IsAnnounced rt _ (Round.zoned payload) h =
      Keeps-IsAnnounced rt _
        (received-Keeps (v.zone_set payload) (λ m. handle_zone_set m.zone_set) rt) h
  Round-IsAnnounced rt _ (Round.answered payload) h =
      Keeps-IsAnnounced rt _
        (received-Keeps (v.responses payload) (λ m. handle_responses m.responses) rt) h
  Round-IsAnnounced rt _ (Round.charged percent) h = h
  Round-IsAnnounced rt _ (Round.provoked type) h = h
  Round-IsAnnounced rt _ (Round.stopped now) h = silent (stop str now rt) (stop_silent str now rt)

  start-IsAnnounced :
      (agv : Agv R) (transport : ℕ) (settings : Settings R)
      → IsAnnounced (start (init_runtime agv transport settings))
  unfolding start init_runtime subscribe_channel
  start-IsAnnounced agv transport settings running =
      let rt = init_runtime agv transport settings in
      let subscribed = subscribe_channel instant_actions (subscribe_channel order rt) in
      if_ind (λ (t : RobotRuntime R). Agrees t.phase t.online (last_told t.calls))
        (rt.protocol_major == "3") {x = subscribe_channel zone_set subscribed} {y = subscribed}
        (λ _. (refl, refl)) (λ _. (refl, refl))

  -- As long as the connection loop of a robot runs, and no debug request forces a connection state,
  -- `online` agrees with the connection message that was published last: before the first one and
  -- after CONNECTION_BROKEN it is false, after ONLINE and after HIBERNATING it is true. The loop
  -- takes a robot for hibernating just when the last message was HIBERNATING.
  pub Runs-IsAnnounced :
      (cfg : RobotConfig R) (d : Defaults R) (transport : ℕ) (settings : Settings R)
      (rt : RobotRuntime R)
      → Runs str v cfg d transport settings rt
      → IsAnnounced rt
  Runs-IsAnnounced cfg d transport settings _ started =
      start-IsAnnounced (init cfg d) transport settings
  Runs-IsAnnounced cfg d transport settings _ (then before round) =
      Round-IsAnnounced _ _ round (Runs-IsAnnounced cfg d transport settings _ before)
