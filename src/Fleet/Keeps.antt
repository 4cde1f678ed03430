-- ===== src/Fleet/Keeps.antt =====
-- fleet.py: the parts of a runtime that say whether the robot is online, in the rounds that do not tell.
use vda5050_sim.Prelude.{
  String, Bool, true, false, not, ◌≡◌, refl, ◌∙◌, arith, none, Run, done, raised, ◌>>=◌, after,
  if_ind, any, filter, List, [], ◌∷◌,
}
use vda5050_sim.Floats.{Float}
use vda5050_sim.Robot.{Agv}
use vda5050_sim.Messages.{Message, Build}
use vda5050_sim.Fleet.Runtime.{
  RobotRuntime, Task, Channel, same_task, send, publish_message, unsubscribe_all,
}
use vda5050_sim.Fleet.Loops.{
  ending, set_requests, send_factsheet, send_state, send_built_state, state_round,
  visualization_round,
}
use vda5050_sim.Fleet.Told.{says, said, last_told, send_ind, build_ind}

abbrev pub has_task : {R : Type 0} → Task → RobotRuntime R → Bool
has_task task rt = any (same_task task) rt.tasks

any-without :
    (t u : Task) (ts : List Task)
    → any (same_task t) (filter (λ w. not (same_task u w)) ts) ≡ true
    → any (same_task t) ts ≡ true
any-without t u [] h = h
any-without t u (w ∷ ts) h = ground (arith, h, any-without t u ts)

module _ {R : Type 0} where
  -- Nothing was told of the connection, and no task was started.
  pub record Keeps (rt t : RobotRuntime R) : Type 0 where
    pub phase : t.phase ≡ rt.phase
    pub online : t.online ≡ rt.online
    pub told : last_told t.calls ≡ last_told rt.calls
    pub runs : has_task Task.connection t ≡ true → has_task Task.connection rt ≡ true

  pub Keeps-refl : (rt : RobotRuntime R) → Keeps rt rt
  Keeps-refl rt = record { phase = refl; online = refl; told = refl; runs = λ h. h }

  pub Keeps-trans : (rt t u : RobotRuntime R) → Keeps rt t → Keeps t u → Keeps rt u
  Keeps-trans rt t u h k = record {
    phase = k.phase ∙ h.phase;
    online = k.online ∙ h.online;
    told = k.told ∙ h.told;
    runs = λ r. h.runs (k.runs r);
  }

  pub with_agv-Keeps : (rt : RobotRuntime R) (t : Agv R) → Keeps rt (record rt { agv = t })
  with_agv-Keeps rt t = record { phase = refl; online = refl; told = refl; runs = λ h. h }

  published-Keeps :
      (rt : RobotRuntime R) (m : Message R) → says m ≡ none → Keeps rt (publish_message m rt)
  unfolding publish_message
  published-Keeps rt m e = record { phase = refl; online = refl; told = rw e refl; runs = λ h. h }

  pub ending-Keeps :
      (rt : RobotRuntime R) (task : Task) (r : Run (RobotRuntime R))
      → Keeps rt (after r)
      → Keeps rt (ending task r)
  ending-Keeps rt task (done t) k = k
  ending-Keeps rt task (raised t) k = record {
    phase = k.phase;
    online = k.online;
    told = k.told;
    runs = λ h. k.runs (any-without Task.connection task t.tasks h);
  }

  pub tasks-unsubscribe_all :
      (channels : List Channel) (rt : RobotRuntime R)
      → (unsubscribe_all channels rt).tasks ≡ rt.tasks
  tasks-unsubscribe_all [] rt = refl
  tasks-unsubscribe_all (channel ∷ channels) rt = tasks-unsubscribe_all channels _

module _ {R : Type 0} ⦃fl : Float R⦄ (str : R → String) (now : String) where
  -- A message of another type.
  send-Keeps :
      (b : Build) (rt : RobotRuntime R) → said b ≡ none → Keeps rt (after (send str now b rt))
  send-Keeps b rt quiet =
      send_ind str now (λ r. Keeps rt (after r)) b rt (λ t. with_agv-Keeps rt t)
        (λ m t e.
          Keeps-trans rt (record rt { agv = t }) (publish_message m (record rt { agv = t }))
            (with_agv-Keeps rt t) (published-Keeps (record rt { agv = t }) m (e ∙ quiet)))

  pub visualization_round-Keeps : (rt : RobotRuntime R) → Keeps rt (visualization_round str now rt)
  unfolding visualization_round
  visualization_round-Keeps rt =
      ending-Keeps rt Task.visualization
        (send str now (Build.visualization rt.last_state_header_id) rt)
        (send-Keeps (Build.visualization rt.last_state_header_id) rt refl)

  send_state-Keeps : (rt : RobotRuntime R) → Keeps rt (after (send_state str now rt))
  unfolding send_state publish_message
  send_state-Keeps rt =
      build_ind str now (λ o. Keeps rt (after (send_built_state o rt))) Build.state rt.agv
        (λ t. with_agv-Keeps rt t)
        (λ m t e. record { phase = refl; online = refl; told = rw e refl; runs = λ h. h })

  send_factsheet-Keeps : (rt : RobotRuntime R) → Keeps rt (after (send_factsheet str now rt))
  unfolding send_factsheet
  send_factsheet-Keeps rt =
      if_ind (λ (r : Run (RobotRuntime R)). Keeps rt (after r)) rt.agv.factsheet_requested
        (λ _.
          let asked = set_requests false rt.agv.state_request_event rt in
          Keeps-trans rt asked (after (send str now Build.factsheet asked))
            (with_agv-Keeps rt asked.agv) (send-Keeps Build.factsheet asked refl))
        (λ _. Keeps-refl rt)

  pub state_round-Keeps : (rt : RobotRuntime R) → Keeps rt (state_round str now rt)
  unfolding state_round
  state_round-Keeps rt =
      if_ind (Keeps rt) rt.agv.hibernating (λ _. Keeps-refl rt)
        (λ _.
          ending-Keeps rt Task.state (send_factsheet str now rt >>= send_state str now)
            (go (send_factsheet str now rt) (send_factsheet-Keeps rt)))
    where
      go :
          (r : Run (RobotRuntime R))
          → Keeps rt (after r)
          → Keeps rt (after (r >>= send_state str now))
      go (done t) k = Keeps-trans rt t (after (send_state str now t)) k (send_state-Keeps t)
      go (raised t) k = k
