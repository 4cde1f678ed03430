-- ===== src/Fleet/Online.antt =====
-- fleet.py: `online` and the connection messages of the loops.
use vda5050_sim.Prelude.{
  String, Bool, true, false, ◌≡◌, refl, Option, none, some, arith, Run, done, ◌>>=◌, if_ind, any,
  ap, ◌∙◌, filter, not, List, [], ◌∷◌,
}
use vda5050_sim.Floats.{Float}
use vda5050_sim.Schemas.{ConnectionState, online, hibernating, connection_broken}
use vda5050_sim.Faults.{should_drop_connection}
use vda5050_sim.Messages.{Build}
use vda5050_sim.Fleet.Runtime.{
  RobotRuntime, Task, Phase, starting, broken, beating, dropped, send, publish_message, same_task,
}
use vda5050_sim.Fleet.Loops.{ending, without, connection_round, connection_step, heartbeat}
use vda5050_sim.Fleet.Keeps.{has_task}
use vda5050_sim.Fleet.Told.{last_told, send_ind}

abbrev heard : Bool → ConnectionState
heard true = hibernating
heard false = online

-- What `online` and the last connection message are in each phase of the connection loop.
abbrev pub Agrees : Phase → Bool → Option ConnectionState → Type 0
Agrees starting b c = (b ≡ false) × (c ≡ none)
Agrees broken b c = (b ≡ false) × (c ≡ some connection_broken)
Agrees (beating was) b c = (b ≡ true) × (c ≡ some (heard was))
Agrees dropped b c = (b ≡ false) × (c ≡ some connection_broken)

-- As long as the connection loop runs.
abbrev pub IsAnnounced : {R : Type 0} → RobotRuntime R → Type 0
IsAnnounced rt = has_task Task.connection rt ≡ true → Agrees rt.phase rt.online (last_told rt.calls)

any-without_self :
    (t : Task) (ts : List Task) → any (same_task t) (filter (λ u. not (same_task t u)) ts) ≡ false
any-without_self t [] = refl
any-without_self t (u ∷ ts) = ground (arith, any-without_self t ts)

module _ {R : Type 0} where
  pub ended : (rt : RobotRuntime R) → IsAnnounced (without Task.connection rt)
  ended rt h = absurd (ground (arith, h, any-without_self Task.connection rt.tasks))

module _ {R : Type 0} ⦃fl : Float R⦄ (str : R → String) (now : String) where
  -- A round that publishes one connection message and goes on in the phase `p`.
  announces :
      (c : ConnectionState) (p : Phase) (rt : RobotRuntime R)
      → (has_task Task.connection rt ≡ true → Agrees p rt.online (some c))
      → IsAnnounced (
          ending Task.connection
            (send str now (Build.connection c) rt >>= λ t. done (record t { phase = p })))
  unfolding publish_message
  announces c p rt h =
      send_ind str now
        (λ r. IsAnnounced (ending Task.connection (r >>= λ t. done (record t { phase = p }))))
        (Build.connection c) rt (λ t. ended (record rt { agv = t }))
        (λ m t e running. rw e (h running))

  heartbeat-IsAnnounced :
      (draw : R) (was : Bool) (rt : RobotRuntime R)
      → (has_task Task.connection rt ≡ true → Agrees (beating was) rt.online (last_told rt.calls))
      → IsAnnounced (ending Task.connection (heartbeat str now draw was rt))
  unfolding heartbeat
  heartbeat-IsAnnounced draw was rt h =
      let P = λ (r : Run (RobotRuntime R)). IsAnnounced (ending Task.connection r) in
      if_ind P rt.agv.hibernating
        (λ _.
          if_ind P was (λ w running. ((h running).0, (h running).1 ∙ ap (λ b. some (heard b)) w))
            (λ _. announces hibernating (beating true) rt (λ running. ((h running).0, refl))))
        (λ _.
          if_ind P was (λ _. announces online (beating false) rt (λ running. ((h running).0, refl)))
            (λ _.
              if_ind P (should_drop_connection draw rt.agv)
                (λ _.
                  announces connection_broken dropped (record rt { online = false })
                    (λ running. (refl, refl)))
                (λ _. announces online (beating false) rt (λ running. ((h running).0, refl)))))

  step-IsAnnounced :
      (draw : R) (rt : RobotRuntime R) (p : Phase)
      → (has_task Task.connection rt ≡ true → Agrees p rt.online (last_told rt.calls))
      → IsAnnounced (ending Task.connection (connection_step str now draw rt p))
  unfolding connection_step
  step-IsAnnounced draw rt starting h =
      announces connection_broken broken rt (λ running. ((h running).0, refl))
  step-IsAnnounced draw rt broken h =
      announces online (beating false) (record rt { online = true }) (λ running. (refl, refl))
  step-IsAnnounced draw rt (beating was) h = heartbeat-IsAnnounced draw was rt h
  step-IsAnnounced draw rt dropped h =
      announces online (beating false) (record rt { online = true }) (λ running. (refl, refl))

  pub connection_round-IsAnnounced :
      (draw : R) (rt : RobotRuntime R)
      → IsAnnounced rt
      → IsAnnounced (connection_round str now draw rt)
  unfolding connection_round
  connection_round-IsAnnounced draw rt h = step-IsAnnounced draw rt rt.phase h
