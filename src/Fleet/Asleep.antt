-- ===== src/Fleet/Asleep.antt =====
-- fleet.py: the connection loop and the state loop while the robot hibernates.
use vda5050_sim.Prelude.{
  ℕ, String, string_eq, true, false, ◌≡◌, refl, sym, ap, ◌∙◌, subst, some, List, [], ◌∷◌, Run, done,
  ◌>>=◌, lookup, if_ind,
}
use vda5050_sim.Floats.{Float}
use vda5050_sim.Schemas.{hibernating}
use vda5050_sim.Messages.{Build}
use vda5050_sim.Fleet.Runtime.{RobotRuntime, Call, Task, Phase, beating, send}
use vda5050_sim.Fleet.Loops.{
  ending, goes_on, heartbeat, connection_step, connection_round, state_round,
}
use vda5050_sim.Fleet.Told.{last_told}
use vda5050_sim.Fleet.Heartbeats.{spoken, send-spoken}

-- Rounds of the two loops, each with the time and its random number.
pub data Beat (R : Type 0) : Type 0 where
  connection : (now : String) → (draw : R) → Beat R
  state : (now : String) → Beat R

module _ {R : Type 0} ⦃fl : Float R⦄ (str : R → String) where
  abbrev pub beat : Beat R → RobotRuntime R → RobotRuntime R
  beat (Beat.connection now draw) rt = connection_round str now draw rt
  beat (Beat.state now) rt = state_round str now rt

  abbrev pub beats : List (Beat R) → RobotRuntime R → RobotRuntime R
  beats [] rt = rt
  beats (b ∷ bs) rt = beats bs (beat b rt)

  step_asleep :
      (now : String) (draw : R) (rt : RobotRuntime R)
      → rt.agv.hibernating ≡ true
      → connection_step str now draw rt (beating true) ≡ done (record rt { phase = beating true })
  unfolding connection_step heartbeat
  step_asleep now draw rt asleep =
      let P = λ (r : Run (RobotRuntime R)). r ≡ done (record rt { phase = beating true }) in
      if_ind P rt.agv.hibernating (λ _. refl) (λ h. absurd (cc (h, asleep)))

  step_falls_asleep :
      (now : String) (draw : R) (rt : RobotRuntime R) (n : ℕ)
      → rt.agv.hibernating ≡ true
      → lookup "connection" rt.agv.header_ids ≡ some n
      → connection_step str now draw rt (beating false)
        ≡ done (record (spoken now hibernating n rt) { phase = beating true })
  unfolding connection_step heartbeat
  step_falls_asleep now draw rt n asleep e =
      let t = record (spoken now hibernating n rt) { phase = beating true } in
      let said : (send str now (Build.connection hibernating) rt >>= goes_on (beating true))
          ≡ done t =
        rw (send-spoken str now hibernating rt n e) refl in
      if_ind (λ (r : Run (RobotRuntime R)). r ≡ done t) rt.agv.hibernating (λ _. said)
        (λ h. absurd (cc (h, asleep)))

  beat_asleep :
      (b : Beat R) (rt : RobotRuntime R)
      → rt.agv.hibernating ≡ true
      → rt.phase ≡ beating true
      → beat b rt ≡ rt
  unfolding connection_round state_round
  beat_asleep (Beat.connection now draw) rt asleep phase =
      ap (λ p. ending Task.connection (connection_step str now draw rt p)) phase
      ∙ ap (ending Task.connection) (step_asleep now draw rt asleep)
      ∙ ap (λ (p : Phase). record rt { phase = p }) (sym phase)
  beat_asleep (Beat.state now) rt asleep phase =
      if_ind (λ t. t ≡ rt) rt.agv.hibernating (λ _. refl) (λ h. absurd (cc (h, asleep)))

  beats_asleep :
      (bs : List (Beat R)) (rt : RobotRuntime R)
      → rt.agv.hibernating ≡ true
      → rt.phase ≡ beating true
      → beats bs rt ≡ rt
  beats_asleep [] rt asleep phase = refl
  beats_asleep (b ∷ bs) rt asleep phase =
      ap (beats bs) (beat_asleep b rt asleep phase) ∙ beats_asleep bs rt asleep phase

  -- The first heartbeat of a robot that has begun to hibernate publishes one message, HIBERNATING.
  -- From then on, any rounds of the connection loop and the state loop change nothing and publish
  -- nothing, as long as nothing else wakes the robot.
  pub heartbeat_asleep :
      (now : String) (draw : R) (bs : List (Beat R)) (rt : RobotRuntime R) (n : ℕ)
      → rt.agv.hibernating ≡ true
      → rt.phase ≡ beating false
      → lookup "connection" rt.agv.header_ids ≡ some n
      → let t = connection_round str now draw rt in
        (beats bs t ≡ t)
        × (last_told t.calls ≡ some hibernating)
        × ((c : Call R) × (t.calls ≡ c ∷ rt.calls))
  unfolding connection_round spoken
  heartbeat_asleep now draw bs rt n asleep phase e =
      let t = record (spoken now hibernating n rt) { phase = beating true } in
      let falls : connection_round str now draw rt ≡ t =
        ap (λ p. ending Task.connection (connection_step str now draw rt p)) phase
        ∙ ap (ending Task.connection) (step_falls_asleep now draw rt n asleep e) in
      subst
        (λ (u : RobotRuntime R).
          (beats bs u ≡ u)
          × (last_told u.calls ≡ some hibernating)
          × ((c : Call R) × (u.calls ≡ c ∷ rt.calls)))
        (sym falls) (beats_asleep bs t asleep refl, refl, (_, refl))
