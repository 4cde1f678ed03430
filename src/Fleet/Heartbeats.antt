-- ===== src/Fleet/Heartbeats.antt =====
-- fleet.py: rounds of the connection loop of a robot that is awake and keeps its connection.
use vda5050_sim.Prelude.{
  if_ind, ℕ, suc, String, string_eq, Bool, true, false, ◌≡◌, ◌≢◌, refl, ap, ◌∙◌, Option, some, Run,
  done, ◌>>=◌, after, lookup, lookup-insert,
}
use vda5050_sim.Floats.{Float}
use vda5050_sim.Schemas.{ConnectionState, online, offline, hibernating, connection_broken}
use vda5050_sim.Robot.{Agv}
use vda5050_sim.Faults.{should_drop_connection}
use vda5050_sim.Messages.{Message, Build, build_connection_message, connection_message}
use vda5050_sim.Messages.Counting.{counted, next_header_id-eq}
use vda5050_sim.Fleet.Runtime.{
  RobotRuntime, Task, Phase, starting, broken, beating, dropped, send, publish_message,
  force_connection_state, is_online,
}
use vda5050_sim.Fleet.Loops.{connection_round, connection_step, heartbeat, goes_on}
use vda5050_sim.Fleet.Told.{last_told}
use vda5050_sim.Fleet.Keeps.{has_task}
use vda5050_sim.Fleet.Online.{Agrees, IsAnnounced}

-- A heartbeat of an awake robot that keeps its connection.
abbrev next_phase : Phase → Phase
next_phase starting = broken
next_phase _ = beating false

abbrev next_state : Phase → ConnectionState
next_state starting = connection_broken
next_state _ = online

abbrev next_online : Phase → Bool → Bool
next_online broken b = true
next_online dropped b = true
next_online _ b = b

-- Two such rounds.
settles :
    (p : Phase) (b : Bool) (c : Option ConnectionState)
    → Agrees p b c
    → (next_online (next_phase p) (next_online p b) ≡ true) × (next_state (next_phase p) ≡ online)
settles starting b c h = (refl, refl)
settles broken b c h = (refl, refl)
settles (beating was) b c h = (h.0, refl)
settles dropped b c h = (refl, refl)

offline_forced : (c : ConnectionState) → c ≢ online → is_online c ≡ false
offline_forced online h = absurd (h refl)
offline_forced offline h = refl
offline_forced hibernating h = refl
offline_forced connection_broken h = refl

module _ {R : Type 0} where
  -- The runtime that has published the connection state `c`.
  unfoldable pub spoken : String → ConnectionState → ℕ → RobotRuntime R → RobotRuntime R
  unfolding publish_message connection_message counted
  spoken now c n rt =
      let agv = counted "connection" n rt.agv in
      publish_message (Message.connection (connection_message now c (suc n) agv))
        (record rt { agv = agv })

module _ {R : Type 0} ⦃fl : Float R⦄ (str : R → String) (now : String) where
  pub send-spoken :
      (c : ConnectionState) (rt : RobotRuntime R) (n : ℕ)
      → lookup "connection" rt.agv.header_ids ≡ some n
      → send str now (Build.connection c) rt ≡ done (spoken now c n rt)
  unfolding send build_connection_message spoken
  send-spoken c rt n e = rw (next_header_id-eq "connection" rt.agv n e) refl

  -- A robot that hears, and whose connection is not about to drop.
  pub record IsQuiet (draw : R) (agv : Agv R) (n : ℕ) : Type 0 where
    pub awake : agv.hibernating ≡ false
    pub kept : should_drop_connection draw agv ≡ false
    pub counter : lookup "connection" agv.header_ids ≡ some n

  step-spoken :
      (draw : R) (rt : RobotRuntime R) (n : ℕ) (p : Phase)
      → IsQuiet draw rt.agv n
      → connection_step str now draw rt p
        ≡ done
            (record (spoken now (next_state p) n (record rt { online = next_online p rt.online })) {
              phase = next_phase p;
            })
  unfolding connection_step heartbeat
  step-spoken draw rt n starting q = rw (send-spoken connection_broken rt n q.counter) refl
  step-spoken draw rt n broken q =
      rw (send-spoken online (record rt { online = true }) n q.counter) refl
  step-spoken draw rt n dropped q =
      rw (send-spoken online (record rt { online = true }) n q.counter) refl
  step-spoken draw rt n (beating was) q =
      let beat = record (spoken now online n rt) { phase = beating false } in
      let P = λ (r : Run (RobotRuntime R)). r ≡ done beat in
      let said : (send str now (Build.connection online) rt >>= goes_on (beating false))
          ≡ done beat =
        rw (send-spoken online rt n q.counter) refl in
      if_ind P rt.agv.hibernating (λ h. absurd (cc (h, q.awake)))
        (λ _.
          if_ind P was (λ _. said)
            (λ _.
              if_ind P (should_drop_connection draw rt.agv) (λ h. absurd (cc (h, q.kept)))
                (λ _. said)))

  -- The runtime behind such a round.
  abbrev beaten : RobotRuntime R → ℕ → RobotRuntime R
  beaten rt n =
      record (spoken now (next_state rt.phase) n
        (record rt { online = next_online rt.phase rt.online })) { phase = next_phase rt.phase }

  connection_round-beaten :
      (draw : R) (rt : RobotRuntime R) (n : ℕ)
      → IsQuiet draw rt.agv n
      → connection_round str now draw rt ≡ beaten rt n
  unfolding connection_round
  connection_round-beaten draw rt n q = rw (step-spoken draw rt n rt.phase q) refl

  spoken-IsQuiet :
      (draw : R) (c : ConnectionState) (rt : RobotRuntime R) (n : ℕ)
      → rt.agv.hibernating ≡ false
      → should_drop_connection draw rt.agv ≡ false
      → IsQuiet draw (spoken now c n rt).agv (suc n)
  unfolding spoken should_drop_connection
  spoken-IsQuiet draw c rt n awake kept = record {
    awake = awake;
    kept = kept;
    counter = lookup-insert "connection" "connection" (suc n) rt.agv.header_ids;
  }

  -- An awake robot whose connection does not drop is back online, and has said so, after two rounds
  -- of its connection loop, in whatever phase that loop was.
  pub connection_round_twice :
      (first second : R) (rt : RobotRuntime R) (n : ℕ)
      → IsAnnounced rt
      → has_task Task.connection rt ≡ true
      → IsQuiet first rt.agv n
      → should_drop_connection second rt.agv ≡ false
      → let t = connection_round str now second (connection_round str now first rt) in
        (t.online ≡ true) × (last_told t.calls ≡ some online) × (has_task Task.connection t ≡ true)
  unfolding spoken
  connection_round_twice first second rt n announced running q kept =
      let t = beaten rt n in
      let again =
        spoken-IsQuiet second (next_state rt.phase)
          (record rt { online = next_online rt.phase rt.online }) n q.awake kept in
      let now_settled = settles rt.phase rt.online (last_told rt.calls) (announced running) in
      rw (connection_round-beaten first rt n q, connection_round-beaten second t (suc n) again)
        ((now_settled.0, ap some now_settled.1, running))

  -- A debug request that forces another state than ONLINE on a robot that is awake and between two
  -- heartbeats, and the heartbeat behind it, at which the connection does not drop: that heartbeat
  -- says ONLINE, but `online` stays false.
  pub force_connection_state_stale :
      (draw : R) (c : ConnectionState) (rt : RobotRuntime R) (n : ℕ)
      → rt.phase ≡ beating false
      → c ≢ online
      → IsQuiet draw rt.agv n
      → let t = connection_round str now draw (after (force_connection_state str now c rt)) in
        (t.online ≡ false) × (last_told t.calls ≡ some online)
  unfolding force_connection_state spoken
  force_connection_state_stale draw c rt n phase other q =
      let u = record rt { online = is_online c } in
      rw
        (
          send-spoken c u n q.counter,
          connection_round-beaten draw (spoken now c n u) (suc n)
              (spoken-IsQuiet draw c u n q.awake q.kept),
        )
        ((
          ap (λ (p : Phase). next_online p (is_online c)) phase ∙ offline_forced c other,
          ap (λ (p : Phase). some (next_state p)) phase,
        ))
