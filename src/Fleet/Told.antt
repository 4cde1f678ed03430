-- ===== src/Fleet/Told.antt =====
-- fleet.py: what `_publish` tells of the connection.
use vda5050_sim.Prelude.{
  String, string_eq, ◌≡◌, refl, ap, Option, none, some, List, [], ◌∷◌, arith, Run, done, raised,
}
use vda5050_sim.Floats.{Float}
use vda5050_sim.Schemas.{ConnectionState, ConnectionMessage}
use vda5050_sim.Robot.{Agv}
use vda5050_sim.Messages.{
  Message, Build, build, labelled, next_header_id, connection_message, build_connection_message,
  build_state_message, build_visualization_message, build_factsheet_message,
}
use vda5050_sim.Fleet.Runtime.{RobotRuntime, Call, publish_message, publish_built, send}

-- What a call of a builder has to say.
abbrev pub said : Build → Option ConnectionState
said (Build.connection c) = some c
said _ = none

abbrev pub first_told : Option ConnectionState → Option ConnectionState → Option ConnectionState
first_told none rest = rest
first_told (some c) rest = some c

module _ {R : Type 0} where
  abbrev pub says : Message R → Option ConnectionState
  says (Message.connection m) = some m.connection_state
  says _ = none

  -- The state of a connection message, `none` for other calls.
  abbrev pub told : Call R → Option ConnectionState
  told (Call.published m s t message retain version prefix) = says message
  told _ = none

  -- The last connection state that was published.
  abbrev pub last_told : List (Call R) → Option ConnectionState
  last_told [] = none
  last_told (c ∷ cs) = first_told (told c) (last_told cs)

  labelled_ind :
      {M : Type 0} (label : M → Message R) (c : Option ConnectionState)
      (P : Option (Message R) × Agv R → Type 0) (o : Option M × Agv R)
      → ((m : M) → o.0 ≡ some m → says (label m) ≡ c)
      → ((s : Agv R) → P (none, s))
      → ((m : Message R) (s : Agv R) → says m ≡ c → P (some m, s))
      → P (labelled label o)
  labelled_ind label c P (none, s) right nothing something = nothing s
  labelled_ind label c P (some m, s) right nothing something = something (label m) s (right m refl)

  connection_state-build :
      (now : String) (c : ConnectionState) (s : Agv R) (m : ConnectionMessage)
      → (build_connection_message now c s).0 ≡ some m
      → m.connection_state ≡ c
  unfolding build_connection_message next_header_id connection_message
  connection_state-build now c s m e = ground arith

module _ {R : Type 0} ⦃fl : Float R⦄ (str : R → String) (now : String) where
  pub build_ind :
      (P : Option (Message R) × Agv R → Type 0) (b : Build) (s : Agv R)
      → ((t : Agv R) → P (none, t))
      → ((m : Message R) (t : Agv R) → says m ≡ said b → P (some m, t))
      → P (build str now b s)
  build_ind P Build.state s nothing something =
      labelled_ind Message.state none P (build_state_message now s) (λ m e. refl) nothing something
  build_ind P (Build.visualization n) s nothing something =
      labelled_ind Message.visualization none P (build_visualization_message now n s) (λ m e. refl)
        nothing something
  build_ind P (Build.connection c) s nothing something =
      labelled_ind Message.connection (some c) P (build_connection_message now c s)
        (λ m e. ap some (connection_state-build now c s m e)) nothing something
  build_ind P Build.factsheet s nothing something =
      labelled_ind Message.factsheet none P (build_factsheet_message str now s) (λ m e. refl)
        nothing something

  -- A property of what publishing a message leads to.
  pub send_ind :
      (P : Run (RobotRuntime R) → Type 0) (b : Build) (rt : RobotRuntime R)
      → ((t : Agv R) → P (raised (record rt { agv = t })))
      → ((m : Message R) (t : Agv R)
          → says m ≡ said b
          → P (done (publish_message m (record rt { agv = t }))))
      → P (send str now b rt)
  unfolding send
  send_ind P b rt nothing something =
      build_ind (λ o. P (publish_built o rt)) b rt.agv nothing something
