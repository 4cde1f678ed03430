-- ===== src/Messages/Calls.antt =====
-- agv.py: the calls of the message builders, one after the other.
use vda5050_sim.Prelude.{ℕ, String, Option, none, some, List, [], ◌∷◌}
use vda5050_sim.Floats.{Float}
use vda5050_sim.Schemas.{
  ConnectionState, StateMessage, VisualizationMessage, ConnectionMessage, FactsheetMessage,
}
use vda5050_sim.Robot.{Agv}
use vda5050_sim.Messages.Builders.{
  build_state_message, build_visualization_message, build_connection_message,
  build_factsheet_message,
}

-- The calls of the builders.
pub data Build : Type 0 where
  state : Build
  visualization : ℕ → Build
  connection : ConnectionState → Build
  factsheet : Build

-- A message with the type under which it is published.
pub data Message (R : Type 0) : Type 0 where
  state : StateMessage R → Message R
  visualization : VisualizationMessage R → Message R
  connection : ConnectionMessage → Message R
  factsheet : FactsheetMessage R → Message R

abbrev pub kind : Build → String
kind Build.state = "state"
kind (Build.visualization n) = "visualization"
kind (Build.connection c) = "connection"
kind Build.factsheet = "factsheet"

abbrev pub message_type : {R : Type 0} → Message R → String
message_type (Message.state m) = "state"
message_type (Message.visualization m) = "visualization"
message_type (Message.connection m) = "connection"
message_type (Message.factsheet m) = "factsheet"

abbrev pub header_id : {R : Type 0} → Message R → ℕ
header_id (Message.state m) = m.header_id
header_id (Message.visualization m) = m.header_id
header_id (Message.connection m) = m.header_id
header_id (Message.factsheet m) = m.header_id

abbrev pub labelled :
    {R M : Type 0} → (M → Message R) → Option M × Agv R → Option (Message R) × Agv R
labelled label (none, s) = (none, s)
labelled label (some m, s) = (some (label m), s)

abbrev pub onto : {A : Type 0} → Option A → List A → List A
onto none as' = as'
onto (some a) as' = a ∷ as'

module _ {R : Type 0} ⦃fl : Float R⦄ (str : R → String) (now : String) where
  abbrev pub build : Build → Agv R → Option (Message R) × Agv R
  build Build.state s = labelled Message.state (build_state_message now s)
  build (Build.visualization n) s =
      labelled Message.visualization (build_visualization_message now n s)
  build (Build.connection c) s = labelled Message.connection (build_connection_message now c s)
  build Build.factsheet s = labelled Message.factsheet (build_factsheet_message str now s)

  -- The messages, and the robot after the last one.
  abbrev pub build_all : List Build → Agv R → List (Message R) × Agv R
  build_all [] s = ([], s)
  build_all (b ∷ bs) s =
      let first = build b s in let rest = build_all bs first.1 in (onto first.0 rest.0, rest.1)
