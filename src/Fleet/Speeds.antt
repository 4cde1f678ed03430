-- ===== src/Fleet/Speeds.antt =====
-- fleet.py, agv.py and robot_specs.py: the speed that a robot drives at and the one that it declares.
use vda5050_sim.Prelude.{
  ℕ, String, string_eq, ◌≡◌, refl, ◌∙◌, sym, false, Option, none, some, List, lookup, lower,
}
use vda5050_sim.Floats.{Float, nought}
use vda5050_sim.Schemas.{MobileRobotActionDef}
use vda5050_sim.Robot.{Defaults, setup}
use vda5050_sim.Specs.{RobotSpec, robot_specs, spec_of, build_factsheet}
use vda5050_sim.Fleet.Loading.{RobotEntry, robot_config}

module _ {R : Type 0} ⦃fl : Float R⦄ where
  speed-robot_config :
      (d : Defaults R) (id model : String) (entry : RobotEntry R) (spec : RobotSpec R)
      → entry.max_speed ≡ none
      → lookup model robot_specs ≡ some spec
      → fl.eq spec.maximum_speed nought ≡ false
      → (setup (robot_config id model entry) d).speed ≡ spec.maximum_speed
  unfolding setup robot_config
  speed-robot_config d id model entry spec open_speed found moves =
      rw (open_speed, found, moves) refl

  speed-build_factsheet :
      (str : R → String) (model id : String) (n : ℕ) (now : String)
      (actions : Option (List MobileRobotActionDef)) (spec : RobotSpec R)
      → lower model ≡ model
      → lookup model robot_specs ≡ some spec
      → (build_factsheet str model id n now actions).physical_parameters.maximum_speed
        ≡ spec.maximum_speed
  unfolding build_factsheet spec_of
  speed-build_factsheet str model id n now actions spec lowered found = rw (lowered, found) refl

  -- A robot of a model that the table has, written as there, and whose entry in the fleet's file gives no
  -- speed, drives at the speed that its factsheet declares as its maximum, unless that is zero.
  pub speed-declared :
      (str : R → String) (d : Defaults R) (id model : String) (entry : RobotEntry R)
      (spec : RobotSpec R) (n : ℕ) (now : String) (actions : Option (List MobileRobotActionDef))
      → entry.max_speed ≡ none
      → lower model ≡ model
      → lookup model robot_specs ≡ some spec
      → fl.eq spec.maximum_speed nought ≡ false
      → (setup (robot_config id model entry) d).speed
        ≡ (build_factsheet str model id n now actions).physical_parameters.maximum_speed
  speed-declared str d id model entry spec n now actions open_speed lowered found moves =
      speed-robot_config d id model entry spec open_speed found moves
      ∙ sym (speed-build_factsheet str model id n now actions spec lowered found)
