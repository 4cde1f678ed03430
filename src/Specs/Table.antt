-- ===== src/Specs/Table.antt =====
-- robot_specs.py: `ROBOT_SPECS`. Each entry has every key that the code reads.
use vda5050_sim.Prelude.{String, List, [], ◌∷◌, Dict}
use vda5050_sim.Floats.{Float}

pub record RobotSpec (R : Type 0) : Type 0 where
  pub manufacturer : String
  pub series_name : String
  pub series_description : String
  pub mobile_robot_kinematics : String
  pub mobile_robot_class : String
  pub maximum_load_mass : R
  pub localization_types : List String
  pub navigation_types : List String
  pub maximum_speed : R
  pub maximum_angular_speed : R
  pub maximum_acceleration : R
  pub maximum_deceleration : R
  pub length : R
  pub width : R
  pub minimum_height : R
  pub maximum_height : R

module _ {R : Type 0} ⦃fl : Float R⦄ where
  open fl use {decimal}

  abbrev pub spot : RobotSpec R
  spot = record {
    manufacturer = "BostonDynamics";
    series_name = "Spot";
    series_description = "Boston Dynamics Spot quadruped robot";
    mobile_robot_kinematics = "OMNIDIRECTIONAL";
    mobile_robot_class = "CARRIER";
    maximum_load_mass = decimal 140 1;
    localization_types = "NATURAL" ∷ [];
    navigation_types = "FREELY_NAVIGATING" ∷ [];
    maximum_speed = decimal 16 1;
    maximum_angular_speed = decimal 15 1;
    maximum_acceleration = decimal 20 1;
    maximum_deceleration = decimal 20 1;
    length = decimal 11 1;
    width = decimal 5 1;
    minimum_height = decimal 19 2;
    maximum_height = decimal 61 2;
  }

  abbrev go2 : RobotSpec R
  go2 = record {
    manufacturer = "Unitree";
    series_name = "Go2";
    series_description = "Unitree Go2 quadruped robot";
    mobile_robot_kinematics = "OMNIDIRECTIONAL";
    mobile_robot_class = "CARRIER";
    maximum_load_mass = decimal 80 1;
    localization_types = "NATURAL" ∷ [];
    navigation_types = "FREELY_NAVIGATING" ∷ [];
    maximum_speed = decimal 35 1;
    maximum_angular_speed = decimal 25 1;
    maximum_acceleration = decimal 20 1;
    maximum_deceleration = decimal 20 1;
    length = decimal 70 2;
    width = decimal 31 2;
    minimum_height = decimal 20 2;
    maximum_height = decimal 40 2;
  }

  abbrev tiago : RobotSpec R
  tiago = record {
    manufacturer = "PALRobotics";
    series_name = "TIAGo";
    series_description = "PAL Robotics TIAGo mobile manipulator";
    mobile_robot_kinematics = "DIFFERENTIAL";
    mobile_robot_class = "CARRIER";
    maximum_load_mass = decimal 50 1;
    localization_types = "NATURAL" ∷ [];
    navigation_types = "FREELY_NAVIGATING" ∷ [];
    maximum_speed = decimal 10 1;
    maximum_angular_speed = decimal 15 1;
    maximum_acceleration = decimal 10 1;
    maximum_deceleration = decimal 10 1;
    length = decimal 54 2;
    width = decimal 54 2;
    minimum_height = decimal 110 2;
    maximum_height = decimal 110 2;
  }

  abbrev h1 : RobotSpec R
  h1 = record {
    manufacturer = "Unitree";
    series_name = "H1";
    series_description = "Unitree H1 humanoid robot";
    mobile_robot_kinematics = "OMNIDIRECTIONAL";
    mobile_robot_class = "CARRIER";
    maximum_load_mass = decimal 300 1;
    localization_types = "NATURAL" ∷ [];
    navigation_types = "FREELY_NAVIGATING" ∷ [];
    maximum_speed = decimal 33 1;
    maximum_angular_speed = decimal 20 1;
    maximum_acceleration = decimal 20 1;
    maximum_deceleration = decimal 20 1;
    length = decimal 45 2;
    width = decimal 40 2;
    minimum_height = decimal 10 1;
    maximum_height = decimal 180 2;
  }

  abbrev pidog : RobotSpec R
  pidog = record {
    manufacturer = "SunFounder";
    series_name = "PiDog";
    series_description = "SunFounder PiDog robot dog on Raspberry Pi";
    mobile_robot_kinematics = "DIFFERENTIAL";
    mobile_robot_class = "CARRIER";
    maximum_load_mass = decimal 0 1;
    localization_types = "NATURAL" ∷ [];
    navigation_types = "FREELY_NAVIGATING" ∷ [];
    maximum_speed = decimal 3 1;
    maximum_angular_speed = decimal 10 1;
    maximum_acceleration = decimal 5 1;
    maximum_deceleration = decimal 5 1;
    length = decimal 20 2;
    width = decimal 12 2;
    minimum_height = decimal 8 2;
    maximum_height = decimal 15 2;
  }

  unfoldable pub robot_specs : Dict String (RobotSpec R)
  robot_specs =
      ("spot", spot) ∷ ("go2", go2) ∷ ("tiago", tiago) ∷ ("h1", h1) ∷ ("pidog", pidog) ∷ []
