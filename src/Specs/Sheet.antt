-- ===== src/Specs/Sheet.antt =====
-- robot_specs.py: the manufacturer of a model and the factsheet message.
use vda5050_sim.Prelude.{
  ℕ, String, string_eq, ◌<>◌, Option, none, some, List, [], ◌∷◌, lookup, lower,
}
use vda5050_sim.Floats.{Float, nought}
use vda5050_sim.Schemas.{Vertex2d, MobileRobotActionDef, FactsheetMessage}
use vda5050_sim.Specs.Table.{RobotSpec, robot_specs}
use vda5050_sim.Specs.Actions.{build_supported_actions}

-- spec.get(key, default), for the spec of an unknown model, which is {}
abbrev pub spec_or : {R A : Type 0} → (RobotSpec R → A) → A → Option (RobotSpec R) → A
spec_or key d none = d
spec_or key d (some spec) = key spec

-- spec.get(key)
abbrev pub spec_get : {R A : Type 0} → (RobotSpec R → A) → Option (RobotSpec R) → Option A
spec_get key none = none
spec_get key (some spec) = some (key spec)

abbrev or_supported : Option (List MobileRobotActionDef) → List MobileRobotActionDef
or_supported none = build_supported_actions []
or_supported (some actions) = actions

module _ {R : Type 0} ⦃fl : Float R⦄ where
  -- ROBOT_SPECS.get(robot_model.lower())
  unfoldable pub spec_of : String → Option (RobotSpec R)
  unfolding lower
  spec_of robot_model = lookup (lower robot_model) robot_specs

unfoldable pub get_manufacturer : (R : Type 0) ⦃fl : Float R⦄ → String → String
unfolding spec_of
get_manufacturer R robot_model =
    spec_or (λ (s : RobotSpec R). s.manufacturer) "Generic" (spec_of robot_model)

module _ {R : Type 0} ⦃fl : Float R⦄ where
  open fl use {decimal, div, neg}

  unfoldable pub rect_footprint : R → R → List (Vertex2d R)
  rect_footprint length width =
      let hl = div length (decimal 2 0) in
      let hw = div width (decimal 2 0) in
      record { x = hl; y = hw }
      ∷ record { x = hl; y = neg hw }
      ∷ record { x = neg hl; y = neg hw }
      ∷ record { x = neg hl; y = hw }
      ∷ []

  -- `str` is Python's text of a float.
  unfoldable pub build_factsheet :
      (str : R → String)
      → String
      → String
      → ℕ
      → String
      → Option (List MobileRobotActionDef)
      → FactsheetMessage R
  unfolding spec_of get_manufacturer rect_footprint
  build_factsheet str robot_model robot_id header_id timestamp supported_actions =
      let spec = spec_of robot_model in
      let length = spec_or (λ s. s.length) (decimal 5 1) spec in
      let width = spec_or (λ s. s.width) (decimal 5 1) spec in
      record {
        header_id = header_id;
        timestamp = timestamp;
        version = "3.0.0";
        manufacturer = get_manufacturer R robot_model;
        serial_number = robot_id;
        type_specification = record {
          series_name = spec_or (λ s. s.series_name) robot_model spec;
          mobile_robot_class = spec_or (λ s. s.mobile_robot_class) "CARRIER" spec;
          maximum_load_mass = spec_or (λ s. s.maximum_load_mass) nought spec;
          localization_types = spec_or (λ s. s.localization_types) ("NATURAL" ∷ []) spec;
          navigation_types = spec_or (λ s. s.navigation_types) ("FREELY_NAVIGATING" ∷ []) spec;
          series_description = spec_get (λ s. s.series_description) spec;
          mobile_robot_kinematics = spec_get (λ s. s.mobile_robot_kinematics) spec;
        };
        physical_parameters = record {
          minimum_speed = nought;
          maximum_speed = spec_or (λ s. s.maximum_speed) nought spec;
          maximum_acceleration = spec_or (λ s. s.maximum_acceleration) nought spec;
          maximum_deceleration = spec_or (λ s. s.maximum_deceleration) nought spec;
          minimum_height = spec_or (λ s. s.minimum_height) nought spec;
          maximum_height = spec_or (λ s. s.maximum_height) nought spec;
          width = width;
          length = length;
          minimum_angular_speed = some nought;
          maximum_angular_speed = spec_get (λ s. s.maximum_angular_speed) spec;
        };
        protocol_limits = record {
          maximum_string_lengths = record {
            maximum_id_length = some 256;
            maximum_topic_serial_length = some 256;
            maximum_topic_element_length = some 256;
          };
          maximum_array_lengths = record { instant_actions = some 10 };
          timing = record {
            minimum_order_interval = decimal 5 1;
            minimum_state_interval = decimal 5 1;
            default_state_interval = some (decimal 10 1);
            visualization_interval = some (decimal 2 1);
          };
        };
        protocol_features = record {
          mobile_robot_actions = or_supported supported_actions;
          optional_parameters = [];
        };
        mobile_robot_geometry = record {
          envelopes2d =
              record {
                envelope2d_id = "footprint";
                vertices = rect_footprint length width;
                description =
                    some ("Rectangular footprint " <> str length <> "m x " <> str width <> "m");
              }
              ∷ [];
        };
        load_specification = record { load_positions = []; load_sets = [] };
      }
