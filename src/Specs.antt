-- ===== src/Specs.antt =====
-- src/vda5050_sim/robot_specs.py: the specifications of the known robots and the factsheet.
mod Table
mod Actions
mod Sheet
pub mod Declared
pub use Table.{RobotSpec, spot}
unfoldable pub use Table.{robot_specs}
pub use Actions.{text_or}
unfoldable pub use Actions.{
  action_def, value_data_type_map, parameter_def, factsheet_action_def, declare_action,
  build_supported_actions,
}
pub use Sheet.{spec_or, spec_get}
unfoldable pub use Sheet.{spec_of, get_manufacturer, rect_footprint, build_factsheet}
