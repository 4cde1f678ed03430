-- ===== src/Faults.antt =====
-- src/vda5050_sim/agv.py: fault injection, and debug_routes.py, which triggers the same faults.
use vda5050_sim.Prelude.{
  String, string_eq, Bool, true, false, not, ◌&&◌, Option, none, some, ◌==◌, if◌then◌else◌, lookup,
  any, Dict,
}
use vda5050_sim.Floats.{Float, nought, min_float, max_float}
use vda5050_sim.Schemas.{Action, ActionState, ActionStatus, EmergencyStopType, OperatingMode}
use vda5050_sim.Robot.{
  Agv, all_states, same_status, set_status, modify_tracked, report, version_tuple, lt_version,
}
use vda5050_sim.Zones.{is_true}
use vda5050_sim.Tick.{is_automatic, no_stop}

-- What `random` gives in one call: a number for each test, and the choice of a stop.
pub record Draws (R : Type 0) : Type 0 where
  pub field_violation : R
  pub service_mode : R
  pub emergency_stop : R
  pub stop_type : Bool
  pub error_injection : R

-- random.choice((MANUAL, REMOTE))
abbrev pub chosen_stop : Bool → EmergencyStopType
chosen_stop true = EmergencyStopType.manual
chosen_stop false = EmergencyStopType.remote

module _ {R : Type 0} ⦃fl : Float R⦄ where
  open fl use {add, lt, le, eq, decimal}

  abbrev pub field_violation_duration : R
  field_violation_duration = decimal 10 1

  abbrev pub service_mode_duration : R
  service_mode_duration = decimal 20 1

  abbrev pub emergency_stop_duration : R
  emergency_stop_duration = decimal 15 1

  -- prob and random.random() < prob
  abbrev pub strikes : R → R → Bool
  strikes probability draw = not (eq probability nought) && lt draw probability

  abbrev pub start_field_violation : Agv R → Agv R
  start_field_violation s = record s {
    faults = record s.faults {
      field_violation = true;
      field_violation_until = add s.fault_elapsed_s field_violation_duration;
    };
  }

  unfoldable pub update_field_violation : R → Agv R → Agv R
  update_field_violation draw s =
      if s.field_violation
      then (if le s.field_violation_until s.fault_elapsed_s
          then record s { faults = record s.faults { field_violation = false } }
          else s)
      else if strikes s.cfg.fault_profile.field_violation_probability draw
      then start_field_violation s
      else s

  abbrev pub start_service_mode : Agv R → Agv R
  start_service_mode s = record s {
    faults = record s.faults {
      operating_mode = OperatingMode.service;
      operating_mode_fault_until = add s.fault_elapsed_s service_mode_duration;
    };
  }

  unfoldable pub update_operating_mode_fault : R → Agv R → Agv R
  update_operating_mode_fault draw s =
      if not (is_automatic s.operating_mode)
      then (if le s.operating_mode_fault_until s.fault_elapsed_s
          then record s { faults = record s.faults { operating_mode = OperatingMode.automatic } }
          else s)
      else if strikes s.cfg.fault_profile.service_mode_probability draw
      then start_service_mode s
      else s

  abbrev pub start_emergency_stop : EmergencyStopType → Agv R → Agv R
  start_emergency_stop type s = record s {
    faults = record s.faults {
      emergency_stop = type;
      emergency_stop_until = add s.fault_elapsed_s emergency_stop_duration;
    };
  }

  unfoldable pub update_emergency_stop : R → Bool → Agv R → Agv R
  update_emergency_stop draw choice s =
      if not (no_stop s.emergency_stop)
      then (if le s.emergency_stop_until s.fault_elapsed_s
          then record s { faults = record s.faults { emergency_stop = EmergencyStopType.none } }
          else s)
      else if strikes s.cfg.fault_profile.emergency_stop_probability draw
      then start_emergency_stop (chosen_stop choice) s
      else s

  abbrev pub runs_retriable : Dict String (Action R) → ActionState → Bool
  runs_retriable registry st =
      same_status st.action_status ActionStatus.running && elim (lookup st.action_id registry) [
        | none ↦ false
        | some action_def ↦ is_true action_def.retriable
      ]

  abbrev pub is_legacy : Agv R → Bool
  is_legacy s = lt_version (version_tuple s.cfg.protocol_version) (3, 0)

  -- The status that the first running retriable action gets.
  abbrev pub failed_status : Agv R → ActionStatus
  failed_status s = if is_legacy s then ActionStatus.failed else ActionStatus.retriable

  unfoldable pub inject_error : Agv R → Agv R
  inject_error s =
      let running_retriable = runs_retriable s.action_registry in
      if any running_retriable (all_states s)
      then modify_tracked running_retriable (set_status (failed_status s)) s
      else report "hardwareFault" "simulated transient fault" s

  unfoldable pub maybe_inject_fault : Draws R → R → Agv R → Agv R
  maybe_inject_fault draws dt s =
      let s0 = record s {
        faults = record s.faults { fault_elapsed_s = add s.fault_elapsed_s dt };
      } in
      let s1 = update_field_violation draws.field_violation s0 in
      let s2 = update_operating_mode_fault draws.service_mode s1 in
      let s3 = update_emergency_stop draws.emergency_stop draws.stop_type s2 in
      if strikes s3.cfg.fault_profile.error_injection_probability draws.error_injection
      then inject_error s3
      else s3

  unfoldable pub should_drop_connection : R → Agv R → Bool
  should_drop_connection draw s = strikes s.cfg.fault_profile.connection_drop_probability draw

  -- debug_routes.py: `set_battery`
  unfoldable pub set_battery : R → Agv R → Agv R
  set_battery percent s = record s {
    motion = record s.motion { battery_soc = max_float nought (min_float (decimal 100 0) percent) };
  }

  -- debug_routes.py: `trigger_fault`; `none` is the answer 400.
  unfoldable pub trigger_fault : String → Agv R → Option (Agv R)
  trigger_fault type s =
      if type == "hardware_fault"
      then some (report "hardwareFault" "debug-triggered fault" s)
      else if type == "field_violation"
      then some (start_field_violation s)
      else if type == "service_mode"
      then some (start_service_mode s)
      else if type == "emergency_stop"
      then some (start_emergency_stop EmergencyStopType.manual s)
      else none
