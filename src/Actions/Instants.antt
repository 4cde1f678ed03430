-- ===== src/Actions/Instants.antt =====
-- agv.py: `handle_instant_actions` and what it calls.
use vda5050_sim.Prelude.{
  String, string_eq, ◌<>◌, Bool, true, false, not, ◌&&◌, Option, none, some, List, [], ◌∷◌, ◌++◌,
  ◌==◌, map, if◌then◌else◌, find, any, lookup, insert, remove, modify_first, contains, Dict,
}
use vda5050_sim.Schemas.{Action, ActionState, ActionStatus}
use vda5050_sim.Robot.{
  Agv, all_states, has_id, same_status, set_status, modify_tracked, append_instant_state, is_idle,
  params_of, str_param, show_param,
}
use vda5050_sim.Maps.{reject_instant_action}
use vda5050_sim.Actions.Progress.{fail_with}

-- The branches of `_handle_instant_action`, after its three guards.
pub data InstantKind : Type 0 where
  cancel_order start_pause stop_pause factsheet_request state_request log_report : InstantKind
  clear_instant_actions clear_zone_actions start_hibernation stop_hibernation : InstantKind
  shutdown retry skip_retry trigger download_map download_zone_set other : InstantKind

unfoldable pub instant_kind : String → InstantKind
instant_kind at =
    if at == "cancelOrder"
    then cancel_order
    else if at == "startPause"
    then start_pause
    else if at == "stopPause"
    then stop_pause
    else if at == "factsheetRequest"
    then factsheet_request
    else if at == "stateRequest"
    then state_request
    else if at == "logReport"
    then log_report
    else if at == "clearInstantActions"
    then clear_instant_actions
    else if at == "clearZoneActions"
    then clear_zone_actions
    else if at == "startHibernation"
    then start_hibernation
    else if at == "stopHibernation"
    then stop_hibernation
    else if at == "shutdown"
    then shutdown
    else if at == "retry"
    then retry
    else if at == "skipRetry"
    then skip_retry
    else if at == "trigger"
    then trigger
    else if at == "downloadMap"
    then download_map
    else if at == "downloadZoneSet"
    then download_zone_set
    else other

abbrev pub timer_instant_actions : List String
timer_instant_actions =
    "startCharging" ∷ "stopCharging" ∷ "initializePosition" ∷ "enableMap" ∷ "downloadMap"
    ∷ "deleteMap" ∷ "downloadZoneSet" ∷ "enableZoneSet" ∷ "deleteZoneSet" ∷ "updateCertificate" ∷ []

-- A state whose status is `from` gets `to`.
abbrev pub flip_status : ActionStatus → ActionStatus → ActionState → ActionState
flip_status from to st = if same_status st.action_status from then set_status to st else st

-- target is None or target.actionStatus != RETRIABLE
abbrev pub not_retriable : Option ActionState → Bool
not_retriable none = true
not_retriable (some st) = not (same_status st.action_status ActionStatus.retriable)

module _ {R : Type 0} where
  unfoldable pub flip_all : ActionStatus → ActionStatus → Agv R → Agv R
  flip_all from to s = record s {
    tracking = record s.tracking {
      action_states = map (flip_status from to) s.action_states;
      instant_action_states = map (flip_status from to) s.instant_action_states;
      zone_action_states = map (flip_status from to) s.zone_action_states;
    };
  }

  unfoldable pub pause_or_resume : Bool → Agv R → Agv R
  pause_or_resume true s = flip_all ActionStatus.running ActionStatus.paused s
  pause_or_resume false s = flip_all ActionStatus.paused ActionStatus.running s

  -- The state FINISHED that most branches end with.
  abbrev pub answer : Action R → Agv R → Agv R
  answer action s = append_instant_state action ActionStatus.finished none s

  unfoldable pub find_tracked_action_state : String → Agv R → Option ActionState
  find_tracked_action_state action_id s = find (has_id action_id) (all_states s)

  unfoldable pub register_timer_instant : Action R → Agv R → Agv R
  register_timer_instant action s =
      append_instant_state action ActionStatus.waiting none (record s {
        tracking = record s.tracking {
          action_registry = insert action.action_id action s.action_registry;
        };
      })

  -- RUNNING, and registered as a waitForTrigger action.
  abbrev pub waits_for_trigger : Dict String (Action R) → ActionState → Bool
  waits_for_trigger registry st =
      same_status st.action_status ActionStatus.running && elim (lookup st.action_id registry) [
        | none ↦ false
        | some action_def ↦ action_def.action_type == "waitForTrigger"
      ]

  unfoldable pub oldest_running_wait_for_trigger : Agv R → Option ActionState
  oldest_running_wait_for_trigger s =
      find (waits_for_trigger s.action_registry) (s.action_states ++ s.zone_action_states)

  -- The write of FINISHED through what `_oldest_running_wait_for_trigger` returns.
  unfoldable pub release_oldest : Agv R → Agv R
  release_oldest s =
      let waits = waits_for_trigger s.action_registry in
      if any waits s.action_states
      then record s {
        tracking = record s.tracking {
          action_states = modify_first waits (set_status ActionStatus.finished) s.action_states;
        };
      }
      else record s {
        tracking = record s.tracking {
          zone_action_states =
              modify_first waits (set_status ActionStatus.finished) s.zone_action_states;
        };
      }

  unfoldable pub clear_active_order : Agv R → Agv R
  clear_active_order s = record s {
    graph = record s.graph {
      nodes = [];
      edges = [];
      zone_requests = [];
      edge_requests = [];
      new_base_request = false;
      order_id = "";
      order_update_id = 0;
      order_snapshot = none;
    };
    tracking = record s.tracking { action_states = [] };
    motion = record s.motion { driving = false };
  }

  abbrev pub await_cancel : Action R → Agv R → Agv R
  await_cancel action s =
      let s1 = append_instant_state action ActionStatus.running none s in
      record s1 {
        tracking = record s1.tracking { cancel_requested_action_id = some action.action_id };
      }

  unfoldable pub handle_cancel : Action R → Agv R → Agv R
  handle_cancel action s =
      if not (s.order_id == "") && not (is_idle s)
      then await_cancel action s
      else reject_instant_action action "noOrderToCancel"
          "cancelOrder received with no active order" s

  unfoldable pub handle_retry : Action R → Agv R → Agv R
  handle_retry action s =
      let params = params_of action in
      let action_id = str_param params "actionId" "" in
      if not_retriable (find_tracked_action_state action_id s)
      then reject_instant_action action "validationError"
          ("action '" <> show_param params "actionId" <> "' is not RETRIABLE") s
      else let s1 = modify_tracked (has_id action_id) (set_status ActionStatus.waiting) s in
        answer action (record s1 {
          tracking = record s1.tracking {
            action_started_at = remove action_id s1.action_started_at;
          };
        })

  unfoldable pub handle_skip_retry : Action R → Agv R → Agv R
  handle_skip_retry action s =
      let params = params_of action in
      let action_id = str_param params "actionId" "" in
      if not_retriable (find_tracked_action_state action_id s)
      then reject_instant_action action "validationError"
          ("action '" <> show_param params "actionId" <> "' is not RETRIABLE") s
      else answer action (modify_tracked (has_id action_id) (fail_with "skipped via skipRetry") s)

  unfoldable pub handle_shutdown : Action R → Agv R → Agv R
  handle_shutdown action s =
      if is_idle s
      then answer action (record s { mode = record s.mode { shutdown_requested = true } })
      else reject_instant_action action "validationError" "shutdown requires an idle robot" s

  -- `_start_download_map` or `_start_download_zone_set`, then the registration if it may start.
  abbrev pub start_download : Action R → Agv R × Bool → Agv R
  start_download action (s, true) = register_timer_instant action s
  start_download action (s, false) = s

  unfoldable pub handle_other_instant : Action R → Agv R → Agv R
  handle_other_instant action s =
      if contains action.action_type timer_instant_actions
      then register_timer_instant action s
      else if contains action.action_type s.cfg.supported_actions
      then register_timer_instant action s
      else reject_instant_action action "validationError"
          ("unsupported instantAction '" <> action.action_type <> "'") s
