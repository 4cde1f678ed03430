-- ===== src/Robot/Tracked.antt =====
-- agv.py: the tests on action states, and reads and writes through a reference to one.
use vda5050_sim.Prelude.{
  ℕ, suc, String, Bool, true, false, not, ◌||◌, Option, none, some, List, [], ◌∷◌, ◌++◌, ◌==◌,
  nat_eq, string_eq, any, modify_first, if◌then◌else◌,
}
use vda5050_sim.Schemas.{ActionStatus, ActionState, Action, BlockingType, ErrorLevel}
use vda5050_sim.Robot.State.{Agv}

abbrev pub same_status : ActionStatus → ActionStatus → Bool
same_status ActionStatus.waiting ActionStatus.waiting = true
same_status ActionStatus.initializing ActionStatus.initializing = true
same_status ActionStatus.running ActionStatus.running = true
same_status ActionStatus.paused ActionStatus.paused = true
same_status ActionStatus.retriable ActionStatus.retriable = true
same_status ActionStatus.finished ActionStatus.finished = true
same_status ActionStatus.failed ActionStatus.failed = true
same_status _ _ = false

-- in (FINISHED, FAILED)
abbrev pub is_terminal : ActionStatus → Bool
is_terminal ActionStatus.finished = true
is_terminal ActionStatus.failed = true
is_terminal _ = false

-- in _ACTIVE_ACTION_STATUSES
abbrev pub is_active : ActionStatus → Bool
is_active ActionStatus.waiting = true
is_active ActionStatus.initializing = true
is_active ActionStatus.running = true
is_active ActionStatus.paused = true
is_active _ = false

-- in `non_terminal` of _is_blocking and _instant_action_is_blocking
abbrev pub is_non_terminal : ActionStatus → Bool
is_non_terminal ActionStatus.waiting = true
is_non_terminal ActionStatus.initializing = true
is_non_terminal ActionStatus.running = true
is_non_terminal ActionStatus.retriable = true
is_non_terminal _ = false

-- in _BLOCKING_TYPES_THAT_HOLD_MOVEMENT
abbrev pub holds_movement : BlockingType → Bool
holds_movement BlockingType.none = false
holds_movement _ = true

abbrev pub not_terminal : ActionState → Bool
not_terminal st = not (is_terminal st.action_status)

abbrev pub has_ref : ℕ → ActionState → Bool
has_ref r st = st.ref == r

abbrev pub has_id : String → ActionState → Bool
has_id action_id st = st.action_id == action_id

abbrev pub set_status : ActionStatus → ActionState → ActionState
set_status status st = record st { action_status = status }

-- bool(list)
abbrev pub not_empty : {A : Type 0} → List A → Bool
not_empty [] = false
not_empty (x ∷ xs) = true

module _ {R : Type 0} where
  -- (*self.action_states, *self.instant_action_states, *self.zone_action_states)
  abbrev pub all_states : Agv R → List ActionState
  all_states s = s.action_states ++ (s.instant_action_states ++ s.zone_action_states)

  -- A write through the first state of `all_states` that passes the test.
  unfoldable pub modify_tracked : (ActionState → Bool) → (ActionState → ActionState) → Agv R → Agv R
  modify_tracked p f s =
      if any p s.action_states
      then record s {
        tracking = record s.tracking { action_states = modify_first p f s.action_states };
      }
      else if any p s.instant_action_states
      then record s {
        tracking = record s.tracking {
          instant_action_states = modify_first p f s.instant_action_states;
        };
      }
      else record s {
        tracking = record s.tracking { zone_action_states = modify_first p f s.zone_action_states };
      }

  -- ActionState(actionId=…, actionType=…, actionStatus=…, actionResult=…), a new object.
  abbrev pub fresh_state : Agv R → Action R → ActionStatus → Option String → ActionState
  fresh_state s action status result = record {
    ref = s.next_ref;
    action_id = action.action_id;
    action_status = status;
    action_type = some action.action_type;
    action_descriptor = none;
    action_result = result;
  }

  unfoldable pub append_action_state : Action R → ActionStatus → Option String → Agv R → Agv R
  append_action_state action status result s = record s {
    tracking = record s.tracking {
      action_states = s.action_states ++ fresh_state s action status result ∷ [];
      next_ref = suc s.next_ref;
    };
  }

  unfoldable pub append_instant_state : Action R → ActionStatus → Option String → Agv R → Agv R
  append_instant_state action status result s = record s {
    tracking = record s.tracking {
      instant_action_states = s.instant_action_states ++ fresh_state s action status result ∷ [];
      next_ref = suc s.next_ref;
    };
  }

  unfoldable pub append_zone_state : Action R → ActionStatus → Option String → Agv R → Agv R
  append_zone_state action status result s = record s {
    tracking = record s.tracking {
      zone_action_states = s.zone_action_states ++ fresh_state s action status result ∷ [];
      next_ref = suc s.next_ref;
    };
  }

  -- self.pending_errors.append(sim_errors.make_error(error_type, description))
  unfoldable pub report : String → String → Agv R → Agv R
  report error_type description s = record s {
    mode = record s.mode {
      pending_errors =
          s.pending_errors
          ++ record {
            error_type = error_type;
            error_level = ErrorLevel.warning;
            error_description = some description;
          }
            ∷ [];
    };
  }

  unfoldable pub is_idle : Agv R → Bool
  is_idle s =
      if s.driving
      then false
      else if not_empty s.nodes || not_empty s.edges
      then false
      else not (any (λ st. is_active st.action_status) s.action_states)
