-- ===== src/Actions/Progress.antt =====
-- agv.py: the shared state machine of node, edge, zone and generic instant actions.
use vda5050_sim.Prelude.{
  ℕ, String, string_eq, Bool, true, false, ◌&&◌, Option, none, some, List, [], ◌∷◌, ◌==◌, map,
  if◌then◌else◌, find, any, lookup, insert, Run, done, raised, ◌>>=◌,
}
use vda5050_sim.Floats.{Float}
use vda5050_sim.Schemas.{Action, ActionState, ActionStatus}
use vda5050_sim.Robot.{
  Agv, all_states, has_ref, has_id, same_status, is_non_terminal, holds_movement, set_status,
  modify_tracked,
}
use vda5050_sim.Maps.{Effect, succeeds, fails, raises}
use vda5050_sim.Actions.Effects.{apply_action_effect}

-- The three statuses at which `_advance_one` returns at once.
abbrev pub is_settled : ActionStatus → Bool
is_settled ActionStatus.finished = true
is_settled ActionStatus.failed = true
is_settled ActionStatus.retriable = true
is_settled _ = false

abbrev pub fail_with : String → ActionState → ActionState
fail_with reason st = record st { action_status = ActionStatus.failed; action_result = some reason }

module _ {R : Type 0} ⦃fl : Float R⦄ where
  -- The state's fields are written after the effect, through the reference.
  abbrev pub settle : ActionState → Effect R → Run (Agv R)
  settle st (succeeds s) =
      done (modify_tracked (has_ref st.ref) (set_status ActionStatus.finished) s)
  settle st (fails reason s) = done (modify_tracked (has_ref st.ref) (fail_with reason) s)
  settle st (raises s) = raised s

  unfoldable pub finish_action : ActionState → Action R → Agv R → Run (Agv R)
  finish_action st action_def s = settle st (apply_action_effect action_def s)

  unfoldable pub start_action : ActionState → Agv R → Agv R
  start_action st s =
      let s1 = modify_tracked (has_ref st.ref) (set_status ActionStatus.running) s in
      record s1 {
        tracking = record s1.tracking {
          action_started_at = insert st.action_id s1.elapsed_s s1.action_started_at;
        };
      }

  -- self._action_started_at.get(state.actionId, self._elapsed_s)
  abbrev pub started : ActionState → Agv R → R
  started st s = elim (lookup st.action_id s.action_started_at) [ none ↦ s.elapsed_s | some t ↦ t ]

  abbrev pub has_elapsed : ActionState → Agv R → Bool
  has_elapsed st s = fl.le s.action_duration_s (fl.sub s.elapsed_s (started st s))

  -- The branch of a RUNNING state.
  unfoldable pub run_action : ActionState → Action R → Agv R → Run (Agv R)
  run_action st action_def s =
      if action_def.action_type == "waitForTrigger"
      then done s
      else if has_elapsed st s
      then finish_action st action_def s
      else done s

  unfoldable pub advance_one : ActionState → Action R → Agv R → Run (Agv R)
  advance_one st action_def s =
      if is_settled st.action_status
      then done s
      else if same_status st.action_status ActionStatus.waiting
      then run_action st action_def (start_action st s)
      else if same_status st.action_status ActionStatus.running
      then run_action st action_def s
      else done s

  -- One round of the loop, for the state with this identity. A state that an effect has taken off
  -- its list is terminal, and the round does nothing for it.
  unfoldable pub advance_ref : ℕ → Agv R → Run (Agv R)
  advance_ref r s = elim (find (has_ref r) (all_states s)) [
    | none ↦ done s
    | some st ↦ elim (lookup st.action_id s.action_registry) [
      | none ↦ done s
      | some action_def ↦ advance_one st action_def s
    ]
  ]

  unfoldable pub advance_refs : List ℕ → Agv R → Run (Agv R)
  advance_refs [] s = done s
  advance_refs (r ∷ rs) s = advance_ref r s >>= λ s'. advance_refs rs s'

  unfoldable pub advance_all_pending : Agv R → Run (Agv R)
  advance_all_pending s = advance_refs (map (λ st. st.ref) (all_states s)) s

module _ {R : Type 0} where
  abbrev pub holds : Option (Action R) → Option ActionState → Bool
  holds (some action_def) (some st) =
      is_non_terminal st.action_status && holds_movement action_def.blocking_type
  holds _ _ = false

  unfoldable pub is_blocking : List String → Agv R → Bool
  is_blocking action_ids s =
      any
        (λ action_id.
          holds (lookup action_id s.action_registry) (find (has_id action_id) s.action_states))
        action_ids

  unfoldable pub instant_action_is_blocking : Agv R → Bool
  instant_action_is_blocking s =
      any (λ st. holds (lookup st.action_id s.action_registry) (some st)) s.instant_action_states
