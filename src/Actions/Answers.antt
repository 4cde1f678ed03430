-- ===== src/Actions/Answers.antt =====
-- agv.py: how `_handle_instant_action` answers.
use vda5050_sim.Prelude.{
  String, string_eq, true, false, not, ◌&&◌, ◌≡◌, ◌⊎◌, inl, inr, refl, none, arith, if_ind,
  Option-cases, is_some, ◌==◌, pair_eq,
}
use vda5050_sim.Floats.{Float}
use vda5050_sim.Schemas.{Action, ActionScope}
use vda5050_sim.Robot.{Agv, in_scope, params_of, true_param, str, str_param}
use vda5050_sim.Actions.Effects.{clear_terminal_instants, clear_terminal_zones}
use vda5050_sim.Actions.Instants.{
  InstantKind, flip_all, pause_or_resume, clear_active_order, handle_retry, handle_skip_retry,
  instant_kind, not_retriable, find_tracked_action_state, oldest_running_wait_for_trigger,
}
use vda5050_sim.Actions.Dispatch.{
  handle_trigger, trigger_oldest, handle_start_hibernation, dispatch_instant, missing_version,
  handle_instant_action,
}
use vda5050_sim.Actions.Replies.{
  reject-Answered, append-Answered, errors-modify_tracked, errors-release_oldest,
  handle_cancel-Answered, handle_shutdown-Answered, download_map-Answered,
  download_zone_set-Answered, handle_other-Answered, Answered,
}

module _ {R : Type 0} ⦃fl : Float R⦄ where
  handle_retry-Answered :
      (action : Action R) (s : Agv R) → Answered action s (handle_retry action s)
  unfolding handle_retry
  handle_retry-Answered action s =
      if_ind (Answered action s)
        (not_retriable (find_tracked_action_state (str_param (params_of action) "actionId" "") s))
        (λ _. reject-Answered action _ _ s)
        (λ _. append-Answered action _ _ s _ refl (errors-modify_tracked _ _ s))

  handle_skip_retry-Answered :
      (action : Action R) (s : Agv R) → Answered action s (handle_skip_retry action s)
  unfolding handle_skip_retry
  handle_skip_retry-Answered action s =
      if_ind (Answered action s)
        (not_retriable (find_tracked_action_state (str_param (params_of action) "actionId" "") s))
        (λ _. reject-Answered action _ _ s)
        (λ _. append-Answered action _ _ s _ refl (errors-modify_tracked _ _ s))

  handle_start_hibernation-Answered :
      (action : Action R) (s : Agv R) → Answered action s (handle_start_hibernation action s)
  unfolding handle_start_hibernation clear_active_order
  handle_start_hibernation-Answered action s = append-Answered action _ _ s _ refl refl

  handle_trigger-Answered :
      (action : Action R) (s : Agv R) → Answered action s (handle_trigger action s)
  unfolding handle_trigger
  handle_trigger-Answered action s =
      elim (Option-cases (true_param (params_of action) "actionId")) [
        | inl e ↦ rw (e, handle_trigger) (oldest s)
        | inr (v, e) ↦
            rw (e, handle_trigger)
              (if_ind (Answered action s) (is_some (find_tracked_action_state (str v) s))
                (λ _. append-Answered action _ _ s _ refl (errors-modify_tracked _ _ s))
                (λ _. oldest s))
      ]
    where
      oldest : (s : Agv R) → Answered action s (trigger_oldest action s)
      oldest s =
          if_ind (Answered action s) (is_some (oldest_running_wait_for_trigger s))
            (λ _. append-Answered action _ _ s _ refl (errors-release_oldest s))
            (λ _. reject-Answered action _ _ s)

  dispatch_instant-Answered :
      (stamp : String) (kind : InstantKind) (action : Action R) (s : Agv R)
      → Answered action s (dispatch_instant stamp kind action s)
  unfolding dispatch_instant pause_or_resume flip_all clear_terminal_instants clear_terminal_zones
  dispatch_instant-Answered stamp InstantKind.cancel_order action s =
      handle_cancel-Answered action s
  dispatch_instant-Answered stamp InstantKind.start_pause action s =
      append-Answered action _ _ s _ refl refl
  dispatch_instant-Answered stamp InstantKind.stop_pause action s =
      append-Answered action _ _ s _ refl refl
  dispatch_instant-Answered stamp InstantKind.factsheet_request action s =
      append-Answered action _ _ s _ refl refl
  dispatch_instant-Answered stamp InstantKind.state_request action s =
      append-Answered action _ _ s _ refl refl
  dispatch_instant-Answered stamp InstantKind.log_report action s =
      append-Answered action _ _ s _ refl refl
  dispatch_instant-Answered stamp InstantKind.clear_instant_actions action s =
      append-Answered action _ _ s _ refl refl
  dispatch_instant-Answered stamp InstantKind.clear_zone_actions action s =
      append-Answered action _ _ s _ refl refl
  dispatch_instant-Answered stamp InstantKind.start_hibernation action s =
      handle_start_hibernation-Answered action s
  dispatch_instant-Answered stamp InstantKind.stop_hibernation action s =
      append-Answered action _ _ s _ refl refl
  dispatch_instant-Answered stamp InstantKind.shutdown action s = handle_shutdown-Answered action s
  dispatch_instant-Answered stamp InstantKind.retry action s = handle_retry-Answered action s
  dispatch_instant-Answered stamp InstantKind.skip_retry action s =
      handle_skip_retry-Answered action s
  dispatch_instant-Answered stamp InstantKind.trigger action s = handle_trigger-Answered action s
  dispatch_instant-Answered stamp InstantKind.download_map action s = download_map-Answered action s
  dispatch_instant-Answered stamp InstantKind.download_zone_set action s =
      download_zone_set-Answered action s
  dispatch_instant-Answered stamp InstantKind.other action s = handle_other-Answered action s

  -- What the robot does not hear: while it hibernates, all but stopHibernation and the actions that
  -- its protocol version lacks.
  abbrev pub IsIgnored : Action R → Agv R → Type 0
  IsIgnored action s =
      (missing_version action s ≡ none)
      × (s.hibernating ≡ true)
      × ((action.action_type == "stopHibernation") ≡ false)

  unless_asleep :
      (stamp : String) (action : Action R) (s : Agv R)
      → missing_version action s ≡ none
      → ((s.hibernating ≡ true)
          × ((action.action_type == "stopHibernation") ≡ false)
          × (handle_instant_action stamp action s ≡ s))
        ⊎ Answered action s (handle_instant_action stamp action s)
  unfolding handle_instant_action
  unless_asleep stamp action s e =
      rw (e, handle_instant_action)
        (if_ind
          (λ t.
            ((s.hibernating ≡ true) × ((action.action_type == "stopHibernation") ≡ false) × (t ≡ s))
            ⊎ Answered action s t)
          (s.hibernating && not (action.action_type == "stopHibernation"))
          (λ asleep. inl (ground arith, ground arith, refl))
          (λ _. inr (
            if_ind (Answered action s) (not (in_scope ActionScope.instant action.action_type))
              (λ _. reject-Answered action _ _ s)
              (λ _. dispatch_instant-Answered stamp (instant_kind action.action_type) action s))))

  -- An instant action is ignored, and then the robot is as it was, or it is answered: a state with
  -- its id and type is appended to the instant action states, and one error is reported exactly
  -- if that state is FAILED. It is ignored only by a robot that hibernates.
  pub handle_instant_action-Answered :
      (stamp : String) (action : Action R) (s : Agv R)
      → (IsIgnored action s × (handle_instant_action stamp action s ≡ s))
        ⊎ Answered action s (handle_instant_action stamp action s)
  unfolding handle_instant_action
  handle_instant_action-Answered stamp action s = elim (Option-cases (missing_version action s)) [
    | inr (least, e) ↦ inr (rw (e, handle_instant_action) (reject-Answered action _ _ s))
    | inl e ↦ elim (unless_asleep stamp action s e) [
      | inl (asleep, other, same) ↦ inl ((e, asleep, other), same)
      | inr answered ↦ inr answered
    ]
  ]
