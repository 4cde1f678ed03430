-- ===== src/Runtime/Instants.antt =====
-- agv.py: `handle_instant_actions`, for the invariant of a robot's life.
use vda5050_sim.Prelude.{
  String, string_eq, pair_eq, Bool, true, false, not, ◌&&◌, ◌≡◌, refl, none, List, [], ◌∷◌, if_ind,
  Option-cases, inl, inr, is_some, lookup, contains, any, map, ◌==◌, arith,
}
use vda5050_sim.Floats.{Float}
use vda5050_sim.Schemas.{Action, ActionScope, ActionState, ActionStatus}
use vda5050_sim.Robot.{
  Agv, is_idle, in_scope, params_of, str_param, true_param, str, append_instant_state, set_status,
}
use vda5050_sim.Maps.{
  reject_instant_action, start_download_map, start_download_zone_set, map_key, zone_set_key,
}
use vda5050_sim.Actions.{
  InstantKind, flip_all, flip_status, pause_or_resume, answer, register_timer_instant,
  release_oldest, oldest_running_wait_for_trigger, find_tracked_action_state, clear_active_order,
  handle_cancel, handle_retry, handle_skip_retry, handle_shutdown, start_download,
  handle_other_instant, handle_trigger, handle_start_hibernation, dispatch_instant, missing_version,
  handle_instant_action, handle_instant_actions, instant_kind, clear_terminal_instants,
  clear_terminal_zones, trigger_oldest, not_retriable, timer_instant_actions, waits_for_trigger,
}
use vda5050_sim.Runtime.Sound.{
  IsSound, Alike, Alike-IsSound, ids-modify_first, modify_tracked-Alike, append_instant-Alike,
  reject_instant-Alike,
}

ids-flip :
    (from to : ActionStatus) (xs : List ActionState)
    → map (λ st. st.action_id) (map (flip_status from to) xs) ≡ map (λ st. st.action_id) xs
ids-flip from to [] = refl
ids-flip from to (x ∷ xs) = ground (arith, ids-flip from to xs)

module _ {R : Type 0} where
  answer-Alike : (action : Action R) (s u : Agv R) → Alike s u → Alike s (answer action u)
  answer-Alike action s u h = append_instant-Alike action ActionStatus.finished none s u h

  flip_all-Alike : (from to : ActionStatus) (s : Agv R) → Alike s (flip_all from to s)
  unfolding flip_all
  flip_all-Alike from to s = record { ids = ids-flip from to s.action_states; maps = refl }

  release_oldest-Alike : (s : Agv R) → Alike s (release_oldest s)
  unfolding release_oldest
  release_oldest-Alike s =
      if_ind (Alike s) (any (waits_for_trigger s.action_registry) s.action_states)
        (λ _. record {
          ids =
              ids-modify_first (waits_for_trigger s.action_registry)
                (set_status ActionStatus.finished) s.action_states (λ st. refl);
          maps = refl;
        })
        (λ _. record { ids = refl; maps = refl })

  register_timer-Alike : (action : Action R) (s : Agv R) → Alike s (register_timer_instant action s)
  unfolding register_timer_instant
  register_timer-Alike action s =
      append_instant-Alike action ActionStatus.waiting none s _ (record { ids = refl; maps = refl })

  handle_cancel-Alike : (action : Action R) (s : Agv R) → Alike s (handle_cancel action s)
  unfolding handle_cancel append_instant_state
  handle_cancel-Alike action s =
      if_ind (Alike s) (not (s.order_id == "") && not (is_idle s))
        (λ _. record { ids = refl; maps = refl }) (λ _. reject_instant-Alike action _ _ s)

  handle_shutdown-Alike : (action : Action R) (s : Agv R) → Alike s (handle_shutdown action s)
  unfolding handle_shutdown
  handle_shutdown-Alike action s =
      if_ind (Alike s) (is_idle s)
        (λ _. answer-Alike action s _ (record { ids = refl; maps = refl }))
        (λ _. reject_instant-Alike action _ _ s)

  download_map-Alike :
      (action : Action R) (s : Agv R)
      → Alike s (start_download action (start_download_map action s))
  unfolding start_download_map
  download_map-Alike action s =
      if_ind (λ (r : Agv R × Bool). Alike s (start_download action r))
        (is_some (lookup (map_key action) s.maps)) {x = (reject_instant_action action _ _ s, false)}
        {y = (s, true)} (λ _. reject_instant-Alike action _ _ s)
        (λ _. register_timer-Alike action s)

  download_zone_set-Alike :
      (action : Action R) (s : Agv R)
      → Alike s (start_download action (start_download_zone_set action s))
  unfolding start_download_zone_set
  download_zone_set-Alike action s =
      if_ind (λ (r : Agv R × Bool). Alike s (start_download action r))
        (is_some (lookup (zone_set_key action) s.zone_sets))
        {x = (reject_instant_action action _ _ s, false)} {y = (s, true)}
        (λ _. reject_instant-Alike action _ _ s) (λ _. register_timer-Alike action s)

  handle_other-Alike : (action : Action R) (s : Agv R) → Alike s (handle_other_instant action s)
  unfolding handle_other_instant
  handle_other-Alike action s =
      if_ind (Alike s) (contains action.action_type timer_instant_actions)
        (λ _. register_timer-Alike action s)
        (λ _.
          if_ind (Alike s) (contains action.action_type s.cfg.supported_actions)
            (λ _. register_timer-Alike action s) (λ _. reject_instant-Alike action _ _ s))

  handle_retry-Alike : (action : Action R) (s : Agv R) → Alike s (handle_retry action s)
  unfolding handle_retry
  handle_retry-Alike action s =
      if_ind (Alike s)
        (not_retriable (find_tracked_action_state (str_param (params_of action) "actionId" "") s))
        (λ _. reject_instant-Alike action _ _ s)
        (λ _.
          let k = modify_tracked-Alike _ (set_status ActionStatus.waiting) s (λ st. refl) in
          answer-Alike action s _ (record { ids = k.ids; maps = k.maps }))

  handle_skip_retry-Alike : (action : Action R) (s : Agv R) → Alike s (handle_skip_retry action s)
  unfolding handle_skip_retry
  handle_skip_retry-Alike action s =
      if_ind (Alike s)
        (not_retriable (find_tracked_action_state (str_param (params_of action) "actionId" "") s))
        (λ _. reject_instant-Alike action _ _ s)
        (λ _. answer-Alike action s _ (modify_tracked-Alike _ _ s (λ st. refl)))

module _ {R : Type 0} ⦃fl : Float R⦄ where
  trigger_oldest-Alike : (action : Action R) (s : Agv R) → Alike s (trigger_oldest action s)
  trigger_oldest-Alike action s =
      if_ind (Alike s) (is_some (oldest_running_wait_for_trigger s))
        (λ _. answer-Alike action s _ (release_oldest-Alike s))
        (λ _. reject_instant-Alike action _ _ s)

  handle_trigger-Alike : (action : Action R) (s : Agv R) → Alike s (handle_trigger action s)
  unfolding handle_trigger
  handle_trigger-Alike action s = elim (Option-cases (true_param (params_of action) "actionId")) [
    | inl e ↦ rw (e, handle_trigger) (trigger_oldest-Alike action s)
    | inr (v, e) ↦
        rw (e, handle_trigger)
          (if_ind (Alike s) (is_some (find_tracked_action_state (str v) s))
            (λ _. answer-Alike action s _ (modify_tracked-Alike _ _ s (λ st. refl)))
            (λ _. trigger_oldest-Alike action s))
  ]

  dispatch_instant-IsSound :
      (stamp : String) (kind : InstantKind) (action : Action R) (s : Agv R)
      → IsSound s
      → IsSound (dispatch_instant stamp kind action s)
  unfolding dispatch_instant pause_or_resume clear_terminal_instants clear_terminal_zones
      handle_start_hibernation clear_active_order append_instant_state
  dispatch_instant-IsSound stamp InstantKind.cancel_order action s h =
      Alike-IsSound s _ (handle_cancel-Alike action s) h
  dispatch_instant-IsSound stamp InstantKind.start_pause action s h =
      let paused = record s { mode = record s.mode { paused = true } } in
      let k = flip_all-Alike ActionStatus.running ActionStatus.paused paused in
      Alike-IsSound s _
        (answer-Alike action s (flip_all ActionStatus.running ActionStatus.paused paused)
          (record { ids = k.ids; maps = k.maps }))
        h
  dispatch_instant-IsSound stamp InstantKind.stop_pause action s h =
      let going = record s { mode = record s.mode { paused = false } } in
      let k = flip_all-Alike ActionStatus.paused ActionStatus.running going in
      Alike-IsSound s _
        (answer-Alike action s (flip_all ActionStatus.paused ActionStatus.running going)
          (record { ids = k.ids; maps = k.maps }))
        h
  dispatch_instant-IsSound stamp InstantKind.shutdown action s h =
      Alike-IsSound s _ (handle_shutdown-Alike action s) h
  dispatch_instant-IsSound stamp InstantKind.retry action s h =
      Alike-IsSound s _ (handle_retry-Alike action s) h
  dispatch_instant-IsSound stamp InstantKind.skip_retry action s h =
      Alike-IsSound s _ (handle_skip_retry-Alike action s) h
  dispatch_instant-IsSound stamp InstantKind.trigger action s h =
      Alike-IsSound s _ (handle_trigger-Alike action s) h
  dispatch_instant-IsSound stamp InstantKind.download_map action s h =
      Alike-IsSound s _ (download_map-Alike action s) h
  dispatch_instant-IsSound stamp InstantKind.download_zone_set action s h =
      Alike-IsSound s _ (download_zone_set-Alike action s) h
  dispatch_instant-IsSound stamp InstantKind.other action s h =
      Alike-IsSound s _ (handle_other-Alike action s) h
  dispatch_instant-IsSound stamp InstantKind.start_hibernation action s h = record {
    distinct = tt;
    consistent = h.consistent;
  }
  dispatch_instant-IsSound stamp _ action s h = record {
    distinct = h.distinct;
    consistent = h.consistent;
  }

  handle_instant_action-IsSound :
      (stamp : String) (action : Action R) (s : Agv R)
      → IsSound s
      → IsSound (handle_instant_action stamp action s)
  unfolding handle_instant_action
  handle_instant_action-IsSound stamp action s h = elim (Option-cases (missing_version action s)) [
    | inr (least, e) ↦
        rw (e, handle_instant_action) (Alike-IsSound s _ (reject_instant-Alike action _ _ s) h)
    | inl e ↦
        rw (e, handle_instant_action)
          (if_ind IsSound (s.hibernating && not (action.action_type == "stopHibernation")) (λ _. h)
            (λ _.
              if_ind IsSound (not (in_scope ActionScope.instant action.action_type))
                (λ _. Alike-IsSound s _ (reject_instant-Alike action _ _ s) h)
                (λ _. dispatch_instant-IsSound stamp (instant_kind action.action_type) action s h)))
  ]

  pub handle_instant_actions-IsSound :
      (stamp : String) (actions : List (Action R)) (s : Agv R)
      → IsSound s
      → IsSound (handle_instant_actions stamp actions s)
  unfolding handle_instant_actions
  handle_instant_actions-IsSound stamp [] s h = h
  handle_instant_actions-IsSound stamp (action ∷ actions) s h =
      handle_instant_actions-IsSound stamp actions (handle_instant_action stamp action s)
        (handle_instant_action-IsSound stamp action s h)
