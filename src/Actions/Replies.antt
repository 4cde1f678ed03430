-- ===== src/Actions/Replies.antt =====
-- agv.py: the answers of the branches of `_handle_instant_action`.
use vda5050_sim.Prelude.{
  String, string_eq, Bool, true, false, not, ◌&&◌, ◌≡◌, ◌⊎◌, inl, inr, refl, Option, some, List, [],
  ◌∷◌, ◌++◌, arith, if_ind, is_some, ◌==◌, contains, lookup, pair_eq,
}
use vda5050_sim.Schemas.{Action, ActionState, ActionStatus, Error}
use vda5050_sim.Robot.{Agv, same_status, append_instant_state, report, is_idle, modify_tracked}
use vda5050_sim.Maps.{
  reject_instant_action, start_download_map, start_download_zone_set, map_key, zone_set_key,
}
use vda5050_sim.Actions.Instants.{
  handle_cancel, handle_shutdown, start_download, handle_other_instant, register_timer_instant,
  release_oldest, timer_instant_actions,
}

module _ {R : Type 0} where
  -- The answer is FAILED and comes with one error, or it is not FAILED and comes with none.
  abbrev pub Verdict : ActionStatus → Agv R → Agv R → Type 0
  Verdict status s t =
      ((status ≡ ActionStatus.failed)
        × ((e : Error) × (t.pending_errors ≡ s.pending_errors ++ e ∷ [])))
      ⊎ ((same_status status ActionStatus.failed ≡ false) × (t.pending_errors ≡ s.pending_errors))

  -- The state of the action stands last in the list of the instant actions.
  pub record Answered (action : Action R) (s t : Agv R) : Type 0 where
    pub earlier : List ActionState
    pub state : ActionState
    pub appended : t.instant_action_states ≡ earlier ++ state ∷ []
    pub same_id : state.action_id ≡ action.action_id
    pub same_type : state.action_type ≡ some action.action_type
    pub verdict : Verdict state.action_status s t

  pub reject-Answered :
      (action : Action R) (type reason : String) (s : Agv R)
      → Answered action s (reject_instant_action action type reason s)
  unfolding reject_instant_action append_instant_state report
  reject-Answered action type reason s = record {
    earlier = s.instant_action_states;
    state = _;
    appended = refl;
    same_id = refl;
    same_type = refl;
    verdict = inl (refl, (_, refl));
  }

  pub append-Answered :
      (action : Action R) (status : ActionStatus) (result : Option String) (s u : Agv R)
      → same_status status ActionStatus.failed ≡ false
      → u.pending_errors ≡ s.pending_errors
      → Answered action s (append_instant_state action status result u)
  unfolding append_instant_state
  append-Answered action status result s u ok same = record {
    earlier = u.instant_action_states;
    state = _;
    appended = refl;
    same_id = refl;
    same_type = refl;
    verdict = inr (ok, same);
  }

  pub errors-modify_tracked :
      (p : ActionState → Bool) (f : ActionState → ActionState) (s : Agv R)
      → (modify_tracked p f s).pending_errors ≡ s.pending_errors
  unfolding modify_tracked
  errors-modify_tracked p f s = ground arith

  pub errors-release_oldest : (s : Agv R) → (release_oldest s).pending_errors ≡ s.pending_errors
  unfolding release_oldest
  errors-release_oldest s = ground arith

  register_timer-Answered :
      (action : Action R) (s : Agv R) → Answered action s (register_timer_instant action s)
  unfolding register_timer_instant
  register_timer-Answered action s = append-Answered action _ _ s _ refl refl

  pub handle_cancel-Answered :
      (action : Action R) (s : Agv R) → Answered action s (handle_cancel action s)
  unfolding handle_cancel append_instant_state
  handle_cancel-Answered action s =
      if_ind (Answered action s) (not (s.order_id == "") && not (is_idle s))
        (λ _. record {
          earlier = s.instant_action_states;
          state = _;
          appended = refl;
          same_id = refl;
          same_type = refl;
          verdict = inr (refl, refl);
        })
        (λ _. reject-Answered action _ _ s)

  pub handle_shutdown-Answered :
      (action : Action R) (s : Agv R) → Answered action s (handle_shutdown action s)
  unfolding handle_shutdown
  handle_shutdown-Answered action s =
      if_ind (Answered action s) (is_idle s) (λ _. append-Answered action _ _ s _ refl refl)
        (λ _. reject-Answered action _ _ s)

  pub download_map-Answered :
      (action : Action R) (s : Agv R)
      → Answered action s (start_download action (start_download_map action s))
  unfolding start_download_map
  download_map-Answered action s =
      if_ind (λ (r : Agv R × Bool). Answered action s (start_download action r))
        (is_some (lookup (map_key action) s.maps)) {x = (reject_instant_action action _ _ s, false)}
        {y = (s, true)} (λ _. reject-Answered action _ _ s) (λ _. register_timer-Answered action s)

  pub download_zone_set-Answered :
      (action : Action R) (s : Agv R)
      → Answered action s (start_download action (start_download_zone_set action s))
  unfolding start_download_zone_set
  download_zone_set-Answered action s =
      if_ind (λ (r : Agv R × Bool). Answered action s (start_download action r))
        (is_some (lookup (zone_set_key action) s.zone_sets))
        {x = (reject_instant_action action _ _ s, false)} {y = (s, true)}
        (λ _. reject-Answered action _ _ s) (λ _. register_timer-Answered action s)

  pub handle_other-Answered :
      (action : Action R) (s : Agv R) → Answered action s (handle_other_instant action s)
  unfolding handle_other_instant
  handle_other-Answered action s =
      if_ind (Answered action s) (contains action.action_type timer_instant_actions)
        (λ _. register_timer-Answered action s)
        (λ _.
          if_ind (Answered action s) (contains action.action_type s.cfg.supported_actions)
            (λ _. register_timer-Answered action s) (λ _. reject-Answered action _ _ s))
