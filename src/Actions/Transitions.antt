-- ===== src/Actions/Transitions.antt =====
-- agv.py: how `_advance_all_pending` changes the states of the order's actions.
use vda5050_sim.Prelude.{
  ℕ, nat_eq, string_eq, Bool, ◌≡◌, inl, inr, refl, sym, ap, ◌∙◌, subst, some, List, [], ◌∷◌, ◌++◌,
  arith, if_ind, Bool-cases, Option-cases, ◌==◌, any, find, lookup, map, Run, done, raised, after,
  ◌>>=◌,
}
use vda5050_sim.Floats.{Float}
use vda5050_sim.Schemas.{Action, ActionState, ActionStatus}
use vda5050_sim.Robot.{Agv, all_states, has_ref, same_status, set_status, modify_tracked}
use vda5050_sim.Maps.{
  Effect, succeeds, fails, raises, apply_enable_map, apply_download_map, apply_delete_map,
  apply_enable_zone_set, apply_download_zone_set, apply_delete_zone_set,
}
use vda5050_sim.Actions.Effects.{
  EffectKind, effect_kind, apply_pick, apply_drop, clear_terminal_instants, clear_terminal_zones,
  apply_initialize_position, apply_kind, apply_action_effect,
}
use vda5050_sim.Actions.Progress.{
  fail_with, settle, finish_action, start_action, run_action, advance_one, advance_ref,
  advance_refs, advance_all_pending, is_settled, has_elapsed,
}
use vda5050_sim.Actions.Statuses.{
  Advanced, AllAdvanced, AllAdvanced-refl, AllAdvanced-trans, modify_first-AllAdvanced,
  same_status_eq, find_absent, find-append, find_ref, set_status-Advanced, modify_first_status,
}

module _ {R : Type 0} where
  -- `t`'s order actions are those of `s`, advanced.
  abbrev pub OrderAdvanced : Agv R → Agv R → Type 0
  OrderAdvanced s t = AllAdvanced s.action_states t.action_states

  OrderAdvanced-trans : (s t u : Agv R) → OrderAdvanced s t → OrderAdvanced t u → OrderAdvanced s u
  OrderAdvanced-trans s t u h k =
      AllAdvanced-trans s.action_states t.action_states u.action_states h k

  modify_tracked-OrderAdvanced :
      (p : ActionState → Bool) (f : ActionState → ActionState) (s : Agv R)
      → ((st : ActionState) → find p s.action_states ≡ some st → Advanced st (f st))
      → OrderAdvanced s (modify_tracked p f s)
  unfolding modify_tracked
  modify_tracked-OrderAdvanced p f s step =
      if_ind (OrderAdvanced s) (any p s.action_states)
        (λ _. modify_first-AllAdvanced p f s.action_states step)
        (λ _.
          if_ind (OrderAdvanced s) (any p s.instant_action_states)
            (λ _. AllAdvanced-refl s.action_states) (λ _. AllAdvanced-refl s.action_states))

  -- The robot after an effect, whatever its result.
  abbrev pub affected : Effect R → Agv R
  affected (succeeds s) = s
  affected (fails reason s) = s
  affected (raises s) = s

module _ {R : Type 0} ⦃fl : Float R⦄ where
  apply_kind_keeps :
      (kind : EffectKind) (action : Action R) (s : Agv R)
      → (affected (apply_kind kind action s)).action_states ≡ s.action_states
  unfolding apply_kind apply_enable_map apply_download_map apply_delete_map apply_enable_zone_set
      apply_download_zone_set apply_delete_zone_set apply_pick apply_drop clear_terminal_instants
      clear_terminal_zones apply_initialize_position
  apply_kind_keeps kind action s = ground arith

  -- The order action with this reference, if there is one, has the status.
  abbrev HasStatus : ℕ → ActionStatus → Agv R → Type 0
  HasStatus r status s =
      (st : ActionState) → find (has_ref r) s.action_states ≡ some st → st.action_status ≡ status

  settle-OrderAdvanced :
      (st : ActionState) (s : Agv R) (e : Effect R)
      → (affected e).action_states ≡ s.action_states
      → HasStatus st.ref ActionStatus.running s
      → OrderAdvanced s (after (settle st e))
  settle-OrderAdvanced st s (raises u) same running =
      subst (λ xs. AllAdvanced s.action_states xs) (sym same) (AllAdvanced-refl s.action_states)
  settle-OrderAdvanced st s (succeeds u) same running =
      subst (λ xs. AllAdvanced xs (after (settle st (succeeds u))).action_states) same
        (modify_tracked-OrderAdvanced (has_ref st.ref) (set_status ActionStatus.finished) u λ x h.
          set_status-Advanced x ActionStatus.finished
            (rw (running x (ap (find (has_ref st.ref)) (sym same) ∙ h)) refl))
  settle-OrderAdvanced st s (fails reason u) same running =
      subst (λ xs. AllAdvanced xs (after (settle st (fails reason u))).action_states) same
        (modify_tracked-OrderAdvanced (has_ref st.ref) (fail_with reason) u λ x h. record {
          same_ref = refl;
          same_id = refl;
          same_type = refl;
          legal = rw (running x (ap (find (has_ref st.ref)) (sym same) ∙ h)) refl;
        })

  run_action-OrderAdvanced :
      (st : ActionState) (action : Action R) (s : Agv R)
      → HasStatus st.ref ActionStatus.running s
      → OrderAdvanced s (after (run_action st action s))
  unfolding run_action finish_action apply_action_effect
  run_action-OrderAdvanced st action s running =
      if_ind (λ r. OrderAdvanced s (after r)) (action.action_type == "waitForTrigger")
        (λ _. AllAdvanced-refl s.action_states)
        (λ _.
          if_ind (λ r. OrderAdvanced s (after r)) (has_elapsed st s)
            (λ _.
              settle-OrderAdvanced st s (apply_kind (effect_kind action.action_type) action s)
                (apply_kind_keeps (effect_kind action.action_type) action s) running)
            (λ _. AllAdvanced-refl s.action_states))

  start_action-OrderAdvanced :
      (st : ActionState) (s : Agv R)
      → HasStatus st.ref ActionStatus.waiting s
      → OrderAdvanced s (start_action st s)
  unfolding start_action
  start_action-OrderAdvanced st s waiting =
      modify_tracked-OrderAdvanced (has_ref st.ref) (set_status ActionStatus.running) s
        λ x h. set_status-Advanced x ActionStatus.running (rw (waiting x h) refl)

  start_action-HasStatus :
      (st : ActionState) (s : Agv R) → HasStatus st.ref ActionStatus.running (start_action st s)
  unfolding start_action modify_tracked
  start_action-HasStatus st s x = elim (Bool-cases (any (has_ref st.ref) s.action_states)) [
    | inl here ↦
        λ h. modify_first_status st.ref ActionStatus.running s.action_states x (rw here at h)
    | inr absent ↦ λ h. ground (arith, find_absent (has_ref st.ref) s.action_states absent)
  ]

  advance_one-OrderAdvanced :
      (st : ActionState) (action : Action R) (s : Agv R)
      → HasStatus st.ref st.action_status s
      → OrderAdvanced s (after (advance_one st action s))
  unfolding advance_one
  advance_one-OrderAdvanced st action s h =
      if_ind (λ r. OrderAdvanced s (after r)) (is_settled st.action_status)
        (λ _. AllAdvanced-refl s.action_states)
        (λ _.
          if_ind (λ r. OrderAdvanced s (after r))
            (same_status st.action_status ActionStatus.waiting)
            (λ w.
              OrderAdvanced-trans s (start_action st s)
                (after (run_action st action (start_action st s)))
                (start_action-OrderAdvanced st s
                  (λ x e. h x e ∙ same_status_eq st.action_status ActionStatus.waiting w))
                (run_action-OrderAdvanced st action (start_action st s)
                  (start_action-HasStatus st s)))
            (λ _.
              if_ind (λ r. OrderAdvanced s (after r))
                (same_status st.action_status ActionStatus.running)
                (λ w.
                  run_action-OrderAdvanced st action s
                    (λ x e. h x e ∙ same_status_eq st.action_status ActionStatus.running w))
                (λ _. AllAdvanced-refl s.action_states)))

  -- The state that a round finds is the order's, if the order has one with that reference.
  found_status :
      (r : ℕ) (s : Agv R) (st : ActionState)
      → find (has_ref r) (all_states s) ≡ some st
      → HasStatus st.ref st.action_status s
  found_status r s st e x h =
      let same : find (has_ref r) (all_states s) ≡ some x =
        find-append (has_ref r) s.action_states (s.instant_action_states ++ s.zone_action_states) x
          (subst (λ k. find (has_ref k) s.action_states ≡ some x) (find_ref r (all_states s) st e)
            h) in
      cc

  advance_ref-OrderAdvanced : (r : ℕ) (s : Agv R) → OrderAdvanced s (after (advance_ref r s))
  unfolding advance_ref
  advance_ref-OrderAdvanced r s = elim (Option-cases (find (has_ref r) (all_states s))) [
    | inl e ↦ rw (e, advance_ref) (AllAdvanced-refl s.action_states)
    | inr (st, e) ↦ elim (Option-cases (lookup st.action_id s.action_registry)) [
      | inl e' ↦ rw (e, advance_ref, e') (AllAdvanced-refl s.action_states)
      | inr (action, e') ↦
          rw (e, advance_ref, e') (advance_one-OrderAdvanced st action s (found_status r s st e))
    ]
  ]

  advance_refs-OrderAdvanced :
      (rs : List ℕ) (s : Agv R) → OrderAdvanced s (after (advance_refs rs s))
  unfolding advance_refs
  advance_refs-OrderAdvanced [] s = AllAdvanced-refl s.action_states
  advance_refs-OrderAdvanced (r ∷ rs) s =
      go (advance_ref r s) (advance_ref-OrderAdvanced r s) (advance_refs-OrderAdvanced rs)
    where
      go :
          (m : Run (Agv R))
          → OrderAdvanced s (after m)
          → ((u : Agv R) → OrderAdvanced u (after (advance_refs rs u)))
          → OrderAdvanced s (after (m >>= λ s'. advance_refs rs s'))
      go (raised u) h rest = h
      go (done u) h rest = OrderAdvanced-trans s u (after (advance_refs rs u)) h (rest u)

  -- While the robot lets its actions progress, also if an exception ends that early, no action of
  -- the order comes or goes, and the status of each takes only legal steps: WAITING starts, RUNNING
  -- ends FINISHED or FAILED, and INITIALIZING, PAUSED, RETRIABLE, FINISHED and FAILED stay.
  pub advance_all_pending-OrderAdvanced :
      (s : Agv R) → OrderAdvanced s (after (advance_all_pending s))
  unfolding advance_all_pending
  advance_all_pending-OrderAdvanced s =
      advance_refs-OrderAdvanced (map (λ st. st.ref) (all_states s)) s
