-- ===== src/Battery/Kept.antt =====
-- agv.py: the operations of a tick that do not write the charge or the settings.
use vda5050_sim.Prelude.{
  ℕ, Bool, ◌≡◌, refl, ◌∙◌, List, [], ◌∷◌, ◌++◌, arith, if_ind, Option-cases, inl, inr, lookup, find,
  map, Dict, is_some, String, string_eq, Run, done, raised, after, ◌>>=◌, ◌==◌,
}
use vda5050_sim.Floats.{Float}
use vda5050_sim.Schemas.{Action, ActionState, ActionStatus, Zone}
use vda5050_sim.Robot.{Agv, all_states, has_ref, modify_tracked, append_zone_state, same_status}
use vda5050_sim.Maps.{
  Effect, succeeds, fails, raises, apply_enable_map, apply_download_map, apply_delete_map,
  apply_enable_zone_set, apply_download_zone_set, apply_delete_zone_set,
}
use vda5050_sim.Actions.{
  EffectKind, effect_kind, apply_pick, apply_drop, clear_terminal_instants, clear_terminal_zones,
  apply_initialize_position, apply_kind, apply_action_effect, settle, finish_action, start_action,
  run_action, advance_one, advance_ref, advance_refs, advance_all_pending, is_settled, has_elapsed,
}
use vda5050_sim.Actions.Transitions.{affected}
use vda5050_sim.Zones.{
  Clock, check_lease_expiry, expire_all, register_zone_action, register_zone_actions, enter_zones,
  exit_zones, update_zone_actions,
}

module _ {R : Type 0} where
  pub record Kept (s t : Agv R) : Type 0 where
    pub setup : t.setup ≡ s.setup
    pub battery : t.battery_soc ≡ s.battery_soc

  pub Kept-refl : (s : Agv R) → Kept s s
  Kept-refl s = record { setup = refl; battery = refl }

  pub Kept-trans : (s t u : Agv R) → Kept s t → Kept t u → Kept s u
  Kept-trans s t u h k = record { setup = k.setup ∙ h.setup; battery = k.battery ∙ h.battery }

  modify_tracked-Kept :
      (p : ActionState → Bool) (f : ActionState → ActionState) (s : Agv R)
      → Kept s (modify_tracked p f s)
  unfolding modify_tracked
  modify_tracked-Kept p f s = record { setup = ground arith; battery = ground arith }

  register_zone_action-Kept :
      (action : Action R) (s : Agv R) → Kept s (register_zone_action action s)
  unfolding register_zone_action append_zone_state
  register_zone_action-Kept action s = record { setup = ground arith; battery = ground arith }

  register_zone_actions-Kept :
      (actions : List (Action R)) (s : Agv R) → Kept s (register_zone_actions actions s)
  unfolding register_zone_actions
  register_zone_actions-Kept [] s = Kept-refl s
  register_zone_actions-Kept (a ∷ actions) s =
      Kept-trans s (register_zone_action a s)
        (register_zone_actions actions (register_zone_action a s)) (register_zone_action-Kept a s)
        (register_zone_actions-Kept actions (register_zone_action a s))

  enter_zones-Kept : (d : Dict String (Zone R)) (s : Agv R) → Kept s (enter_zones d s)
  unfolding enter_zones
  enter_zones-Kept [] s = Kept-refl s
  enter_zones-Kept ((zone_id, zone) ∷ rest) s =
      let entered = register_zone_actions (zone.entry_actions ++ zone.during_actions) s in
      if_ind (λ t. Kept s (enter_zones rest t)) (is_some (lookup zone_id s.zone_occupancy))
        (λ _. enter_zones-Kept rest s)
        (λ _.
          Kept-trans s entered (enter_zones rest entered) (register_zone_actions-Kept _ s)
            (enter_zones-Kept rest entered))

  exit_zones-Kept : (present d : Dict String (Zone R)) (s : Agv R) → Kept s (exit_zones present d s)
  unfolding exit_zones
  exit_zones-Kept present [] s = Kept-refl s
  exit_zones-Kept present ((zone_id, zone) ∷ rest) s =
      let left = register_zone_actions zone.exit_actions s in
      if_ind (λ t. Kept s (exit_zones present rest t)) (is_some (lookup zone_id present))
        (λ _. exit_zones-Kept present rest s)
        (λ _.
          Kept-trans s left (exit_zones present rest left) (register_zone_actions-Kept _ s)
            (exit_zones-Kept present rest left))

  pub check_lease_expiry-Kept :
      (clock : Clock) (s : Agv R) → Kept s (after (check_lease_expiry clock s))
  unfolding check_lease_expiry expire_all
  check_lease_expiry-Kept clock s = record { setup = ground arith; battery = ground arith }

module _ {R : Type 0} ⦃fl : Float R⦄ where
  settle-Kept :
      (st : ActionState) (s : Agv R) (e : Effect R)
      → Kept s (affected e)
      → Kept s (after (settle st e))
  settle-Kept st s (succeeds u) h =
      Kept-trans s u (after (settle st (succeeds u))) h (modify_tracked-Kept _ _ u)
  settle-Kept st s (fails reason u) h =
      Kept-trans s u (after (settle st (fails reason u))) h (modify_tracked-Kept _ _ u)
  settle-Kept st s (raises u) h = h

  apply_kind-Kept :
      (kind : EffectKind) (action : Action R) (s : Agv R)
      → Kept s (affected (apply_kind kind action s))
  unfolding apply_kind apply_enable_map apply_download_map apply_delete_map apply_enable_zone_set
      apply_download_zone_set apply_delete_zone_set apply_pick apply_drop clear_terminal_instants
      clear_terminal_zones apply_initialize_position
  apply_kind-Kept kind action s = record { setup = ground arith; battery = ground arith }

  run_action-Kept :
      (st : ActionState) (action : Action R) (s : Agv R) → Kept s (after (run_action st action s))
  unfolding run_action finish_action apply_action_effect
  run_action-Kept st action s =
      if_ind (λ r. Kept s (after r)) (action.action_type == "waitForTrigger") (λ _. Kept-refl s)
        (λ _.
          if_ind (λ r. Kept s (after r)) (has_elapsed st s)
            (λ _.
              settle-Kept st s (apply_kind (effect_kind action.action_type) action s)
                (apply_kind-Kept (effect_kind action.action_type) action s))
            (λ _. Kept-refl s))

  start_action-Kept : (st : ActionState) (s : Agv R) → Kept s (start_action st s)
  unfolding start_action
  start_action-Kept st s =
      let k = modify_tracked-Kept (has_ref st.ref) _ s in
      record { setup = k.setup; battery = k.battery }

  advance_one-Kept :
      (st : ActionState) (action : Action R) (s : Agv R) → Kept s (after (advance_one st action s))
  unfolding advance_one
  advance_one-Kept st action s =
      if_ind (λ r. Kept s (after r)) (is_settled st.action_status) (λ _. Kept-refl s)
        (λ _.
          if_ind (λ r. Kept s (after r)) (same_status st.action_status ActionStatus.waiting)
            (λ _.
              Kept-trans s (start_action st s) (after (run_action st action (start_action st s)))
                (start_action-Kept st s) (run_action-Kept st action (start_action st s)))
            (λ _.
              if_ind (λ r. Kept s (after r)) (same_status st.action_status ActionStatus.running)
                (λ _. run_action-Kept st action s) (λ _. Kept-refl s)))

  advance_ref-Kept : (r : ℕ) (s : Agv R) → Kept s (after (advance_ref r s))
  unfolding advance_ref
  advance_ref-Kept r s = elim (Option-cases (find (has_ref r) (all_states s))) [
    | inl e ↦ rw (e, advance_ref) (Kept-refl s)
    | inr (st, e) ↦ elim (Option-cases (lookup st.action_id s.action_registry)) [
      | inl e' ↦ rw (e, advance_ref, e') (Kept-refl s)
      | inr (action, e') ↦ rw (e, advance_ref, e') (advance_one-Kept st action s)
    ]
  ]

  advance_refs-Kept : (rs : List ℕ) (s : Agv R) → Kept s (after (advance_refs rs s))
  unfolding advance_refs
  advance_refs-Kept [] s = Kept-refl s
  advance_refs-Kept (r ∷ rs) s = go (advance_ref r s) (advance_ref-Kept r s) (advance_refs-Kept rs)
    where
      go :
          (m : Run (Agv R))
          → Kept s (after m)
          → ((u : Agv R) → Kept u (after (advance_refs rs u)))
          → Kept s (after (m >>= λ s'. advance_refs rs s'))
      go (raised u) h rest = h
      go (done u) h rest = Kept-trans s u (after (advance_refs rs u)) h (rest u)

  pub advance_all_pending-Kept : (s : Agv R) → Kept s (after (advance_all_pending s))
  unfolding advance_all_pending
  advance_all_pending-Kept s = advance_refs-Kept (map (λ st. st.ref) (all_states s)) s

  pub update_zone_actions-Kept : (s : Agv R) → Kept s (update_zone_actions s)
  unfolding update_zone_actions
  update_zone_actions-Kept s =
      let entered = enter_zones-Kept _ s in
      let left = exit_zones-Kept _ s.zone_occupancy _ in
      record { setup = left.setup ∙ entered.setup; battery = left.battery ∙ entered.battery }
