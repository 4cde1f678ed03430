-- ===== src/Tick/Placing.antt =====
-- agv.py: which progress of an action changes the pose.
use vda5050_sim.Prelude.{
  ℕ, nat_eq, String, string_eq, true, ◌||◌, ◌≡◌, ◌⊎◌, inl, inr, refl, ap, ◌∙◌, subst, List, [], ◌∷◌,
  arith, if_ind, Option-cases, lookup, find, map, Run, done, raised, after, ◌>>=◌, ◌==◌,
}
use vda5050_sim.Floats.{Float}
use vda5050_sim.Schemas.{Action, ActionState, ActionStatus}
use vda5050_sim.Robot.{Agv, Tracking, all_states, has_ref, not_terminal, same_status, set_status}
use vda5050_sim.Maps.{
  Effect, succeeds, fails, raises, apply_enable_map, apply_download_map, apply_delete_map,
  apply_enable_zone_set, apply_download_zone_set, apply_delete_zone_set,
}
use vda5050_sim.Actions.{
  EffectKind, effect_kind, initialize_position, clear_instant_actions, clear_zone_actions,
  apply_pick, apply_drop, clear_terminal_instants, clear_terminal_zones, apply_initialize_position,
  apply_kind, apply_action_effect, settle, finish_action, start_action, run_action, advance_one,
  advance_ref, advance_refs, advance_all_pending, is_settled, has_elapsed, fail_with,
}
use vda5050_sim.Actions.Transitions.{affected}
use vda5050_sim.Tick.Stays.{
  tracks, tracks-filter, pose, Places, Stays, Stays-refl, Stays-trans, modify_tracked-Stays,
  is_tracked-modify_tracked, pose-modify_tracked, found,
}

places_kind : (type : String) → effect_kind type ≡ initialize_position → type ≡ "initializePosition"
unfolding effect_kind
places_kind type =
    let P = λ (k : EffectKind). k ≡ initialize_position → type ≡ "initializePosition" in
    if_ind P (type == "startCharging") (λ _ e. absurd (cc e))
      (λ _.
        if_ind P (type == "stopCharging") (λ _ e. absurd (cc e))
          (λ _.
            if_ind P (type == "initializePosition")
              (λ h _. (string_eq.beq_iff type "initializePosition").0 h)
              (λ _.
                if_ind P (type == "enableMap") (λ _ e. absurd (cc e))
                  (λ _.
                    if_ind P (type == "downloadMap") (λ _ e. absurd (cc e))
                      (λ _.
                        if_ind P (type == "deleteMap") (λ _ e. absurd (cc e))
                          (λ _.
                            if_ind P (type == "enableZoneSet") (λ _ e. absurd (cc e))
                              (λ _.
                                if_ind P (type == "downloadZoneSet") (λ _ e. absurd (cc e))
                                  (λ _.
                                    if_ind P (type == "deleteZoneSet") (λ _ e. absurd (cc e))
                                      (λ _.
                                        if_ind P (type == "pick") (λ _ e. absurd (cc e))
                                          (λ _.
                                            if_ind P (type == "drop") (λ _ e. absurd (cc e))
                                              (λ _.
                                                if_ind P (type == "clearInstantActions")
                                                  (λ _ e. absurd (cc e))
                                                  (λ _.
                                                    if_ind P (type == "clearZoneActions")
                                                      (λ _ e. absurd (cc e))
                                                      (λ _. λ e. absurd (cc e))))))))))))))

module _ {R : Type 0} ⦃fl : Float R⦄ where
  settle-Stays :
      (st : ActionState) (s : Agv R) (e : Effect R)
      → Stays s (affected e)
      → Stays s (after (settle st e))
  settle-Stays st s (succeeds u) h =
      Stays-trans s u (after (settle st (succeeds u))) h
        (modify_tracked-Stays (has_ref st.ref) (set_status ActionStatus.finished) u (λ x. refl))
  settle-Stays st s (fails reason u) h =
      Stays-trans s u (after (settle st (fails reason u))) h
        (modify_tracked-Stays (has_ref st.ref) (fail_with reason) u (λ x. refl))
  settle-Stays st s (raises u) h = h

  -- An effect that keeps the tracked actions and the pose.
  steady : (s u : Agv R) → u.tracking ≡ s.tracking → pose u ≡ pose s → Stays s u
  steady s u same still = record {
    registry = ap (λ (k : Tracking R). k.action_registry) same;
    tracked = λ id h.
        subst
          (λ (k : Tracking R).
            (tracks id k.action_states
              || (tracks id k.instant_action_states || tracks id k.zone_action_states))
            ≡ true)
          same h;
    stays = inl still;
  }

  apply_kind-Stays :
      (kind : EffectKind) (action : Action R) (s : Agv R)
      → (kind ≡ initialize_position → Places s)
      → Stays s (affected (apply_kind kind action s))
  unfolding apply_kind apply_enable_map apply_download_map apply_delete_map apply_enable_zone_set
      apply_download_zone_set apply_delete_zone_set apply_pick apply_drop clear_terminal_instants
      clear_terminal_zones apply_initialize_position
  apply_kind-Stays initialize_position action s places = record {
    registry = ground arith;
    tracked = λ id h. ground (arith, h);
    stays = inr (places refl);
  }
  apply_kind-Stays clear_instant_actions action s places = record {
    registry = refl;
    tracked = λ id h. ground (arith, h, tracks-filter id not_terminal s.instant_action_states);
    stays = inl refl;
  }
  apply_kind-Stays clear_zone_actions action s places = record {
    registry = refl;
    tracked = λ id h. ground (arith, h, tracks-filter id not_terminal s.zone_action_states);
    stays = inl refl;
  }
  apply_kind-Stays kind action s places =
      steady s (affected (apply_kind kind action s)) (ground arith) (ground arith)

  run_action-Stays :
      (st : ActionState) (action : Action R) (s : Agv R)
      → (action.action_type ≡ "initializePosition" → Places s)
      → Stays s (after (run_action st action s))
  unfolding run_action finish_action apply_action_effect
  run_action-Stays st action s places =
      if_ind (λ r. Stays s (after r)) (action.action_type == "waitForTrigger") (λ _. Stays-refl s)
        (λ _.
          if_ind (λ r. Stays s (after r)) (has_elapsed st s)
            (λ _. settle-Stays st s (apply_kind (effect_kind action.action_type) action s) (
              apply_kind-Stays (effect_kind action.action_type) action s
                (λ k. places (places_kind action.action_type k))))
            (λ _. Stays-refl s))

  start_action-Stays : (st : ActionState) (s : Agv R) → Stays s (start_action st s)
  unfolding start_action
  start_action-Stays st s =
      let k =
        modify_tracked-Stays (has_ref st.ref) (set_status ActionStatus.running) s (λ x. refl) in
      record {
        registry = k.registry;
        tracked = k.tracked;
        stays = inl (pose-modify_tracked (has_ref st.ref) (set_status ActionStatus.running) s);
      }

  start_action-Places : (st : ActionState) (s : Agv R) → Places s → Places (start_action st s)
  unfolding start_action
  start_action-Places st s p = record {
    id = p.id;
    action = p.action;
    tracked =
        is_tracked-modify_tracked p.id (has_ref st.ref) (set_status ActionStatus.running) s
          (λ x. refl)
        ∙ p.tracked;
    registered =
        ap (λ d. lookup p.id d)
          (modify_tracked-Stays (has_ref st.ref) (set_status ActionStatus.running) s
            (λ x. refl)).registry
        ∙ p.registered;
    places = p.places;
  }

  advance_one-Stays :
      (st : ActionState) (action : Action R) (s : Agv R)
      → (action.action_type ≡ "initializePosition" → Places s)
      → Stays s (after (advance_one st action s))
  unfolding advance_one
  advance_one-Stays st action s places =
      if_ind (λ r. Stays s (after r)) (is_settled st.action_status) (λ _. Stays-refl s)
        (λ _.
          if_ind (λ r. Stays s (after r)) (same_status st.action_status ActionStatus.waiting)
            (λ _.
              Stays-trans s (start_action st s) (after (run_action st action (start_action st s)))
                (start_action-Stays st s)
                (run_action-Stays st action (start_action st s)
                  (λ e. start_action-Places st s (places e))))
            (λ _.
              if_ind (λ r. Stays s (after r)) (same_status st.action_status ActionStatus.running)
                (λ _. run_action-Stays st action s places) (λ _. Stays-refl s)))

  advance_ref-Stays : (r : ℕ) (s : Agv R) → Stays s (after (advance_ref r s))
  unfolding advance_ref
  advance_ref-Stays r s = elim (Option-cases (find (has_ref r) (all_states s))) [
    | inl e ↦ rw (e, advance_ref) (Stays-refl s)
    | inr (st, e) ↦ elim (Option-cases (lookup st.action_id s.action_registry)) [
      | inl e' ↦ rw (e, advance_ref, e') (Stays-refl s)
      | inr (action, e') ↦
          rw (e, advance_ref, e')
            (advance_one-Stays st action s (λ type. record {
              id = st.action_id;
              action = action;
              tracked = found r s st e;
              registered = e';
              places = type;
            }))
    ]
  ]

  advance_refs-Stays : (rs : List ℕ) (s : Agv R) → Stays s (after (advance_refs rs s))
  unfolding advance_refs
  advance_refs-Stays [] s = Stays-refl s
  advance_refs-Stays (r ∷ rs) s =
      go (advance_ref r s) (advance_ref-Stays r s) (advance_refs-Stays rs)
    where
      go :
          (m : Run (Agv R))
          → Stays s (after m)
          → ((u : Agv R) → Stays u (after (advance_refs rs u)))
          → Stays s (after (m >>= λ s'. advance_refs rs s'))
      go (raised u) h rest = h
      go (done u) h rest = Stays-trans s u (after (advance_refs rs u)) h (rest u)

  -- While actions progress, the pose changes only if the robot tracks an initializePosition action.
  pub advance_all_pending-Stays :
      (s : Agv R) → (pose (after (advance_all_pending s)) ≡ pose s) ⊎ Places s
  unfolding advance_all_pending
  advance_all_pending-Stays s =
      (advance_refs-Stays (map (λ (st : ActionState). st.ref) (all_states s)) s).stays
