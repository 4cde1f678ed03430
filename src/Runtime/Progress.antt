-- ===== src/Runtime/Progress.antt =====
-- agv.py: `_advance_all_pending`, for the same invariant.
use vda5050_sim.Prelude.{
  ℕ, string_eq, ◌≡◌, refl, subst, sym, List, [], ◌∷◌, if_ind, Option-cases, inl, inr, map, find,
  lookup, Run, done, raised, after, ◌>>=◌, ◌==◌,
}
use vda5050_sim.Floats.{Float}
use vda5050_sim.Schemas.{Action, ActionState, ActionStatus}
use vda5050_sim.Robot.{Agv, all_states, has_ref, same_status}
use vda5050_sim.Maps.{Effect, succeeds, fails, raises}
use vda5050_sim.Maps.Exclusive.{IsConsistent, maps_after}
use vda5050_sim.Actions.{
  settle, finish_action, start_action, run_action, advance_one, advance_ref, advance_refs,
  advance_all_pending, is_settled, has_elapsed, apply_action_effect,
}
use vda5050_sim.Actions.MapEffects.{apply_action_effect-IsConsistent}
use vda5050_sim.Actions.Statuses.{AllAdvanced}
use vda5050_sim.Actions.Transitions.{advance_all_pending-OrderAdvanced}
use vda5050_sim.Orders.Registration.{Distinct}
use vda5050_sim.Runtime.Sound.{IsSound, modify_tracked-Alike}

ids-AllAdvanced :
    (xs ys : List ActionState)
    → AllAdvanced xs ys
    → map (λ st. st.action_id) ys ≡ map (λ st. st.action_id) xs
ids-AllAdvanced [] [] h = refl
ids-AllAdvanced [] (y ∷ ys) h = absurd (h tt)
ids-AllAdvanced (x ∷ xs) [] h = absurd (h tt)
ids-AllAdvanced (x ∷ xs) (y ∷ ys) h = rw (h.0.same_id, ids-AllAdvanced xs ys h.1) refl

module _ {R : Type 0} ⦃fl : Float R⦄ where
  settle_maps : (st : ActionState) (e : Effect R) → (after (settle st e)).maps ≡ maps_after e
  settle_maps st (succeeds u) = (modify_tracked-Alike _ _ u (λ x. refl)).maps
  settle_maps st (fails reason u) = (modify_tracked-Alike _ _ u (λ x. refl)).maps
  settle_maps st (raises u) = refl

  abbrev HasMaps : Agv R → Type 0
  HasMaps s = IsConsistent s.maps

  run_action-HasMaps :
      (st : ActionState) (action : Action R) (s : Agv R)
      → HasMaps s
      → HasMaps (after (run_action st action s))
  unfolding run_action finish_action
  run_action-HasMaps st action s h =
      if_ind (λ r. HasMaps (after r)) (action.action_type == "waitForTrigger") (λ _. h)
        (λ _.
          if_ind (λ r. HasMaps (after r)) (has_elapsed st s)
            (λ _.
              subst IsConsistent (sym (settle_maps st (apply_action_effect action s)))
                (apply_action_effect-IsConsistent action s h))
            (λ _. h))

  start_action-HasMaps : (st : ActionState) (s : Agv R) → HasMaps s → HasMaps (start_action st s)
  unfolding start_action
  start_action-HasMaps st s h =
      subst IsConsistent (sym (modify_tracked-Alike (has_ref st.ref) _ s (λ x. refl)).maps) h

  advance_one-HasMaps :
      (st : ActionState) (action : Action R) (s : Agv R)
      → HasMaps s
      → HasMaps (after (advance_one st action s))
  unfolding advance_one
  advance_one-HasMaps st action s h =
      if_ind (λ r. HasMaps (after r)) (is_settled st.action_status) (λ _. h)
        (λ _.
          if_ind (λ r. HasMaps (after r)) (same_status st.action_status ActionStatus.waiting)
            (λ _. run_action-HasMaps st action (start_action st s) (start_action-HasMaps st s h))
            (λ _.
              if_ind (λ r. HasMaps (after r)) (same_status st.action_status ActionStatus.running)
                (λ _. run_action-HasMaps st action s h) (λ _. h)))

  advance_ref-HasMaps : (r : ℕ) (s : Agv R) → HasMaps s → HasMaps (after (advance_ref r s))
  unfolding advance_ref
  advance_ref-HasMaps r s h = elim (Option-cases (find (has_ref r) (all_states s))) [
    | inl e ↦ rw (e, advance_ref) h
    | inr (st, e) ↦ elim (Option-cases (lookup st.action_id s.action_registry)) [
      | inl e' ↦ rw (e, advance_ref, e') h
      | inr (action, e') ↦ rw (e, advance_ref, e') (advance_one-HasMaps st action s h)
    ]
  ]

  advance_refs-HasMaps : (rs : List ℕ) (s : Agv R) → HasMaps s → HasMaps (after (advance_refs rs s))
  unfolding advance_refs
  advance_refs-HasMaps [] s h = h
  advance_refs-HasMaps (r ∷ rs) s h =
      go (advance_ref r s) (advance_ref-HasMaps r s h) (advance_refs-HasMaps rs)
    where
      go :
          (m : Run (Agv R))
          → HasMaps (after m)
          → ((u : Agv R) → HasMaps u → HasMaps (after (advance_refs rs u)))
          → HasMaps (after (m >>= λ s'. advance_refs rs s'))
      go (raised u) k rest = k
      go (done u) k rest = rest u k

  pub advance_all_pending-IsSound :
      (s : Agv R) → IsSound s → IsSound (after (advance_all_pending s))
  unfolding advance_all_pending
  advance_all_pending-IsSound s h = record {
    distinct =
        subst Distinct
          (sym (ids-AllAdvanced s.action_states _ (advance_all_pending-OrderAdvanced s)))
          h.distinct;
    consistent = advance_refs-HasMaps (map (λ st. st.ref) (all_states s)) s h.consistent;
  }
