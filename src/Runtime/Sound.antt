-- ===== src/Runtime/Sound.antt =====
-- agv.py: the invariant of a robot's life, and the small writes of its operations.
use vda5050_sim.Prelude.{
  String, Bool, ◌≡◌, refl, ◌∙◌, subst, sym, Option, List, [], ◌∷◌, if_ind, any, map, modify_first,
  Bool-cases, inl, inr,
}
use vda5050_sim.Schemas.{Action, ActionState, ActionStatus}
use vda5050_sim.Robot.{Agv, modify_tracked, append_instant_state, report}
use vda5050_sim.Maps.{reject_instant_action}
use vda5050_sim.Maps.Exclusive.{IsConsistent}
use vda5050_sim.Orders.{state_ids}
use vda5050_sim.Orders.Registration.{Distinct}

module _ {R : Type 0} where
  -- No action of the order is tracked twice, and no map has two enabled versions.
  pub record IsSound (s : Agv R) : Type 0 where
    pub distinct : Distinct (state_ids s)
    pub consistent : IsConsistent s.maps

  -- `t` tracks the same order actions as `s`, and has the same maps.
  pub record Alike (s t : Agv R) : Type 0 where
    pub ids : state_ids t ≡ state_ids s
    pub maps : t.maps ≡ s.maps

  pub Alike-refl : (s : Agv R) → Alike s s
  Alike-refl s = record { ids = refl; maps = refl }

  pub Alike-trans : (s t u : Agv R) → Alike s t → Alike t u → Alike s u
  Alike-trans s t u h k = record { ids = k.ids ∙ h.ids; maps = k.maps ∙ h.maps }

  pub Alike-IsSound : (s t : Agv R) → Alike s t → IsSound s → IsSound t
  Alike-IsSound s t a h = record {
    distinct = subst Distinct (sym a.ids) h.distinct;
    consistent = subst IsConsistent (sym a.maps) h.consistent;
  }

-- A write that keeps every action id.
pub ids-modify_first :
    (p : ActionState → Bool) (f : ActionState → ActionState) (xs : List ActionState)
    → ((st : ActionState) → (f st).action_id ≡ st.action_id)
    → map (λ st. st.action_id) (modify_first p f xs) ≡ map (λ st. st.action_id) xs
ids-modify_first p f [] same = refl
ids-modify_first p f (x ∷ xs) same = elim (Bool-cases (p x)) [
  | inl e ↦ rw (e, same x) refl
  | inr e ↦ rw (e, ids-modify_first p f xs same) refl
]

module _ {R : Type 0} where
  pub modify_tracked-Alike :
      (p : ActionState → Bool) (f : ActionState → ActionState) (s : Agv R)
      → ((st : ActionState) → (f st).action_id ≡ st.action_id)
      → Alike s (modify_tracked p f s)
  unfolding modify_tracked
  modify_tracked-Alike p f s same =
      if_ind (Alike s) (any p s.action_states)
        (λ _. record { ids = ids-modify_first p f s.action_states same; maps = refl })
        (λ _.
          if_ind (Alike s) (any p s.instant_action_states) (λ _. record { ids = refl; maps = refl })
            (λ _. record { ids = refl; maps = refl }))

  pub append_instant-Alike :
      (action : Action R) (status : ActionStatus) (result : Option String) (s u : Agv R)
      → Alike s u
      → Alike s (append_instant_state action status result u)
  unfolding append_instant_state
  append_instant-Alike action status result s u h = record { ids = h.ids; maps = h.maps }

  pub report-Alike : (type text : String) (s u : Agv R) → Alike s u → Alike s (report type text u)
  unfolding report
  report-Alike type text s u h = record { ids = h.ids; maps = h.maps }

  pub reject_instant-Alike :
      (action : Action R) (type reason : String) (s : Agv R)
      → Alike s (reject_instant_action action type reason s)
  unfolding reject_instant_action
  reject_instant-Alike action type reason s =
      report-Alike type reason s _
        (append_instant-Alike action ActionStatus.failed _ s s (Alike-refl s))
