-- ===== src/Tick/Stays.antt =====
-- agv.py: states in which no action has come up and the pose has no other cause.
use vda5050_sim.Prelude.{
  ℕ, nat_eq, Eq, String, string_eq, Bool, true, ◌||◌, ◌≡◌, ◌⊎◌, inl, inr, refl, ◌∙◌, subst, some,
  List, [], ◌∷◌, ◌++◌, arith, if_ind, lookup, find, filter, any, modify_first, ◌==◌,
}
use vda5050_sim.Schemas.{Action, ActionState}
use vda5050_sim.Robot.{Agv, all_states, has_ref, modify_tracked}

-- A state of this action.
abbrev pub tracks : String → List ActionState → Bool
tracks id xs = any (λ (st : ActionState). st.action_id == id) xs

tracks-append :
    (id : String) (xs ys : List ActionState) → tracks id (xs ++ ys) ≡ (tracks id xs || tracks id ys)
tracks-append id [] ys = refl
tracks-append id (x ∷ xs) ys = ground (arith, tracks-append id xs ys)

tracks-modify_first :
    (id : String) (p : ActionState → Bool) (f : ActionState → ActionState) (xs : List ActionState)
    → ((st : ActionState) → (f st).action_id ≡ st.action_id)
    → tracks id (modify_first p f xs) ≡ tracks id xs
tracks-modify_first id p f [] same = refl
tracks-modify_first id p f (x ∷ xs) same =
    ground (arith, same x, tracks-modify_first id p f xs same)

pub tracks-filter :
    (id : String) (p : ActionState → Bool) (xs : List ActionState)
    → tracks id (filter p xs) ≡ true
    → tracks id xs ≡ true
tracks-filter id p [] h = h
tracks-filter id p (x ∷ xs) h = ground (arith, h, tracks-filter id p xs)

tracks-find :
    (r : ℕ) (xs : List ActionState) (st : ActionState)
    → find (has_ref r) xs ≡ some st
    → tracks st.action_id xs ≡ true
tracks-find r [] st e = absurd (cc e)
tracks-find r (x ∷ xs) st e =
    ground (arith, e, tracks-find r xs st, Eq.beq_iff string_eq x.action_id st.action_id)

module _ {R : Type 0} where
  abbrev pub pose : Agv R → R × R × R
  pose s = (s.x, s.y, s.theta)

  -- A state of the action stands in one of the three lists.
  abbrev pub is_tracked : String → Agv R → Bool
  is_tracked id s =
      tracks id s.action_states
      || (tracks id s.instant_action_states || tracks id s.zone_action_states)

  -- The robot has an initializePosition action among those that it tracks.
  pub record Places (s : Agv R) : Type 0 where
    pub id : String
    pub action : Action R
    pub tracked : is_tracked id s ≡ true
    pub registered : lookup id s.action_registry ≡ some action
    pub places : action.action_type ≡ "initializePosition"

  -- From `s` to `u` no action comes up, and the pose changes only by initializePosition.
  pub record Stays (s u : Agv R) : Type 0 where
    pub registry : u.action_registry ≡ s.action_registry
    pub tracked : (id : String) → is_tracked id u ≡ true → is_tracked id s ≡ true
    pub stays : (pose u ≡ pose s) ⊎ Places s

  pub Stays-refl : (s : Agv R) → Stays s s
  Stays-refl s = record { registry = refl; tracked = λ id h. h; stays = inl refl }

  pub Stays-trans : (s t u : Agv R) → Stays s t → Stays t u → Stays s u
  Stays-trans s t u h k = record {
    registry = k.registry ∙ h.registry;
    tracked = λ id e. h.tracked id (k.tracked id e);
    stays = both h.stays k.stays;
  }
    where
      both :
          (pose t ≡ pose s) ⊎ Places s → (pose u ≡ pose t) ⊎ Places t → (pose u ≡ pose s) ⊎ Places s
      both (inr p) e = inr p
      both (inl e) (inl f) = inl (f ∙ e)
      both (inl e) (inr p) = inr (record {
        id = p.id;
        action = p.action;
        tracked = h.tracked p.id p.tracked;
        registered = subst (λ d. lookup p.id d ≡ some p.action) h.registry p.registered;
        places = p.places;
      })

  pub modify_tracked-Stays :
      (p : ActionState → Bool) (f : ActionState → ActionState) (s : Agv R)
      → ((st : ActionState) → (f st).action_id ≡ st.action_id)
      → Stays s (modify_tracked p f s)
  unfolding modify_tracked
  modify_tracked-Stays p f s same =
      let P = λ (t : Agv R). Stays s t in
      if_ind P (any p s.action_states)
        (λ _. record {
          registry = refl;
          tracked = λ id h. ground (arith, h, tracks-modify_first id p f s.action_states same);
          stays = inl refl;
        })
        (λ _.
          if_ind P (any p s.instant_action_states)
            (λ _. record {
              registry = refl;
              tracked = λ id h.
                  ground (arith, h, tracks-modify_first id p f s.instant_action_states same);
              stays = inl refl;
            })
            (λ _. record {
              registry = refl;
              tracked =
                  λ id h. ground (arith, h, tracks-modify_first id p f s.zone_action_states same);
              stays = inl refl;
            }))

  pub is_tracked-modify_tracked :
      (id : String) (p : ActionState → Bool) (f : ActionState → ActionState) (s : Agv R)
      → ((st : ActionState) → (f st).action_id ≡ st.action_id)
      → is_tracked id (modify_tracked p f s) ≡ is_tracked id s
  unfolding modify_tracked
  is_tracked-modify_tracked id p f s same = ground (
    arith,
    tracks-modify_first id p f s.action_states same,
    tracks-modify_first id p f s.instant_action_states same,
    tracks-modify_first id p f s.zone_action_states same,
  )

  pub pose-modify_tracked :
      (p : ActionState → Bool) (f : ActionState → ActionState) (s : Agv R)
      → pose (modify_tracked p f s) ≡ pose s
  unfolding modify_tracked
  pose-modify_tracked p f s = ground arith

  pub found :
      (r : ℕ) (s : Agv R) (st : ActionState)
      → find (has_ref r) (all_states s) ≡ some st
      → is_tracked st.action_id s ≡ true
  found r s st e = ground (
    arith,
    tracks-find r (all_states s) st e,
    tracks-append st.action_id s.action_states (s.instant_action_states ++ s.zone_action_states),
    tracks-append st.action_id s.instant_action_states s.zone_action_states,
  )
