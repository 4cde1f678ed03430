-- ===== src/Actions/Statuses.antt =====
-- agv.py: the statuses of actions, and lists of action states that advance.
use vda5050_sim.Prelude.{
  ℕ, nat_eq, Eq, Bool, true, false, ◌≡◌, refl, ◌∙◌, none, some, List, [], ◌∷◌, ◌++◌, arith,
  Bool-cases, inl, inr, any, find, modify_first, Pointwise,
}
use vda5050_sim.Schemas.{ActionState, ActionStatus}
use vda5050_sim.Robot.{has_ref, same_status, set_status}

-- The statuses that a status may reach while the robot only lets time pass: a waiting action starts,
-- a running one ends, and any other status stays.
abbrev pub may_become : ActionStatus → ActionStatus → Bool
may_become ActionStatus.waiting ActionStatus.waiting = true
may_become ActionStatus.waiting ActionStatus.running = true
may_become ActionStatus.waiting ActionStatus.finished = true
may_become ActionStatus.waiting ActionStatus.failed = true
may_become ActionStatus.waiting b = false
may_become ActionStatus.running ActionStatus.running = true
may_become ActionStatus.running ActionStatus.finished = true
may_become ActionStatus.running ActionStatus.failed = true
may_become ActionStatus.running b = false
may_become a b = same_status a b

may_become_refl : (a : ActionStatus) → may_become a a ≡ true
may_become_refl a = ground arith

may_become_trans :
    (a b c : ActionStatus) → may_become a b ≡ true → may_become b c ≡ true → may_become a c ≡ true
may_become_trans a b c h k = ground arith

-- The same action, with a status that it may reach.
pub record Advanced (st st' : ActionState) : Type 0 where
  pub same_ref : st'.ref ≡ st.ref
  pub same_id : st'.action_id ≡ st.action_id
  pub same_type : st'.action_type ≡ st.action_type
  pub legal : may_become st.action_status st'.action_status ≡ true

pub Advanced-refl : (st : ActionState) → Advanced st st
Advanced-refl st = record {
  same_ref = refl;
  same_id = refl;
  same_type = refl;
  legal = may_become_refl st.action_status;
}

Advanced-trans : (a b c : ActionState) → Advanced a b → Advanced b c → Advanced a c
Advanced-trans a b c h k = record {
  same_ref = k.same_ref ∙ h.same_ref;
  same_id = k.same_id ∙ h.same_id;
  same_type = k.same_type ∙ h.same_type;
  legal = may_become_trans a.action_status b.action_status c.action_status h.legal k.legal;
}

abbrev pub AllAdvanced : List ActionState → List ActionState → Type 0
AllAdvanced xs ys = Pointwise Advanced xs ys

pub AllAdvanced-refl : (xs : List ActionState) → AllAdvanced xs xs
AllAdvanced-refl [] = tt
AllAdvanced-refl (x ∷ xs) = (Advanced-refl x, AllAdvanced-refl xs)

pub AllAdvanced-trans :
    (xs ys zs : List ActionState) → AllAdvanced xs ys → AllAdvanced ys zs → AllAdvanced xs zs
AllAdvanced-trans [] [] zs h k = k
AllAdvanced-trans [] (y ∷ ys) zs h k = absurd (h tt)
AllAdvanced-trans (x ∷ xs) [] zs h k = absurd (h tt)
AllAdvanced-trans (x ∷ xs) (y ∷ ys) [] h k = k
AllAdvanced-trans (x ∷ xs) (y ∷ ys) (z ∷ zs) h k =
    (Advanced-trans x y z h.0 k.0, AllAdvanced-trans xs ys zs h.1 k.1)

-- A write through the first match advances the list if it advances the match.
pub modify_first-AllAdvanced :
    (p : ActionState → Bool) (f : ActionState → ActionState) (xs : List ActionState)
    → ((st : ActionState) → find p xs ≡ some st → Advanced st (f st))
    → AllAdvanced xs (modify_first p f xs)
modify_first-AllAdvanced p f [] step = tt
modify_first-AllAdvanced p f (x ∷ xs) step = elim (Bool-cases (p x)) [
  | inl e ↦ rw e (step x (rw e refl), AllAdvanced-refl xs)
  | inr e ↦ rw e (Advanced-refl x, modify_first-AllAdvanced p f xs (λ st h. step st (rw e h)))
]

pub same_status_eq : (a b : ActionStatus) → same_status a b ≡ true → a ≡ b
same_status_eq a b h = ground arith

pub find_absent :
    (p : ActionState → Bool) (xs : List ActionState) → any p xs ≡ false → find p xs ≡ none
find_absent p [] h = refl
find_absent p (x ∷ xs) h = ground (arith, find_absent p xs)

pub find-append :
    (p : ActionState → Bool) (xs ys : List ActionState) (st : ActionState)
    → find p xs ≡ some st
    → find p (xs ++ ys) ≡ some st
find-append p [] ys st h = cc
find-append p (x ∷ xs) ys st h = ground (arith, find-append p xs ys st)

pub find_ref :
    (r : ℕ) (xs : List ActionState) (st : ActionState) → find (has_ref r) xs ≡ some st → st.ref ≡ r
find_ref r [] st h = cc
find_ref r (x ∷ xs) st h = ground (arith, find_ref r xs st, Eq.beq_iff nat_eq x.ref r)

pub set_status-Advanced :
    (st : ActionState) (status : ActionStatus)
    → may_become st.action_status status ≡ true
    → Advanced st (set_status status st)
set_status-Advanced st status h = record {
  same_ref = refl;
  same_id = refl;
  same_type = refl;
  legal = h;
}

pub modify_first_status :
    (r : ℕ) (status : ActionStatus) (xs : List ActionState) (st : ActionState)
    → find (has_ref r) (modify_first (has_ref r) (set_status status) xs) ≡ some st
    → st.action_status ≡ status
modify_first_status r status [] st h = cc
modify_first_status r status (x ∷ xs) st h = elim (Bool-cases (has_ref r x)) [
  | inl e ↦ ground arith
  | inr e ↦ modify_first_status r status xs st (ground arith)
]
