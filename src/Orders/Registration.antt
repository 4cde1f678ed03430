-- ===== src/Orders/Registration.antt =====
-- agv.py: which actions `_accept_order` tracks.
use vda5050_sim.Prelude.{
  String, Dict, string_eq, Eq, true, false, ◌||◌, ◌≡◌, refl, ◌∙◌, Option, none, some, List, [], ◌∷◌,
  ◌++◌, arith, contains, All, Bool-cases, inl, inr, ◌==◌, ==_refl,
}
use mathlib.Core.List.{map-append}
use vda5050_sim.Schemas.{Action, ActionScope, ActionStatus}
use vda5050_sim.Robot.{Agv, in_scope, lacks_capability, append_action_state, report}
use vda5050_sim.Orders.{reject_order_action, register_order_action, state_ids, register_actions}

-- No text occurs twice.
abbrev pub Distinct : List String → Type 0
Distinct [] = Unit
Distinct (x ∷ xs) = (contains x xs ≡ false) × Distinct xs

contains-append :
    (a : String) (xs ys : List String) → contains a (xs ++ ys) ≡ (contains a xs || contains a ys)
contains-append a [] ys = refl
contains-append a (x ∷ xs) ys = ground (arith, contains-append a xs ys)

Distinct-snoc :
    (xs : List String) (y : String) → Distinct xs → contains y xs ≡ false → Distinct (xs ++ y ∷ [])
Distinct-snoc [] y d h = (refl, tt)
Distinct-snoc (x ∷ xs) y d h = ground (
  arith,
  Distinct-snoc xs y d.1,
  contains-append x xs (y ∷ []),
  Eq.beq_iff string_eq x y,
  Eq.beq_iff string_eq y x,
)

module _ {R : Type 0} where
  state_ids-append :
      (action : Action R) (status : ActionStatus) (result : Option String) (s : Agv R)
      → state_ids (append_action_state action status result s)
        ≡ state_ids s ++ action.action_id ∷ []
  unfolding append_action_state
  state_ids-append action status result s = map-append _ s.action_states _

  -- The three outcomes of a registration.
  pub register_cases {ℓ} :
      (P : Agv R → Type ℓ) (action : Action R) (scope : ActionScope) (s : Agv R)
      → ((reason : String) → P (reject_order_action action reason s))
      → ((registry : Dict String (Action R))
          → P (
              append_action_state action ActionStatus.waiting none
                (record s { tracking = record s.tracking { action_registry = registry } })))
      → P (register_order_action action scope s)
  unfolding register_order_action
  register_cases P action scope s rejected accepted =
      elim (Bool-cases (in_scope scope action.action_type)) [
        | inr outside ↦ rw outside (rejected _)
        | inl inside ↦ elim (Bool-cases (lacks_capability s action.action_type)) [
          | inl lacks ↦ rw (inside, lacks) (rejected _)
          | inr able ↦ rw (inside, able) (accepted _)
        ]
      ]

  -- Whatever the verdict on an action, its state goes to the end of `action_states`.
  state_ids-register_order_action :
      (action : Action R) (scope : ActionScope) (s : Agv R)
      → state_ids (register_order_action action scope s) ≡ state_ids s ++ action.action_id ∷ []
  unfolding reject_order_action report
  state_ids-register_order_action action scope s =
      register_cases (λ t. state_ids t ≡ state_ids s ++ action.action_id ∷ []) action scope s
        (λ reason. state_ids-append action ActionStatus.failed (some reason) s)
        (λ registry. state_ids-append action ActionStatus.waiting none _)

  -- What the registration of order actions leaves alone.
  pub record Unmoved (s t : Agv R) : Type 0 where
    pub setup : t.setup ≡ s.setup
    pub site : t.site ≡ s.site
    pub motion : t.motion ≡ s.motion
    pub faults : t.faults ≡ s.faults
    pub hibernating : t.hibernating ≡ s.hibernating
    pub paused : t.paused ≡ s.paused
    pub instants : t.instant_action_states ≡ s.instant_action_states
    pub zones : t.zone_action_states ≡ s.zone_action_states

  pub Unmoved-trans : {s t u : Agv R} → Unmoved s t → Unmoved t u → Unmoved s u
  Unmoved-trans a b = record {
    setup = b.setup ∙ a.setup;
    site = b.site ∙ a.site;
    motion = b.motion ∙ a.motion;
    faults = b.faults ∙ a.faults;
    hibernating = b.hibernating ∙ a.hibernating;
    paused = b.paused ∙ a.paused;
    instants = b.instants ∙ a.instants;
    zones = b.zones ∙ a.zones;
  }

  pub Unmoved-refl : (s : Agv R) → Unmoved s s
  Unmoved-refl s = ground arith

  pub register_order_action-Unmoved :
      (action : Action R) (scope : ActionScope) (s : Agv R)
      → Unmoved s (register_order_action action scope s)
  unfolding reject_order_action append_action_state report
  register_order_action-Unmoved action scope s =
      register_cases (Unmoved s) action scope s (λ reason. ground arith) (λ registry. ground arith)

  graph-register_order_action :
      (action : Action R) (scope : ActionScope) (s : Agv R)
      → (register_order_action action scope s).graph ≡ s.graph
  unfolding reject_order_action append_action_state report
  graph-register_order_action action scope s =
      register_cases (λ t. t.graph ≡ s.graph) action scope s (λ reason. refl) (λ registry. refl)

  -- What the loop over a list of actions does to the tracked states.
  pub record Registers (s : Agv R) (actions : List (Action R)) (r : List String × Agv R)
      : Type 0 where
    pub same_known : r.0 ≡ state_ids r.1
    pub distinct : Distinct (state_ids s) → Distinct (state_ids r.1)
    pub grows : (a : String) → contains a (state_ids s) ≡ true → contains a (state_ids r.1) ≡ true
    pub tracked : All (λ (a : Action R). contains a.action_id (state_ids r.1) ≡ true) actions
    pub same_graph : r.1.graph ≡ s.graph
    pub unmoved : Unmoved s r.1

  Registers-cons_skip :
      (action : Action R) (actions : List (Action R)) (s : Agv R) (r : List String × Agv R)
      → contains action.action_id (state_ids s) ≡ true
      → Registers s actions r
      → Registers s (action ∷ actions) r
  Registers-cons_skip action actions s r old h = record {
    same_known = h.same_known;
    distinct = h.distinct;
    grows = h.grows;
    tracked = (h.grows _ old, h.tracked);
    same_graph = h.same_graph;
    unmoved = h.unmoved;
  }

  -- `t` is the robot after one more registration.
  Registers-cons :
      (action : Action R) (actions : List (Action R)) (s t : Agv R) (r : List String × Agv R)
      → state_ids t ≡ state_ids s ++ action.action_id ∷ []
      → t.graph ≡ s.graph
      → Unmoved s t
      → contains action.action_id (state_ids s) ≡ false
      → Registers t actions r
      → Registers s (action ∷ actions) r
  Registers-cons action actions s t r ids g u new h = record {
    same_known = h.same_known;
    distinct = λ d. h.distinct (rw ids (Distinct-snoc (state_ids s) action.action_id d new));
    grows = λ a old. h.grows a (rw (ids, contains-append a (state_ids s) _, old) refl);
    tracked = (
      h.grows action.action_id
          (rw (ids, contains-append action.action_id (state_ids s) _) (last_found)),
      h.tracked,
    );
    same_graph = h.same_graph ∙ g;
    unmoved = Unmoved-trans u h.unmoved;
  }
    where
      last_found :
          (contains action.action_id (state_ids s)
            || ((action.action_id == action.action_id) || false))
          ≡ true
      last_found = rw (new, ==_refl action.action_id)

  pub register_actions-Registers :
      (scope : ActionScope) (actions : List (Action R)) (known : List String) (s : Agv R)
      → known ≡ state_ids s
      → Registers s actions (register_actions scope actions known s)
  unfolding register_actions
  register_actions-Registers scope [] known s e = record {
    same_known = e;
    distinct = λ d. d;
    grows = λ a h. h;
    tracked = tt;
    same_graph = refl;
    unmoved = Unmoved-refl s;
  }
  register_actions-Registers scope (action ∷ actions) known s e =
      elim (Bool-cases (contains action.action_id known)) [
        | inl old ↦ rw old (
            Registers-cons_skip action actions s _ (rw e at old)
              (register_actions-Registers scope actions known s e))
        | inr new ↦ rw new (
            Registers-cons action actions s (register_order_action action scope s) _
              (state_ids-register_order_action action scope s)
              (graph-register_order_action action scope s)
              (register_order_action-Unmoved action scope s) (rw e at new)
              (register_actions-Registers scope actions _ _
                (rw (state_ids-register_order_action action scope s, e))))
      ]
