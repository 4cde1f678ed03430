-- ===== src/Orders/Updates.antt =====
-- agv.py: `_accept_order` for an update.
use vda5050_sim.Prelude.{
  String, string_eq, true, false, ◌≡◌, ◌⊎◌, inl, inr, refl, ◌∙◌, ap, some, List, [], ◌∷◌, ◌++◌,
  if_ind, if◌then◌else◌, Bool-cases, contains, sym, map, not, subst, ◌&&◌,
}
use mathlib.Core.List.{append_assoc, append-nil}
use vda5050_sim.Schemas.{Action, ActionScope, ActionState, ActionStatus, OrderMessage}
use vda5050_sim.Robot.{
  Agv, Setup, append_action_state, report, in_scope, lacks_capability, capability_required,
}
use vda5050_sim.Orders.{
  register_order_action, reject_order_action, register_actions, node_actions, edge_actions,
  state_ids, take_over, accept_order,
}
use vda5050_sim.Orders.Registration.{register_order_action-Unmoved}

abbrev pub ids_of : List ActionState → List String
ids_of states = map (λ (st : ActionState). st.action_id) states

module _ {R : Type 0} where
  -- The actions that are not known yet, each once.
  abbrev pub fresh : List String → List (Action R) → List (Action R)
  fresh known [] = []
  fresh known (a ∷ actions) =
      let rest = fresh (known ++ a.action_id ∷ []) actions in
      let skipped = fresh known actions in if contains a.action_id known then skipped else a ∷ rest

  -- `st` is the state that a new action gets: it waits if it is of the scope and the robot has the
  -- capability, and has failed otherwise.
  pub record IsVerdict (scope : ActionScope) (s : Agv R) (a : Action R) (st : ActionState)
      : Type 0 where
    pub id : st.action_id ≡ a.action_id
    pub type : st.action_type ≡ some a.action_type
    pub verdict :
        ((st.action_status ≡ ActionStatus.waiting)
          × (in_scope scope a.action_type ≡ true)
          × (lacks_capability s a.action_type ≡ false))
        ⊎ ((st.action_status ≡ ActionStatus.failed)
            × ((in_scope scope a.action_type ≡ false) ⊎ (lacks_capability s a.action_type ≡ true)))

  -- One state for each action, in order.
  pub data AreVerdicts (scope : ActionScope) (s : Agv R)
      : List (Action R) → List ActionState → Type 0 where
    no_more : AreVerdicts scope s [] []
    next :
        {a : Action R} {st : ActionState} {actions : List (Action R)} {states : List ActionState}
        → IsVerdict scope s a st
        → AreVerdicts scope s actions states
        → AreVerdicts scope s (a ∷ actions) (st ∷ states)

  -- `t` has the action states of `s`, and behind them those of the order's new actions.
  pub record Extends (order : OrderMessage R) (s t : Agv R) : Type 0 where
    pub on_nodes : List ActionState
    pub on_edges : List ActionState
    pub states : t.action_states ≡ s.action_states ++ (on_nodes ++ on_edges)
    pub node_verdicts :
        AreVerdicts ActionScope.node s (fresh (state_ids s) (node_actions order.nodes)) on_nodes
    pub edge_verdicts :
        AreVerdicts ActionScope.edge s
          (fresh (state_ids s ++ ids_of on_nodes) (edge_actions order.edges))
          on_edges

  lacks_capability-setup :
      (type : String) (s t : Agv R)
      → t.setup ≡ s.setup
      → lacks_capability t type ≡ lacks_capability s type
  unfolding lacks_capability
  lacks_capability-setup type s t same =
      ap (λ (c : Setup R). capability_required type && not (contains type c.cfg.supported_actions))
        same

  IsVerdict-setup :
      (scope : ActionScope) (s t : Agv R) {a : Action R} {st : ActionState}
      → t.setup ≡ s.setup
      → IsVerdict scope t a st
      → IsVerdict scope s a st
  IsVerdict-setup scope s t {a} {st} same v = record {
    id = v.id;
    type = v.type;
    verdict =
        subst
          (λ lacks.
            ((st.action_status ≡ ActionStatus.waiting)
              × (in_scope scope a.action_type ≡ true)
              × (lacks ≡ false))
            ⊎ ((st.action_status ≡ ActionStatus.failed)
                × ((in_scope scope a.action_type ≡ false) ⊎ (lacks ≡ true))))
          (lacks_capability-setup a.action_type s t same) v.verdict;
  }

  AreVerdicts-setup :
      (scope : ActionScope) (s t : Agv R) {actions : List (Action R)} {states : List ActionState}
      → t.setup ≡ s.setup
      → AreVerdicts scope t actions states
      → AreVerdicts scope s actions states
  AreVerdicts-setup scope s t same no_more = no_more
  AreVerdicts-setup scope s t same (next v rest) =
      next (IsVerdict-setup scope s t same v) (AreVerdicts-setup scope s t same rest)

  register_order_action-IsVerdict :
      (a : Action R) (scope : ActionScope) (s : Agv R)
      → (st : ActionState) × ((register_order_action a scope s).action_states
          ≡ s.action_states ++ st ∷ [])
        × IsVerdict scope s a st
  unfolding register_order_action reject_order_action append_action_state report
  register_order_action-IsVerdict a scope s = elim (Bool-cases (in_scope scope a.action_type)) [
    | inr outside ↦
        rw outside (_, refl, record { id = refl; type = refl; verdict = inr (refl, inl outside) })
    | inl inside ↦ elim (Bool-cases (lacks_capability s a.action_type)) [
      | inl lacks ↦
          rw (inside, lacks)
            (_, refl, record { id = refl; type = refl; verdict = inr (refl, inr lacks) })
      | inr able ↦
          rw (inside, able)
            (_, refl, record { id = refl; type = refl; verdict = inl (refl, inside, able) })
    ]
  ]

  -- What the loop over a list of actions adds, of which the known ones are skipped.
  record Adds (scope : ActionScope) (actions : List (Action R)) (known : List String) (s : Agv R)
      (r : List String × Agv R) : Type 0 where
    added : List ActionState
    states : r.1.action_states ≡ s.action_states ++ added
    knows : r.0 ≡ known ++ ids_of added
    verdicts : AreVerdicts scope s (fresh known actions) added
    same_setup : r.1.setup ≡ s.setup

  Adds-cons :
      (scope : ActionScope) (a : Action R) (actions : List (Action R)) (known : List String)
      (s : Agv R) {r : List String × Agv R}
      → contains a.action_id known ≡ false
      → Adds scope actions (known ++ a.action_id ∷ []) (register_order_action a scope s) r
      → Adds scope (a ∷ actions) known s r
  Adds-cons scope a actions known s {r} new h =
      let s1 = register_order_action a scope s in
      let (st, first, verdict) = register_order_action-IsVerdict a scope s in
      let same = (register_order_action-Unmoved a scope s).setup in
      record {
        added = st ∷ h.added;
        states =
            h.states
            ∙ ap (λ xs. xs ++ h.added) first
            ∙ append_assoc s.action_states (st ∷ []) h.added;
        knows =
            h.knows
            ∙ append_assoc known (a.action_id ∷ []) (ids_of h.added)
            ∙ ap (λ id. known ++ id ∷ ids_of h.added) (sym verdict.id);
        verdicts =
            if_ind (λ (actions : List (Action R)). AreVerdicts scope s actions (st ∷ h.added))
              (contains a.action_id known) (λ old. absurd (cc (old, new)))
              (λ _. next verdict (AreVerdicts-setup scope s s1 same h.verdicts));
        same_setup = h.same_setup ∙ same;
      }

  Adds-skip :
      (scope : ActionScope) (a : Action R) (actions : List (Action R)) (known : List String)
      (s : Agv R) {r : List String × Agv R}
      → contains a.action_id known ≡ true
      → Adds scope actions known s r
      → Adds scope (a ∷ actions) known s r
  Adds-skip scope a actions known s {r} old h = record {
    added = h.added;
    states = h.states;
    knows = h.knows;
    verdicts =
        if_ind (λ (actions : List (Action R)). AreVerdicts scope s actions h.added)
          (contains a.action_id known) (λ _. h.verdicts) (λ new. absurd (cc (old, new)));
    same_setup = h.same_setup;
  }

  register_actions-Adds :
      (scope : ActionScope) (actions : List (Action R)) (known : List String) (s : Agv R)
      → Adds scope actions known s (register_actions scope actions known s)
  unfolding register_actions
  register_actions-Adds scope [] known s = record {
    added = [];
    states = sym (append-nil s.action_states);
    knows = sym (append-nil known);
    verdicts = no_more;
    same_setup = refl;
  }
  register_actions-Adds scope (a ∷ actions) known s =
      if_ind (λ (r : List String × Agv R). Adds scope (a ∷ actions) known s r)
        (contains a.action_id known)
        (λ old. Adds-skip scope a actions known s old (register_actions-Adds scope actions known s))
        (λ new. Adds-cons scope a actions known s new (
          register_actions-Adds scope actions (known ++ a.action_id ∷ [])
            (register_order_action a scope s)))

  -- An accepted update keeps every action state as it is and in its place. Behind them it puts one
  -- state for each action of the order whose id no state has yet, first those of the nodes and then
  -- those of the edges, in order and each id once: WAITING if the action is of that scope and the
  -- robot has the capability, and FAILED otherwise.
  pub accept_update-Extends :
      (order : OrderMessage R) (s : Agv R) → Extends order s (accept_order order true s)
  unfolding accept_order take_over lacks_capability
  accept_update-Extends order s =
      let begun = take_over order true s in
      let nodes =
        register_actions ActionScope.node (node_actions order.nodes) (state_ids s) begun in
      let n =
        register_actions-Adds ActionScope.node (node_actions order.nodes) (state_ids s) begun in
      let e = register_actions-Adds ActionScope.edge (edge_actions order.edges) nodes.0 nodes.1 in
      record {
        on_nodes = n.added;
        on_edges = e.added;
        states =
            e.states
            ∙ ap (λ xs. xs ++ e.added) n.states
            ∙ append_assoc s.action_states n.added e.added;
        node_verdicts = AreVerdicts-setup ActionScope.node s begun refl n.verdicts;
        edge_verdicts = AreVerdicts-setup ActionScope.edge s nodes.1 n.same_setup (
            subst
              (λ (known : List String).
                AreVerdicts ActionScope.edge nodes.1 (fresh known (edge_actions order.edges))
                  e.added)
              n.knows e.verdicts);
      }
