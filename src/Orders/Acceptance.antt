-- ===== src/Orders/Acceptance.antt =====
-- agv.py: `_accept_order` as a whole, from what its loops do.
use vda5050_sim.Prelude.{
  String, string_eq, Bool, true, false, ◌≡◌, refl, ap, ◌∙◌, some, List, [], ◌∷◌, arith, contains,
  All,
}
use vda5050_sim.Schemas.{Action, ActionScope, OrderMessage}
use vda5050_sim.Robot.{Agv, Graph}
use vda5050_sim.Orders.{
  state_ids, register_actions, node_actions, edge_actions, take_over, accept_order,
}
use vda5050_sim.Orders.Registration.{
  Distinct, Unmoved, Unmoved-trans, Registers, register_actions-Registers,
}

module _ {R : Type 0} where
  take_over-Distinct :
      (order : OrderMessage R) (is_update : Bool) (s : Agv R)
      → Distinct (state_ids s)
      → Distinct (state_ids (take_over order is_update s))
  unfolding take_over
  take_over-Distinct order true s d = d
  take_over-Distinct order false s d = tt

  take_over-Unmoved :
      (order : OrderMessage R) (is_update : Bool) (s : Agv R)
      → Unmoved s (take_over order is_update s)
  unfolding take_over
  take_over-Unmoved order true s = ground arith
  take_over-Unmoved order false s = ground arith

  All-monotone :
      {P Q : Action R → Type 0} (xs : List (Action R))
      → ((x : Action R) → P x → Q x)
      → All P xs
      → All Q xs
  All-monotone [] f h = tt
  All-monotone (x ∷ xs) f h = (f x h.0, All-monotone xs f h.1)

  module _ (order : OrderMessage R) (is_update : Bool) (s : Agv R) where
    abbrev begun : Agv R
    begun = take_over order is_update s

    abbrev nodes_done : List String × Agv R
    nodes_done =
        register_actions ActionScope.node (node_actions order.nodes) (state_ids begun) begun

    abbrev all_done : List String × Agv R
    all_done =
        register_actions ActionScope.edge (edge_actions order.edges) nodes_done.0 nodes_done.1

    first : Registers begun (node_actions order.nodes) nodes_done
    first =
        register_actions-Registers ActionScope.node (node_actions order.nodes) (state_ids begun)
          begun refl

    second : Registers nodes_done.1 (edge_actions order.edges) all_done
    second =
        register_actions-Registers ActionScope.edge (edge_actions order.edges) nodes_done.0
          nodes_done.1 first.same_known

    -- `accept_order` writes `s'`: every action of the order is tracked, no action id twice.
    pub record IsTracked (s' : Agv R) : Type 0 where
      pub distinct : Distinct (state_ids s')
      pub nodes_tracked :
          All
            (λ (a : Action R). contains a.action_id (state_ids s') ≡ true)
            (node_actions order.nodes)
      pub edges_tracked :
          All
            (λ (a : Action R). contains a.action_id (state_ids s') ≡ true)
            (edge_actions order.edges)

    -- If no action id was tracked twice before, then after an order or an update is accepted every
    -- action of its nodes and edges is tracked, and still no action id twice.
    pub accept_order-IsTracked : Distinct (state_ids s) → IsTracked (accept_order order is_update s)
    unfolding accept_order
    accept_order-IsTracked d = record {
      distinct = second.distinct (first.distinct (take_over-Distinct order is_update s d));
      nodes_tracked =
          All-monotone (node_actions order.nodes) (λ a. second.grows a.action_id) first.tracked;
      edges_tracked = second.tracked;
    }

    pub graph-accept_order :
        (accept_order order is_update s).graph ≡ record begun.graph { new_base_request = false }
    unfolding accept_order
    graph-accept_order =
        ap (λ (g : Graph R). record g { new_base_request = false })
          (second.same_graph ∙ first.same_graph)

    pub accept_order-Unmoved : Unmoved s (accept_order order is_update s)
    unfolding accept_order
    accept_order-Unmoved =
        let u =
          Unmoved-trans (take_over-Unmoved order is_update s)
            (Unmoved-trans first.unmoved second.unmoved) in
        record {
          setup = u.setup;
          site = u.site;
          motion = u.motion;
          faults = u.faults;
          hibernating = u.hibernating;
          paused = u.paused;
          instants = u.instants;
          zones = u.zones;
        }

  -- What `_accept_order` writes to the graph.
  pub record Accepts (order : OrderMessage R) (s' : Agv R) : Type 0 where
    pub order_id : s'.order_id ≡ order.order_id
    pub order_update_id : s'.order_update_id ≡ order.order_update_id
    pub snapshot : s'.order_snapshot ≡ some order
    pub nodes : s'.nodes ≡ order.nodes
    pub edges : s'.edges ≡ order.edges
    pub no_request : s'.new_base_request ≡ false

  pub accept_order-Accepts :
      (order : OrderMessage R) (is_update : Bool) (s : Agv R)
      → Accepts order (accept_order order is_update s)
  unfolding take_over
  accept_order-Accepts order true s =
      let e = graph-accept_order order true s in
      record {
        order_id = ap (λ (g : Graph R). g.order_id) e;
        order_update_id = ap (λ (g : Graph R). g.order_update_id) e;
        snapshot = ap (λ (g : Graph R). g.order_snapshot) e;
        nodes = ap (λ (g : Graph R). g.nodes) e;
        edges = ap (λ (g : Graph R). g.edges) e;
        no_request = ap (λ (g : Graph R). g.new_base_request) e;
      }
  accept_order-Accepts order false s =
      let e = graph-accept_order order false s in
      record {
        order_id = ap (λ (g : Graph R). g.order_id) e;
        order_update_id = ap (λ (g : Graph R). g.order_update_id) e;
        snapshot = ap (λ (g : Graph R). g.order_snapshot) e;
        nodes = ap (λ (g : Graph R). g.nodes) e;
        edges = ap (λ (g : Graph R). g.edges) e;
        no_request = ap (λ (g : Graph R). g.new_base_request) e;
      }
