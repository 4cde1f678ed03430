-- ===== src/Tick/Shrinks.antt =====
-- agv.py: the look at the graph, and what it takes off the graph.
use vda5050_sim.Prelude.{
  nat_eq, ◌+◌, ◌≤◌, ◌<◌, true, not, ◌≡◌, ◌⊎◌, inl, inr, refl, ◌∙◌, subst, Option, none, some,
  length, arith, if_ind, Option-cases, ◌==◌, string_eq, sym,
}
use vda5050_sim.Floats.{Float, nought}
use vda5050_sim.Schemas.{Edge, Node}
use vda5050_sim.Robot.{Agv, Graph}
use vda5050_sim.Zones.{check_access_gates}
use vda5050_sim.Zones.Frame.{check_access_gates-Aside}
use vda5050_sim.Movement.{
  current_node, find_edge_by_seq, find_node_by_seq, step_towards, arrive_at, translate, pre_rotate,
}
use vda5050_sim.Tick.{
  is_held, finish_graph, drain, drive, enter_edge, try_next, try_edge, traverse_from, traverse,
}
use vda5050_sim.Tick.Present.{length-filter, length-filter_less, has_seq, has_seq-current_node}
use vda5050_sim.Tick.Safety.{maybe_request_new_base_cases}

module _ {R : Type 0} where
  -- The graph `h` is `g` with its nodes and edges, or with fewer nodes and no more edges.
  pub record Shrinks (g h : Graph R) : Type 0 where
    pub order : h.order_id ≡ g.order_id
    pub update : h.order_update_id ≡ g.order_update_id
    pub used :
        ((h.nodes ≡ g.nodes)
          × (h.edges ≡ g.edges)
          × (h.last_node_sequence_id ≡ g.last_node_sequence_id))
        ⊎ ((length h.nodes < length g.nodes) × (length h.edges ≤ length g.edges))

  Shrinks-refl : (g : Graph R) → Shrinks g g
  Shrinks-refl g = record { order = refl; update = refl; used = inl (refl, refl, refl) }

  arrive_at-Shrinks :
      (node next_node : Node R) (edge : Edge R) (d : R) (s : Agv R)
      → has_seq node.sequence_id s.nodes ≡ true
      → Shrinks s.graph (arrive_at next_node edge node.sequence_id d s).graph
  unfolding arrive_at
  arrive_at-Shrinks node next_node edge d s h = record {
    order = refl;
    update = refl;
    used = inr (
      length-filter_less (λ n. n.sequence_id == node.sequence_id) s.nodes h,
      length-filter (λ e. not (e.sequence_id == edge.sequence_id)) s.edges,
    );
  }

  finish_graph-Shrinks :
      (node : Node R) (s : Agv R)
      → has_seq node.sequence_id s.nodes ≡ true
      → Shrinks s.graph (finish_graph node s).graph
  unfolding finish_graph
  finish_graph-Shrinks node s h = record {
    order = refl;
    update = refl;
    used =
        inr (length-filter_less (λ n. n.sequence_id == node.sequence_id) s.nodes h, ground arith);
  }

module _ {R : Type 0} ⦃fl : Float R⦄ where
  graph-step_towards :
      (node : Node R) (dt : R) (edge : Option (Edge R)) (s : Agv R)
      → (step_towards node dt edge s).0.graph ≡ s.graph
  unfolding step_towards translate pre_rotate
  graph-step_towards node dt edge s = ground arith

  graph-drain : (s : Agv R) → (drain s).graph ≡ s.graph
  unfolding drain
  graph-drain s = ground arith

  drive-Shrinks :
      (dt : R) (node : Node R) (edge : Edge R) (next_node : Node R) (s : Agv R)
      → has_seq node.sequence_id s.nodes ≡ true
      → Shrinks s.graph (drive dt node edge next_node s).graph
  unfolding drive
  drive-Shrinks dt node edge next_node s h =
      let started = record s { motion = record s.motion { driving = true } } in
      let moved = (step_towards next_node dt (some edge) started).0 in
      let same : (drain moved).graph ≡ s.graph =
        graph-drain moved ∙ graph-step_towards next_node dt (some edge) started in
      if_ind (λ (t : Agv R). Shrinks s.graph t.graph)
        (step_towards next_node dt (some edge) started).1
        (λ _.
          subst
            (λ (g : Graph R).
              Shrinks g (arrive_at next_node edge node.sequence_id nought (drain moved)).graph)
            same
            (arrive_at-Shrinks node next_node edge nought (drain moved)
              (subst (λ (g : Graph R). has_seq node.sequence_id g.nodes ≡ true) (sym same) h)))
        (λ _. subst (λ g. Shrinks s.graph g) (sym same) (Shrinks-refl s.graph))

  enter_edge-Shrinks :
      (dt : R) (node : Node R) (edge : Edge R) (next_node : Node R) (s : Agv R)
      → has_seq node.sequence_id s.nodes ≡ true
      → Shrinks s.graph (enter_edge dt node edge next_node s).graph
  unfolding enter_edge
  enter_edge-Shrinks dt node edge next_node s h =
      let s1 = (check_access_gates edge next_node s).0 in
      let same = (check_access_gates-Aside edge next_node s).4 in
      let requested = record s.graph {
        new_base_request = s1.new_base_request;
        zone_requests = s1.zone_requests;
        edge_requests = s1.edge_requests;
      } in
      if_ind (λ (t : Agv R). Shrinks s.graph t.graph) (check_access_gates edge next_node s).1
        (λ _.
          subst (λ g. Shrinks s.graph g) (sym same)
            (record { order = refl; update = refl; used = inl (refl, refl, refl) }))
        (λ _.
          let k : Shrinks requested (drive dt node edge next_node s1).graph =
            subst (λ (g : Graph R). Shrinks g (drive dt node edge next_node s1).graph) same
              (drive-Shrinks dt node edge next_node s1
                (subst (λ (g : Graph R). has_seq node.sequence_id g.nodes ≡ true) (sym same) h)) in
          record { order = k.order; update = k.update; used = k.used })

  asked : (s : Agv R) → Shrinks s.graph (record s.graph { new_base_request = true })
  asked s = record { order = refl; update = refl; used = inl (refl, refl, refl) }

  try_next-Shrinks :
      (dt : R) (node : Node R) (edge : Edge R) (o : Option (Node R)) (s : Agv R)
      → has_seq node.sequence_id s.nodes ≡ true
      → Shrinks s.graph (try_next dt node edge o s).graph
  unfolding try_next
  try_next-Shrinks dt node edge none s h = asked s
  try_next-Shrinks dt node edge (some next_node) s h =
      if_ind (λ (t : Agv R). Shrinks s.graph t.graph) next_node.released
        (λ _. enter_edge-Shrinks dt node edge next_node s h) (λ _. asked s)

  try_edge-Shrinks :
      (dt : R) (node : Node R) (o : Option (Edge R)) (s : Agv R)
      → has_seq node.sequence_id s.nodes ≡ true
      → Shrinks s.graph (try_edge dt node o s).graph
  unfolding try_edge
  try_edge-Shrinks dt node none s h = finish_graph-Shrinks node s h
  try_edge-Shrinks dt node (some edge) s h =
      if_ind (λ (t : Agv R). Shrinks s.graph t.graph) edge.released
        (λ _. try_next-Shrinks dt node edge (find_node_by_seq (edge.sequence_id + 1) s) s h)
        (λ _. asked s)

  traverse_from-Shrinks :
      (dt : R) (node : Node R) (s : Agv R)
      → has_seq node.sequence_id s.nodes ≡ true
      → Shrinks s.graph (traverse_from dt node s).graph
  unfolding traverse_from
  traverse_from-Shrinks dt node s h =
      let edge = find_edge_by_seq (node.sequence_id + 1) s in
      if_ind (λ (t : Agv R). Shrinks s.graph t.graph) (is_held node edge s)
        (λ _. Shrinks-refl s.graph)
        (λ _.
          maybe_request_new_base_cases (λ t. Shrinks s.graph (try_edge dt node edge t).graph) s
            (try_edge-Shrinks dt node edge s h)
            (let k =
                try_edge-Shrinks dt node edge
                  (record s { graph = record s.graph { new_base_request = true } }) h in
              record { order = k.order; update = k.update; used = k.used }))

  -- A look at the graph leaves the order and its update as they are. It keeps every node and edge
  -- and the last node, or it takes at least one node off the graph and adds no edge.
  pub traverse-Shrinks : (dt : R) (s : Agv R) → Shrinks s.graph (traverse dt s).graph
  unfolding traverse
  traverse-Shrinks dt s = elim (Option-cases (current_node s)) [
    | inl e ↦ rw (e, traverse) (Shrinks-refl s.graph)
    | inr (node, e) ↦
        rw (e, traverse) (traverse_from-Shrinks dt node s (has_seq-current_node s node e))
  ]
