-- ===== src/Tick/Safety.antt =====
-- agv.py: when `tick` moves the robot.
use vda5050_sim.Prelude.{
  ◌+◌, Bool, true, false, not, ◌||◌, ◌≡◌, ◌⊎◌, inl, inr, refl, ap, subst, Option, none, some, ◌++◌,
  arith, Bool-cases, Option-cases, if_ind, leb, length,
}
use vda5050_sim.Floats.{Float}
use vda5050_sim.Schemas.{Edge, Node}
use vda5050_sim.Robot.{Agv, Motion, not_empty}
use vda5050_sim.Actions.{is_blocking, instant_action_is_blocking}
use vda5050_sim.Zones.{check_access_gates}
use vda5050_sim.Zones.Safety.{IsReleased, HasOpenZones, HasOpenZones-flag, check_access_gates_open}
use vda5050_sim.Zones.Frame.{check_access_gates-Aside}
use vda5050_sim.Movement.{
  current_node, find_edge_by_seq, find_node_by_seq, maybe_request_new_base, released_nodes,
}
use vda5050_sim.Tick.{
  action_ids, is_held, finish_graph, enter_edge, try_next, try_edge, traverse_from, traverse,
  no_stop,
}

four_tests :
    (a b c d : Bool)
    → (a || b || c || not d) ≡ false
    → (a ≡ false) × (b ≡ false) × (c ≡ false) × (d ≡ true)
four_tests a b c d h = ground arith

module _ {R : Type 0} ⦃fl : Float R⦄ where
  -- All that the robot needs to leave `node` along `edge` towards `next_node`.
  pub record IsClear (s : Agv R) (node : Node R) (edge : Edge R) (next_node : Node R) : Type 0 where
    pub at_node : current_node s ≡ some node
    pub edge_found : find_edge_by_seq (node.sequence_id + 1) s ≡ some edge
    pub edge_released : edge.released ≡ true
    pub next_found : find_node_by_seq (edge.sequence_id + 1) s ≡ some next_node
    pub next_released : next_node.released ≡ true
    pub no_blocking_action :
        is_blocking (action_ids node.actions ++ action_ids edge.actions) s ≡ false
    pub no_blocking_instant : instant_action_is_blocking s ≡ false
    pub no_field_violation : s.field_violation ≡ false
    pub no_emergency_stop : no_stop s.emergency_stop ≡ true
    pub released : IsReleased s edge
    pub zones_open : HasOpenZones s next_node

  pub record Cleared (s : Agv R) : Type 0 where
    pub node : Node R
    pub edge : Edge R
    pub next_node : Node R
    pub clear : IsClear s node edge next_node

  -- Nothing of the motion changes but that `driving` is false.
  abbrev pub StandsStill : Agv R → Agv R → Type 0
  StandsStill s t = t.motion ≡ record s.motion { driving = false }

  enter_edge-Moves :
      (dt : R) (node : Node R) (edge : Edge R) (next_node : Node R) (s : Agv R)
      → StandsStill s (enter_edge dt node edge next_node s)
        ⊎ (IsReleased s edge × HasOpenZones s next_node)
  unfolding enter_edge
  enter_edge-Moves dt node edge next_node s =
      elim (Bool-cases (check_access_gates edge next_node s).1) [
        | inl holding ↦ rw holding (
            inl (
              ap (λ (m : Motion R). record m { driving = false })
                ((check_access_gates-Aside edge next_node s).0)))
        | inr clear ↦
            let (same, released, zones) = check_access_gates_open edge next_node s clear in
            inr (released, zones)
      ]

  -- The flag `new_base_request` is all that `_maybe_request_new_base` writes.
  pub maybe_request_new_base_cases {ℓ} :
      (P : Agv R → Type ℓ) (s : Agv R)
      → P s
      → P (record s { graph = record s.graph { new_base_request = true } })
      → P (maybe_request_new_base s)
  unfolding maybe_request_new_base
  maybe_request_new_base_cases P s old new =
      if_ind P (s.new_base_request || not (not_empty s.nodes)) (λ _. old)
        (λ _.
          if_ind P (leb (length (released_nodes s.nodes)) s.horizon_threshold_nodes) (λ _. new)
            (λ _. old))

  -- What the branches after the first tests need.
  pub record OnEdge (s : Agv R) (edge : Edge R) : Type 0 where
    pub next_node : Node R
    pub edge_released : edge.released ≡ true
    pub next_found : find_node_by_seq (edge.sequence_id + 1) s ≡ some next_node
    pub next_released : next_node.released ≡ true
    pub released : IsReleased s edge
    pub zones_open : HasOpenZones s next_node

  try_next-Moves :
      (dt : R) (node : Node R) (edge : Edge R) (o : Option (Node R)) (s : Agv R)
      → edge.released ≡ true
      → find_node_by_seq (edge.sequence_id + 1) s ≡ o
      → StandsStill s (try_next dt node edge o s) ⊎ OnEdge s edge
  unfolding try_next
  try_next-Moves dt node edge none s r e = inl refl
  try_next-Moves dt node edge (some next_node) s r e =
      if_ind (λ t. StandsStill s t ⊎ OnEdge s edge) next_node.released
        (λ now. elim (enter_edge-Moves dt node edge next_node s) [
          | inl still ↦ inl still
          | inr (released, zones) ↦ inr (record {
            next_node = next_node;
            edge_released = r;
            next_found = e;
            next_released = now;
            released = released;
            zones_open = zones;
          })
        ])
        (λ _. inl refl)

  try_edge-Moves :
      (dt : R) (node : Node R) (o : Option (Edge R)) (s : Agv R)
      → StandsStill s (try_edge dt node o s) ⊎ ((edge : Edge R) × (o ≡ some edge) × OnEdge s edge)
  unfolding try_edge finish_graph
  try_edge-Moves dt node none s = inl refl
  try_edge-Moves dt node (some edge) s =
      if_ind (λ t. StandsStill s t ⊎ ((e : Edge R) × (some edge ≡ some e) × OnEdge s e))
        edge.released
        (λ now.
          elim (try_next-Moves dt node edge (find_node_by_seq (edge.sequence_id + 1) s) s now
            refl) [ inl still ↦ inl still | inr on ↦ inr (edge, refl, on) ])
        (λ _. inl refl)

  -- The flag of a new base has no part in the conditions.
  OnEdge-flag :
      (s : Agv R) (edge : Edge R)
      → OnEdge (record s { graph = record s.graph { new_base_request = true } }) edge
      → OnEdge s edge
  unfolding find_node_by_seq
  OnEdge-flag s edge on = record {
    next_node = on.next_node;
    edge_released = on.edge_released;
    next_found = on.next_found;
    next_released = on.next_released;
    released = on.released;
    zones_open = HasOpenZones-flag s on.next_node on.zones_open;
  }

  try_edge_flag-Moves :
      (dt : R) (node : Node R) (o : Option (Edge R)) (s : Agv R)
      → StandsStill s (try_edge dt node o (maybe_request_new_base s))
        ⊎ ((edge : Edge R) × (o ≡ some edge) × OnEdge s edge)
  try_edge_flag-Moves dt node o s =
      maybe_request_new_base_cases
        (λ t.
          StandsStill s (try_edge dt node o t)
          ⊎ ((edge : Edge R) × (o ≡ some edge) × OnEdge s edge))
        s (try_edge-Moves dt node o s)
        (elim (try_edge-Moves dt node o
          (record s { graph = record s.graph { new_base_request = true } })) [
            | inl still ↦ inl still
            | inr (edge, e, on) ↦ inr (edge, e, OnEdge-flag s edge on)
          ])

  clear_of :
      (s : Agv R) (node : Node R) (edge : Edge R)
      → current_node s ≡ some node
      → find_edge_by_seq (node.sequence_id + 1) s ≡ some edge
      → is_held node (some edge) s ≡ false
      → OnEdge s edge
      → Cleared s
  unfolding is_held
  clear_of s node edge at found free on =
      let (blocking, instant, field, stop) =
        four_tests _ (instant_action_is_blocking s) s.field_violation (no_stop s.emergency_stop)
          free in
      record {
        node = node;
        edge = edge;
        next_node = on.next_node;
        clear = record {
          at_node = at;
          edge_found = found;
          edge_released = on.edge_released;
          next_found = on.next_found;
          next_released = on.next_released;
          no_blocking_action = blocking;
          no_blocking_instant = instant;
          no_field_violation = field;
          no_emergency_stop = stop;
          released = on.released;
          zones_open = on.zones_open;
        };
      }

  traverse_from-Moves :
      (dt : R) (node : Node R) (s : Agv R)
      → current_node s ≡ some node
      → StandsStill s (traverse_from dt node s) ⊎ Cleared s
  unfolding traverse_from
  traverse_from-Moves dt node s at =
      let edge = find_edge_by_seq (node.sequence_id + 1) s in
      if_ind (λ t. StandsStill s t ⊎ Cleared s) (is_held node edge s) (λ _. inl refl)
        λ free. elim (try_edge_flag-Moves dt node edge s) [
          | inl still ↦ inl still
          | inr (e, found, on) ↦
              inr (clear_of s node e at found (subst (λ o. is_held node o s ≡ false) found free) on)
        ]

  -- From a robot state, the look at the graph moves the robot only if the way is clear: the edge
  -- and the next node are released, nothing blocks, no fault is on, the corridor is granted and
  -- every zone around the next node is open. Else only `driving` changes, to false.
  pub traverse-Moves : (dt : R) (s : Agv R) → StandsStill s (traverse dt s) ⊎ Cleared s
  unfolding traverse
  traverse-Moves dt s = elim (Option-cases (current_node s)) [
    | inl e ↦ rw (e, traverse) (inl refl)
    | inr (node, e) ↦ rw (e, traverse) (traverse_from-Moves dt node s e)
  ]
