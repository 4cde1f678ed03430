-- ===== src/Runtime/Traverse.antt =====
-- agv.py: the part of `tick` that looks at the graph, for the same invariant.
use vda5050_sim.Prelude.{
  true, refl, ap, Option, none, some, map, arith, if_ind, Option-cases, inl, inr, ◌+◌,
}
use vda5050_sim.Floats.{Float}
use vda5050_sim.Schemas.{Edge, Node, ActionState}
use vda5050_sim.Robot.{Agv, Tracking, Site}
use vda5050_sim.Zones.{check_access_gates}
use vda5050_sim.Zones.Frame.{check_access_gates-Aside}
use vda5050_sim.Movement.{
  current_node, find_edge_by_seq, find_node_by_seq, step_towards, arrive_at, translate, pre_rotate,
}
use vda5050_sim.Tick.{
  is_held, finish_graph, drain, drive, enter_edge, try_next, try_edge, traverse_from, traverse,
}
use vda5050_sim.Tick.Safety.{maybe_request_new_base_cases}
use vda5050_sim.Runtime.Sound.{Alike, Alike-trans}

module _ {R : Type 0} ⦃fl : Float R⦄ where
  step_towards-Alike :
      (node : Node R) (dt : R) (edge : Option (Edge R)) (s : Agv R)
      → Alike s (step_towards node dt edge s).0
  unfolding step_towards translate pre_rotate
  step_towards-Alike node dt edge s = record { ids = ground arith; maps = ground arith }

  drain-Alike : (s : Agv R) → Alike s (drain s)
  unfolding drain
  drain-Alike s = record { ids = ground arith; maps = ground arith }

  drive-Alike :
      (dt : R) (node : Node R) (edge : Edge R) (next_node : Node R) (s : Agv R)
      → Alike s (drive dt node edge next_node s)
  unfolding drive arrive_at
  drive-Alike dt node edge next_node s =
      let started = record s { motion = record s.motion { driving = true } } in
      let moved = (step_towards next_node dt (some edge) started).0 in
      let k =
        Alike-trans started moved (drain moved)
          (step_towards-Alike next_node dt (some edge) started) (drain-Alike moved) in
      if_ind (Alike s) (step_towards next_node dt (some edge) started).1
        (λ _. record { ids = k.ids; maps = k.maps }) (λ _. record { ids = k.ids; maps = k.maps })

  enter_edge-Alike :
      (dt : R) (node : Node R) (edge : Edge R) (next_node : Node R) (s : Agv R)
      → Alike s (enter_edge dt node edge next_node s)
  unfolding enter_edge
  enter_edge-Alike dt node edge next_node s =
      let s1 = (check_access_gates edge next_node s).0 in
      let a = check_access_gates-Aside edge next_node s in
      let ids =
        ap (λ (k : Tracking R). map (λ (st : ActionState). st.action_id) k.action_states) a.2 in
      let maps = ap (λ (t : Site R). t.maps) a.3 in
      if_ind (Alike s) (check_access_gates edge next_node s).1
        (λ _. record { ids = ids; maps = maps })
        (λ _.
          Alike-trans s s1 (drive dt node edge next_node s1) (record { ids = ids; maps = maps })
            (drive-Alike dt node edge next_node s1))

  try_next-Alike :
      (dt : R) (node : Node R) (edge : Edge R) (o : Option (Node R)) (s : Agv R)
      → Alike s (try_next dt node edge o s)
  unfolding try_next
  try_next-Alike dt node edge none s = record { ids = refl; maps = refl }
  try_next-Alike dt node edge (some next_node) s =
      if_ind (Alike s) next_node.released (λ _. enter_edge-Alike dt node edge next_node s)
        (λ _. record { ids = refl; maps = refl })

  try_edge-Alike :
      (dt : R) (node : Node R) (o : Option (Edge R)) (s : Agv R) → Alike s (try_edge dt node o s)
  unfolding try_edge finish_graph
  try_edge-Alike dt node none s = record { ids = refl; maps = refl }
  try_edge-Alike dt node (some edge) s =
      if_ind (Alike s) edge.released
        (λ _. try_next-Alike dt node edge (find_node_by_seq (edge.sequence_id + 1) s) s)
        (λ _. record { ids = refl; maps = refl })

  traverse_from-Alike : (dt : R) (node : Node R) (s : Agv R) → Alike s (traverse_from dt node s)
  unfolding traverse_from
  traverse_from-Alike dt node s =
      let edge = find_edge_by_seq (node.sequence_id + 1) s in
      if_ind (Alike s) (is_held node edge s) (λ _. record { ids = refl; maps = refl })
        (λ _.
          maybe_request_new_base_cases (λ t. Alike s (try_edge dt node edge t)) s
            (try_edge-Alike dt node edge s)
            (let k =
                try_edge-Alike dt node edge
                  (record s { graph = record s.graph { new_base_request = true } }) in
              record { ids = k.ids; maps = k.maps }))

  pub traverse-Alike : (dt : R) (s : Agv R) → Alike s (traverse dt s)
  unfolding traverse
  traverse-Alike dt s = elim (Option-cases (current_node s)) [
    | inl e ↦ rw (e, traverse) (record { ids = refl; maps = refl })
    | inr (node, e) ↦ rw (e, traverse) (traverse_from-Alike dt node s)
  ]
