-- ===== src/Movement.antt =====
-- src/vda5050_sim/agv.py: the movement engine, one step along an edge.
use vda5050_sim.Prelude.{
  ℕ, nat_eq, string_eq, Bool, true, false, not, ◌||◌, Option, none, some, List, [], ◌∷◌, ◌==◌,
  if◌then◌else◌, find, filter, length, ltb, leb,
}
use vda5050_sim.Floats.{Float, nought, min_float, max_float, radians}
use vda5050_sim.Schemas.{Edge, Node, NodePosition, Zone, ZoneType, OrientationType}
use vda5050_sim.Robot.{Agv, not_empty}
use vda5050_sim.Zones.{angle_diff, zone_objects_containing, is_true}

module _ {R : Type 0} where
  unfoldable pub find_node_by_seq : ℕ → Agv R → Option (Node R)
  find_node_by_seq seq s = find (λ n. n.sequence_id == seq) s.nodes

  unfoldable pub find_edge_by_seq : ℕ → Agv R → Option (Edge R)
  find_edge_by_seq seq s = find (λ e. e.sequence_id == seq) s.edges

  -- min(…, key=lambda n: n.sequenceId): the first of the least.
  abbrev pub least_node : Node R → List (Node R) → Node R
  least_node n [] = n
  least_node n (m ∷ ms) = least_node (if ltb m.sequence_id n.sequence_id then m else n) ms

  abbrev pub first_node : List (Node R) → Option (Node R)
  first_node [] = none
  first_node (n ∷ ns) = some (least_node n ns)

  unfoldable pub current_node : Agv R → Option (Node R)
  current_node s = elim (find_node_by_seq s.last_node_sequence_id s) [
    | some n ↦ some n
    | none ↦ first_node s.nodes
  ]

  unfoldable pub arrive_at : Node R → Edge R → ℕ → R → Agv R → Agv R
  arrive_at node edge departed_seq zero_distance s = record s {
    graph = record s.graph {
      last_node_id = node.node_id;
      last_node_sequence_id = node.sequence_id;
      edges = filter (λ e. not (e.sequence_id == edge.sequence_id)) s.edges;
      nodes = filter (λ n. not (n.sequence_id == departed_seq)) s.nodes;
    };
    motion = record s.motion { distance_since_last_node = zero_distance; driving = false };
  }

  abbrev pub released_nodes : List (Node R) → List (Node R)
  released_nodes ns = filter (λ n. n.released) ns

  unfoldable pub maybe_request_new_base : Agv R → Agv R
  maybe_request_new_base s =
      if s.new_base_request || not (not_empty s.nodes)
      then s
      else if leb (length (released_nodes s.nodes)) s.horizon_threshold_nodes
      then record s { graph = record s.graph { new_base_request = true } }
      else s

abbrev is_global : Option OrientationType → Bool
is_global (some OrientationType.global) = true
is_global _ = false

abbrev is_speed_limit : ZoneType → Bool
is_speed_limit ZoneType.speed_limit = true
is_speed_limit _ = false

module _ {R : Type 0} ⦃fl : Float R⦄ where
  open fl use {add, sub, mul, div, neg, abs, lt, le, hypot, atan2, decimal}

  abbrev pub orientation_tolerance : R
  orientation_tolerance = radians (decimal 2 0)

  unfoldable pub resolve_edge_orientation : Edge R → R → Option R
  resolve_edge_orientation edge heading_to_target = elim edge.orientation [
    | none ↦ none
    | some orientation ↦
        if is_global edge.orientation_type
        then some orientation
        else some (add heading_to_target orientation)
  ]

  abbrev slower : R → Option R → R
  slower speed none = speed
  slower speed (some limit) = min_float speed limit

  abbrev zone_speeds : R → List (Zone R) → R
  zone_speeds speed [] = speed
  zone_speeds speed (z ∷ zs) =
      zone_speeds (if is_speed_limit z.zone_type then slower speed z.maximum_speed else speed) zs

  abbrev edge_speed : Option (Edge R) → R → R
  edge_speed none speed = speed
  edge_speed (some e) speed = slower speed e.maximum_speed

  -- The own speed, capped by the edge and by the zones that the robot is in.
  unfoldable pub effective_speed : Option (Edge R) → Agv R → R
  effective_speed edge s = zone_speeds (edge_speed edge s.speed) (zone_objects_containing s.x s.y s)

  abbrev pub set_theta : R → Agv R → Agv R
  set_theta theta s = record s { motion = record s.motion { theta = theta } }

  abbrev pub set_step : R → Agv R → Agv R
  set_step d s = record s { motion = record s.motion { last_step_distance = d } }

  -- The orientation at the target: the edge's, else the node's, else the present one.
  abbrev final_theta : Option R → Option R → R → R
  final_theta (some desired) _ current = desired
  final_theta none (some theta) current = theta
  final_theta none none current = current

  abbrev or_else : Option R → R → R
  or_else none d = d
  or_else (some v) d = v

  -- The translation, once the orientation allows it.
  unfoldable pub translate : NodePosition R → Option R → R → R → R → R → R → Agv R → Agv R × Bool
  translate pos desired_theta heading dx dy dist step s =
      if le dist (max_float step (decimal 1 6))
      then (
        record s {
          motion = record s.motion {
            last_step_distance = dist;
            x = pos.x;
            y = pos.y;
            theta = final_theta desired_theta pos.theta s.theta;
            map_id = pos.map_id;
          };
        },
        true,
      )
      else (
        record s {
          motion = record s.motion {
            last_step_distance = step;
            theta = or_else desired_theta heading;
            x = add s.x (mul (div dx dist) step);
            y = add s.y (mul (div dy dist) step);
          };
        },
        false,
      )

  -- The rotation in place that an edge may ask for first.
  unfoldable pub pre_rotate : R → R → Agv R → Agv R × Bool
  pre_rotate desired dt s =
      let delta = angle_diff desired s.theta in
      let most = mul s.angular_speed dt in
      if lt orientation_tolerance (abs delta)
      then (
        set_theta (add s.theta (max_float (mul (neg s.angular_speed) dt) (min_float most delta))) s,
        true,
      )
      else (set_theta desired s, false)

  abbrev pub reach_before : Option (Edge R) → Bool
  reach_before none = false
  reach_before (some e) = is_true e.reach_orientation_before_entering

  abbrev pub desired_orientation : Option (Edge R) → R → Option R
  desired_orientation none heading = none
  desired_orientation (some e) heading = resolve_edge_orientation e heading

  -- Rotates first where the edge says so; the Boolean says whether the robot still rotates.
  abbrev pub turn_first : Option (Edge R) → Option R → R → Agv R → Agv R × Bool
  turn_first edge none dt s = (s, false)
  turn_first edge (some desired) dt s =
      if reach_before edge then pre_rotate desired dt s else (s, false)

  unfoldable pub step_towards : Node R → R → Option (Edge R) → Agv R → Agv R × Bool
  step_towards node dt edge s0 =
      let s = set_step nought s0 in
      elim node.node_position [
        | none ↦ (s, true)
        | some pos ↦
            let dx = sub pos.x s.x in
            let dy = sub pos.y s.y in
            let dist = hypot dx dy in
            let heading = if lt (decimal 1 9) dist then atan2 dy dx else s.theta in
            let desired = desired_orientation edge heading in
            let speed = effective_speed edge s in
            let (s1, turning) = turn_first edge desired dt s in
            if turning
            then (s1, false)
            else translate pos desired heading dx dy dist (mul speed dt) s1
      ]
