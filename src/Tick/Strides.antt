-- ===== src/Tick/Strides.antt =====
-- agv.py: how far the part of `tick` that drives takes the robot.
use vda5050_sim.Prelude.{
  nat_eq, Bool, true, false, ◌≡◌, ◌⊎◌, inl, inr, sym, subst, Option, none, some, arith, if_ind,
  if◌then◌else◌,
}
use vda5050_sim.Floats.{Float, nought, max_float}
use vda5050_sim.Schemas.{Edge, Node, NodePosition}
use vda5050_sim.Robot.{Agv}
use vda5050_sim.Zones.{angle_diff, zone_objects_containing}
use vda5050_sim.Movement.{
  step_towards, translate, pre_rotate, arrive_at, effective_speed, orientation_tolerance,
  reach_before, set_theta, set_step, turn_first, desired_orientation,
}
use vda5050_sim.Tick.{drive, drain, traverse}
use vda5050_sim.Tick.Safety.{IsClear, maybe_request_new_base_cases}
use vda5050_sim.Tick.Reaches.{Arrives, Proceeds, Strides, Turns, Drives}
use vda5050_sim.Tick.Driving.{traverse-drive}

module _ {R : Type 0} ⦃fl : Float R⦄ where
  open fl use {sub, mul, lt, le, hypot, abs, decimal}

  -- What `drive` does with the result of `step_towards`.
  abbrev completed : Node R → Edge R → Node R → Agv R × Bool → Agv R
  completed node edge next_node (moved, arrived) =
      let drained = drain moved in
      if arrived then arrive_at next_node edge node.sequence_id nought drained else drained

  turn_cases {ℓ} :
      (P : Agv R × Bool → Type ℓ) (edge : Option (Edge R)) (o : Option R) (dt : R) (s : Agv R)
      → (reach_before edge ≡ true → (theta : R) → P (set_theta theta s, true))
      → ((theta : R) → P (set_theta theta s, false))
      → P (turn_first edge o dt s)
  unfolding pre_rotate
  turn_cases P edge none dt s turns ready = ready s.theta
  turn_cases P edge (some desired) dt s turns ready =
      if_ind P (reach_before edge)
        (λ first.
          if_ind P (lt orientation_tolerance (abs (angle_diff desired s.theta)))
            (λ _. turns first _) (λ _. ready desired))
        (λ _. ready s.theta)

  abbrev starting : R → Agv R → Agv R
  starting theta s =
      set_theta theta (set_step nought (record s { motion = record s.motion { driving = true } }))

  completed_turn :
      (node : Node R) (edge : Edge R) (next_node : Node R) (theta : R) (s : Agv R)
      → reach_before (some edge) ≡ true
      → Turns edge s (completed node edge next_node (starting theta s, false))
  unfolding drain
  completed_turn node edge next_node theta s first = (
    first,
    ground arith,
    ground arith,
    ground arith,
    record {
      last_sequence = ground arith;
      nodes = ground arith;
      edges = ground arith;
      charge = ground arith;
      drives = ground arith;
    },
  )

  completed-translate :
      (dt : R) (node : Node R) (edge : Edge R) (next_node : Node R) (pos : NodePosition R)
      (desired : Option R) (heading theta : R) (s : Agv R)
      → let dx = sub pos.x s.x in
        let dy = sub pos.y s.y in
        let step = mul (effective_speed (some edge) s) dt in
        Strides dt node edge next_node pos s (
          completed node edge next_node
            (translate pos desired heading dx dy (hypot dx dy) step (starting theta s)))
  unfolding translate drain arrive_at
  completed-translate dt node edge next_node pos desired heading theta s =
      let dx = sub pos.x s.x in
      let dy = sub pos.y s.y in
      let dist = hypot dx dy in
      let step = mul (effective_speed (some edge) s) dt in
      if_ind
        (λ (r : Agv R × Bool).
          Strides dt node edge next_node pos s (completed node edge next_node r))
        (le dist (max_float step (decimal 1 6)))
        (λ near. inl (
          near,
          ground arith,
          ground arith,
          ground arith,
          record {
            last_node = ground arith;
            last_sequence = ground arith;
            nodes = ground arith;
            edges = ground arith;
            charge = ground arith;
            stands = ground arith;
          },
        ))
        (λ far. inr (
          far,
          ground arith,
          ground arith,
          ground arith,
          record {
            last_sequence = ground arith;
            nodes = ground arith;
            edges = ground arith;
            charge = ground arith;
            drives = ground arith;
          },
        ))

  drive-Drives_at :
      (dt : R) (node : Node R) (edge : Edge R) (next_node : Node R) (o : Option (NodePosition R))
      (s : Agv R)
      → let there = record next_node { node_position = o } in
        Drives dt node edge there o s (drive dt node edge there s)
  unfolding drive drain step_towards arrive_at effective_speed zone_objects_containing
  drive-Drives_at dt node edge next_node none s = (
    ground arith,
    ground arith,
    ground arith,
    record {
      last_node = ground arith;
      last_sequence = ground arith;
      nodes = ground arith;
      edges = ground arith;
      charge = ground arith;
      stands = ground arith;
    },
  )
  drive-Drives_at dt node edge next_node (some pos) s =
      let dx = sub pos.x s.x in
      let dy = sub pos.y s.y in
      let dist = hypot dx dy in
      let heading = if lt (decimal 1 9) dist then fl.atan2 dy dx else s.theta in
      let desired = desired_orientation (some edge) heading in
      let step = mul (effective_speed (some edge) s) dt in
      let there = record next_node { node_position = some pos } in
      turn_cases
        (λ (r : Agv R × Bool).
          Turns edge s (
            completed node edge there
              (if r.1 then (r.0, false) else translate pos desired heading dx dy dist step r.0))
          ⊎ Strides dt node edge there pos s (
              completed node edge there
                (if r.1 then (r.0, false) else translate pos desired heading dx dy dist step r.0)))
        (some edge) desired dt (starting s.theta s)
        (λ first theta. inl (completed_turn node edge there theta s first))
        (λ theta. inr (completed-translate dt node edge there pos desired heading theta s))

  -- The flag of a new base has no part in the drive.
  abbrev flagged : Agv R → Agv R
  flagged s = record s { graph = record s.graph { new_base_request = true } }

  Arrives-flag :
      (node : Node R) (edge : Edge R) (next_node : Node R) (d : R) (s t : Agv R)
      → Arrives node edge next_node d (flagged s) t
      → Arrives node edge next_node d s t
  Arrives-flag node edge next_node d s t a = record {
    last_node = a.last_node;
    last_sequence = a.last_sequence;
    nodes = a.nodes;
    edges = a.edges;
    charge = a.charge;
    stands = a.stands;
  }

  Proceeds-flag : (d : R) (s t : Agv R) → Proceeds d (flagged s) t → Proceeds d s t
  Proceeds-flag d s t p = record {
    last_sequence = p.last_sequence;
    nodes = p.nodes;
    edges = p.edges;
    charge = p.charge;
    drives = p.drives;
  }

  Drives-flag :
      (dt : R) (node : Node R) (edge : Edge R) (next_node : Node R) (o : Option (NodePosition R))
      (s t : Agv R)
      → Drives dt node edge next_node o (flagged s) t
      → Drives dt node edge next_node o s t
  unfolding effective_speed zone_objects_containing
  Drives-flag dt node edge next_node none s t (x, y, m, a) =
      (x, y, m, Arrives-flag node edge next_node nought s t a)
  Drives-flag dt node edge next_node (some pos) s t (inl (first, x, y, m, p)) =
      inl (first, x, y, m, Proceeds-flag nought s t p)
  Drives-flag dt node edge next_node (some pos) s t (inr (inl (near, x, y, m, a))) =
      inr (inl (near, x, y, m, Arrives-flag node edge next_node _ s t a))
  Drives-flag dt node edge next_node (some pos) s t (inr (inr (far, x, y, m, p))) =
      inr (inr (far, x, y, m, Proceeds-flag _ s t p))

  pub traverse-Drives :
      (dt : R) (s : Agv R) (node : Node R) (edge : Edge R) (next_node : Node R)
      → IsClear s node edge next_node
      → Drives dt node edge next_node next_node.node_position s (traverse dt s)
  traverse-Drives dt s node edge next_node c =
      subst (Drives dt node edge next_node next_node.node_position s)
        (sym (traverse-drive dt s node edge next_node c))
        (maybe_request_new_base_cases
          (λ t.
            Drives dt node edge next_node next_node.node_position s
              (drive dt node edge next_node t))
          s (drive-Drives_at dt node edge next_node next_node.node_position s)
          (Drives-flag dt node edge next_node next_node.node_position s _ (
            drive-Drives_at dt node edge next_node next_node.node_position
              (record s { graph = record s.graph { new_base_request = true } }))))
