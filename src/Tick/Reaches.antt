-- ===== src/Tick/Reaches.antt =====
-- agv.py: one stretch of the way to the next node, arrival included.
use vda5050_sim.Prelude.{
  nat_eq, true, false, not, ◌≡◌, ◌⊎◌, Option, none, some, filter, ◌==◌, if◌then◌else◌,
}
use vda5050_sim.Floats.{Float, nought, max_float}
use vda5050_sim.Schemas.{Edge, Node, NodePosition}
use vda5050_sim.Robot.{Agv}
use vda5050_sim.Movement.{effective_speed, reach_before}

module _ {R : Type 0} ⦃fl : Float R⦄ where
  open fl use {add, sub, mul, div, lt, le, hypot, abs, decimal}

  -- The charge and the distance after `d` metres.
  abbrev pub charge_after : R → Agv R → R
  charge_after d s =
      if lt nought d
      then max_float nought (sub s.battery_soc (mul d s.battery_drain_percent_per_meter))
      else s.battery_soc

  -- `t` is at the next node, which is the last node now; the node and the edge behind it are gone.
  pub record Arrives (node : Node R) (edge : Edge R) (next_node : Node R) (d : R) (s t : Agv R)
      : Type 0 where
    pub last_node : t.last_node_id ≡ next_node.node_id
    pub last_sequence : t.last_node_sequence_id ≡ next_node.sequence_id
    pub nodes : t.nodes ≡ filter (λ n. not (n.sequence_id == node.sequence_id)) s.nodes
    pub edges : t.edges ≡ filter (λ e. not (e.sequence_id == edge.sequence_id)) s.edges
    pub charge : t.battery_soc ≡ charge_after d s
    pub stands : t.driving ≡ false

  -- `t` is under way after `d` metres, with the graph as it was.
  pub record Proceeds (d : R) (s t : Agv R) : Type 0 where
    pub last_sequence : t.last_node_sequence_id ≡ s.last_node_sequence_id
    pub nodes : t.nodes ≡ s.nodes
    pub edges : t.edges ≡ s.edges
    pub charge : t.battery_soc ≡ charge_after d s
    pub drives : t.driving ≡ true

  -- Towards `pos`, as far as the speed allows in the time.
  abbrev pub Strides : R → Node R → Edge R → Node R → NodePosition R → Agv R → Agv R → Type 0
  Strides dt node edge next_node pos s t =
      let dx = sub pos.x s.x in
      let dy = sub pos.y s.y in
      let dist = hypot dx dy in
      let step = mul (effective_speed (some edge) s) dt in
      ((le dist (max_float step (decimal 1 6)) ≡ true)
        × (t.x ≡ pos.x)
        × (t.y ≡ pos.y)
        × (t.map_id ≡ pos.map_id)
        × Arrives node edge next_node dist s t)
      ⊎ ((le dist (max_float step (decimal 1 6)) ≡ false)
          × (t.x ≡ add s.x (mul (div dx dist) step))
          × (t.y ≡ add s.y (mul (div dy dist) step))
          × (t.map_id ≡ s.map_id)
          × Proceeds step s t)

  -- A robot that turns on the spot first.
  abbrev pub Turns : Edge R → Agv R → Agv R → Type 0
  Turns edge s t =
      (reach_before (some edge) ≡ true)
      × (t.x ≡ s.x)
      × (t.y ≡ s.y)
      × (t.map_id ≡ s.map_id)
      × Proceeds nought s t

  -- What driving does, by the position of the next node.
  abbrev pub Drives :
      R → Node R → Edge R → Node R → Option (NodePosition R) → Agv R → Agv R → Type 0
  Drives dt node edge next_node none s t =
      (t.x ≡ s.x) × (t.y ≡ s.y) × (t.map_id ≡ s.map_id) × Arrives node edge next_node nought s t
  Drives dt node edge next_node (some pos) s t =
      Turns edge s t ⊎ Strides dt node edge next_node pos s t
