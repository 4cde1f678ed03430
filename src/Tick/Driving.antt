-- ===== src/Tick/Driving.antt =====
-- agv.py: the part of `tick` that drives.
use vda5050_sim.Prelude.{◌+◌, true, false, ◌≡◌, refl, some, arith}
use vda5050_sim.Floats.{Float}
use vda5050_sim.Schemas.{Edge, Node}
use vda5050_sim.Robot.{Agv}
use vda5050_sim.Zones.Safety.{IsReleased, HasOpenZones}
use vda5050_sim.Zones.Passage.{check_access_gates_pass, HasOpenZones-flagged}
use vda5050_sim.Movement.{find_node_by_seq, maybe_request_new_base}
use vda5050_sim.Tick.{is_held, enter_edge, try_next, try_edge, traverse_from, traverse, drive}
use vda5050_sim.Tick.Safety.{IsClear, maybe_request_new_base_cases}

module _ {R : Type 0} ⦃fl : Float R⦄ where
  enter_edge_drives :
      (dt : R) (node : Node R) (edge : Edge R) (next_node : Node R) (s : Agv R)
      → IsReleased s edge
      → HasOpenZones s next_node
      → enter_edge dt node edge next_node s ≡ drive dt node edge next_node s
  unfolding enter_edge
  enter_edge_drives dt node edge next_node s released zones =
      rw (check_access_gates_pass edge next_node s released zones) refl

  try_edge_drives :
      (dt : R) (node : Node R) (edge : Edge R) (next_node : Node R) (s : Agv R)
      → edge.released ≡ true
      → find_node_by_seq (edge.sequence_id + 1) s ≡ some next_node
      → next_node.released ≡ true
      → IsReleased s edge
      → HasOpenZones s next_node
      → try_edge dt node (some edge) s ≡ drive dt node edge next_node s
  unfolding try_edge try_next
  try_edge_drives dt node edge next_node s now found next_released released zones =
      ground (arith, enter_edge_drives dt node edge next_node s released zones)

  is_held_clear :
      (s : Agv R) (node : Node R) (edge : Edge R) (next_node : Node R)
      → IsClear s node edge next_node
      → is_held node (some edge) s ≡ false
  unfolding is_held
  is_held_clear s node edge next_node c = ground (
    arith, c.no_blocking_action, c.no_blocking_instant, c.no_field_violation, c.no_emergency_stop,
  )

  -- The look at the graph is then a call of `drive`, behind the request for a new base.
  pub traverse-drive :
      (dt : R) (s : Agv R) (node : Node R) (edge : Edge R) (next_node : Node R)
      → IsClear s node edge next_node
      → traverse dt s ≡ drive dt node edge next_node (maybe_request_new_base s)
  unfolding traverse traverse_from find_node_by_seq
  traverse-drive dt s node edge next_node c =
      rw (c.at_node, traverse, c.edge_found, traverse_from, is_held_clear s node edge next_node c)
        (maybe_request_new_base_cases
          (λ t. try_edge dt node (some edge) t ≡ drive dt node edge next_node t) s
          (try_edge_drives dt node edge next_node s c.edge_released c.next_found c.next_released
            c.released c.zones_open)
          (try_edge_drives dt node edge next_node _ c.edge_released c.next_found c.next_released
            c.released (HasOpenZones-flagged s next_node c.zones_open)))
