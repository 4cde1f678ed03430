-- ===== src/Zones/Passage.antt =====
-- agv.py: what it takes that `_check_access_gates` lets the robot pass.
use vda5050_sim.Prelude.{
  true, false, ◌≡◌, inl, inr, refl, Option, none, some, List, [], ◌∷◌, All, arith,
}
use vda5050_sim.Floats.{Float}
use vda5050_sim.Schemas.{Edge, Node, NodePosition, Zone, ZoneType, ZoneRequestType}
use vda5050_sim.Robot.{Agv}
use vda5050_sim.Zones.Geometry.{zone_objects_containing, zone_set_id_for}
use vda5050_sim.Zones.Gates.{
  corridor_gate, access_gate, direction_gate, zone_gate, zone_gates, node_gates, check_access_gates,
}
use vda5050_sim.Zones.Safety.{IsReleased, HasAccess, IsOpen, AreOpenAt, HasOpenZones}

module _ {R : Type 0} where
  corridor_gate_passes :
      (edge : Edge R) (s : Agv R) → IsReleased s edge → corridor_gate edge s ≡ (s, false)
  unfolding corridor_gate
  corridor_gate_passes edge s (inl free) = ground arith
  corridor_gate_passes edge s (inr (req, found, granted)) = ground arith

  access_gate_passes :
      (type : ZoneRequestType) (zone : Zone R) (s : Agv R)
      → HasAccess s zone
      → access_gate type zone s ≡ (s, false)
  unfolding access_gate
  access_gate_passes type zone s (req, found, granted) = ground arith

module _ {R : Type 0} ⦃fl : Float R⦄ where
  open fl use {sub, atan2}

  direction_gate_passes :
      (x y : R) (zone : Zone R) (s : Agv R)
      → IsOpen x y s ZoneType.directed zone
      → direction_gate x y zone s ≡ (s, false)
  unfolding direction_gate
  direction_gate_passes x y zone s h = ground arith

  zone_gate_passes :
      (x y : R) (type : ZoneType) (zone : Zone R) (s : Agv R)
      → IsOpen x y s type zone
      → zone_gate x y type zone s ≡ (s, false)
  unfolding zone_gate
  zone_gate_passes x y ZoneType.release zone s h = access_gate_passes _ zone s h
  zone_gate_passes x y ZoneType.coordinated_replanning zone s h = access_gate_passes _ zone s h
  zone_gate_passes x y ZoneType.blocked zone s h = absurd h
  zone_gate_passes x y ZoneType.directed zone s h = direction_gate_passes x y zone s h
  zone_gate_passes x y ZoneType.bidirected zone s h = direction_gate_passes x y zone s h
  zone_gate_passes x y _ zone s h = refl

  zone_gates_pass :
      (x y : R) (zones : List (Zone R)) (s : Agv R)
      → All (λ (z : Zone R). IsOpen x y s z.zone_type z) zones
      → zone_gates x y zones s ≡ (s, false)
  unfolding zone_gates
  zone_gates_pass x y [] s h = refl
  zone_gates_pass x y (zone ∷ zones) s h =
      rw (zone_gate_passes x y zone.zone_type zone s h.0, zone_gates_pass x y zones s h.1) refl

  node_gates_pass :
      (next_node : Node R) (s : Agv R)
      → HasOpenZones s next_node
      → node_gates next_node s ≡ (s, false)
  unfolding node_gates
  node_gates_pass next_node s h = by_position next_node.node_position refl
    where
      by_position :
          (o : Option (NodePosition R))
          → next_node.node_position ≡ o
          → node_gates next_node s ≡ (s, false)
      by_position none e = rw (e, node_gates) refl
      by_position (some p) e =
          rw (e, node_gates)
            (zone_gates_pass p.x p.y (zone_objects_containing p.x p.y s) s (rw e at h))

  -- The gates let the robot pass, and change nothing, when the corridor is released and every zone
  -- around the next node is open.
  pub check_access_gates_pass :
      (edge : Edge R) (next_node : Node R) (s : Agv R)
      → IsReleased s edge
      → HasOpenZones s next_node
      → check_access_gates edge next_node s ≡ (s, false)
  unfolding check_access_gates
  check_access_gates_pass edge next_node s released zones =
      rw (corridor_gate_passes edge s released, node_gates_pass next_node s zones) refl

  -- The flag that asks for a new base closes no zone.
  abbrev flagged : Agv R → Agv R
  flagged s = record s { graph = record s.graph { new_base_request = true } }

  IsOpen-flagged :
      (x y : R) (s : Agv R) (type : ZoneType) (zone : Zone R)
      → IsOpen x y s type zone
      → IsOpen x y (flagged s) type zone
  unfolding zone_set_id_for
  IsOpen-flagged x y s ZoneType.release zone h = h
  IsOpen-flagged x y s ZoneType.coordinated_replanning zone h = h
  IsOpen-flagged x y s ZoneType.blocked zone h = h
  IsOpen-flagged x y s ZoneType.directed zone h = h
  IsOpen-flagged x y s ZoneType.bidirected zone h = h
  IsOpen-flagged x y s _ zone h = tt

  All-IsOpen-flagged :
      (x y : R) (s : Agv R) (zones : List (Zone R))
      → All (λ (z : Zone R). IsOpen x y s z.zone_type z) zones
      → All (λ (z : Zone R). IsOpen x y (flagged s) z.zone_type z) zones
  All-IsOpen-flagged x y s [] h = tt
  All-IsOpen-flagged x y s (z ∷ zones) h =
      (IsOpen-flagged x y s z.zone_type z h.0, All-IsOpen-flagged x y s zones h.1)

  AreOpenAt-flagged :
      (s : Agv R) (o : Option (NodePosition R)) → AreOpenAt s o → AreOpenAt (flagged s) o
  unfolding zone_objects_containing
  AreOpenAt-flagged s none h = tt
  AreOpenAt-flagged s (some p) h =
      All-IsOpen-flagged p.x p.y s (zone_objects_containing p.x p.y s) h

  pub HasOpenZones-flagged :
      (s : Agv R) (next_node : Node R)
      → HasOpenZones s next_node
      → HasOpenZones (record s { graph = record s.graph { new_base_request = true } }) next_node
  HasOpenZones-flagged s next_node h = AreOpenAt-flagged s next_node.node_position h
