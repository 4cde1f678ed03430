-- ===== src/Zones/Safety.antt =====
-- agv.py: what it means that `_check_access_gates` does not hold the robot.
use vda5050_sim.Prelude.{
  Bool, true, false, ◌&&◌, ◌||◌, ◌≡◌, ◌⊎◌, refl, ◌∙◌, subst, Option, none, some, List, [], ◌∷◌,
  find, All, arith,
}
use vda5050_sim.Floats.{Float}
use vda5050_sim.Schemas.{
  Edge, Node, NodePosition, Zone, ZoneType, ZoneRequest, EdgeRequest, ZoneRequestType,
}
use vda5050_sim.Robot.{Agv}
use vda5050_sim.Zones.Geometry.{zone_objects_containing, zone_direction_violation, zone_set_id_for}
use vda5050_sim.Zones.Requests.{is_granted}
use vda5050_sim.Zones.Gates.{
  needs_release, is_for_edge, is_for_zone, is_strict, corridor_gate, access_gate, direction_gate,
  zone_gate, zone_gates, node_gates, check_access_gates,
}

module _ {R : Type 0} where
  -- The edge needs no release, or the request for it is granted.
  abbrev pub IsReleased : Agv R → Edge R → Type 0
  IsReleased s edge =
      (needs_release edge ≡ false)
      ⊎ ((req : EdgeRequest) × (find (is_for_edge edge) s.edge_requests ≡ some req)
          × (is_granted req.request_status ≡ true))

  -- The request for the zone is granted.
  abbrev pub HasAccess : Agv R → Zone R → Type 0
  HasAccess s zone =
      (req : ZoneRequest) × (find (is_for_zone zone.zone_id (zone_set_id_for zone.zone_id s))
          s.zone_requests
        ≡ some req)
      × (is_granted req.request_status ≡ true)

  corridor_gate-IsReleased :
      (edge : Edge R) (s : Agv R)
      → (corridor_gate edge s).1 ≡ false
      → ((corridor_gate edge s).0 ≡ s) × IsReleased s edge
  unfolding corridor_gate
  corridor_gate-IsReleased edge s open' = ground arith

  access_gate-HasAccess :
      (type : ZoneRequestType) (zone : Zone R) (s : Agv R)
      → (access_gate type zone s).1 ≡ false
      → ((access_gate type zone s).0 ≡ s) × HasAccess s zone
  unfolding access_gate
  access_gate-HasAccess type zone s open' = ground arith

or-eq-false : (a b : Bool) → (a || b) ≡ false → (a ≡ false) × (b ≡ false)
or-eq-false a b h = ground arith

module _ {R : Type 0} ⦃fl : Float R⦄ where
  open fl use {sub, atan2}

  -- A zone that holds nobody back on the way to (x, y), by its type.
  abbrev pub IsOpen : R → R → Agv R → ZoneType → Zone R → Type 0
  IsOpen x y s ZoneType.release zone = HasAccess s zone
  IsOpen x y s ZoneType.coordinated_replanning zone = HasAccess s zone
  IsOpen x y s ZoneType.blocked zone = ⊥
  IsOpen x y s ZoneType.directed zone =
      (zone_direction_violation zone (atan2 (sub y s.y) (sub x s.x)) && is_strict zone.limitation)
      ≡ false
  IsOpen x y s ZoneType.bidirected zone =
      (zone_direction_violation zone (atan2 (sub y s.y) (sub x s.x)) && is_strict zone.limitation)
      ≡ false
  IsOpen x y s _ zone = Unit

  direction_gate_open :
      (x y : R) (zone : Zone R) (s : Agv R)
      → (direction_gate x y zone s).1 ≡ false
      → ((direction_gate x y zone s).0 ≡ s)
        × ((zone_direction_violation zone (atan2 (sub y s.y) (sub x s.x))
              && is_strict zone.limitation)
            ≡ false)
  unfolding direction_gate
  direction_gate_open x y zone s h = ground arith

  zone_gate-IsOpen :
      (x y : R) (type : ZoneType) (zone : Zone R) (s : Agv R)
      → (zone_gate x y type zone s).1 ≡ false
      → ((zone_gate x y type zone s).0 ≡ s) × IsOpen x y s type zone
  unfolding zone_gate
  zone_gate-IsOpen x y ZoneType.release zone s h = access_gate-HasAccess _ zone s h
  zone_gate-IsOpen x y ZoneType.coordinated_replanning zone s h = access_gate-HasAccess _ zone s h
  zone_gate-IsOpen x y ZoneType.blocked zone s h = cc
  zone_gate-IsOpen x y ZoneType.directed zone s h = direction_gate_open x y zone s h
  zone_gate-IsOpen x y ZoneType.bidirected zone s h = direction_gate_open x y zone s h
  zone_gate-IsOpen x y _ zone s h = (refl, tt)

  zone_gates-IsOpen :
      (x y : R) (zones : List (Zone R)) (s : Agv R)
      → (zone_gates x y zones s).1 ≡ false
      → ((zone_gates x y zones s).0 ≡ s) × All (λ (z : Zone R). IsOpen x y s z.zone_type z) zones
  unfolding zone_gates
  zone_gates-IsOpen x y [] s h = (refl, tt)
  zone_gates-IsOpen x y (zone ∷ zones) s h =
      let s1 = (zone_gate x y zone.zone_type zone s).0 in
      let (open_first, open_rest) = or-eq-false _ (zone_gates x y zones s1).1 h in
      let (same, here) = zone_gate-IsOpen x y zone.zone_type zone s open_first in
      let (same', there) = zone_gates-IsOpen x y zones s1 open_rest in
      (
        same' ∙ same,
        (
          here,
          subst (λ (t : Agv R). All (λ (z : Zone R). IsOpen x y t z.zone_type z) zones) same there,
        ),
      )

  abbrev pub AreOpenAt : Agv R → Option (NodePosition R) → Type 0
  AreOpenAt s none = Unit
  AreOpenAt s (some p) =
      All (λ (z : Zone R). IsOpen p.x p.y s z.zone_type z) (zone_objects_containing p.x p.y s)

  -- Every zone that contains the next node is open.
  abbrev pub HasOpenZones : Agv R → Node R → Type 0
  HasOpenZones s next_node = AreOpenAt s next_node.node_position

  node_gates-HasOpenZones :
      (next_node : Node R) (s : Agv R)
      → (node_gates next_node s).1 ≡ false
      → ((node_gates next_node s).0 ≡ s) × HasOpenZones s next_node
  unfolding node_gates
  node_gates-HasOpenZones next_node s h = by_position next_node.node_position refl
    where
      by_position :
          (o : Option (NodePosition R))
          → next_node.node_position ≡ o
          → ((node_gates next_node s).0 ≡ s) × HasOpenZones s next_node
      by_position none e = rw (e, node_gates) (refl, tt)
      by_position (some p) e =
          rw (e, node_gates)
            (zone_gates-IsOpen p.x p.y (zone_objects_containing p.x p.y s) s
              (rw (e, node_gates) at h))

  -- A robot that the gates let pass is as it was, has the release that the edge wants, and finds
  -- every zone around the next node open: access granted, not blocked, no strict direction violated.
  pub check_access_gates_open :
      (edge : Edge R) (next_node : Node R) (s : Agv R)
      → (check_access_gates edge next_node s).1 ≡ false
      → ((check_access_gates edge next_node s).0 ≡ s) × IsReleased s edge × HasOpenZones s next_node
  unfolding check_access_gates
  check_access_gates_open edge next_node s h =
      let s1 = (corridor_gate edge s).0 in
      let (open_edge, open_node) = or-eq-false _ (node_gates next_node s1).1 h in
      let (same, released) = corridor_gate-IsReleased edge s open_edge in
      let (same', zones) = node_gates-HasOpenZones next_node s1 open_node in
      (same' ∙ same, released, subst (λ (t : Agv R). HasOpenZones t next_node) same zones)

  -- Whether zones are open does not turn on the flag that asks for a new base.
  abbrev flagged : Agv R → Agv R
  flagged s = record s { graph = record s.graph { new_base_request = true } }

  IsOpen-flag :
      (x y : R) (s : Agv R) (type : ZoneType) (zone : Zone R)
      → IsOpen x y (flagged s) type zone
      → IsOpen x y s type zone
  unfolding zone_set_id_for
  IsOpen-flag x y s ZoneType.release zone h = h
  IsOpen-flag x y s ZoneType.coordinated_replanning zone h = h
  IsOpen-flag x y s ZoneType.blocked zone h = h
  IsOpen-flag x y s ZoneType.directed zone h = h
  IsOpen-flag x y s ZoneType.bidirected zone h = h
  IsOpen-flag x y s _ zone h = tt

  All-IsOpen-flag :
      (x y : R) (s : Agv R) (zones : List (Zone R))
      → All (λ (z : Zone R). IsOpen x y (flagged s) z.zone_type z) zones
      → All (λ (z : Zone R). IsOpen x y s z.zone_type z) zones
  All-IsOpen-flag x y s [] h = tt
  All-IsOpen-flag x y s (z ∷ zones) h =
      (IsOpen-flag x y s z.zone_type z h.0, All-IsOpen-flag x y s zones h.1)

  AreOpenAt-flag :
      (s : Agv R) (o : Option (NodePosition R)) → AreOpenAt (flagged s) o → AreOpenAt s o
  unfolding zone_objects_containing
  AreOpenAt-flag s none h = tt
  AreOpenAt-flag s (some p) h = All-IsOpen-flag p.x p.y s (zone_objects_containing p.x p.y s) h

  pub HasOpenZones-flag :
      (s : Agv R) (next_node : Node R)
      → HasOpenZones (record s { graph = record s.graph { new_base_request = true } }) next_node
      → HasOpenZones s next_node
  HasOpenZones-flag s next_node h = AreOpenAt-flag s next_node.node_position h
