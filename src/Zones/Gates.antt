-- ===== src/Zones/Gates.antt =====
-- agv.py: `_check_access_gates`. The Boolean is `holding`.
use vda5050_sim.Prelude.{
  nat_eq, String, string_eq, ◌<>◌, Bool, true, false, not, ◌&&◌, ◌||◌, Option, none, some, List, [],
  ◌∷◌, ◌++◌, ◌==◌, if◌then◌else◌, find,
}
use vda5050_sim.Floats.{Float}
use vda5050_sim.Schemas.{
  Edge, Node, Zone, ZoneType, ZoneRequest, ZoneRequestType, EdgeRequest, EdgeRequestType,
  RequestStatus,
}
use vda5050_sim.Robot.{Agv}
use vda5050_sim.Zones.Geometry.{zone_objects_containing, zone_direction_violation, zone_set_id_for}
use vda5050_sim.Zones.Requests.{is_granted}

-- bool(value) for `bool | None`
abbrev pub is_true : Option Bool → Bool
is_true none = false
is_true (some b) = b

abbrev pub is_for_zone : String → String → ZoneRequest → Bool
is_for_zone zone_id zone_set_id req = req.zone_id == zone_id && req.zone_set_id == zone_set_id

-- zone.limitation in ("STRICT", "RESTRICTED")
abbrev pub is_strict : Option String → Bool
is_strict none = false
is_strict (some t) = t == "STRICT" || t == "RESTRICTED"

module _ {R : Type 0} where
  abbrev pub needs_release : Edge R → Bool
  needs_release edge = elim edge.corridor [ none ↦ false | some c ↦ is_true c.release_required ]

  abbrev pub is_for_edge : Edge R → EdgeRequest → Bool
  is_for_edge edge req = req.edge_id == edge.edge_id && req.sequence_id == edge.sequence_id

  unfoldable pub corridor_gate : Edge R → Agv R → Agv R × Bool
  corridor_gate edge s =
      if needs_release edge
      then elim (find (is_for_edge edge) s.edge_requests) [
        | some req ↦ (s, not (is_granted req.request_status))
        | none ↦ (
          record s {
            graph = record s.graph {
              edge_requests =
                  s.edge_requests
                  ++ record {
                    request_id = edge.edge_id <> "-corridor";
                    request_type = EdgeRequestType.corridor;
                    edge_id = edge.edge_id;
                    sequence_id = edge.sequence_id;
                    request_status = RequestStatus.requested;
                  }
                    ∷ [];
            };
          },
          true,
        )
      ]
      else (s, false)

  -- A zone of a type in `_ZONE_TYPES_REQUIRING_ACCESS`.
  unfoldable pub access_gate : ZoneRequestType → Zone R → Agv R → Agv R × Bool
  access_gate type zone s =
      let zone_set_id = zone_set_id_for zone.zone_id s in
      elim (find (is_for_zone zone.zone_id zone_set_id) s.zone_requests) [
        | some req ↦ (s, not (is_granted req.request_status))
        | none ↦ (
          record s {
            graph = record s.graph {
              zone_requests =
                  s.zone_requests
                  ++ record {
                    request_id = zone.zone_id <> "-access";
                    request_type = type;
                    zone_id = zone.zone_id;
                    zone_set_id = zone_set_id;
                    request_status = RequestStatus.requested;
                  }
                    ∷ [];
            };
          },
          true,
        )
      ]

  abbrev pub request_base : Agv R → Agv R
  request_base s = record s { graph = record s.graph { new_base_request = true } }

module _ {R : Type 0} ⦃fl : Float R⦄ where
  open fl use {sub, atan2}

  unfoldable pub direction_gate : R → R → Zone R → Agv R → Agv R × Bool
  direction_gate x y zone s =
      if zone_direction_violation zone (atan2 (sub y s.y) (sub x s.x)) && is_strict zone.limitation
      then (request_base s, true)
      else (s, false)

  -- One round of the loop over the zones that contain the next node at (x, y).
  unfoldable pub zone_gate : R → R → ZoneType → Zone R → Agv R → Agv R × Bool
  zone_gate x y ZoneType.release zone s = access_gate ZoneRequestType.access zone s
  zone_gate x y ZoneType.coordinated_replanning zone s =
      access_gate ZoneRequestType.replanning zone s
  zone_gate x y ZoneType.blocked zone s = (request_base s, true)
  zone_gate x y ZoneType.directed zone s = direction_gate x y zone s
  zone_gate x y ZoneType.bidirected zone s = direction_gate x y zone s
  zone_gate x y _ zone s = (s, false)

  unfoldable pub zone_gates : R → R → List (Zone R) → Agv R → Agv R × Bool
  zone_gates x y [] s = (s, false)
  zone_gates x y (zone ∷ zones) s =
      let (s1, held) = zone_gate x y zone.zone_type zone s in
      let (s2, held') = zone_gates x y zones s1 in (s2, held || held')

  unfoldable pub node_gates : Node R → Agv R → Agv R × Bool
  node_gates next_node s = elim next_node.node_position [
    | none ↦ (s, false)
    | some p ↦ zone_gates p.x p.y (zone_objects_containing p.x p.y s) s
  ]

  unfoldable pub check_access_gates : Edge R → Node R → Agv R → Agv R × Bool
  check_access_gates edge next_node s =
      let (s1, held) = corridor_gate edge s in
      let (s2, held') = node_gates next_node s1 in (s2, held || held')
