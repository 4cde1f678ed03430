-- ===== src/Zones/Frame.antt =====
-- agv.py: what the access gates write to.
use vda5050_sim.Prelude.{◌≡◌, refl, ap, ◌∙◌, Option, none, some, List, [], ◌∷◌, arith}
use vda5050_sim.Floats.{Float}
use vda5050_sim.Schemas.{Edge, Node, NodePosition, Zone, ZoneType, ZoneRequestType}
use vda5050_sim.Robot.{Agv, Graph}
use vda5050_sim.Zones.Geometry.{zone_objects_containing}
use vda5050_sim.Zones.Gates.{
  corridor_gate, access_gate, direction_gate, zone_gate, zone_gates, node_gates, check_access_gates,
}

module _ {R : Type 0} where
  -- The motion, the settings, the actions and the site are as before, and so is the graph but for
  -- the requests, that for a new base among them.
  abbrev pub Aside : Agv R → Agv R → Type 0
  Aside s t =
      (t.motion ≡ s.motion)
      × (t.setup ≡ s.setup)
      × (t.tracking ≡ s.tracking)
      × (t.site ≡ s.site)
      × (t.graph ≡ record s.graph {
        new_base_request = t.new_base_request;
        zone_requests = t.zone_requests;
        edge_requests = t.edge_requests;
      })

  Aside-trans : (s t u : Agv R) → Aside s t → Aside t u → Aside s u
  Aside-trans s t u h k = (
    k.0 ∙ h.0,
    k.1 ∙ h.1,
    k.2 ∙ h.2,
    k.3 ∙ h.3,
    k.4
        ∙ ap
            (λ (g : Graph R). record g {
              new_base_request = u.new_base_request;
              zone_requests = u.zone_requests;
              edge_requests = u.edge_requests;
            })
            h.4,
  )

  corridor_gate-Aside : (edge : Edge R) (s : Agv R) → Aside s (corridor_gate edge s).0
  unfolding corridor_gate
  corridor_gate-Aside edge s =
      (ground arith, ground arith, ground arith, ground arith, ground arith)

  access_gate-Aside :
      (type : ZoneRequestType) (zone : Zone R) (s : Agv R) → Aside s (access_gate type zone s).0
  unfolding access_gate
  access_gate-Aside type zone s =
      (ground arith, ground arith, ground arith, ground arith, ground arith)

module _ {R : Type 0} ⦃fl : Float R⦄ where
  direction_gate-Aside :
      (x y : R) (zone : Zone R) (s : Agv R) → Aside s (direction_gate x y zone s).0
  unfolding direction_gate
  direction_gate-Aside x y zone s =
      (ground arith, ground arith, ground arith, ground arith, ground arith)

  zone_gate-Aside :
      (x y : R) (type : ZoneType) (zone : Zone R) (s : Agv R)
      → Aside s (zone_gate x y type zone s).0
  unfolding zone_gate
  zone_gate-Aside x y ZoneType.release zone s = access_gate-Aside _ zone s
  zone_gate-Aside x y ZoneType.coordinated_replanning zone s = access_gate-Aside _ zone s
  zone_gate-Aside x y ZoneType.directed zone s = direction_gate-Aside x y zone s
  zone_gate-Aside x y ZoneType.bidirected zone s = direction_gate-Aside x y zone s
  zone_gate-Aside x y _ zone s = (refl, refl, refl, refl, refl)

  zone_gates-Aside :
      (x y : R) (zones : List (Zone R)) (s : Agv R) → Aside s (zone_gates x y zones s).0
  unfolding zone_gates
  zone_gates-Aside x y [] s = (refl, refl, refl, refl, refl)
  zone_gates-Aside x y (zone ∷ zones) s =
      let s1 = (zone_gate x y zone.zone_type zone s).0 in
      Aside-trans s s1 (zone_gates x y zones s1).0 (zone_gate-Aside x y zone.zone_type zone s)
        (zone_gates-Aside x y zones s1)

  node_gates-Aside : (next_node : Node R) (s : Agv R) → Aside s (node_gates next_node s).0
  unfolding node_gates
  node_gates-Aside next_node s = by_position next_node.node_position refl
    where
      by_position :
          (o : Option (NodePosition R))
          → next_node.node_position ≡ o
          → Aside s (node_gates next_node s).0
      by_position none e = rw (e, node_gates) (refl, refl, refl, refl, refl)
      by_position (some p) e =
          rw (e, node_gates) (zone_gates-Aside p.x p.y (zone_objects_containing p.x p.y s) s)

  pub check_access_gates-Aside :
      (edge : Edge R) (next_node : Node R) (s : Agv R)
      → Aside s (check_access_gates edge next_node s).0
  unfolding check_access_gates
  check_access_gates-Aside edge next_node s =
      let s1 = (corridor_gate edge s).0 in
      Aside-trans s s1 (node_gates next_node s1).0 (corridor_gate-Aside edge s)
        (node_gates-Aside next_node s1)
