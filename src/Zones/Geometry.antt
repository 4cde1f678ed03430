-- ===== src/Zones/Geometry.antt =====
-- agv.py: `_angle_diff`, `_point_in_polygon` and the searches for zones.
use vda5050_sim.Prelude.{
  String, string_eq, Bool, true, false, not, ◌&&◌, none, some, List, [], ◌∷◌, ◌++◌, ◌==◌,
  if◌then◌else◌, any, filter, values, length, ltb,
}
use mathlib.Core.Bool.{xor}
use vda5050_sim.Floats.{Float, radians, min_float}
use vda5050_sim.Schemas.{Zone, ZoneSet, ZoneType, Vertex2d}
use vda5050_sim.Robot.{Agv}

abbrev pub is_bidirected : ZoneType → Bool
is_bidirected ZoneType.bidirected = true
is_bidirected _ = false

module _ {R : Type 0} ⦃fl : Float R⦄ where
  open fl use {add, sub, mul, div, fmod, lt, pi, decimal, abs}

  unfoldable pub angle_diff : R → R → R
  angle_diff target current = sub (fmod (add (sub target current) pi) (mul (decimal 2 0) pi)) pi

  -- The test of one edge of the polygon, from the previous vertex `b` to `a`.
  abbrev pub crosses : R → R → Vertex2d R → Vertex2d R → Bool
  crosses x y a b =
      xor (lt y a.y) (lt y b.y)
      && lt x (add (div (mul (sub b.x a.x) (sub y a.y)) (sub b.y a.y)) a.x)

  -- The loop: `b` is the vertex before the first of the list.
  unfoldable pub ray_cast : R → R → Vertex2d R → List (Vertex2d R) → Bool → Bool
  unfolding xor
  ray_cast x y b [] inside = inside
  ray_cast x y b (a ∷ vs) inside =
      ray_cast x y a vs (if crosses x y a b then not inside else inside)

  abbrev last_vertex : Vertex2d R → List (Vertex2d R) → Vertex2d R
  last_vertex v [] = v
  last_vertex v (w ∷ ws) = last_vertex w ws

  unfoldable pub point_in_polygon : R → R → List (Vertex2d R) → Bool
  point_in_polygon x y [] = false
  point_in_polygon x y (v ∷ vs) =
      if ltb (length (v ∷ vs)) 3 then false else ray_cast x y (last_vertex v vs) (v ∷ vs) false

  zones_of_sets : R → R → String → List (ZoneSet R) → List (Zone R)
  zones_of_sets x y map_id [] = []
  zones_of_sets x y map_id (zs ∷ rest) =
      (if zs.map_id == map_id then filter (λ z. point_in_polygon x y z.vertices) zs.zones else [])
      ++ zones_of_sets x y map_id rest

  unfoldable pub zone_objects_containing : R → R → Agv R → List (Zone R)
  unfolding zones_of_sets
  zone_objects_containing x y s = zones_of_sets x y s.map_id (values s.zone_sets)

  abbrev pub direction_tolerance : R
  direction_tolerance = radians (decimal 45 0)

  unfoldable pub zone_direction_violation : Zone R → R → Bool
  zone_direction_violation zone heading = elim zone.direction [
    | none ↦ false
    | some direction ↦
        let diff = abs (angle_diff direction heading) in
        lt direction_tolerance (
          if is_bidirected zone.zone_type
          then min_float diff (abs (angle_diff (add direction pi) heading))
          else diff)
  ]

module _ {R : Type 0} where
  set_with_zone : String → List (ZoneSet R) → String
  set_with_zone zone_id [] = ""
  set_with_zone zone_id (zs ∷ rest) =
      if any (λ z. z.zone_id == zone_id) zs.zones
      then zs.zone_set_id
      else set_with_zone zone_id rest

  unfoldable pub zone_set_id_for : String → Agv R → String
  unfolding set_with_zone
  zone_set_id_for zone_id s = set_with_zone zone_id (values s.zone_sets)
