-- ===== src/Runtime/Messages.antt =====
-- agv.py: `handle_order`, `handle_zone_set`, `handle_responses`, for the same invariant.
use vda5050_sim.Prelude.{
  String, string_eq, nat_eq, Bool, true, false, not, ◌&&◌, refl, ap, List, [], ◌∷◌, if_ind, ltb,
  ◌==◌, is_some, lookup, subst, sym,
}
use vda5050_sim.Floats.{Float}
use vda5050_sim.Schemas.{OrderMessage, ZoneSet, Response}
use vda5050_sim.Robot.{Agv, Site, report, is_idle}
use vda5050_sim.Maps.Exclusive.{IsConsistent}
use vda5050_sim.Orders.{
  accept_order, handle_update, handle_other, dispatch_order, handle_order, report_unknown_maps,
  unknown_maps, order_content_equal,
}
use vda5050_sim.Orders.Acceptance.{accept_order-IsTracked, accept_order-Unmoved}
use vda5050_sim.Zones.{handle_zone_set, handle_responses, apply_response}
use vda5050_sim.Runtime.Sound.{IsSound, Alike, Alike-refl, Alike-IsSound, report-Alike}

module _ {R : Type 0} where
  accept_order-IsSound :
      (order : OrderMessage R) (is_update : Bool) (s : Agv R)
      → IsSound s
      → IsSound (accept_order order is_update s)
  accept_order-IsSound order is_update s h = record {
    distinct = (accept_order-IsTracked order is_update s h.distinct).distinct;
    consistent =
        subst IsConsistent
          (sym (ap (λ (t : Site R). t.maps) (accept_order-Unmoved order is_update s).site))
          h.consistent;
  }

  report-IsSound : (type text : String) (s : Agv R) → IsSound s → IsSound (report type text s)
  report-IsSound type text s h =
      Alike-IsSound s (report type text s) (report-Alike type text s s (Alike-refl s)) h

  report_unknown_maps-IsSound :
      (ms : List String) (s : Agv R) → IsSound s → IsSound (report_unknown_maps ms s)
  unfolding report_unknown_maps
  report_unknown_maps-IsSound [] s h = h
  report_unknown_maps-IsSound (m ∷ ms) s h =
      report_unknown_maps-IsSound ms _ (report-IsSound "unknownMapId" _ s h)

  pub handle_zone_set-Alike :
      (zone_set : ZoneSet R) (s : Agv R) → Alike s (handle_zone_set zone_set s)
  unfolding handle_zone_set
  handle_zone_set-Alike zone_set s =
      if_ind (Alike s) (is_some (lookup zone_set.zone_set_id s.zone_sets))
        (λ _. report-Alike _ _ s s (Alike-refl s)) (λ _. record { ids = refl; maps = refl })

  pub handle_responses-Alike :
      (responses : List Response) (s : Agv R) → Alike s (handle_responses responses s)
  unfolding handle_responses apply_response
  handle_responses-Alike [] s = Alike-refl s
  handle_responses-Alike (resp ∷ rest) s =
      let h = handle_responses-Alike rest (apply_response resp s) in
      record { ids = h.ids; maps = h.maps }

module _ {R : Type 0} ⦃fl : Float R⦄ where
  handle_update-IsSound :
      (order : OrderMessage R) (s : Agv R) → IsSound s → IsSound (handle_update order s)
  unfolding handle_update
  handle_update-IsSound order s h =
      if_ind IsSound (ltb s.order_update_id order.order_update_id)
        (λ _. accept_order-IsSound order true s h)
        (λ _.
          if_ind IsSound (order.order_update_id == s.order_update_id)
            (λ _.
              if_ind IsSound (order_content_equal s.order_snapshot order) (λ _. h)
                (λ _. report-IsSound _ _ s h))
            (λ _. report-IsSound _ _ s h))

  handle_other-IsSound :
      (order : OrderMessage R) (s : Agv R) → IsSound s → IsSound (handle_other order s)
  unfolding handle_other
  handle_other-IsSound order s h =
      if_ind IsSound (is_idle s) (λ _. accept_order-IsSound order false s h)
        (λ _. report-IsSound _ _ s h)

  pub handle_order-IsSound :
      (order : OrderMessage R) (s : Agv R) → IsSound s → IsSound (handle_order order s)
  unfolding handle_order dispatch_order
  handle_order-IsSound order s h =
      let s1 = report_unknown_maps (unknown_maps s order.nodes) s in
      let h1 = report_unknown_maps-IsSound (unknown_maps s order.nodes) s h in
      if_ind IsSound s.hibernating (λ _. h)
        (λ _.
          if_ind IsSound (not (s1.order_id == "") && order.order_id == s1.order_id)
            (λ _. handle_update-IsSound order s1 h1) (λ _. handle_other-IsSound order s1 h1))
