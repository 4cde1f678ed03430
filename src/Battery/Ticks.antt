-- ===== src/Battery/Ticks.antt =====
-- agv.py: `tick`, for the range of the charge.
use vda5050_sim.Prelude.{
  true, not, ◌||◌, ◌≡◌, refl, ap, subst, sym, Option, none, some, arith, if_ind, Option-cases, inl,
  inr, is_some, Run, done, raised, after, ◌>>=◌, ◌+◌,
}
use vda5050_sim.Floats.{Float, nought}
use vda5050_sim.Schemas.{Edge, Node}
use vda5050_sim.Robot.{Agv, Motion}
use vda5050_sim.Actions.{finish_cancel, clear_active_order, advance_all_pending}
use vda5050_sim.Zones.{Clock, check_access_gates, check_lease_expiry, update_zone_actions}
use vda5050_sim.Zones.Frame.{check_access_gates-Aside}
use vda5050_sim.Movement.{current_node, find_edge_by_seq, find_node_by_seq}
use vda5050_sim.Tick.{
  maybe_auto_wake, is_held, finish_graph, update_charging, enter_edge, try_next, try_edge,
  traverse_from, traverse, progress, active_tick, awake_tick, tick, is_automatic,
}
use vda5050_sim.Tick.Safety.{maybe_request_new_base_cases}
use vda5050_sim.Battery.Kept.{
  Kept, Kept-trans, advance_all_pending-Kept, check_lease_expiry-Kept, update_zone_actions-Kept,
}
use vda5050_sim.Battery.Bounds.{
  BatteryLaws, InRange, IsSound, Kept-IsSound, update_charging-IsSound, drive-InRange,
}

module _ {R : Type 0} ⦃fl : Float R⦄ where
  open fl use {le, mul, add}

  enter_edge-InRange :
      (laws : BatteryLaws fl) (dt : R) (node : Node R) (edge : Edge R) (next_node : Node R)
      (s : Agv R)
      → IsSound s
      → InRange (enter_edge dt node edge next_node s).battery_soc
  unfolding enter_edge
  enter_edge-InRange laws dt node edge next_node s h =
      let s1 = (check_access_gates edge next_node s).0 in
      let aside = check_access_gates-Aside edge next_node s in
      let sound =
        Kept-IsSound s s1
          (record { setup = aside.1; battery = ap (λ (m : Motion R). m.battery_soc) aside.0 }) h in
      if_ind (λ (t : Agv R). InRange t.battery_soc) (check_access_gates edge next_node s).1
        (λ _. sound.in_range) (λ _. drive-InRange laws dt node edge next_node s1 sound)

  try_edge-InRange :
      (laws : BatteryLaws fl) (dt : R) (node : Node R) (o : Option (Edge R)) (s : Agv R)
      → IsSound s
      → InRange (try_edge dt node o s).battery_soc
  unfolding try_edge finish_graph try_next
  try_edge-InRange laws dt node none s h = h.in_range
  try_edge-InRange laws dt node (some edge) s h =
      if_ind (λ (t : Agv R). InRange t.battery_soc) edge.released
        (λ _. next (find_node_by_seq (edge.sequence_id + 1) s)) (λ _. h.in_range)
    where
      next : (o : Option (Node R)) → InRange (try_next dt node edge o s).battery_soc
      next none = h.in_range
      next (some next_node) =
          if_ind (λ (t : Agv R). InRange t.battery_soc) next_node.released
            (λ _. enter_edge-InRange laws dt node edge next_node s h) (λ _. h.in_range)

  traverse_from-InRange :
      (laws : BatteryLaws fl) (dt : R) (node : Node R) (s : Agv R)
      → IsSound s
      → InRange (traverse_from dt node s).battery_soc
  unfolding traverse_from
  traverse_from-InRange laws dt node s h =
      let edge = find_edge_by_seq (node.sequence_id + 1) s in
      if_ind (λ (t : Agv R). InRange t.battery_soc) (is_held node edge s) (λ _. h.in_range)
        (λ _.
          maybe_request_new_base_cases (λ t. InRange (try_edge dt node edge t).battery_soc) s
            (try_edge-InRange laws dt node edge s h)
            (try_edge-InRange laws dt node edge
              (record s { graph = record s.graph { new_base_request = true } })
              (record { in_range = h.in_range; drains = h.drains })))

  traverse-InRange :
      (laws : BatteryLaws fl) (dt : R) (s : Agv R) → IsSound s → InRange (traverse dt s).battery_soc
  unfolding traverse
  traverse-InRange laws dt s h = elim (Option-cases (current_node s)) [
    | inl e ↦ rw (e, traverse) h.in_range
    | inr (node, e) ↦ rw (e, traverse) (traverse_from-InRange laws dt node s h)
  ]

  progress-Kept : (clock : Clock) (dt : R) (s : Agv R) → Kept s (after (progress clock dt s))
  unfolding progress
  progress-Kept clock dt s =
      let clocked = record s { motion = record s.motion { elapsed_s = add s.elapsed_s dt } } in
      first clocked (advance_all_pending clocked) (
        Kept-trans s clocked (after (advance_all_pending clocked))
          (record { setup = refl; battery = refl }) (advance_all_pending-Kept clocked))
    where
      second :
          (m : Run (Agv R))
          → Kept s (after m)
          → Kept s (after (m >>= λ u. done (update_zone_actions u)))
      second (raised u) h = h
      second (done u) h = Kept-trans s u (update_zone_actions u) h (update_zone_actions-Kept u)

      first :
          (c : Agv R) (m : Run (Agv R))
          → Kept s (after m)
          → Kept s
              (after (m >>= λ u. check_lease_expiry clock u >>= λ v. done (update_zone_actions v)))
      first c (raised u) h = h
      first c (done u) h =
          second (check_lease_expiry clock u) (
            Kept-trans s u (after (check_lease_expiry clock u)) h (check_lease_expiry-Kept clock u))

  active_tick-InRange :
      (laws : BatteryLaws fl) (clock : Clock) (dt : R) (s : Agv R)
      → IsSound s
      → InRange (after (active_tick clock dt s)).battery_soc
  unfolding active_tick
  active_tick-InRange laws clock dt s h =
      go (progress clock dt s)
        (Kept-IsSound s (after (progress clock dt s)) (progress-Kept clock dt s) h)
    where
      go :
          (m : Run (Agv R))
          → IsSound (after m)
          → InRange (after (m >>= λ u. done (traverse dt u))).battery_soc
      go (raised u) k = k.in_range
      go (done u) k = traverse-InRange laws dt u k

  awake_tick-InRange :
      (laws : BatteryLaws fl) (clock : Clock) (dt : R) (s : Agv R)
      → IsSound s
      → InRange (after (awake_tick clock dt s)).battery_soc
  unfolding awake_tick finish_cancel clear_active_order
  awake_tick-InRange laws clock dt s h =
      if_ind (λ (r : Run (Agv R)). InRange (after r).battery_soc)
        (is_some s.cancel_requested_action_id) (λ _. h.in_range)
        (λ _.
          if_ind (λ (r : Run (Agv R)). InRange (after r).battery_soc)
            (s.paused || not (is_automatic s.operating_mode)) (λ _. h.in_range)
            (λ _. active_tick-InRange laws clock dt s h))

  asleep_tick :
      (clock : Clock) (s : Agv R) → (after (maybe_auto_wake clock s)).battery_soc ≡ s.battery_soc
  unfolding maybe_auto_wake
  asleep_tick clock s = ground arith

  -- A tick keeps the charge between 0 and 100 percent, also if it ends in an exception. For that
  -- the drain per meter and what one tick charges are not negative, and floats are as IEEE 754 says.
  pub tick-InRange :
      (laws : BatteryLaws fl) (clock : Clock) (dt : R) (s : Agv R)
      → le nought s.battery_drain_percent_per_meter ≡ true
      → le nought (mul s.battery_charge_percent_per_s dt) ≡ true
      → InRange s.battery_soc
      → InRange (after (tick clock dt s)).battery_soc
  unfolding tick
  tick-InRange laws clock dt s drains charges h =
      if_ind (λ (r : Run (Agv R)). InRange (after r).battery_soc) s.hibernating
        (λ _. subst InRange (sym (asleep_tick clock s)) h)
        (λ _.
          awake_tick-InRange laws clock dt (update_charging dt s)
            (update_charging-IsSound laws dt s charges (record { in_range = h; drains = drains })))
