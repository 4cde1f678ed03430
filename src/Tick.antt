-- ===== src/Tick.antt =====
-- src/vda5050_sim/agv.py: `tick`, one round of the robot.
pub mod Safety
pub mod Driving
pub mod Reaches
pub mod Strides
mod Stays
mod Placing
mod Posing
pub mod Pose
pub mod Cancel
pub mod Frozen
pub mod Paused
mod Present
pub mod Shrinks
pub mod Advances
use vda5050_sim.Prelude.{
  ℕ, nat_eq, ◌+◌, suc, String, string_eq, Bool, true, false, not, ◌&&◌, ◌||◌, Option, none, some,
  List, [], ◌∷◌, ◌++◌, ◌==◌, if◌then◌else◌, map, filter, is_some, leb, Run, done, raised, ◌>>=◌,
}
use vda5050_sim.Floats.{Float, nought, min_float, max_float}
use vda5050_sim.Schemas.{Action, Edge, Node, EmergencyStopType, OperatingMode}
use vda5050_sim.Robot.{Agv, Motion, Graph, Mode, not_empty}
use vda5050_sim.Actions.{
  advance_all_pending, is_blocking, instant_action_is_blocking, finish_cancel,
}
use vda5050_sim.Zones.{
  Clock, Timestamp, invalid, naive, aware, check_lease_expiry, update_zone_actions,
  check_access_gates,
}
use vda5050_sim.Movement.{
  current_node, find_edge_by_seq, find_node_by_seq, maybe_request_new_base, step_towards, arrive_at,
}

abbrev pub is_automatic : OperatingMode → Bool
is_automatic OperatingMode.automatic = true
is_automatic _ = false

abbrev pub no_stop : EmergencyStopType → Bool
no_stop EmergencyStopType.none = true
no_stop _ = false

module _ {R : Type 0} where
  abbrev wake : Agv R → Agv R
  wake s = record s { mode = record s.mode { hibernating = false; wake_up_at = none } }

  abbrev wake_at : ℕ → Timestamp → Agv R → Run (Agv R)
  wake_at now invalid s = done s
  wake_at now naive s = raised s
  wake_at now (aware t) s = if leb t now then done (wake s) else done s

  -- `not self._wake_up_at` holds for None and for the empty text.
  unfoldable pub maybe_auto_wake : Clock → Agv R → Run (Agv R)
  maybe_auto_wake clock s = elim s.wake_up_at [
    | none ↦ done s
    | some text ↦ if text == "" then done s else wake_at clock.now (clock.fromisoformat text) s
  ]

  abbrev pub halt : Agv R → Agv R
  halt s = record s { motion = record s.motion { driving = false } }

  abbrev pub halt_for_base : Agv R → Agv R
  halt_for_base s = record s {
    motion = record s.motion { driving = false };
    graph = record s.graph { new_base_request = true };
  }

  abbrev pub action_ids : List (Action R) → List String
  action_ids actions = map (λ a. a.action_id) actions

  abbrev pub edge_action_ids : Option (Edge R) → List String
  edge_action_ids none = []
  edge_action_ids (some e) = action_ids e.actions

  -- The four reasons to stand still before the graph is looked at.
  unfoldable pub is_held : Node R → Option (Edge R) → Agv R → Bool
  is_held node edge s =
      is_blocking (action_ids node.actions ++ edge_action_ids edge) s
      || instant_action_is_blocking s
      || s.field_violation
      || not (no_stop s.emergency_stop)

  -- No further edge: the last node is consumed.
  unfoldable pub finish_graph : Node R → Agv R → Agv R
  finish_graph node s = record s {
    motion = record s.motion { driving = false };
    graph = record s.graph {
      last_node_id = node.node_id;
      last_node_sequence_id = node.sequence_id;
      nodes = filter (λ n. not (n.sequence_id == node.sequence_id)) s.nodes;
    };
  }

module _ {R : Type 0} ⦃fl : Float R⦄ where
  open fl use {add, sub, mul, lt, decimal}

  unfoldable pub update_charging : R → Agv R → Agv R
  update_charging dt s =
      if s.charging && lt s.battery_soc (decimal 100 0)
      then record s {
        motion = record s.motion {
          battery_soc =
              min_float (decimal 100 0) (add s.battery_soc (mul s.battery_charge_percent_per_s dt));
        };
      }
      else s

  unfoldable pub drain : Agv R → Agv R
  drain s =
      if lt nought s.last_step_distance
      then record s {
        motion = record s.motion {
          battery_soc =
              max_float nought
                (sub s.battery_soc (mul s.last_step_distance s.battery_drain_percent_per_meter));
          distance_since_last_node = add s.distance_since_last_node s.last_step_distance;
        };
      }
      else s

  -- Drives towards the next node along the edge.
  unfoldable pub drive : R → Node R → Edge R → Node R → Agv R → Agv R
  drive dt node edge next_node s =
      let started = record s { motion = record s.motion { driving = true } } in
      let (moved, arrived) = step_towards next_node dt (some edge) started in
      let drained = drain moved in
      if arrived then arrive_at next_node edge node.sequence_id nought drained else drained

  -- The gates before the next node.
  unfoldable pub enter_edge : R → Node R → Edge R → Node R → Agv R → Agv R
  enter_edge dt node edge next_node s =
      let (s1, holding) = check_access_gates edge next_node s in
      if holding then halt s1 else drive dt node edge next_node s1

  unfoldable pub try_next : R → Node R → Edge R → Option (Node R) → Agv R → Agv R
  try_next dt node edge none s = halt_for_base s
  try_next dt node edge (some next_node) s =
      if next_node.released then enter_edge dt node edge next_node s else halt_for_base s

  unfoldable pub try_edge : R → Node R → Option (Edge R) → Agv R → Agv R
  try_edge dt node none s = finish_graph node s
  try_edge dt node (some edge) s =
      if edge.released
      then try_next dt node edge (find_node_by_seq (edge.sequence_id + 1) s) s
      else halt_for_base s

  unfoldable pub traverse_from : R → Node R → Agv R → Agv R
  traverse_from dt node s =
      let edge = find_edge_by_seq (node.sequence_id + 1) s in
      if is_held node edge s then halt s else try_edge dt node edge (maybe_request_new_base s)

  -- From the first look at the graph on.
  unfoldable pub traverse : R → Agv R → Agv R
  traverse dt s = elim (current_node s) [ none ↦ halt s | some node ↦ traverse_from dt node s ]

  -- What a tick does before it looks at the graph.
  unfoldable pub progress : Clock → R → Agv R → Run (Agv R)
  progress clock dt s = do
    let clocked = record s { motion = record s.motion { elapsed_s = add s.elapsed_s dt } }
    advanced ← advance_all_pending clocked
    checked ← check_lease_expiry clock advanced
    done (update_zone_actions checked)

  unfoldable pub active_tick : Clock → R → Agv R → Run (Agv R)
  active_tick clock dt s = progress clock dt s >>= λ s'. done (traverse dt s')

  unfoldable pub awake_tick : Clock → R → Agv R → Run (Agv R)
  awake_tick clock dt s =
      if is_some s.cancel_requested_action_id
      then done (finish_cancel s)
      else if s.paused || not (is_automatic s.operating_mode)
      then done s
      else active_tick clock dt s

  unfoldable pub tick : Clock → R → Agv R → Run (Agv R)
  tick clock dt s =
      if s.hibernating then maybe_auto_wake clock s else awake_tick clock dt (update_charging dt s)
