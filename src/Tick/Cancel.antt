-- ===== src/Tick/Cancel.antt =====
-- agv.py: cancelOrder, from the message to the tick that carries it out.
use vda5050_sim.Prelude.{
  String, string_eq, Eq, Bool, true, false, ◌&&◌, ◌≡◌, ◌≢◌, refl, ◌∙◌, ap, none, some, List, [],
  ◌∷◌, ◌++◌, arith, any, modify_first, ◌==◌, done,
}
use vda5050_sim.Floats.{Float}
use vda5050_sim.Catalog.{action_catalog, scopes_for}
use vda5050_sim.Schemas.{Action, ActionState, ActionStatus}
use vda5050_sim.Robot.{
  Agv, Tracking, same_status, set_status, is_idle, append_instant_state, in_scope,
  legacy_unsupported_actions,
}
use vda5050_sim.Actions.{
  finish_cancel, clear_active_order, handle_cancel, handle_instant_action, dispatch_instant,
  instant_kind, is_cancel, missing_version,
}
use vda5050_sim.Zones.{Clock}
use vda5050_sim.Tick.{tick, awake_tick, update_charging}

-- The state of the action, FINISHED.
abbrev pub has_finished : String → ActionState → Bool
has_finished action_id st =
    st.action_id == action_id && same_status st.action_status ActionStatus.finished

finish_first :
    (id : String) (xs : List ActionState) (st : ActionState)
    → st.action_id ≡ id
    → st.action_status ≡ ActionStatus.running
    → any
        (has_finished id)
        (modify_first (is_cancel (some id)) (set_status ActionStatus.finished) (xs ++ st ∷ []))
      ≡ true
finish_first id [] st i r = ground (arith, Eq.beq_iff string_eq st.action_id id)
finish_first id (x ∷ xs) st i r = ground (arith, finish_first id xs st i r)

module _ {R : Type 0} where
  -- No order is left, the robot stands idle, and the cancelOrder action is FINISHED.
  pub record Cancelled (action : Action R) (s t : Agv R) : Type 0 where
    pub no_order : t.order_id ≡ ""
    pub no_nodes : t.nodes ≡ []
    pub no_edges : t.edges ≡ []
    pub no_actions : t.action_states ≡ []
    pub zone_actions : t.zone_action_states ≡ s.zone_action_states
    pub no_zone_requests : t.zone_requests ≡ []
    pub no_edge_requests : t.edge_requests ≡ []
    pub idle : is_idle t ≡ true
    pub nothing_to_cancel : t.cancel_requested_action_id ≡ none
    pub finished : any (has_finished action.action_id) t.instant_action_states ≡ true

  -- The robot that has accepted to cancel, after charging.
  abbrev Awaiting : Action R → Agv R → Agv R → Type 0
  Awaiting action s u =
      (u.instant_action_states
        ≡ s.instant_action_states
          ++ record {
            ref = s.next_ref;
            action_id = action.action_id;
            action_status = ActionStatus.running;
            action_type = some action.action_type;
            action_descriptor = none;
            action_result = none;
          }
            ∷ [])
      × (u.cancel_requested_action_id ≡ some action.action_id)
      × (u.zone_action_states ≡ s.zone_action_states)

  finish_cancel-Cancelled :
      (action : Action R) (s u : Agv R) → Awaiting action s u → Cancelled action s (finish_cancel u)
  unfolding finish_cancel clear_active_order is_idle
  finish_cancel-Cancelled action s u (listed, wanted, zones) = record {
    no_order = refl;
    no_nodes = refl;
    no_edges = refl;
    no_actions = refl;
    zone_actions = zones;
    no_zone_requests = refl;
    no_edge_requests = refl;
    idle = refl;
    nothing_to_cancel = refl;
    finished =
        rw (listed, wanted) (finish_first action.action_id s.instant_action_states _ refl refl);
  }

module _ {R : Type 0} ⦃fl : Float R⦄ where
  tracking_when_charging : (dt : R) (s : Agv R) → (update_charging dt s).tracking ≡ s.tracking
  unfolding update_charging
  tracking_when_charging dt s = ground arith

  -- For a cancelOrder that comes to an awake robot which is busy with an order.
  cancel_accepted :
      (stamp : String) (action : Action R) (s : Agv R)
      → action.action_type ≡ "cancelOrder"
      → s.hibernating ≡ false
      → s.order_id ≢ ""
      → is_idle s ≡ false
      → (Awaiting action s (handle_instant_action stamp action s))
        × ((handle_instant_action stamp action s).hibernating ≡ false)
  unfolding handle_instant_action missing_version legacy_unsupported_actions in_scope scopes_for
      action_catalog instant_kind dispatch_instant handle_cancel append_instant_state
  cancel_accepted stamp action s type awake order busy =
      rw type (ground (arith, Eq.beq_iff string_eq s.order_id ""))

  -- A cancelOrder that reaches an awake robot, busy with an order, is carried out by the next tick,
  -- whatever time that takes and whether or not the robot is paused: the order, its requests and the
  -- states of its actions are gone, whatever these actions did, so that one which waits for a trigger
  -- vanishes and is not FAILED; zone actions keep their states, also one that waits for a trigger;
  -- the robot is idle, and the cancelOrder action is FINISHED.
  pub cancel_order-Cancelled :
      (clock : Clock) (dt : R) (stamp : String) (action : Action R) (s : Agv R)
      → action.action_type ≡ "cancelOrder"
      → s.hibernating ≡ false
      → s.order_id ≢ ""
      → is_idle s ≡ false
      → (t : Agv R) × (tick clock dt (handle_instant_action stamp action s) ≡ done t)
        × Cancelled action s t
  unfolding tick awake_tick
  cancel_order-Cancelled clock dt stamp action s type awake order busy =
      let s1 = handle_instant_action stamp action s in
      let ((listed, wanted, zones), still_awake) =
        cancel_accepted stamp action s type awake order busy in
      let same = tracking_when_charging dt s1 in
      let listed' = ap (λ (k : Tracking R). k.instant_action_states) same ∙ listed in
      let zones' = ap (λ (k : Tracking R). k.zone_action_states) same ∙ zones in
      let wanted' = ap (λ (k : Tracking R). k.cancel_requested_action_id) same ∙ wanted in
      (
        finish_cancel (update_charging dt s1),
        ground (arith, still_awake, wanted'),
        finish_cancel-Cancelled action s (update_charging dt s1) (listed', wanted', zones'),
      )
