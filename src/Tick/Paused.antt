-- ===== src/Tick/Paused.antt =====
-- agv.py: a pause, from startPause over any number of ticks to stopPause.
use vda5050_sim.Prelude.{
  String, string_eq, Bool, true, false, ◌≡◌, refl, ◌∙◌, ap, none, some, List, [], ◌∷◌, ◌++◌, arith,
  map, All, is_some, done, suc, ℕ, subst, sym,
}
use mathlib.Core.List.{map-append}
use vda5050_sim.Floats.{Float}
use vda5050_sim.Catalog.{action_catalog, scopes_for}
use vda5050_sim.Schemas.{Action, ActionState, ActionStatus}
use vda5050_sim.Robot.{
  Agv, Tracking, Mode, same_status, append_instant_state, in_scope, legacy_unsupported_actions,
}
use vda5050_sim.Actions.{
  flip_all, flip_status, answer, pause_or_resume, handle_instant_action, dispatch_instant,
  instant_kind, missing_version,
}
use vda5050_sim.Zones.{Clock}
use vda5050_sim.Tick.Frozen.{ticks, Frozen, paused_ticks-Frozen}

abbrev pub is_paused : ActionState → Bool
is_paused st = same_status st.action_status ActionStatus.paused

-- No state of the list is PAUSED.
abbrev pub NonePaused : List ActionState → Type 0
NonePaused xs = All (λ st. is_paused st ≡ false) xs

resume_paused :
    (xs : List ActionState)
    → NonePaused xs
    → map
        (flip_status ActionStatus.paused ActionStatus.running)
        (map (flip_status ActionStatus.running ActionStatus.paused) xs)
      ≡ xs
resume_paused [] h = refl
resume_paused (x ∷ xs) h = ground (arith, h.0, resume_paused xs h.1)

module _ {R : Type 0} ⦃fl : Float R⦄ where
  -- The state with which the robot answers an action that it carries out at once.
  abbrev pub finished : ℕ → Action R → ActionState
  finished ref action = record {
    ref = ref;
    action_id = action.action_id;
    action_status = ActionStatus.finished;
    action_type = some action.action_type;
    action_descriptor = none;
    action_result = none;
  }

  start_pause_lem :
      (stamp : String) (action : Action R) (s : Agv R)
      → action.action_type ≡ "startPause"
      → s.hibernating ≡ false
      → handle_instant_action stamp action s
        ≡ answer action (
            flip_all ActionStatus.running ActionStatus.paused
              (record s { mode = record s.mode { paused = true } }))
  unfolding handle_instant_action missing_version legacy_unsupported_actions in_scope scopes_for
      action_catalog instant_kind dispatch_instant pause_or_resume
  start_pause_lem stamp action s type awake = rw type (ground arith)

  stop_pause_lem :
      (stamp : String) (action : Action R) (s : Agv R)
      → action.action_type ≡ "stopPause"
      → s.hibernating ≡ false
      → handle_instant_action stamp action s
        ≡ answer action (
            flip_all ActionStatus.paused ActionStatus.running
              (record s { mode = record s.mode { paused = false } }))
  unfolding handle_instant_action missing_version legacy_unsupported_actions in_scope scopes_for
      action_catalog instant_kind dispatch_instant pause_or_resume
  stop_pause_lem stamp action s type awake = rw type (ground arith)

  -- `u` carries on where `s` was when the pause began; the two actions are answered.
  pub record Resumed (start stop : Action R) (s u : Agv R) : Type 0 where
    pub graph : u.graph ≡ s.graph
    pub action_states : u.action_states ≡ s.action_states
    pub zone_action_states : u.zone_action_states ≡ s.zone_action_states
    pub instant_action_states :
        u.instant_action_states
        ≡ (s.instant_action_states ++ finished s.next_ref start ∷ [])
          ++ finished (suc s.next_ref) stop ∷ []
    pub action_started_at : u.action_started_at ≡ s.action_started_at
    pub motion : u.motion ≡ record s.motion { battery_soc = u.battery_soc }
    pub going : u.paused ≡ false

  resumed :
      (start stop : Action R) (s t : Agv R)
      → NonePaused s.action_states
      → NonePaused s.instant_action_states
      → NonePaused s.zone_action_states
      → Frozen
          (answer start (
            flip_all ActionStatus.running ActionStatus.paused
              (record s { mode = record s.mode { paused = true } })))
          t
      → Resumed start stop s (
          answer stop (
            flip_all ActionStatus.paused ActionStatus.running
              (record t { mode = record t.mode { paused = false } })))
  unfolding flip_all append_instant_state
  resumed start stop s t a i z h =
      let back = flip_status ActionStatus.paused ActionStatus.running in
      let away = map (flip_status ActionStatus.running ActionStatus.paused) in
      record {
        graph = h.graph;
        action_states =
            ap (λ (k : Tracking R). map back k.action_states) h.tracking
            ∙ resume_paused s.action_states a;
        zone_action_states =
            ap (λ (k : Tracking R). map back k.zone_action_states) h.tracking
            ∙ resume_paused s.zone_action_states z;
        instant_action_states =
            ap
              (λ (k : Tracking R).
                map back k.instant_action_states ++ finished k.next_ref stop ∷ [])
              h.tracking
            ∙ ap (λ xs. xs ++ finished (suc s.next_ref) stop ∷ [])
                (map-append back (away s.instant_action_states) (finished s.next_ref start ∷ [])
                  ∙ ap (λ xs. xs ++ finished s.next_ref start ∷ [])
                      (resume_paused s.instant_action_states i));
        action_started_at = ap (λ (k : Tracking R). k.action_started_at) h.tracking;
        motion = h.motion;
        going = refl;
      }

  -- A robot that is awake, has no order to cancel and tracks no PAUSED action gets startPause, any
  -- number of ticks and stopPause. No exception comes, and it carries on where it was: with the same
  -- graph, pose and action states, but for the charge, and for the two states behind its instant
  -- actions that answer startPause and stopPause as FINISHED.
  pub pause-Resumed :
      (clock : Clock) (dts : List R) (stamp stamp' : String) (start stop : Action R) (s : Agv R)
      → start.action_type ≡ "startPause"
      → stop.action_type ≡ "stopPause"
      → s.hibernating ≡ false
      → is_some s.cancel_requested_action_id ≡ false
      → NonePaused s.action_states
      → NonePaused s.instant_action_states
      → NonePaused s.zone_action_states
      → (t : Agv R) × (ticks clock dts (handle_instant_action stamp start s) ≡ done t)
        × Resumed start stop s (handle_instant_action stamp' stop t)
  unfolding flip_all append_instant_state
  pause-Resumed clock dts stamp stamp' start stop s starts stops awake none_cancelled a i z =
      let s1 = answer start (
        flip_all ActionStatus.running ActionStatus.paused
          (record s { mode = record s.mode { paused = true } })) in
      let (t, e, h) =
        paused_ticks-Frozen clock dts s1
          (record { awake = awake; paused = refl; nothing_to_cancel = none_cancelled }) in
      (
        t,
        ap (ticks clock dts) (start_pause_lem stamp start s starts awake) ∙ e,
        subst (Resumed start stop s)
            (sym (
              stop_pause_lem stamp' stop t stops (ap (λ (m : Mode). m.hibernating) h.mode ∙ awake)))
            (resumed start stop s t a i z h),
      )
