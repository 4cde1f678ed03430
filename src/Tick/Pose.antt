-- ===== src/Tick/Pose.antt =====
-- agv.py: when `tick` changes the pose.
use vda5050_sim.Prelude.{
  Bool, true, false, not, ◌||◌, ◌≡◌, ◌⊎◌, inl, inr, refl, ap, ◌∙◌, arith, if_ind, is_some, Run,
  done, raised, after, ◌>>=◌, subst, lookup, some, string_eq,
}
use vda5050_sim.Floats.{Float}
use vda5050_sim.Robot.{Agv, Motion, Tracking, Mode, Faults}
use vda5050_sim.Actions.{finish_cancel, clear_active_order}
use vda5050_sim.Zones.{Clock}
use vda5050_sim.Tick.{
  traverse, progress, active_tick, awake_tick, tick, update_charging, is_automatic, maybe_auto_wake,
}
use vda5050_sim.Tick.Safety.{IsClear, traverse-Moves}
use vda5050_sim.Tick.Reaches.{Drives}
use vda5050_sim.Tick.Strides.{traverse-Drives}
use vda5050_sim.Tick.Stays.{pose, tracks, Places}
use vda5050_sim.Tick.Posing.{progress-Places}
use vda5050_sim.Schemas.{Edge, Node}

paused_or_manual : (p a : Bool) → (p || not a) ≡ false → (p ≡ false) × (a ≡ true)
paused_or_manual p a h = ground arith

module _ {R : Type 0} ⦃fl : Float R⦄ where
  -- The robot follows its order: it is awake, automatic, not paused, and has no order to cancel.
  pub record IsActive (s : Agv R) : Type 0 where
    pub awake : s.hibernating ≡ false
    pub nothing_to_cancel : is_some s.cancel_requested_action_id ≡ false
    pub not_paused : s.paused ≡ false
    pub automatic : is_automatic s.operating_mode ≡ true

  -- The state between the progress of actions and the look at the graph.
  abbrev pub progressed : Clock → R → Agv R → Run (Agv R)
  progressed clock dt s = progress clock dt (update_charging dt s)

  -- `t` is where driving takes `u` in the time, and the way was clear.
  pub record Departs (dt : R) (u t : Agv R) : Type 0 where
    pub node : Node R
    pub edge : Edge R
    pub next_node : Node R
    pub clear : IsClear u node edge next_node
    pub drives : Drives dt node edge next_node next_node.node_position u t

  -- Where the pose after a tick comes from.
  abbrev pub PoseRule : Clock → R → Agv R → Agv R → Type 0
  PoseRule clock dt s t =
      (pose t ≡ pose s)
      ⊎ (IsActive s
          × (let u = after (progressed clock dt s) in
              ((pose u ≡ pose s) ⊎ Places s)
              × ((pose t ≡ pose u) ⊎ ((progressed clock dt s ≡ done u) × Departs dt u t))))

  pose-update_charging : (dt : R) (s : Agv R) → pose (update_charging dt s) ≡ pose s
  unfolding update_charging
  pose-update_charging dt s = ground arith

  tracking-update_charging : (dt : R) (s : Agv R) → (update_charging dt s).tracking ≡ s.tracking
  unfolding update_charging
  tracking-update_charging dt s = ground arith

  mode-update_charging : (dt : R) (s : Agv R) → (update_charging dt s).mode ≡ s.mode
  unfolding update_charging
  mode-update_charging dt s = ground arith

  faults-update_charging : (dt : R) (s : Agv R) → (update_charging dt s).faults ≡ s.faults
  unfolding update_charging
  faults-update_charging dt s = ground arith

  pose-maybe_auto_wake :
      (clock : Clock) (s : Agv R) → pose (after (maybe_auto_wake clock s)) ≡ pose s
  unfolding maybe_auto_wake
  pose-maybe_auto_wake clock s = ground arith

  active_tick-pose :
      (clock : Clock) (dt : R) (s : Agv R)
      → (pose (after (active_tick clock dt s)) ≡ pose (after (progress clock dt s)))
        ⊎ ((progress clock dt s ≡ done (after (progress clock dt s)))
            × Departs dt (after (progress clock dt s)) (after (active_tick clock dt s)))
  unfolding active_tick
  active_tick-pose clock dt s = by_run (progress clock dt s) refl
    where
      by_run :
          (r : Run (Agv R))
          → progress clock dt s ≡ r
          → (pose (after (r >>= λ s'. done (traverse dt s'))) ≡ pose (after r))
            ⊎ ((r ≡ done (after r))
                × Departs dt (after r) (after (r >>= λ s'. done (traverse dt s'))))
      by_run (raised u) e = inl refl
      by_run (done u) e = elim (traverse-Moves dt u) [
        | inl still ↦ inl (ap (λ (m : Motion R). (m.x, m.y, m.theta)) still)
        | inr c ↦ inr (
          refl,
          record {
            node = c.node;
            edge = c.edge;
            next_node = c.next_node;
            clear = c.clear;
            drives = traverse-Drives dt u c.node c.edge c.next_node c.clear;
          },
        )
      ]

  pose-finish_cancel : (s : Agv R) → pose (finish_cancel s) ≡ pose s
  unfolding finish_cancel clear_active_order
  pose-finish_cancel s = refl

  -- Charging is no action.
  charged-Places :
      (dt : R) (s u : Agv R)
      → (pose u ≡ pose (update_charging dt s)) ⊎ Places (update_charging dt s)
      → (pose u ≡ pose s) ⊎ Places s
  charged-Places dt s u (inl still) = inl (still ∙ pose-update_charging dt s)
  charged-Places dt s u (inr p) =
      let same = tracking-update_charging dt s in
      inr (record {
        id = p.id;
        action = p.action;
        tracked =
            subst
              (λ (k : Tracking R).
                (tracks p.id k.action_states
                  || (tracks p.id k.instant_action_states || tracks p.id k.zone_action_states))
                ≡ true)
              same p.tracked;
        registered =
            subst (λ (k : Tracking R). lookup p.id k.action_registry ≡ some p.action) same
              p.registered;
        places = p.places;
      })

  awake_tick-PoseRule :
      (clock : Clock) (dt : R) (s : Agv R)
      → s.hibernating ≡ false
      → PoseRule clock dt s (after (awake_tick clock dt (update_charging dt s)))
  unfolding awake_tick
  awake_tick-PoseRule clock dt s awake =
      let s1 = update_charging dt s in
      if_ind (λ (r : Run (Agv R)). PoseRule clock dt s (after r))
        (is_some s1.cancel_requested_action_id)
        (λ _. inl (pose-finish_cancel s1 ∙ pose-update_charging dt s))
        λ no_cancel.
          if_ind (λ (r : Run (Agv R)). PoseRule clock dt s (after r))
            (s1.paused || not (is_automatic s1.operating_mode))
            (λ _. inl (pose-update_charging dt s))
            λ runs.
              let (going, automatic) =
                paused_or_manual s1.paused (is_automatic s1.operating_mode) runs in
              inr (
                (record {
                  awake = awake;
                  nothing_to_cancel =
                      subst (λ (k : Tracking R). is_some k.cancel_requested_action_id ≡ false)
                        (tracking-update_charging dt s) no_cancel;
                  not_paused =
                      subst (λ (m : Mode). m.paused ≡ false) (mode-update_charging dt s) going;
                  automatic =
                      subst (λ (f : Faults R). is_automatic f.operating_mode ≡ true)
                        (faults-update_charging dt s) automatic;
                }),
                (
                  charged-Places dt s (after (progress clock dt s1)) (progress-Places clock dt s1),
                  active_tick-pose clock dt s1,
                ),
              )

  -- A tick changes the pose in two ways only, and both need an awake, automatic robot that is not
  -- paused and has no order to cancel. The progress of actions changes it only if the robot tracks
  -- an initializePosition action; then, when the way to the next node is clear, the robot drives,
  -- and gets from there as far as its speed allows, at most to that node.
  pub tick-PoseRule :
      (clock : Clock) (dt : R) (s : Agv R) → PoseRule clock dt s (after (tick clock dt s))
  unfolding tick
  tick-PoseRule clock dt s =
      if_ind (λ (r : Run (Agv R)). PoseRule clock dt s (after r)) s.hibernating
        (λ _. inl (pose-maybe_auto_wake clock s)) (awake_tick-PoseRule clock dt s)
