-- ===== src/Tick/Frozen.antt =====
-- agv.py: `tick` of a paused robot.
use vda5050_sim.Prelude.{
  true, false, ◌≡◌, refl, ◌∙◌, ap, List, [], ◌∷◌, arith, is_some, Run, done, ◌>>=◌,
}
use vda5050_sim.Floats.{Float}
use vda5050_sim.Robot.{Agv, Tracking, Motion, Mode}
use vda5050_sim.Zones.{Clock}
use vda5050_sim.Tick.{tick, awake_tick, update_charging}

module _ {R : Type 0} ⦃fl : Float R⦄ where
  open fl use {add}

  -- `tick` once for each of the times that the loop passes.
  unfoldable pub ticks : Clock → List R → Agv R → Run (Agv R)
  ticks clock [] s = done s
  ticks clock (dt ∷ dts) s = tick clock dt s >>= λ s'. ticks clock dts s'

  -- `t` is `s` but for the charge of the battery.
  pub record Frozen (s t : Agv R) : Type 0 where
    pub setup : t.setup ≡ s.setup
    pub graph : t.graph ≡ s.graph
    pub tracking : t.tracking ≡ s.tracking
    pub site : t.site ≡ s.site
    pub motion : t.motion ≡ record s.motion { battery_soc = t.battery_soc }
    pub faults : t.faults ≡ s.faults
    pub mode : t.mode ≡ s.mode

  pub Frozen-refl : (s : Agv R) → Frozen s s
  Frozen-refl s = record {
    setup = refl;
    graph = refl;
    tracking = refl;
    site = refl;
    motion = refl;
    faults = refl;
    mode = refl;
  }

  Frozen-trans : (s t u : Agv R) → Frozen s t → Frozen t u → Frozen s u
  Frozen-trans s t u h k = record {
    setup = k.setup ∙ h.setup;
    graph = k.graph ∙ h.graph;
    tracking = k.tracking ∙ h.tracking;
    site = k.site ∙ h.site;
    motion = k.motion ∙ ap (λ (m : Motion R). record m { battery_soc = u.battery_soc }) h.motion;
    faults = k.faults ∙ h.faults;
    mode = k.mode ∙ h.mode;
  }

  update_charging-Frozen : (dt : R) (s : Agv R) → Frozen s (update_charging dt s)
  unfolding update_charging
  update_charging-Frozen dt s = record {
    setup = ground arith;
    graph = ground arith;
    tracking = ground arith;
    site = ground arith;
    motion = ground arith;
    faults = ground arith;
    mode = ground arith;
  }

  -- The robot is awake and paused, and has no order to cancel.
  pub record IsPaused (s : Agv R) : Type 0 where
    pub awake : s.hibernating ≡ false
    pub paused : s.paused ≡ true
    pub nothing_to_cancel : is_some s.cancel_requested_action_id ≡ false

  Frozen-IsPaused : (s t : Agv R) → Frozen s t → IsPaused s → IsPaused t
  Frozen-IsPaused s t h p = record {
    awake = ap (λ (m : Mode). m.hibernating) h.mode ∙ p.awake;
    paused = ap (λ (m : Mode). m.paused) h.mode ∙ p.paused;
    nothing_to_cancel =
        ap (λ (k : Tracking R). is_some k.cancel_requested_action_id) h.tracking
        ∙ p.nothing_to_cancel;
  }

  paused_tick :
      (clock : Clock) (dt : R) (s : Agv R)
      → IsPaused s
      → tick clock dt s ≡ done (update_charging dt s)
  unfolding tick awake_tick
  paused_tick clock dt s p =
      let q = Frozen-IsPaused s (update_charging dt s) (update_charging-Frozen dt s) p in
      ground (arith, p.awake, q.paused, q.nothing_to_cancel)

  -- However long a robot is paused, only its battery may change, and no exception comes.
  pub paused_ticks-Frozen :
      (clock : Clock) (dts : List R) (s : Agv R)
      → IsPaused s
      → (t : Agv R) × (ticks clock dts s ≡ done t) × Frozen s t
  unfolding ticks
  paused_ticks-Frozen clock [] s p = (s, refl, Frozen-refl s)
  paused_ticks-Frozen clock (dt ∷ dts) s p =
      let u = update_charging dt s in
      let charged = update_charging-Frozen dt s in
      let (t, e, h) = paused_ticks-Frozen clock dts u (Frozen-IsPaused s u charged p) in
      (t, rw (paused_tick clock dt s p, ticks) e, Frozen-trans s u t charged h)
