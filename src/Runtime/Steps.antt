-- ===== src/Runtime/Steps.antt =====
-- agv.py: the steps of a robot's life, and the states that they reach.
use vda5050_sim.Prelude.{
  String, Bool, refl, Option, some, none, List, arith, if_ind, any, after, ◌==◌, string_eq,
}
use vda5050_sim.Floats.{Float}
use vda5050_sim.Schemas.{Action, OrderMessage, ZoneSet, Response}
use vda5050_sim.Robot.{Agv, RobotConfig, Defaults, init, all_states, set_status}
use vda5050_sim.Orders.{handle_order}
use vda5050_sim.Actions.{handle_instant_actions}
use vda5050_sim.Zones.{Clock, handle_zone_set, handle_responses}
use vda5050_sim.Tick.{tick}
use vda5050_sim.Faults.{
  Draws, update_field_violation, update_operating_mode_fault, update_emergency_stop, inject_error,
  maybe_inject_fault, set_battery, strikes, failed_status, runs_retriable, trigger_fault,
}
use vda5050_sim.Messages.{
  Build, build, next_header_id, build_state_message, build_visualization_message,
  build_connection_message, build_factsheet_message,
}
use vda5050_sim.Runtime.Sound.{
  IsSound, Alike, Alike-refl, Alike-trans, Alike-IsSound, modify_tracked-Alike, report-Alike,
}
use vda5050_sim.Runtime.Messages.{
  handle_order-IsSound, handle_zone_set-Alike, handle_responses-Alike,
}
use vda5050_sim.Runtime.Instants.{handle_instant_actions-IsSound}
use vda5050_sim.Runtime.Ticks.{tick-IsSound}

module _ {R : Type 0} ⦃fl : Float R⦄ where
  -- The robot after the debug route for faults, which an unknown type leaves alone.
  abbrev pub kept_or : Agv R → Option (Agv R) → Agv R
  kept_or s none = s
  kept_or s (some t) = t

  -- What may happen to a robot: a message of one of the four topics, a tick (also one that ends in an
  -- exception), the fault injection, the debug routes for the battery and for faults, the building
  -- of a message, and what the state loop writes to the request of a factsheet or a state.
  pub data Step : Agv R → Agv R → Type 0 where
    ordered : {s : Agv R} (order : OrderMessage R) → Step s (handle_order order s)
    instructed :
        {s : Agv R} (stamp : String) (actions : List (Action R))
        → Step s (handle_instant_actions stamp actions s)
    zoned : {s : Agv R} (zone_set : ZoneSet R) → Step s (handle_zone_set zone_set s)
    answered : {s : Agv R} (responses : List Response) → Step s (handle_responses responses s)
    ticked : {s : Agv R} (clock : Clock) (dt : R) → Step s (after (tick clock dt s))
    faulted : {s : Agv R} (draws : Draws R) (dt : R) → Step s (maybe_inject_fault draws dt s)
    provoked : {s : Agv R} (type : String) → Step s (kept_or s (trigger_fault type s))
    charged : {s : Agv R} (percent : R) → Step s (set_battery percent s)
    reported :
        {s : Agv R} (str : R → String) (now : String) (b : Build) → Step s (build str now b s).1
    noted :
        {s : Agv R} (factsheet : Bool) (event : Option Bool)
        → Step s (record s {
          mode = record s.mode { factsheet_requested = factsheet; state_request_event = event };
        })

  -- The states that a robot of this configuration can get to.
  pub data Reachable (cfg : RobotConfig R) (d : Defaults R) : Agv R → Type 0 where
    start : Reachable cfg d (init cfg d)
    more : {s t : Agv R} → Reachable cfg d s → Step s t → Reachable cfg d t

  field_violation-Alike : (draw : R) (s : Agv R) → Alike s (update_field_violation draw s)
  unfolding update_field_violation
  field_violation-Alike draw s = record { ids = ground arith; maps = ground arith }

  operating_mode-Alike : (draw : R) (s : Agv R) → Alike s (update_operating_mode_fault draw s)
  unfolding update_operating_mode_fault
  operating_mode-Alike draw s = record { ids = ground arith; maps = ground arith }

  emergency_stop-Alike :
      (draw : R) (choice : Bool) (s : Agv R) → Alike s (update_emergency_stop draw choice s)
  unfolding update_emergency_stop
  emergency_stop-Alike draw choice s = record { ids = ground arith; maps = ground arith }

  inject_error-Alike : (s : Agv R) → Alike s (inject_error s)
  unfolding inject_error
  inject_error-Alike s =
      if_ind (Alike s) (any (runs_retriable s.action_registry) (all_states s))
        (λ _.
          modify_tracked-Alike (runs_retriable s.action_registry) (set_status (failed_status s)) s
            (λ st. refl))
        (λ _. report-Alike _ _ s s (Alike-refl s))

  maybe_inject_fault-Alike :
      (draws : Draws R) (dt : R) (s : Agv R) → Alike s (maybe_inject_fault draws dt s)
  unfolding maybe_inject_fault
  maybe_inject_fault-Alike draws dt s =
      let s0 = record s {
        faults = record s.faults { fault_elapsed_s = fl.add s.fault_elapsed_s dt };
      } in
      let s1 = update_field_violation draws.field_violation s0 in
      let s2 = update_operating_mode_fault draws.service_mode s1 in
      let s3 = update_emergency_stop draws.emergency_stop draws.stop_type s2 in
      let k = Alike-trans s0 s1 s3 (field_violation-Alike draws.field_violation s0) (
        Alike-trans s1 s2 s3 (operating_mode-Alike draws.service_mode s1)
          (emergency_stop-Alike draws.emergency_stop draws.stop_type s2)) in
      let here : Alike s s3 = record { ids = k.ids; maps = k.maps } in
      if_ind (Alike s)
        (strikes s3.cfg.fault_profile.error_injection_probability draws.error_injection)
        (λ _. Alike-trans s s3 (inject_error s3) here (inject_error-Alike s3)) (λ _. here)

  trigger_fault-Alike : (type : String) (s : Agv R) → Alike s (kept_or s (trigger_fault type s))
  unfolding trigger_fault
  trigger_fault-Alike type s =
      if_ind (λ o. Alike s (kept_or s o)) (type == "hardware_fault")
        (λ _. report-Alike "hardwareFault" "debug-triggered fault" s s (Alike-refl s))
        (λ _.
          if_ind (λ o. Alike s (kept_or s o)) (type == "field_violation")
            (λ _. record { ids = refl; maps = refl })
            (λ _.
              if_ind (λ o. Alike s (kept_or s o)) (type == "service_mode")
                (λ _. record { ids = refl; maps = refl })
                (λ _.
                  if_ind (λ o. Alike s (kept_or s o)) (type == "emergency_stop")
                    (λ _. record { ids = refl; maps = refl }) (λ _. Alike-refl s))))

  build-Alike :
      (str : R → String) (now : String) (b : Build) (s : Agv R) → Alike s (build str now b s).1
  unfolding build_state_message build_visualization_message build_connection_message
      build_factsheet_message next_header_id
  build-Alike str now Build.state s = record { ids = ground arith; maps = ground arith }
  build-Alike str now (Build.visualization n) s = record { ids = ground arith; maps = ground arith }
  build-Alike str now (Build.connection c) s = record { ids = ground arith; maps = ground arith }
  build-Alike str now Build.factsheet s = record { ids = ground arith; maps = ground arith }

  Step-IsSound : (s t : Agv R) → Step s t → IsSound s → IsSound t
  unfolding set_battery
  Step-IsSound s _ (ordered order) h = handle_order-IsSound order s h
  Step-IsSound s _ (instructed stamp actions) h = handle_instant_actions-IsSound stamp actions s h
  Step-IsSound s _ (zoned zone_set) h = Alike-IsSound s _ (handle_zone_set-Alike zone_set s) h
  Step-IsSound s _ (answered responses) h = Alike-IsSound s _ (handle_responses-Alike responses s) h
  Step-IsSound s _ (ticked clock dt) h = tick-IsSound clock dt s h
  Step-IsSound s _ (faulted draws dt) h = Alike-IsSound s _ (maybe_inject_fault-Alike draws dt s) h
  Step-IsSound s _ (provoked type) h = Alike-IsSound s _ (trigger_fault-Alike type s) h
  Step-IsSound s _ (charged percent) h = record { distinct = h.distinct; consistent = h.consistent }
  Step-IsSound s _ (reported str now b) h = Alike-IsSound s _ (build-Alike str now b s) h
  Step-IsSound s _ (noted factsheet event) h = record {
    distinct = h.distinct;
    consistent = h.consistent;
  }

  -- In every state that a robot reaches from its start by messages, ticks, faults, reports
  -- and debug requests in any order, no action of the order is tracked twice, every stored map version
  -- stands once under its own id, and no map has two enabled versions.
  pub Reachable-IsSound :
      (cfg : RobotConfig R) (d : Defaults R) (s : Agv R) → Reachable cfg d s → IsSound s
  unfolding init
  Reachable-IsSound cfg d s start = record {
    distinct = tt;
    consistent = record { keyed = tt; exclusive = tt };
  }
  Reachable-IsSound cfg d s (more before step) =
      Step-IsSound _ s step (Reachable-IsSound cfg d _ before)
