-- ===== src/Orders/Verdicts.antt =====
-- agv.py: what `handle_order` decides, and what each verdict leaves alone.
use vda5050_sim.Prelude.{
  ◌<◌, nat_eq, String, string_eq, Eq, true, false, not, ◌≡◌, ◌⊎◌, inl, inr, refl, sym, ap, ◌∙◌,
  some, List, [], ◌∷◌, ◌++◌, ◌<>◌, map, arith, Bool-cases, ◌==◌, ltb, subst, ◌&&◌,
}
use mathlib.Core.List.{append_assoc, append-nil}
use vda5050_sim.Floats.{Float}
use vda5050_sim.Schemas.{Error, ErrorLevel, OrderMessage}
use vda5050_sim.Robot.{Agv, report, is_idle}
use vda5050_sim.Orders.{
  unknown_maps, report_unknown_maps, handle_update, handle_other, dispatch_order, handle_order,
}
use vda5050_sim.Orders.Registration.{Unmoved}
use vda5050_sim.Orders.Acceptance.{Accepts, accept_order-Accepts, accept_order-Unmoved}

abbrev pub unknown_map_error : String → Error
unknown_map_error m = record {
  error_type = "unknownMapId";
  error_level = ErrorLevel.warning;
  error_description = some ("map '" <> m <> "' is not enabled on this robot");
}

module _ {R : Type 0} where
  abbrev pub with_errors : List Error → Agv R → Agv R
  with_errors errors s = record s { mode = record s.mode { pending_errors = errors } }

  report_unknown_maps_lem :
      (ms : List String) (s : Agv R)
      → report_unknown_maps ms s ≡ with_errors (s.pending_errors ++ map unknown_map_error ms) s
  unfolding report_unknown_maps report
  report_unknown_maps_lem [] s = rw append-nil
  report_unknown_maps_lem (m ∷ ms) s =
      report_unknown_maps_lem ms
        (report "unknownMapId" ("map '" <> m <> "' is not enabled on this robot") s)
      ∙ ap (λ (es : List Error). with_errors es s) (append_assoc s.pending_errors _ _)

module _ {R : Type 0} ⦃fl : Float R⦄ where
  -- The robot once the unknown maps are reported.
  abbrev pub checked : OrderMessage R → Agv R → Agv R
  checked order s =
      with_errors (s.pending_errors ++ map unknown_map_error (unknown_maps s order.nodes)) s

  -- An accepted order was welcome: the robot was idle, or it is a newer update of the order at hand.
  pub record IsWelcome (order : OrderMessage R) (s : Agv R) : Type 0 where
    pub listens : s.hibernating ≡ false
    pub welcome :
        (is_idle s ≡ true)
        ⊎ ((s.order_id ≡ order.order_id) × (s.order_update_id < order.order_update_id))

  abbrev pub Outcome : OrderMessage R → Agv R → Agv R → Type 0
  Outcome order s t =
      ((t.graph ≡ s.graph) × (t.tracking ≡ s.tracking))
      ⊎ (Accepts order t × Unmoved s t × IsWelcome order s)

  handle_update-Outcome :
      (order : OrderMessage R) (s : Agv R)
      → s.hibernating ≡ false
      → order.order_id ≡ s.order_id
      → Outcome order s (handle_update order s)
  unfolding handle_update report
  handle_update-Outcome order s awake same =
      elim (Bool-cases (ltb s.order_update_id order.order_update_id)) [
        | inl newer ↦ rw newer (
            inr (
              accept_order-Accepts order true s,
              accept_order-Unmoved order true s,
              record { listens = awake; welcome = inr (sym same, ground arith) },
            ))
        | inr other ↦ rw other (inl (ground arith, ground arith))
      ]

  handle_other-Outcome :
      (order : OrderMessage R) (s : Agv R)
      → s.hibernating ≡ false
      → Outcome order s (handle_other order s)
  unfolding handle_other report
  handle_other-Outcome order s awake = elim (Bool-cases (is_idle s)) [
    | inl idle ↦ rw idle (
        inr (
          accept_order-Accepts order false s,
          accept_order-Unmoved order false s,
          record { listens = awake; welcome = inl idle },
        ))
    | inr busy ↦ rw busy (inl (refl, refl))
  ]

  Outcome-checked :
      (order : OrderMessage R) (s t : Agv R) → Outcome order (checked order s) t → Outcome order s t
  unfolding is_idle
  Outcome-checked order s t (inl kept) = inl kept
  Outcome-checked order s t (inr (a, u, w)) = inr (
    a,
    record {
      setup = u.setup;
      site = u.site;
      motion = u.motion;
      faults = u.faults;
      hibernating = u.hibernating;
      paused = u.paused;
      instants = u.instants;
      zones = u.zones;
    },
    record { listens = w.listens; welcome = w.welcome },
  )

  dispatch_order-Outcome :
      (order : OrderMessage R) (s : Agv R)
      → s.hibernating ≡ false
      → Outcome order s (dispatch_order order s)
  unfolding dispatch_order
  dispatch_order-Outcome order s awake =
      elim (Bool-cases (not (s.order_id == "") && order.order_id == s.order_id)) [
        | inl same ↦ rw same (
            handle_update-Outcome order s awake
              (ground (arith, Eq.beq_iff string_eq order.order_id s.order_id)))
        | inr other ↦ rw other (handle_other-Outcome order s awake)
      ]

  handle_order_asleep :
      (order : OrderMessage R) (s : Agv R) → s.hibernating ≡ true → handle_order order s ≡ s
  unfolding handle_order
  handle_order_asleep order s asleep = ground arith

  pub handle_order_awake :
      (order : OrderMessage R) (s : Agv R)
      → s.hibernating ≡ false
      → handle_order order s ≡ dispatch_order order (checked order s)
  unfolding handle_order
  handle_order_awake order s awake =
      ground (arith, report_unknown_maps_lem (unknown_maps s order.nodes) s)

  pub handle_order_known :
      (order : OrderMessage R) (s : Agv R)
      → s.hibernating ≡ false
      → unknown_maps s order.nodes ≡ []
      → handle_order order s ≡ dispatch_order order s
  unfolding handle_order report_unknown_maps
  handle_order_known order s awake known = ground arith

  -- An order either leaves the graph and all action states as they are, or it is taken over whole;
  -- and it is taken over only by a robot that does not hibernate, and that is idle or gets a
  -- newer update of the order it has. What is not the order's stays: pose, maps, faults, pause.
  pub handle_order-Outcome :
      (order : OrderMessage R) (s : Agv R) → Outcome order s (handle_order order s)
  handle_order-Outcome order s = elim (Bool-cases s.hibernating) [
    | inl asleep ↦
        subst (Outcome order s) (sym (handle_order_asleep order s asleep)) (inl (refl, refl))
    | inr awake ↦
        subst (Outcome order s) (sym (handle_order_awake order s awake))
          (Outcome-checked order s _ (dispatch_order-Outcome order (checked order s) awake))
  ]
