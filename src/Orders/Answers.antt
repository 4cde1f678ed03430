-- ===== src/Orders/Answers.antt =====
-- agv.py: what `handle_order` does with an order, and the errors that it reports.
use vda5050_sim.Prelude.{
  show_number, ◌<◌, nat_eq, String, string_eq, Eq, true, false, not, ◌≡◌, ◌≢◌, ◌⊎◌, inl, inr, refl,
  sym, some, List, [], ◌∷◌, ◌++◌, ◌<>◌, map, arith, ◌==◌, ltb, subst, ◌&&◌, if_ind,
}
use vda5050_sim.Floats.{Float}
use vda5050_sim.Schemas.{Error, ErrorLevel, OrderMessage}
use vda5050_sim.Robot.{Agv, report, is_idle}
use vda5050_sim.Orders.{
  unknown_maps, order_content_equal, handle_update, handle_other, dispatch_order, handle_order,
}
use vda5050_sim.Orders.Acceptance.{Accepts, accept_order-Accepts}
use vda5050_sim.Orders.Verdicts.{
  unknown_map_error, with_errors, checked, IsWelcome, handle_order_awake,
}

abbrev pub warning_of : String → String → Error
warning_of type text = record {
  error_type = type;
  error_level = ErrorLevel.warning;
  error_description = some text;
}

module _ {R : Type 0} ⦃fl : Float R⦄ where
  -- Why an order is refused, with the type and the text of the error.
  pub data Refusal (order : OrderMessage R) (s : Agv R) : String → String → Type 0 where
    outdated :
        s.order_id ≢ ""
        → order.order_id ≡ s.order_id
        → order.order_update_id < s.order_update_id
        → Refusal order s "outdatedOrderUpdate" (
            "orderUpdateId "
            <> show_number order.order_update_id
            <> " is lower than current "
            <> show_number s.order_update_id)
    conflicting :
        s.order_id ≢ ""
        → order.order_id ≡ s.order_id
        → order.order_update_id ≡ s.order_update_id
        → order_content_equal s.order_snapshot order ≡ false
        → Refusal order s "sameOrderUpdateId" (
            "orderUpdateId "
            <> show_number order.order_update_id
            <> " already processed with different content")
    busy :
        (order.order_id ≢ s.order_id) ⊎ (s.order_id ≡ "")
        → is_idle s ≡ false
        → Refusal order s "otherOrderActive" ("robot is executing order " <> s.order_id)

  -- The order at hand, once more.
  pub record IsDuplicate (order : OrderMessage R) (s : Agv R) : Type 0 where
    pub some_order : s.order_id ≢ ""
    pub same_order : order.order_id ≡ s.order_id
    pub same_update : order.order_update_id ≡ s.order_update_id
    pub same_content : order_content_equal s.order_snapshot order ≡ true

  -- What an order does, on a robot whose errors are `errors` once the unknown maps are reported.
  abbrev pub Answer : OrderMessage R → List Error → Agv R → Agv R → Type 0
  Answer order errors s t =
      ((type : String) × (text : String) × Refusal order s type text
        × (t ≡ with_errors (errors ++ warning_of type text ∷ []) s))
      ⊎ ((IsDuplicate order s × (t ≡ with_errors errors s)) ⊎ (IsWelcome order s × Accepts order t))

  handle_update-Answer :
      (order : OrderMessage R) (s : Agv R)
      → s.hibernating ≡ false
      → s.order_id ≢ ""
      → order.order_id ≡ s.order_id
      → Answer order s.pending_errors s (handle_update order s)
  unfolding handle_update report
  handle_update-Answer order s awake some_order same =
      if_ind (Answer order s.pending_errors s) (ltb s.order_update_id order.order_update_id)
        (λ newer. inr (
          inr (
            (record { listens = awake; welcome = inr (sym same, ground (arith, newer)) }),
            accept_order-Accepts order true s,
          )))
        (λ not_newer.
          if_ind (Answer order s.pending_errors s) (order.order_update_id == s.order_update_id)
            (λ equal.
              let same_update = (nat_eq.beq_iff order.order_update_id s.order_update_id).0 equal in
              if_ind (Answer order s.pending_errors s) (order_content_equal s.order_snapshot order)
                (λ content. inr (
                  inl (
                    (record {
                      some_order = some_order;
                      same_order = same;
                      same_update = same_update;
                      same_content = content;
                    }),
                    refl,
                  )))
                (λ differs. inl (_, _, conflicting some_order same same_update differs, refl)))
            (λ unequal. inl (
              _,
              _,
              outdated some_order same (
                  ground (
                    arith,
                    not_newer,
                    unequal,
                    nat_eq.beq_iff order.order_update_id s.order_update_id,
                  )),
              refl,
            )))

  handle_other-Answer :
      (order : OrderMessage R) (s : Agv R)
      → s.hibernating ≡ false
      → (order.order_id ≢ s.order_id) ⊎ (s.order_id ≡ "")
      → Answer order s.pending_errors s (handle_other order s)
  unfolding handle_other report
  handle_other-Answer order s awake other =
      if_ind (Answer order s.pending_errors s) (is_idle s)
        (λ idle. inr (
          inr
            ((record { listens = awake; welcome = inl idle }), accept_order-Accepts order false s)))
        (λ active. inl (_, _, busy other active, refl))

  dispatch_order-Answer :
      (order : OrderMessage R) (s : Agv R)
      → s.hibernating ≡ false
      → Answer order s.pending_errors s (dispatch_order order s)
  unfolding dispatch_order
  dispatch_order-Answer order s awake =
      if_ind (Answer order s.pending_errors s)
        (not (s.order_id == "") && order.order_id == s.order_id)
        (λ same.
          handle_update-Answer order s awake
            (ground (arith, same, Eq.beq_iff string_eq s.order_id ""))
            (ground (arith, same, Eq.beq_iff string_eq order.order_id s.order_id)))
        (λ other. handle_other-Answer order s awake (
          ground (
            arith,
            other,
            Eq.beq_iff string_eq s.order_id "",
            Eq.beq_iff string_eq order.order_id s.order_id,
          )))

  Answer-checked :
      (order : OrderMessage R) (errors : List Error) (s t : Agv R)
      → Answer order errors (with_errors errors s) t
      → Answer order errors s t
  unfolding is_idle
  Answer-checked order errors s t (inl (type, text, why, e)) = inl (type, text, refusal why, e)
    where
      refusal :
          {type text : String}
          → Refusal order (with_errors errors s) type text
          → Refusal order s type text
      refusal (outdated a b c) = outdated a b c
      refusal (conflicting a b c d) = conflicting a b c d
      refusal (busy a b) = busy a b
  Answer-checked order errors s t (inr (inl (d, e))) = inr (
      inl (
        (record {
          some_order = d.some_order;
          same_order = d.same_order;
          same_update = d.same_update;
          same_content = d.same_content;
        }),
        e,
      ))
  Answer-checked order errors s t (inr (inr (w, a))) =
      inr (inr (record { listens = w.listens; welcome = w.welcome }, a))

  -- A robot that does not hibernate first appends a warning for every map of the order that is not
  -- enabled. Then it refuses the order (an older update, another content under the update id at
  -- hand, or another order while it is busy), which appends one more warning, of the type of the
  -- refusal, or ignores the order as a duplicate of the one at hand; in both cases nothing else of
  -- the robot changes. Or it takes the order over, when it is idle or the order is a newer update.
  pub handle_order-Answer :
      (order : OrderMessage R) (s : Agv R)
      → s.hibernating ≡ false
      → Answer order
          (s.pending_errors ++ map unknown_map_error (unknown_maps s order.nodes))
          s
          (handle_order order s)
  handle_order-Answer order s awake =
      let errors = s.pending_errors ++ map unknown_map_error (unknown_maps s order.nodes) in
      subst (Answer order errors s) (sym (handle_order_awake order s awake)) (
        Answer-checked order errors s (dispatch_order order (checked order s))
          (dispatch_order-Answer order (checked order s) awake))
