-- ===== src/Transport/Stamps.antt =====
-- transport.py and legacy_shapes.py: the protocol version that a payload announces.
use vda5050_sim.Prelude.{
  String, string_eq, false, not, ◌&&◌, ◌≡◌, refl, ap, ◌∙◌, subst, sym, Option, none, some, Dict,
  lookup, insert, remove, is_some, lookup-insert, lookup-remove, arith, if_ind, Bool-cases,
  Option-cases, inl, inr, ◌==◌, if◌then◌else◌,
}
use vda5050_sim.Messages.{Message}
use vda5050_sim.Wire.{
  Json, text, known, ◌>>=◌, is_legacy, agv_position, battery_state, legacy_safety, put, move_part,
  downgrade_safety, downgrade_parts, downgrade_state, downgrade_connection,
}
use vda5050_sim.Transport.Payload.{dump}

module _ {R : Type 0} where
  -- A message that has the version, or none at all.
  abbrev Stamped : String → Option (Dict String (Json R)) → Type 0
  Stamped version none = Unit
  Stamped version (some d) = lookup "version" d ≡ some (text version)

  put-Stamped :
      (version k : String) (o : Option (Json R)) (d : Dict String (Json R))
      → (k == "version") ≡ false
      → Stamped version (some d)
      → Stamped version (put k o d)
  put-Stamped version k none d other h = tt
  put-Stamped version k (some v) d other h = lookup-insert k "version" v d ∙ rw other h

  still :
      (old new : String) (shape : Json R → Option (Json R)) (d : Dict String (Json R))
      → known (lookup old d) ≡ none
      → move_part old new shape d ≡ some (remove old d)
  unfolding move_part
  still old new shape d e = rw (e, move_part) refl

  moved :
      (old new : String) (shape : Json R → Option (Json R)) (d : Dict String (Json R))
      (part : Json R)
      → known (lookup old d) ≡ some part
      → move_part old new shape d ≡ put new (shape part) (remove old d)
  unfolding move_part
  moved old new shape d part e = rw (e, move_part) refl

  unsafe :
      (d : Dict String (Json R))
      → known (lookup "safetyState" d) ≡ none
      → downgrade_safety d ≡ some d
  unfolding downgrade_safety
  unsafe d e = rw (e, downgrade_safety) refl

  safe :
      (d : Dict String (Json R)) (safety : Json R)
      → known (lookup "safetyState" d) ≡ some safety
      → downgrade_safety d ≡ put "safetyState" (legacy_safety safety) d
  unfolding downgrade_safety legacy_safety
  safe d safety e = rw (e, downgrade_safety) refl

  move_part-Stamped :
      (version old new : String) (shape : Json R → Option (Json R)) (d : Dict String (Json R))
      → (old == "version") ≡ false
      → (new == "version") ≡ false
      → Stamped version (some d)
      → Stamped version (move_part old new shape d)
  move_part-Stamped version old new shape d other1 other2 h =
      let gone : Stamped version (some (remove old d)) =
        lookup-remove old "version" d ∙ rw other1 h in
      elim (Option-cases (known (lookup old d))) [
        | inl e ↦ subst (Stamped version) (sym (still old new shape d e)) gone
        | inr (part, e) ↦
            subst (Stamped version) (sym (moved old new shape d part e))
              (put-Stamped version new (shape part) (remove old d) other2 gone)
      ]

  downgrade_safety-Stamped :
      (version : String) (d : Dict String (Json R))
      → Stamped version (some d)
      → Stamped version (downgrade_safety d)
  downgrade_safety-Stamped version d h = elim (Option-cases (known (lookup "safetyState" d))) [
    | inl e ↦ subst (Stamped version) (sym (unsafe d e)) h
    | inr (safety, e) ↦
        subst (Stamped version) (sym (safe d safety e))
          (put-Stamped version "safetyState" (legacy_safety safety) d refl h)
  ]

  bind-Stamped :
      (version : String) (o : Option (Dict String (Json R)))
      (f : Dict String (Json R) → Option (Dict String (Json R)))
      → ((d : Dict String (Json R)) → Stamped version (some d) → Stamped version (f d))
      → Stamped version o
      → Stamped version (o >>= f)
  bind-Stamped version none f keeps h = tt
  bind-Stamped version (some d) f keeps h = keeps d h

  downgrade_state-Stamped :
      (d : Dict String (Json R)) (version : String) → Stamped version (downgrade_state d version)
  unfolding downgrade_state downgrade_parts
  downgrade_state-Stamped d version =
      let stamped = insert "version" (text version) d in
      let has : Stamped version (some stamped) =
        lookup-insert "version" "version" (text version) d in
      if_ind (Stamped version) (is_legacy version)
        (λ _.
          bind-Stamped version (move_part "mobileRobotPosition" "agvPosition" agv_position stamped)
            (λ d1.
              move_part "powerSupply" "batteryState" battery_state d1
              >>= (λ d2. downgrade_safety d2))
            (λ d1 h1.
              bind-Stamped version (move_part "powerSupply" "batteryState" battery_state d1)
                (λ d2. downgrade_safety d2) (λ d2. downgrade_safety-Stamped version d2)
                (move_part-Stamped version "powerSupply" "batteryState" battery_state d1 refl refl
                  h1))
            (move_part-Stamped version "mobileRobotPosition" "agvPosition" agv_position stamped refl
              refl has))
        (λ _. has)

  downgrade_connection-Stamped :
      (d : Dict String (Json R)) (version : String)
      → Stamped version (some (downgrade_connection d version))
  unfolding downgrade_connection
  downgrade_connection-Stamped d version = ground (
    arith,
    lookup-insert "version" "version" (text version) d,
    lookup-insert "connectionState" "version" (text "CONNECTIONBROKEN")
        (insert "version" (text version) d),
    lookup-insert "connectionState" "version" (text "OFFLINE") (insert "version" (text version) d),
  )

  stamp-Stamped :
      (d : Dict String (Json R)) (version : String)
      → lookup "version" d ≡ some (text "3.0.0")
      → Stamped version (
          if not (version == "3.0.0") && is_some (lookup "version" d)
          then some (insert "version" (text version) d)
          else some d)
  stamp-Stamped d version h = rw h (elim (Bool-cases (version == "3.0.0")) [
    | inl e ↦ rw (e, ap (λ (v : String). v) ((string_eq.beq_iff version "3.0.0").0 e)) h
    | inr e ↦ rw e (lookup-insert "version" "version" (text version) d)
  ])

  dump-Stamped :
      (model_dump : Message R → Dict String (Json R)) (model : Message R) (type version : String)
      → lookup "version" (model_dump model) ≡ some (text "3.0.0")
      → Stamped version (dump model_dump model type version)
  unfolding dump
  dump-Stamped model_dump model type version h =
      let d = model_dump model in
      if_ind (Stamped version) (type == "state") (λ _. downgrade_state-Stamped d version)
        (λ _.
          if_ind (Stamped version) (type == "connection")
            (λ _. downgrade_connection-Stamped d version) (λ _. stamp-Stamped d version h))

  pub payload-Stamped :
      (model_dump : Message R → Dict String (Json R)) (model : Message R) (type version : String)
      (payload : Dict String (Json R))
      → lookup "version" (model_dump model) ≡ some (text "3.0.0")
      → dump model_dump model type version ≡ some payload
      → lookup "version" payload ≡ some (text version)
  payload-Stamped model_dump model type version payload h e =
      subst (Stamped version) e (dump-Stamped model_dump model type version h)
