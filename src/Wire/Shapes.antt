-- ===== src/Wire/Shapes.antt =====
-- legacy_shapes.py: `downgrade_state` on a message that has all its parts.
use vda5050_sim.Prelude.{
  String, string_eq, ◌≡◌, refl, ◌∙◌, ap, Option, none, some, Dict, lookup, insert, remove,
  lookup-insert, lookup-remove, arith, ◌==◌, if◌then◌else◌,
}
use vda5050_sim.Wire.Values.{Json, item, known}
use vda5050_sim.Wire.Legacy.{
  agv_position, battery_state, legacy_safety, move_part, downgrade_safety, downgrade_parts,
}

module _ {R : Type 0} where
  pub known-item :
      (k : String) (v : Json R) {w : Json R} → item k v ≡ some w → known (some v) ≡ some v
  known-item k v e = ground arith

  move_part-eq :
      (old new : String) (shape : Json R → Option (Json R)) (d : Dict String (Json R))
      (v w : Json R)
      → known (lookup old d) ≡ some v
      → shape v ≡ some w
      → move_part old new shape d ≡ some (insert new w (remove old d))
  unfolding move_part
  move_part-eq old new shape d v w there shaped = rw (there, shaped, move_part) refl

  downgrade_safety-eq :
      (d : Dict String (Json R)) (v w : Json R)
      → known (lookup "safetyState" d) ≡ some v
      → legacy_safety v ≡ some w
      → downgrade_safety d ≡ some (insert "safetyState" w d)
  unfolding downgrade_safety
  downgrade_safety-eq d v w there shaped = rw (there, shaped, downgrade_safety) refl

  -- The legacy shape of a message with these parts.
  unfoldable pub reshaped : Json R → Json R → Json R → Dict String (Json R) → Dict String (Json R)
  reshaped a b s d = insert "safetyState" s (
      insert "batteryState" b
        (remove "powerSupply" (insert "agvPosition" a (remove "mobileRobotPosition" d))))

  pub lookup-reshaped :
      (k : String) (a b s : Json R) (d : Dict String (Json R))
      → lookup k (reshaped a b s d) ≡ (
          if "safetyState" == k
          then some s
          else if "batteryState" == k
          then some b
          else if "powerSupply" == k
          then none
          else if "agvPosition" == k
          then some a
          else if "mobileRobotPosition" == k
          then none
          else lookup k d)
  unfolding reshaped
  lookup-reshaped k a b s d =
      let d1 = remove "mobileRobotPosition" d in
      let d2 = insert "agvPosition" a d1 in
      let d3 = remove "powerSupply" d2 in
      let d4 = insert "batteryState" b d3 in
      rw
        (
          lookup-insert "safetyState" k s d4,
          lookup-insert "batteryState" k b d3,
          lookup-remove "powerSupply" k d2,
          lookup-insert "agvPosition" k a d1,
          lookup-remove "mobileRobotPosition" k d,
        )
        refl

  pub downgrade_parts-eq :
      (d : Dict String (Json R)) {v p w q s t : Json R}
      → known (lookup "mobileRobotPosition" d) ≡ some v
      → agv_position v ≡ some p
      → known (lookup "powerSupply" d) ≡ some w
      → battery_state w ≡ some q
      → known (lookup "safetyState" d) ≡ some s
      → legacy_safety s ≡ some t
      → downgrade_parts d ≡ some (reshaped p q t d)
  unfolding downgrade_parts reshaped
  downgrade_parts-eq d {v} {p} {w} {q} {s} {t} ev ep ew eq es et =
      let d1 = remove "mobileRobotPosition" d in
      let d2 = insert "agvPosition" p d1 in
      let d3 = remove "powerSupply" d2 in
      let d4 = insert "batteryState" q d3 in
      let power : lookup "powerSupply" d2 ≡ lookup "powerSupply" d =
        lookup-insert "agvPosition" "powerSupply" p d1
        ∙ lookup-remove "mobileRobotPosition" "powerSupply" d in
      let safety : lookup "safetyState" d4 ≡ lookup "safetyState" d =
        lookup-insert "batteryState" "safetyState" q d3
        ∙ lookup-remove "powerSupply" "safetyState" d2
        ∙ lookup-insert "agvPosition" "safetyState" p d1
        ∙ lookup-remove "mobileRobotPosition" "safetyState" d in
      rw
        (
          move_part-eq "mobileRobotPosition" "agvPosition" agv_position d v p ev ep,
          move_part-eq "powerSupply" "batteryState" battery_state d2 w q (ap known power ∙ ew) eq,
          downgrade_safety-eq d4 s t (ap known safety ∙ es) et,
        )
        refl
