-- ===== src/Wire/RoundTrip.antt =====
-- legacy_shapes.py: what the receiver of a downgraded state message reads.
use vda5050_sim.Prelude.{
  String, string_eq, Bool, true, false, ◌||◌, ◌≡◌, refl, ◌∙◌, subst, Option, some, Dict, lookup,
  insert, lookup-insert, arith, Bool-cases, inl, inr, ◌==◌, if◌then◌else◌,
}
use vda5050_sim.Wire.Values.{bind_some, Json, text, item, known, ◌>>=◌}
use vda5050_sim.Wire.Legacy.{is_legacy, downgrade_parts, downgrade_state}
use vda5050_sim.Wire.Shapes.{known-item, reshaped, lookup-reshaped, downgrade_parts-eq}
use vda5050_sim.Wire.Parts.{
  Pose, Energy, Safety, read_pose, read_energy, read_safety, pose-agv_position,
  energy-battery_state, safety-legacy_safety,
}

pub record View (R : Type 0) : Type 0 where
  pub pose : Pose R
  pub energy : Energy R
  pub safety : Safety R

-- The names that a version of the protocol has.
pub record Names : Type 0 where
  pub position : String
  pub localized : String
  pub power : String
  pub charge : String
  pub range : String
  pub stop : String

abbrev pub current : Names
current = record {
  position = "mobileRobotPosition";
  localized = "localized";
  power = "powerSupply";
  charge = "stateOfCharge";
  range = "range";
  stop = "activeEmergencyStop";
}

abbrev pub legacy : Names
legacy = record {
  position = "agvPosition";
  localized = "positionInitialized";
  power = "batteryState";
  charge = "batteryCharge";
  range = "reach";
  stop = "eStop";
}

-- The names of an announced version.
abbrev pub names_of : String → Names
names_of version = if is_legacy version then legacy else current

-- The keys of a state message that a downgrade is about.
abbrev pub is_touched : String → Bool
is_touched k =
    "version" == k
    || "mobileRobotPosition" == k
    || "agvPosition" == k
    || "powerSupply" == k
    || "batteryState" == k
    || "safetyState" == k

module _ {R : Type 0} where
  abbrev pub read_view : Names → Dict String (Json R) → Option (View R)
  read_view n d = do
    position ← lookup n.position d
    pose ← read_pose n.localized position
    power ← lookup n.power d
    energy ← read_energy n.charge n.range power
    safety_state ← lookup "safetyState" d
    safety ← read_safety n.stop safety_state
    some (record { pose = pose; energy = energy; safety = safety })

  read_view-eq :
      (n : Names) (d : Dict String (Json R)) {v w s : Json R} {pose : Pose R} {energy : Energy R}
      {safety : Safety R}
      → lookup n.position d ≡ some v
      → read_pose n.localized v ≡ some pose
      → lookup n.power d ≡ some w
      → read_energy n.charge n.range w ≡ some energy
      → lookup "safetyState" d ≡ some s
      → read_safety n.stop s ≡ some safety
      → read_view n d ≡ some (record { pose = pose; energy = energy; safety = safety })
  read_view-eq n d ev ep ew eq es et = rw (ev, ep, ew, eq, es, et) refl

  -- What a receiver of the announced version gets.
  pub record Received (d : Dict String (Json R)) (version : String) (view : View R) : Type 0 where
    pub message : Dict String (Json R)
    pub sent : downgrade_state d version ≡ some message
    pub read : read_view (names_of version) message ≡ some view
    pub versioned : lookup "version" message ≡ some (text version)
    pub others : (k : String) → is_touched k ≡ false → lookup k message ≡ lookup k d

  some_inj : (a b : View R) → ◌≡◌ {A = Option (View R)} (some a) (some b) → a ≡ b
  some_inj a b e = cc e

  -- A message that is stamped with the version and otherwise the same.
  current-Received :
      (d : Dict String (Json R)) (version : String) {v w s : Json R} (view : View R)
      → is_legacy version ≡ false
      → lookup "mobileRobotPosition" d ≡ some v
      → read_pose "localized" v ≡ some view.pose
      → lookup "powerSupply" d ≡ some w
      → read_energy "stateOfCharge" "range" w ≡ some view.energy
      → lookup "safetyState" d ≡ some s
      → read_safety "activeEmergencyStop" s ≡ some view.safety
      → Received d version view
  unfolding downgrade_state
  current-Received d version view new ev ep ew eq es et =
      let stamped = insert "version" (text version) d in
      let at = λ (k : String). lookup-insert "version" k (text version) d in
      record {
        message = stamped;
        sent = rw new refl;
        read = rw new (
            read_view-eq current stamped (at "mobileRobotPosition" ∙ ev) ep (at "powerSupply" ∙ ew)
              eq (at "safetyState" ∙ es) et);
        versioned = at "version";
        others = λ k h. at k ∙ ground (arith, h);
      }

  downgrade_state-parts :
      (d : Dict String (Json R)) (version : String)
      → is_legacy version ≡ true
      → downgrade_state d version ≡ downgrade_parts (insert "version" (text version) d)
  unfolding downgrade_state
  downgrade_state-parts d version old = rw old refl

  stamped_part :
      (d : Dict String (Json R)) (version k j : String) {v x : Json R}
      → ("version" == k) ≡ false
      → lookup k d ≡ some v
      → item j v ≡ some x
      → known (lookup k (insert "version" (text version) d)) ≡ some v
  stamped_part d version k j {v} other e i =
      rw (lookup-insert "version" k (text version) d, other, e) (known-item j v i)

  reshaped-Received :
      (d : Dict String (Json R)) (version : String) (p q t : Json R) (view : View R)
      → is_legacy version ≡ true
      → downgrade_parts (insert "version" (text version) d)
        ≡ some (reshaped p q t (insert "version" (text version) d))
      → read_pose "positionInitialized" p ≡ some view.pose
      → read_energy "batteryCharge" "reach" q ≡ some view.energy
      → read_safety "eStop" t ≡ some view.safety
      → Received d version view
  reshaped-Received d version p q t view old sent ep eq et =
      let stamped = insert "version" (text version) d in
      let at = λ (k : String). lookup-insert "version" k (text version) d in
      let lookups = λ (k : String). lookup-reshaped k p q t stamped in
      record {
        message = reshaped p q t stamped;
        sent = downgrade_state-parts d version old ∙ sent;
        read = rw old (
            read_view-eq legacy (reshaped p q t stamped) (lookups "agvPosition") ep
              (lookups "batteryState") eq (lookups "safetyState") et);
        versioned = lookups "version" ∙ at "version";
        others = λ k h. lookups k ∙ ground (arith, h, at k);
      }

  legacy-Received :
      (d : Dict String (Json R)) (version : String) {v w s : Json R} (view : View R)
      → is_legacy version ≡ true
      → lookup "mobileRobotPosition" d ≡ some v
      → read_pose "localized" v ≡ some view.pose
      → lookup "powerSupply" d ≡ some w
      → read_energy "stateOfCharge" "range" w ≡ some view.energy
      → lookup "safetyState" d ≡ some s
      → read_safety "activeEmergencyStop" s ≡ some view.safety
      → Received d version view
  legacy-Received d version {v} {w} {s} view old ev ep ew eq es et =
      let (p, made_p, read_p) = pose-agv_position v view.pose ep in
      let (q, made_q, read_q) = energy-battery_state w view.energy eq in
      let (t, made_t, read_t) = safety-legacy_safety s view.safety et in
      reshaped-Received d version p q t view old
        (downgrade_parts-eq (insert "version" (text version) d)
          (stamped_part d version "mobileRobotPosition" "x" refl ev (bind_some (item "x" v) ep).1)
          made_p
          (stamped_part d version "powerSupply" "stateOfCharge" refl ew
            (bind_some (item "stateOfCharge" w) eq).1)
          made_q
          (stamped_part d version "safetyState" "activeEmergencyStop" refl es
            (bind_some (item "activeEmergencyStop" s) et).1)
          made_t)
        read_p read_q read_t

  -- A receiver that goes by the announced version, be it an earlier one or the current one, reads
  -- from the message that is sent the pose, the energy (but for the current) and the safety state
  -- that the message had before. The message carries that version, and every other
  -- entry of it is as before.
  pub downgrade_state-Received :
      (d : Dict String (Json R)) (version : String) (view : View R)
      → read_view current d ≡ some view
      → Received d version view
  downgrade_state-Received d version view e =
      let (v, ev, e1) = bind_some (lookup "mobileRobotPosition" d) e in
      let (pose, ep, e2) = bind_some (read_pose "localized" v) e1 in
      let (w, ew, e3) = bind_some (lookup "powerSupply" d) e2 in
      let (energy, eq, e4) = bind_some (read_energy "stateOfCharge" "range" w) e3 in
      let (s, es, e5) = bind_some (lookup "safetyState" d) e4 in
      let (safety, et, e6) = bind_some (read_safety "activeEmergencyStop" s) e5 in
      let made : View R = record { pose = pose; energy = energy; safety = safety } in
      subst (Received d version) (some_inj made view e6) (elim (Bool-cases (is_legacy version)) [
        | inl old ↦ legacy-Received d version made old ev ep ew eq es et
        | inr new ↦ current-Received d version made new ev ep ew eq es et
      ])
