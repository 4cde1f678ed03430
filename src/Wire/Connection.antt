-- ===== src/Wire/Connection.antt =====
-- legacy_shapes.py: what the receiver of a downgraded connection message reads.
use vda5050_sim.Prelude.{
  String, string_eq, true, false, ◌||◌, ◌≡◌, refl, ◌∙◌, ap, subst, sym, Option, none, some, Dict,
  lookup, insert, lookup-insert, arith, Bool-cases, inl, inr, ◌==◌, if◌then◌else◌,
}
use vda5050_sim.Schemas.{ConnectionState, online, offline, hibernating, connection_broken}
use vda5050_sim.Wire.Values.{Json, text}
use vda5050_sim.Wire.Legacy.{is_legacy, downgrade_connection}

-- The value of the enum, which `model_dump` writes.
abbrev pub state_text : ConnectionState → String
state_text online = "ONLINE"
state_text offline = "OFFLINE"
state_text hibernating = "HIBERNATING"
state_text connection_broken = "CONNECTION_BROKEN"

-- How receivers of version 3 and of an earlier one read it.
abbrev read_current : String → Option ConnectionState
read_current t =
    if t == "ONLINE"
    then some online
    else if t == "OFFLINE"
    then some offline
    else if t == "HIBERNATING"
    then some hibernating
    else if t == "CONNECTION_BROKEN"
    then some connection_broken
    else none

abbrev read_legacy : String → Option ConnectionState
read_legacy t =
    if t == "ONLINE"
    then some online
    else if t == "OFFLINE"
    then some offline
    else if t == "CONNECTIONBROKEN"
    then some connection_broken
    else none

abbrev pub read_state : {R : Type 0} → String → Option (Json R) → Option ConnectionState
read_state version (some (text t)) = if is_legacy version then read_legacy t else read_current t
read_state version _ = none

-- What an earlier version can say of a state.
abbrev pub told : String → ConnectionState → ConnectionState
told version hibernating = if is_legacy version then offline else hibernating
told version state = state

module _ {R : Type 0} where
  -- What a receiver gets from the message `m`, sent in place of `d`.
  abbrev Received : Dict String (Json R) → String → ConnectionState → Dict String (Json R) → Type 0
  Received d version state m =
      (read_state version (lookup "connectionState" m) ≡ some (told version state))
      × (lookup "version" m ≡ some (text version))
      × ((k : String)
          → ("version" == k || "connectionState" == k) ≡ false
          → lookup k m ≡ lookup k d)

  abbrev stamp : Dict String (Json R) → String → Dict String (Json R)
  stamp d version = insert "version" (text version) d

  stamp-Received :
      (d : Dict String (Json R)) (version t : String) (state : ConnectionState)
      → lookup "connectionState" d ≡ some (text t)
      → read_state {R = R} version (some (text t)) ≡ some (told version state)
      → Received d version state (stamp d version)
  stamp-Received d version t state e reads =
      let at = λ (k : String). lookup-insert "version" k (text version) d in
      (
        ap (read_state version) (at "connectionState" ∙ e) ∙ reads,
        at "version",
        λ k h. at k ∙ ground (arith, h),
      )

  renamed-Received :
      (d : Dict String (Json R)) (version t : String) (state : ConnectionState)
      → read_state {R = R} version (some (text t)) ≡ some (told version state)
      → Received d version state (insert "connectionState" (text t) (stamp d version))
  renamed-Received d version t state reads =
      let at = λ (k : String). lookup-insert "connectionState" k (text t) (stamp d version) in
      let before = λ (k : String). lookup-insert "version" k (text version) d in
      (
        ap (read_state version) (at "connectionState") ∙ reads,
        at "version" ∙ before "version",
        λ k h. at k ∙ ground (arith, h, before k),
      )

  downgrade_connection-new :
      (d : Dict String (Json R)) (version : String)
      → is_legacy version ≡ false
      → downgrade_connection d version ≡ stamp d version
  unfolding downgrade_connection
  downgrade_connection-new d version new = rw new refl

  downgrade_connection-old :
      (d : Dict String (Json R)) (version t : String)
      → is_legacy version ≡ true
      → lookup "connectionState" d ≡ some (text t)
      → downgrade_connection d version ≡ (
          if t == "CONNECTION_BROKEN"
          then insert "connectionState" (text "CONNECTIONBROKEN") (stamp d version)
          else if t == "HIBERNATING"
          then insert "connectionState" (text "OFFLINE") (stamp d version)
          else stamp d version)
  unfolding downgrade_connection
  downgrade_connection-old d version t old e =
      rw (old, lookup-insert "version" "connectionState" (text version) d ∙ e) refl

  new-Received :
      (d : Dict String (Json R)) (version : String) (state : ConnectionState)
      → is_legacy version ≡ false
      → lookup "connectionState" d ≡ some (text (state_text state))
      → Received d version state (stamp d version)
  new-Received d version online new e = stamp-Received d version _ online e (rw new refl)
  new-Received d version offline new e = stamp-Received d version _ offline e (rw new refl)
  new-Received d version hibernating new e = stamp-Received d version _ hibernating e (rw new refl)
  new-Received d version connection_broken new e =
      stamp-Received d version _ connection_broken e (rw new refl)

  old-Received :
      (d : Dict String (Json R)) (version : String) (state : ConnectionState)
      → is_legacy version ≡ true
      → lookup "connectionState" d ≡ some (text (state_text state))
      → Received d version state (downgrade_connection d version)
  old-Received d version online old e =
      subst (Received d version online) (sym (downgrade_connection-old d version _ old e))
        (stamp-Received d version _ online e (rw old refl))
  old-Received d version offline old e =
      subst (Received d version offline) (sym (downgrade_connection-old d version _ old e))
        (stamp-Received d version _ offline e (rw old refl))
  old-Received d version hibernating old e =
      subst (Received d version hibernating) (sym (downgrade_connection-old d version _ old e))
        (renamed-Received d version "OFFLINE" hibernating (rw old refl))
  old-Received d version connection_broken old e =
      subst (Received d version connection_broken)
        (sym (downgrade_connection-old d version _ old e))
        (renamed-Received d version "CONNECTIONBROKEN" connection_broken (rw old refl))

-- A receiver that goes by the announced version reads the state of a connection message, except
-- that a version before 3 tells a hibernating robot as an offline one. The message carries that
-- version, and its other entries are as before.
pub read_state-downgrade_connection :
    {R : Type 0} (d : Dict String (Json R)) (version : String) (state : ConnectionState)
    → lookup "connectionState" d ≡ some (text (state_text state))
    → let sent = downgrade_connection d version in
      (read_state version (lookup "connectionState" sent) ≡ some (told version state))
      × (lookup "version" sent ≡ some (text version))
      × ((k : String)
          → ("version" == k || "connectionState" == k) ≡ false
          → lookup k sent ≡ lookup k d)
read_state-downgrade_connection d version state e = elim (Bool-cases (is_legacy version)) [
  | inl old ↦ old-Received d version state old e
  | inr new ↦
      subst (Received d version state) (sym (downgrade_connection-new d version new))
        (new-Received d version state new e)
]
