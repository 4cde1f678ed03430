-- ===== src/Fleet/Channels.antt =====
-- fleet.py and transport.py: the channels of a robot, their topics, and the effect of a message.
use vda5050_sim.Prelude.{
  some_inj, String, string_eq, ◌≡◌, refl, sym, subst, Option, none, some, List, [], ◌∷◌, after,
  done, if_ind, ◌==◌, ◌<>◌, find, if◌then◌else◌, ap, ◌∙◌, Bool, true, string_eq, arith,
}
use text.Mathlib.TextLemmas.{append_cancel_left}
use vda5050_sim.Robot.{Agv}
use vda5050_sim.Transport.{MqttTransport, handle_valid}
use vda5050_sim.Fleet.Runtime.{RobotRuntime, Channel, order, instant_actions, zone_set, responses}

-- The last part of the topic that a fleet manager sends the messages of a channel on.
abbrev pub name_of : Channel → String
name_of order = "order"
name_of instant_actions = "instantActions"
name_of zone_set = "zoneSet"
name_of responses = "responses"

-- What a valid message does to the robot; one that is not valid is dropped.
abbrev pub applied :
    {R M : Type 0} → Option M → (M → Agv R → Agv R) → RobotRuntime R → RobotRuntime R
applied none f rt = rt
applied (some m) f rt = record rt { agv = f m rt.agv }

pub applied-run :
    {R M : Type 0} (o : Option M) (f : M → Agv R → Agv R) (rt : RobotRuntime R)
    → after (handle_valid o (λ m t. done (record t { agv = f m t.agv })) rt) ≡ applied o f rt
applied-run none f rt = refl
applied-run (some m) f rt = refl

abbrev channel_of : String → Channel
channel_of name =
    if name == "order"
    then order
    else if name == "instantActions"
    then instant_actions
    else if name == "zoneSet"
    then zone_set
    else responses

channel_of-name_of : (c : Channel) → channel_of (name_of c) ≡ c
channel_of-name_of order = refl
channel_of-name_of instant_actions = refl
channel_of-name_of zone_set = refl
channel_of-name_of responses = refl

name_of-inj : (c d : Channel) → name_of c ≡ name_of d → c ≡ d
name_of-inj c d e = sym (channel_of-name_of c) ∙ ap channel_of e ∙ channel_of-name_of d

pub find_same :
    {A : Type 0} (p q : A → Bool) (xs : List A) → ((x : A) → p x ≡ q x) → find p xs ≡ find q xs
find_same p q [] same = refl
find_same p q (x ∷ xs) same = ground (arith, same x, find_same p q xs same)

pub find_passes :
    {A : Type 0} (p : A → Bool) (xs : List A) (x : A) → find p xs ≡ some x → p x ≡ true
find_passes p [] x e = absurd (cc e)
find_passes p (y ∷ xs) x e =
    if_ind (λ (o : Option _). o ≡ some x → p x ≡ true) (p y)
      (λ h f. subst (λ z. p z ≡ true) (some_inj y x f) h) (λ _ f. find_passes p xs x f) e

-- The whole topic, for the robot of a transport.
abbrev pub address : {R : Type 0} → MqttTransport R (RobotRuntime R) → Channel → String
address t channel =
    t.topic_prefix <> "/" <> t.manufacturer <> "/" <> t.serial_number <> "/" <> name_of channel

pub address-inj :
    {R : Type 0} (t : MqttTransport R (RobotRuntime R)) (c d : Channel)
    → address t c ≡ address t d
    → c ≡ d
address-inj t c d e = name_of-inj c d (
    append_cancel_left "/" _ _ (
      append_cancel_left t.serial_number _ _ (
        append_cancel_left "/" _ _ (
          append_cancel_left t.manufacturer _ _
            (append_cancel_left "/" _ _ (append_cancel_left t.topic_prefix _ _ e))))))
