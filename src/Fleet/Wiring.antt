-- ===== src/Fleet/Wiring.antt =====
-- fleet.py and transport.py: the handlers of a runtime on the MQTT transport of its robot.
use vda5050_sim.Prelude.{
  some_inj, String, string_eq, ◌≡◌, inl, inr, refl, sym, subst, Option, none, some, List, [], ◌∷◌,
  lookup, insert, lookup-insert, after, if_ind, ◌==◌, find, if◌then◌else◌, ap, ◌∙◌, true,
  Bool-cases, string_eq,
}
use vda5050_sim.Floats.{Float}
use vda5050_sim.Orders.{handle_order}
use vda5050_sim.Actions.{handle_instant_actions}
use vda5050_sim.Zones.{handle_zone_set, handle_responses}
use vda5050_sim.Wire.{◌>>=◌, bind_some}
use vda5050_sim.Transport.{
  ClientCall, subscribe_to, MqttTransport, Handler, Validators, topic, subscribe, listen,
  call_entry, run_handler,
}
use vda5050_sim.Fleet.Runtime.{
  RobotRuntime, Channel, order, instant_actions, zone_set, responses, on_order, on_instant_actions,
  on_zone_set, on_responses,
}
use vda5050_sim.Fleet.Channels.{
  name_of, applied, applied-run, find_same, find_passes, address, address-inj,
}

module _ {R : Type 0} ⦃fl : Float R⦄ (stamp : String) where
  abbrev pub handler_for : Channel → Handler R (RobotRuntime R)
  handler_for order = on_order
  handler_for instant_actions = on_instant_actions stamp
  handler_for zone_set = on_zone_set
  handler_for responses = on_responses

  -- The subscriptions of a runtime, one after the other.
  abbrev pub wire :
      List Channel → MqttTransport R (RobotRuntime R) → Option (MqttTransport R (RobotRuntime R))
  wire [] t = some t
  wire (channel ∷ channels) t = subscribe (handler_for channel) t >>= wire channels

  -- What the robot is to do with a payload, by its class.
  abbrev pub delivered :
      {B : Type 0} → Validators R B → Channel → B → RobotRuntime R → RobotRuntime R
  delivered v order payload = applied (v.order payload) (λ m. handle_order m)
  delivered v instant_actions payload =
      applied (v.instant_actions payload) (λ m. handle_instant_actions stamp m.actions)
  delivered v zone_set payload = applied (v.zone_set payload) (λ m. handle_zone_set m.zone_set)
  delivered v responses payload = applied (v.responses payload) (λ m. handle_responses m.responses)

  abbrev pub received :
      {B : Type 0} → Validators R B → Option Channel → B → RobotRuntime R → RobotRuntime R
  received v none payload rt = rt
  received v (some channel) payload rt = delivered v channel payload rt

  -- Each message goes by its topic to the channel that is subscribed there, if there is one.
  abbrev pub routed :
      {B : Type 0}
      → Validators R B
      → MqttTransport R (RobotRuntime R)
      → List Channel
      → List (String × B)
      → RobotRuntime R
      → RobotRuntime R
  routed v t channels [] rt = rt
  routed v t channels ((topic, payload) ∷ messages) rt =
      routed v t channels messages
        (received v (find (λ c. address t c == topic) channels) payload rt)

  delivered-run :
      {B : Type 0} (v : Validators R B) (channel : Channel) (payload : B) (rt : RobotRuntime R)
      → after (run_handler v (handler_for channel) payload rt) ≡ delivered v channel payload rt
  unfolding on_order on_instant_actions on_zone_set on_responses
  delivered-run v order payload rt = applied-run (v.order payload) (λ m. handle_order m) rt
  delivered-run v instant_actions payload rt =
      applied-run (v.instant_actions payload) (λ m. handle_instant_actions stamp m.actions) rt
  delivered-run v zone_set payload rt =
      applied-run (v.zone_set payload) (λ m. handle_zone_set m.zone_set) rt
  delivered-run v responses payload rt =
      applied-run (v.responses payload) (λ m. handle_responses m.responses) rt

  record Subscribes (c : Channel) (t u : MqttTransport R (RobotRuntime R)) : Type 0 where
    same : (channel : Channel) → address u channel ≡ address t channel
    handlers : u.handlers ≡ insert (address t c) (handler_for c) t.handlers

  subscribe_to-Subscribes :
      (c : Channel) (t u : MqttTransport R (RobotRuntime R))
      → subscribe_to (name_of c) (handler_for c) t ≡ some u
      → Subscribes c t u
  unfolding topic
  subscribe_to-Subscribes c t u =
      let added = record t {
        calls = ClientCall.subscribed (topic t (name_of c)) ∷ t.calls;
        handlers = insert (topic t (name_of c)) (handler_for c) t.handlers;
      } in
      if_ind (λ (o : Option (MqttTransport R (RobotRuntime R))). o ≡ some u → Subscribes c t u)
        t.connected {x = some added} {y = none}
        (λ _ e.
          subst (Subscribes c t) (some_inj added u e)
            (record { same = λ channel. refl; handlers = refl }))
        (λ _ e. absurd (cc e))

  subscribe-Subscribes :
      (c : Channel) (t u : MqttTransport R (RobotRuntime R))
      → subscribe (handler_for c) t ≡ some u
      → Subscribes c t u
  unfolding subscribe on_order on_instant_actions on_zone_set on_responses
  subscribe-Subscribes order t u e = subscribe_to-Subscribes order t u e
  subscribe-Subscribes instant_actions t u e = subscribe_to-Subscribes instant_actions t u e
  subscribe-Subscribes zone_set t u e = subscribe_to-Subscribes zone_set t u e
  subscribe-Subscribes responses t u e = subscribe_to-Subscribes responses t u e

  -- The handler of the channel that `find` gives, or the one before.
  abbrev handler_at :
      Option Channel → Option (Handler R (RobotRuntime R)) → Option (Handler R (RobotRuntime R))
  handler_at none before = before
  handler_at (some channel) before = some (handler_for channel)

  -- The last subscription of a topic counts, and the first that is found: they are the same.
  nearer :
      (t : MqttTransport R (RobotRuntime R)) (k : String) (c : Channel) (o : Option Channel)
      (before : Option (Handler R (RobotRuntime R)))
      → ((d : Channel) → o ≡ some d → (address t d == k) ≡ true)
      → handler_at o (if address t c == k then some (handler_for c) else before)
        ≡ handler_at (if address t c == k then some c else o) before
  nearer t k c none before passes = elim (Bool-cases (address t c == k)) [
    | inl h ↦ rw h refl
    | inr h ↦ rw h refl
  ]
  nearer t k c (some d) before passes = elim (Bool-cases (address t c == k)) [
    | inl h ↦ rw h (
        ap (λ x. some (handler_for x))
          (address-inj t d c (
            (string_eq.beq_iff (address t d) k).0 (passes d refl)
            ∙ sym ((string_eq.beq_iff (address t c) k).0 h))))
    | inr h ↦ rw h refl
  ]

  lookup-wire :
      (channels : List Channel) (t u : MqttTransport R (RobotRuntime R)) (k : String)
      → wire channels t ≡ some u
      → (lookup k u.handlers
          ≡ handler_at (find (λ c. address t c == k) channels) (lookup k t.handlers))
        × ((c : Channel) → address u c ≡ address t c)
  lookup-wire [] t u k e =
      subst
        (λ (w : MqttTransport R (RobotRuntime R)).
          (lookup k w.handlers ≡ lookup k t.handlers) × ((c : Channel) → address w c ≡ address t c))
        (some_inj t u e) (refl, λ c. refl)
  lookup-wire (channel ∷ channels) t u k e =
      let (w, first, rest) = bind_some (subscribe (handler_for channel) t) e in
      let sub = subscribe-Subscribes channel t w first in
      let (found, same) = lookup-wire channels w u k rest in
      let p = λ (c : Channel). address t c == k in
      let passed = λ (c : Channel). ap (λ (a : String). a == k) (sub.same c) in
      (
        found
            ∙ ap (λ o. handler_at o (lookup k w.handlers)) (find_same _ p channels passed)
            ∙ ap (handler_at (find p channels)) (
                ap (lookup k) sub.handlers
                ∙ lookup-insert (address t channel) k (handler_for channel) t.handlers)
            ∙ nearer t k channel (find p channels) (lookup k t.handlers)
                (λ d. find_passes p channels d),
        λ c. same c ∙ sub.same c,
      )

module _ {R B : Type 0} ⦃fl : Float R⦄ (stamp : String) (v : Validators R B) where
  received-entry :
      (o : Option Channel) (payload : B) (rt : RobotRuntime R)
      → call_entry v (handler_at stamp o none) payload rt ≡ received stamp v o payload rt
  received-entry none payload rt = refl
  received-entry (some channel) payload rt = delivered-run stamp v channel payload rt

  -- On a new MQTT transport that a runtime has subscribed its channels on, each message that comes in
  -- goes by its topic, which is made of the prefix, the manufacturer, the serial number and the
  -- name of the message's type, to the handler of the robot for that type: a valid order to
  -- `handle_order`, and so for instant actions, zone sets and responses. A payload that is not
  -- valid, and any message on another topic, changes nothing, and the next message is still handled.
  pub listen-routed :
      (channels : List Channel) (t u : MqttTransport R (RobotRuntime R))
      (messages : List (String × B)) (rt : RobotRuntime R)
      → t.handlers ≡ []
      → wire stamp channels t ≡ some u
      → listen v u messages rt ≡ routed stamp v t channels messages rt
  unfolding listen
  listen-routed channels t u [] rt new wired = refl
  listen-routed channels t u ((k, payload) ∷ messages) rt new wired =
      let found = (lookup-wire stamp channels t u k wired).0 in
      let o = find (λ c. address t c == k) channels in
      let empty : lookup k t.handlers ≡ none = ap (lookup k) new in
      listen-routed channels t u messages (call_entry v (lookup k u.handlers) payload rt) new wired
      ∙ ap (routed stamp v t channels messages) (
          ap (λ h. call_entry v h payload rt) (found ∙ ap (handler_at stamp o) empty)
          ∙ received-entry o payload rt)
