-- ===== src/Transport/Versions.antt =====
-- transport.py: the versions that `publish` announces, over MQTT and over NATS.
use vda5050_sim.Prelude.{
  String, string_eq, Bool, ◌≡◌, sym, Option, some, ◌∷◌, Dict, lookup, if_ind, some_inj,
}
use vda5050_sim.Messages.{Message}
use vda5050_sim.Wire.{Json, text, bind_some}
use vda5050_sim.Transport.Payload.{dump}
use vda5050_sim.Transport.Mqtt.{MqttTransport, ClientCall, topic, publish}
use vda5050_sim.Transport.Nats.{NatsTransport, NatsCall, subject, nats_publish}
use vda5050_sim.Transport.Stamps.{payload-Stamped}

module _ {R S : Type 0} (model_dump : Message R → Dict String (Json R)) (type : String)
    (model : Message R) (version : String) where
  -- When an MQTT transport publishes a message of the current version, then it makes one call of its
  -- client, on the topic of the message's type, with a payload that announces the version which it
  -- was called with.
  pub publish-Stamped :
      (retain : Bool) (t u : MqttTransport R S)
      → lookup "version" (model_dump model) ≡ some (text "3.0.0")
      → publish model_dump type model retain version t ≡ some u
      → (payload : Dict String (Json R)) × (lookup "version" payload ≡ some (text version))
        × (u ≡ record t { calls = ClientCall.published (topic t type) payload 1 retain ∷ t.calls })
  unfolding publish
  publish-Stamped retain t u h =
      let sent = λ (p : Dict String (Json R)). record t {
        calls = ClientCall.published (topic t type) p 1 retain ∷ t.calls;
      } in
      if_ind
        (λ (o : Option (MqttTransport R S)).
          o ≡ some u
          → (payload : Dict String (Json R)) × (lookup "version" payload ≡ some (text version))
            × (u ≡ sent payload))
        t.connected
        (λ _ e.
          let (payload, dumped, last) = bind_some (dump model_dump model type version) e in
          (
            payload,
            payload-Stamped model_dump model type version payload h dumped,
            sym (some_inj (sent payload) u last),
          ))
        (λ _ e. absurd (cc e))

  -- When a NATS transport publishes a message of the current version, then it makes one call of its
  -- client, on the subject of the robot and the message's type, with a payload that announces the
  -- version which it was called with.
  pub nats_publish-Stamped :
      (manufacturer serial : String) (prefix : Option String) (t u : NatsTransport R S)
      → lookup "version" (model_dump model) ≡ some (text "3.0.0")
      → nats_publish model_dump manufacturer serial type model version prefix t ≡ some u
      → (payload : Dict String (Json R)) × (lookup "version" payload ≡ some (text version))
        × (u ≡ record t {
          calls = NatsCall.published (subject t prefix manufacturer serial type) payload ∷ t.calls;
        })
  unfolding nats_publish
  nats_publish-Stamped manufacturer serial prefix t u h =
      let sent = λ (p : Dict String (Json R)). record t {
        calls = NatsCall.published (subject t prefix manufacturer serial type) p ∷ t.calls;
      } in
      if_ind
        (λ (o : Option (NatsTransport R S)).
          o ≡ some u
          → (payload : Dict String (Json R)) × (lookup "version" payload ≡ some (text version))
            × (u ≡ sent payload))
        t.connected
        (λ _ e.
          let (payload, dumped, last) = bind_some (dump model_dump model type version) e in
          (
            payload,
            payload-Stamped model_dump model type version payload h dumped,
            sym (some_inj (sent payload) u last),
          ))
        (λ _ e. absurd (cc e))
