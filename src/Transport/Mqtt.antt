-- ===== src/Transport/Mqtt.antt =====
-- transport.py: `MqttTransport`. The calls of the client library are kept as a list, the last one
-- first; they are taken to succeed. A result is `none` where an assertion fails or `_dump` raises.
use vda5050_sim.Prelude.{
  ℕ, String, string_eq, ◌<>◌, Bool, true, false, Option, none, some, List, [], ◌∷◌, Dict, lookup,
  insert, remove, if◌then◌else◌, after,
}
use vda5050_sim.Schemas.{ConnectionState}
use vda5050_sim.Messages.{Message}
use vda5050_sim.Wire.{Json, ◌>>=◌}
use vda5050_sim.Transport.Payload.{dump, Handler, Validators, run_handler}

pub record Will (R : Type 0) : Type 0 where
  pub topic : String
  pub payload : Dict String (Json R)
  pub qos : ℕ
  pub retain : Bool

pub data ClientCall (R : Type 0) : Type 0 where
  opened :
      (hostname : String) (port : ℕ) (username password : Option String) (tls : Bool)
      → (will : Will R) → (identifier : String) → ClientCall R
  published :
      (topic : String)
      → (payload : Dict String (Json R)) → (qos : ℕ) → (retain : Bool) → ClientCall R
  subscribed : (topic : String) → ClientCall R
  unsubscribed : (topic : String) → ClientCall R
  closed : ClientCall R

-- `connected` says whether `_client` is set, `listening` whether the listen task runs.
pub record MqttTransport (R S : Type 0) : Type 0 where
  pub host : String
  pub port : ℕ
  pub manufacturer : String
  pub serial_number : String
  pub username : Option String
  pub password : Option String
  pub tls : Bool
  pub topic_prefix : String
  pub protocol_version : String
  pub connected : Bool
  pub listening : Bool
  pub handlers : Dict String (Handler R S)
  pub calls : List (ClientCall R)

module _ {R S : Type 0} where
  unfoldable pub topic : MqttTransport R S → String → String
  topic t message_type =
      t.topic_prefix <> "/" <> t.manufacturer <> "/" <> t.serial_number <> "/" <> message_type

  -- `now` is the text of the time.
  unfoldable pub will_payload :
      (Message R → Dict String (Json R))
      → String
      → MqttTransport R S
      → Option (Dict String (Json R))
  unfolding dump
  will_payload model_dump now t =
      dump model_dump
        (Message.connection (record {
          header_id = 0;
          timestamp = now;
          version = "3.0.0";
          manufacturer = t.manufacturer;
          serial_number = t.serial_number;
          connection_state = ConnectionState.connection_broken;
        }))
        "connection" t.protocol_version

  unfoldable pub connect :
      (Message R → Dict String (Json R)) → String → MqttTransport R S → Option (MqttTransport R S)
  unfolding topic will_payload
  connect model_dump now t = do
    payload ← will_payload model_dump now t
    some (record t {
      connected = true;
      listening = true;
      calls =
          ClientCall.opened t.host t.port t.username t.password t.tls
            (record { topic = topic t "connection"; payload = payload; qos = 1; retain = true })
            ("vda5050-sim-" <> t.manufacturer <> "-" <> t.serial_number)
          ∷ t.calls;
    })

  unfoldable pub close : MqttTransport R S → MqttTransport R S
  close t =
      let stopped = record t { listening = false } in
      if t.connected then record stopped { calls = ClientCall.closed ∷ t.calls } else stopped

  unfoldable pub publish :
      (Message R → Dict String (Json R))
      → String
      → Message R
      → Bool
      → String
      → MqttTransport R S
      → Option (MqttTransport R S)
  unfolding topic dump
  publish model_dump message_type model retain version t =
      if t.connected
      then dump model_dump model message_type version >>= (λ payload. some (record t {
        calls = ClientCall.published (topic t message_type) payload 1 retain ∷ t.calls;
      }))
      else none

  -- What the four subscribe methods do; each has a message type and a class of messages.
  abbrev pub subscribe_to : String → Handler R S → MqttTransport R S → Option (MqttTransport R S)
  subscribe_to message_type handler t =
      if t.connected
      then some (record t {
        calls = ClientCall.subscribed (topic t message_type) ∷ t.calls;
        handlers = insert (topic t message_type) handler t.handlers;
      })
      else none

  unfoldable pub subscribe : Handler R S → MqttTransport R S → Option (MqttTransport R S)
  unfolding topic
  subscribe (Handler.order h) t = subscribe_to "order" (Handler.order h) t
  subscribe (Handler.instant_actions h) t =
      subscribe_to "instantActions" (Handler.instant_actions h) t
  subscribe (Handler.zone_set h) t = subscribe_to "zoneSet" (Handler.zone_set h) t
  subscribe (Handler.responses h) t = subscribe_to "responses" (Handler.responses h) t

  unfoldable pub unsubscribe : String → MqttTransport R S → MqttTransport R S
  unsubscribe topic t =
      let dropped = record t { handlers = remove topic t.handlers } in
      if t.connected
      then record dropped { calls = ClientCall.unsubscribed topic ∷ t.calls }
      else dropped

  abbrev pub call_entry : {B : Type 0} → Validators R B → Option (Handler R S) → B → S → S
  call_entry v none payload s = s
  call_entry v (some handler) payload s = after (run_handler v handler payload s)

  -- A message in the loop of `_listen`. What a handler raises is logged, and the loop goes on.
  unfoldable pub listen :
      {B : Type 0} → Validators R B → MqttTransport R S → List (String × B) → S → S
  listen v t [] s = s
  listen v t ((message_topic, payload) ∷ messages) s =
      listen v t messages (call_entry v (lookup message_topic t.handlers) payload s)
