-- ===== src/Tests/WireTests.antt =====
-- Messages on the wire: dumps of a state and of a connection message, and topics.
use vda5050_sim.Prelude.{
  String, string_eq, Bool, true, false, ◌≡◌, refl, some, none, [], ◌∷◌, Dict, lookup,
}
use vda5050_sim.Floats.Thousandths.{ℤ, pos, thousandths}
use vda5050_sim.Schemas.{hibernating}
use vda5050_sim.Wire.{Json, flag, number, text, dict, is_legacy, downgrade_connection}
use vda5050_sim.Wire.RoundTrip.{View, Received, downgrade_state-Received}
use vda5050_sim.Wire.Connection.{read_state-downgrade_connection}
use vda5050_sim.Messages.{Message}
use vda5050_sim.Transport.{
  MqttTransport, NatsTransport, ClientCall, NatsCall, topic, subject, dump, publish, nats_publish,
}
use vda5050_sim.Transport.Versions.{publish-Stamped, nats_publish-Stamped}
use vda5050_sim.Transport.Isolation.{topic-inj, subject-inj}

abbrev state_dump : Dict String (Json ℤ)
state_dump =
    ("headerId", text "h")
    ∷ ("version", text "3.0.0")
    ∷ (
      "mobileRobotPosition",
      dict (
          ("x", number (pos 1))
          ∷ ("y", number (pos 2))
          ∷ ("theta", number (pos 0))
          ∷ ("mapId", text "default")
          ∷ ("localized", flag true)
          ∷ []),
    )
    ∷ (
      "powerSupply",
      dict (
          ("stateOfCharge", number (pos 90_000))
          ∷ ("charging", flag false)
          ∷ ("range", number (pos 5))
          ∷ []),
    )
    ∷ (
      "safetyState",
      dict (("activeEmergencyStop", text "NONE") ∷ ("fieldViolation", flag false) ∷ []),
    )
    ∷ []

abbrev seen : View ℤ
seen = record {
  pose = record {
    x = number (pos 1);
    y = number (pos 2);
    theta = number (pos 0);
    map_id = text "default";
    localized = flag true;
  };
  energy = record {
    charge = number (pos 90_000);
    charging = flag false;
    voltage = none;
    health = none;
    range = some (number (pos 5));
  };
  safety = record { emergency_stop = text "NONE"; field_violation = flag false };
}

old_version : is_legacy "2.1.0" ≡ true
unfolding is_legacy
old_version = refl

new_version : is_legacy "3.0.0" ≡ false
unfolding is_legacy
new_version = refl

downgrade_state-Received_example : Received state_dump "2.1.0" seen
downgrade_state-Received_example = downgrade_state-Received state_dump "2.1.0" seen refl

abbrev connection_dump : Dict String (Json ℤ)
connection_dump = ("version", text "3.0.0") ∷ ("connectionState", text "HIBERNATING") ∷ []

sent_state :
    lookup "connectionState" (downgrade_connection connection_dump "1.1.0") ≡ some (text "OFFLINE")
unfolding downgrade_connection
sent_state = refl

read_state-downgrade_connection_example :
    lookup "version" (downgrade_connection connection_dump "2.0.0") ≡ some (text "2.0.0")
read_state-downgrade_connection_example =
    (read_state-downgrade_connection connection_dump "2.0.0" hibernating refl).1

abbrev transport_of : String → MqttTransport ℤ Bool
transport_of serial = record {
  host = "localhost";
  port = 1883;
  manufacturer = "MiR";
  serial_number = serial;
  username = none;
  password = none;
  tls = false;
  topic_prefix = "vda5050/v3";
  protocol_version = "3.0.0";
  connected = true;
  listening = true;
  handlers = [];
  calls = [];
}

topic_text : topic (transport_of "r1") "order" ≡ "vda5050/v3/MiR/r1/order"
unfolding topic
topic_text = refl

topic-inj_example :
    ((transport_of "r1").manufacturer ≡ (transport_of "r1").manufacturer)
    × ((transport_of "r1").serial_number ≡ (transport_of "r1").serial_number)
    × (◌≡◌ {A = String} "order" "order")
topic-inj_example =
    topic-inj (transport_of "r1") (transport_of "r1") "order" "order" refl refl refl refl refl refl

abbrev shared : NatsTransport ℤ Bool
shared = record {
  nats_url = "nats://localhost:4222";
  prefix = "vda5050.v3";
  connected = true;
  calls = [];
}

subject-inj_example :
    (◌≡◌ {A = String} "MiR" "MiR")
    × (◌≡◌ {A = String} "r1" "r1")
    × (◌≡◌ {A = String} "order" "order")
subject-inj_example =
    subject-inj shared none "MiR" "MiR" "r1" "r1" "order" "order" refl refl refl refl refl

abbrev drop : Message ℤ
drop = Message.connection (record {
  header_id = 7;
  timestamp = "t";
  version = "3.0.0";
  manufacturer = "MiR";
  serial_number = "r1";
  connection_state = hibernating;
})

abbrev model_dump : Message ℤ → Dict String (Json ℤ)
model_dump m = connection_dump

abbrev sent : Dict String (Json ℤ)
sent = ("version", text "2.0.0") ∷ ("connectionState", text "OFFLINE") ∷ []

publish-Stamped_example :
    let t = transport_of "r1" in
    (payload : Dict String (Json ℤ)) × (lookup "version" payload ≡ some (text "2.0.0"))
    × (record t { calls = ClientCall.published (topic t "connection") sent 1 true ∷ t.calls }
        ≡ record t { calls = ClientCall.published (topic t "connection") payload 1 true ∷ t.calls })
unfolding publish dump downgrade_connection is_legacy
publish-Stamped_example =
    let t = transport_of "r1" in
    publish-Stamped model_dump "connection" drop "2.0.0" true t
      (record t { calls = ClientCall.published (topic t "connection") sent 1 true ∷ t.calls }) refl
      refl

nats_publish-Stamped_example :
    let at = subject shared (some "vda5050.v2") "MiR" "r1" "connection" in
    (payload : Dict String (Json ℤ)) × (lookup "version" payload ≡ some (text "2.0.0"))
    × (record shared { calls = NatsCall.published at sent ∷ shared.calls }
        ≡ record shared { calls = NatsCall.published at payload ∷ shared.calls })
unfolding nats_publish dump downgrade_connection is_legacy
nats_publish-Stamped_example =
    nats_publish-Stamped model_dump "connection" drop "2.0.0" "MiR" "r1" (some "vda5050.v2") shared
      (record shared {
        calls =
            NatsCall.published (subject shared (some "vda5050.v2") "MiR" "r1" "connection") sent
            ∷ shared.calls;
      })
      refl refl
