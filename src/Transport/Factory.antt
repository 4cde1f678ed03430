-- ===== src/Transport/Factory.antt =====
-- transport.py: `build_transport_factory`.
use vda5050_sim.Prelude.{
  String, string_eq, ◌<>◌, false, Option, [], Dict, ◌==◌, if◌then◌else◌, before_dot, replace_first,
}
use vda5050_sim.Settings.{Settings}
use vda5050_sim.Robot.{RobotConfig}
use vda5050_sim.Messages.{Message}
use vda5050_sim.Wire.{Json}
use vda5050_sim.Transport.Mqtt.{MqttTransport, connect}
use vda5050_sim.Transport.Nats.{NatsTransport, nats_connect}

unfoldable pub topic_prefix_of : {R : Type 0} → Settings R → RobotConfig R → String
unfolding before_dot replace_first
topic_prefix_of settings cfg =
    let major = before_dot cfg.protocol_version in
    if major == "3"
    then settings.mqtt_topic_prefix
    else replace_first "v3" ("v" <> major) settings.mqtt_topic_prefix

module _ {R S : Type 0} where
  -- MqttTransport(…)
  unfoldable pub mqtt_transport : Settings R → RobotConfig R → MqttTransport R S
  unfolding topic_prefix_of
  mqtt_transport settings cfg = record {
    host = settings.mqtt_host;
    port = settings.mqtt_port;
    manufacturer = cfg.manufacturer;
    serial_number = cfg.id;
    username = settings.mqtt_username;
    password = settings.mqtt_password;
    tls = settings.mqtt_tls;
    topic_prefix = topic_prefix_of settings cfg;
    protocol_version = cfg.protocol_version;
    connected = false;
    listening = false;
    handlers = [];
    calls = [];
  }

  -- Each robot has a transport of its own.
  unfoldable pub make_mqtt :
      (Message R → Dict String (Json R))
      → String
      → Settings R
      → RobotConfig R
      → Option (MqttTransport R S)
  unfolding mqtt_transport connect
  make_mqtt model_dump now settings cfg = connect model_dump now (mqtt_transport settings cfg)

  -- All robots share one transport.
  unfoldable pub make_nats : Settings R → NatsTransport R S
  unfolding nats_connect
  make_nats settings = nats_connect (record {
    nats_url = settings.nats_broker;
    prefix = settings.vda5050_prefix;
    connected = false;
    calls = [];
  })
