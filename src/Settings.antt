-- ===== src/Settings.antt =====
-- src/vda5050_sim/config.py: the settings, with the values that they have unless the environment says
-- otherwise.
use vda5050_sim.Prelude.{ℕ, String, Bool, false, Option, none}
use vda5050_sim.Floats.{Float}

pub data TransportKind : Type 0 where
  nats mqtt : TransportKind

pub record Settings (R : Type 0) : Type 0 where
  pub transport : TransportKind
  pub nats_broker : String
  pub vda5050_prefix : String
  pub mqtt_host : String
  pub mqtt_port : ℕ
  pub mqtt_username : Option String
  pub mqtt_password : Option String
  pub mqtt_tls : Bool
  pub mqtt_topic_prefix : String
  pub fleet_config_path : String
  pub state_hz : R
  pub visualization_hz : R
  pub connection_heartbeat_s : R
  pub tick_s : R
  pub action_duration_s : R
  pub default_speed_mps : R
  pub default_angular_speed_rad_s : R
  pub horizon_threshold_nodes : ℕ
  pub default_battery_drain_percent_per_meter : R
  pub default_battery_charge_percent_per_s : R
  pub base_path : String
  pub port : ℕ
  pub log_buffer_size : ℕ

module _ {R : Type 0} ⦃fl : Float R⦄ where
  open fl use {decimal}

  unfoldable pub default_settings : Settings R
  default_settings = record {
    transport = TransportKind.nats;
    nats_broker = "nats://localhost:4222";
    vda5050_prefix = "vda5050.v3";
    mqtt_host = "localhost";
    mqtt_port = 1883;
    mqtt_username = none;
    mqtt_password = none;
    mqtt_tls = false;
    mqtt_topic_prefix = "vda5050/v3";
    fleet_config_path = "fleet.default.yaml";
    state_hz = decimal 10 1;
    visualization_hz = decimal 20 1;
    connection_heartbeat_s = decimal 20 1;
    tick_s = decimal 2 1;
    action_duration_s = decimal 10 1;
    default_speed_mps = decimal 5 1;
    default_angular_speed_rad_s = decimal 10 1;
    horizon_threshold_nodes = 2;
    default_battery_drain_percent_per_meter = decimal 5 2;
    default_battery_charge_percent_per_s = decimal 50 1;
    base_path = "";
    port = 8000;
    log_buffer_size = 500;
  }
