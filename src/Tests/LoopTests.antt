-- ===== src/Tests/LoopTests.antt =====
-- The connection loop of the sample robot, and the messages that a transport hands on.
use vda5050_sim.Prelude.{
  String, string_eq, Bool, true, false, ◌≡◌, ◌≢◌, refl, Option, none, some, List, [], ◌∷◌, after,
}
use vda5050_sim.Floats.Thousandths.{ℤ, pos, thousandths}
use vda5050_sim.Schemas.{online, hibernating}
use vda5050_sim.Robot.{init, setup}
use vda5050_sim.Faults.{should_drop_connection}
use vda5050_sim.Messages.{next_header_id, build_connection_message, connection_message}
use vda5050_sim.Transport.{MqttTransport, topic, subscribe, listen}
use vda5050_sim.Fleet.{
  Call, RobotRuntime, Task, order, responses, on_order, on_responses, init_runtime, start,
  subscribe_channel, send, publish_message, heartbeat, connection_step, connection_round,
  force_connection_state,
}
use vda5050_sim.Fleet.Told.{last_told}
use vda5050_sim.Fleet.Keeps.{has_task}
use vda5050_sim.Fleet.Online.{IsAnnounced}
use vda5050_sim.Fleet.Heartbeats.{IsQuiet, connection_round_twice, force_connection_state_stale}
use vda5050_sim.Fleet.Asleep.{Beat, beats, heartbeat_asleep}
use vda5050_sim.Fleet.Wiring.{wire, routed, listen-routed}
use vda5050_sim.Tests.FleetTests.{str, settings, validators, new}

unfoldable loops : Unit {0}
unfolding init setup init_runtime start subscribe_channel settings should_drop_connection
    connection_round connection_step heartbeat send publish_message build_connection_message
    connection_message next_header_id
loops = tt

-- Before its first round.
new-IsAnnounced : IsAnnounced new
unfolding loops
new-IsAnnounced running = (refl, refl)

new-IsQuiet : IsQuiet str "t" (pos 0) new.agv 0
unfolding loops
new-IsQuiet = record { awake = refl; kept = refl; counter = refl }

connection_round_twice_example :
    let t = connection_round str "t" (pos 0) (connection_round str "t" (pos 0) new) in
    (t.online ≡ true) × (last_told t.calls ≡ some online) × (has_task Task.connection t ≡ true)
unfolding loops
connection_round_twice_example =
    connection_round_twice str "t" (pos 0) (pos 0) new 0 new-IsAnnounced refl new-IsQuiet refl

-- After two rounds of its connection loop.
abbrev up : RobotRuntime ℤ
up = connection_round str "t" (pos 0) (connection_round str "t" (pos 0) new)

up-IsQuiet : IsQuiet str "t" (pos 0) up.agv 2
unfolding loops
up-IsQuiet = record { awake = refl; kept = refl; counter = refl }

other : hibernating ≢ online
other e = cc e

force_connection_state_stale_example :
    let t =
      connection_round str "t" (pos 0) (after (force_connection_state str "t" hibernating up)) in
    (t.online ≡ false) × (last_told t.calls ≡ some online)
unfolding loops
force_connection_state_stale_example =
    force_connection_state_stale str "t" (pos 0) hibernating up 2 refl other up-IsQuiet

-- The robot begins to hibernate.
abbrev tired : RobotRuntime ℤ
tired = record up { agv = record up.agv { mode = record up.agv.mode { hibernating = true } } }

abbrev later : List (Beat ℤ)
later = Beat.state "u" ∷ Beat.connection "v" (pos 0) ∷ Beat.state "w" ∷ []

heartbeat_asleep_example :
    let t = connection_round str "t" (pos 0) tired in
    (beats str later t ≡ t)
    × (last_told t.calls ≡ some hibernating)
    × ((c : Call ℤ) × (t.calls ≡ c ∷ tired.calls))
unfolding loops
heartbeat_asleep_example = heartbeat_asleep str "t" (pos 0) later tired 2 refl refl refl

abbrev client : MqttTransport ℤ (RobotRuntime ℤ)
client = record {
  host = "localhost";
  port = 1883;
  manufacturer = "MiR";
  serial_number = "r1";
  username = none;
  password = none;
  tls = false;
  topic_prefix = "vda5050/v3";
  protocol_version = "3.0.0";
  connected = true;
  listening = true;
  handlers = [];
  calls = [];
}

abbrev subscribed : Option (MqttTransport ℤ (RobotRuntime ℤ))
subscribed = wire "t" (order ∷ responses ∷ []) client

abbrev get_wired : Option (MqttTransport ℤ (RobotRuntime ℤ)) → MqttTransport ℤ (RobotRuntime ℤ)
get_wired none = client
get_wired (some t) = t

-- With the handlers of the two channels.
abbrev wired : MqttTransport ℤ (RobotRuntime ℤ)
wired = get_wired subscribed

abbrev received : List (String × Bool)
received = ("vda5050/v3/MiR/r1/order", true) ∷ ("elsewhere", true) ∷ []

listen-routed_example :
    listen validators wired received new
    ≡ routed "t" validators client (order ∷ responses ∷ []) received new
unfolding subscribe topic on_order on_responses
listen-routed_example =
    listen-routed "t" validators (order ∷ responses ∷ []) client wired received new refl refl
