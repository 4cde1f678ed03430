-- ===== src/Fleet/Runtime.antt =====
-- fleet.py: `RobotRuntime`, its subscriptions and what it publishes. The calls of the transport are
-- kept as a list, the last one first; they are taken to succeed. A builder may raise.
use vda5050_sim.Prelude.{
  ℕ, String, string_eq, ◌<>◌, Bool, true, false, Option, none, some, List, [], ◌∷◌, ◌++◌, filter,
  contains, ◌==◌, if◌then◌else◌, Run, done, raised, after, before_dot, replace_first,
}
use vda5050_sim.Floats.{Float}
use vda5050_sim.Settings.{Settings}
use vda5050_sim.Schemas.{ConnectionState}
use vda5050_sim.Robot.{Agv}
use vda5050_sim.Orders.{handle_order}
use vda5050_sim.Actions.{handle_instant_actions}
use vda5050_sim.Zones.{handle_zone_set, handle_responses}
use vda5050_sim.Messages.{Message, Build, build, message_type}
use vda5050_sim.Transport.{retained_message_types, Handler}

pub data Channel : Type 0 where
  order instant_actions zone_set responses : Channel

-- The methods of `Transport`, with their arguments.
pub data Call (R : Type 0) : Type 0 where
  subscribed :
      (manufacturer serial_number : String) → Channel → (version_prefix : Option String) → Call R
  published :
      (manufacturer serial_number message_type : String)
      → (message : Message R) → (retain : Bool) → (version : String)
      → (version_prefix : Option String) → Call R
  unsubscribed : Channel → Call R

pub data Task : Type 0 where
  movement connection state visualization : Task

-- Where the connection loop stands: before its start, in its first sleep, in the sleep between two
-- heartbeats (with `was_hibernating`), or in the sleep of a dropped connection.
pub data Phase : Type 0 where
  starting : Phase
  broken : Phase
  beating : (was_hibernating : Bool) → Phase
  dropped : Phase

-- `transport` is the identity of the transport.
pub record RobotRuntime (R : Type 0) : Type 0 where
  pub agv : Agv R
  pub transport : ℕ
  pub settings : Settings R
  pub tasks : List Task
  pub subs : List Channel
  pub last_state_header_id : ℕ
  pub online : Bool
  pub protocol_major : String
  pub version_prefix : Option String
  pub phase : Phase
  pub calls : List (Call R)

module _ {R : Type 0} where
  unfoldable pub init_runtime : Agv R → ℕ → Settings R → RobotRuntime R
  unfolding before_dot replace_first
  init_runtime agv transport settings =
      let major = before_dot agv.cfg.protocol_version in
      record {
        agv = agv;
        transport = transport;
        settings = settings;
        tasks = [];
        subs = [];
        last_state_header_id = 0;
        online = false;
        protocol_major = major;
        version_prefix =
            if major == "3"
            then none
            else some (replace_first "v3" ("v" <> major) settings.vda5050_prefix);
        phase = starting;
        calls = [];
      }

  -- self._subs.append(await self.transport.subscribe_…(…))
  unfoldable pub subscribe_channel : Channel → RobotRuntime R → RobotRuntime R
  subscribe_channel channel rt = record rt {
    subs = rt.subs ++ channel ∷ [];
    calls =
        Call.subscribed rt.agv.manufacturer rt.agv.serial_number channel rt.version_prefix
        ∷ rt.calls;
  }

  unfoldable pub start : RobotRuntime R → RobotRuntime R
  unfolding subscribe_channel
  start rt =
      let rt2 = subscribe_channel instant_actions (subscribe_channel order rt) in
      let rt3 = if rt.protocol_major == "3" then subscribe_channel zone_set rt2 else rt2 in
      record (subscribe_channel responses rt3) {
        tasks = Task.movement ∷ Task.connection ∷ Task.state ∷ Task.visualization ∷ [];
      }

  unfoldable pub publish_message : Message R → RobotRuntime R → RobotRuntime R
  unfolding retained_message_types
  publish_message message rt = record rt {
    calls =
        Call.published rt.agv.manufacturer rt.agv.serial_number (message_type message) message
          (contains (message_type message) retained_message_types) rt.agv.cfg.protocol_version
          rt.version_prefix
        ∷ rt.calls;
  }

  abbrev pub publish_built : Option (Message R) × Agv R → RobotRuntime R → Run (RobotRuntime R)
  publish_built (none, agv) rt = raised (record rt { agv = agv })
  publish_built (some message, agv) rt = done (publish_message message (record rt { agv = agv }))

  abbrev pub unsubscribe_all : List Channel → RobotRuntime R → RobotRuntime R
  unsubscribe_all [] rt = rt
  unsubscribe_all (channel ∷ channels) rt =
      unsubscribe_all channels (record rt { calls = Call.unsubscribed channel ∷ rt.calls })

abbrev pub same_task : Task → Task → Bool
same_task Task.movement Task.movement = true
same_task Task.connection Task.connection = true
same_task Task.state Task.state = true
same_task Task.visualization Task.visualization = true
same_task _ _ = false

abbrev pub is_online : ConnectionState → Bool
is_online ConnectionState.online = true
is_online _ = false

module _ {R : Type 0} ⦃fl : Float R⦄ (str : R → String) (now : String) where
  -- self._publish("connection", self.agv.build_connection_message(state)), and its siblings
  unfoldable pub send : Build → RobotRuntime R → Run (RobotRuntime R)
  unfolding publish_message
  send b rt = publish_built (build str now b rt.agv) rt

  -- What the first statement raises is suppressed.
  unfoldable pub stop : RobotRuntime R → RobotRuntime R
  unfolding send
  stop rt =
      let told = after (send (Build.connection ConnectionState.offline) rt) in
      unsubscribe_all told.subs (record told { tasks = [] })

  -- Called in the movement task, which is not cancelled.
  unfoldable pub do_shutdown : RobotRuntime R → RobotRuntime R
  unfolding send
  do_shutdown rt =
      let told = after (send (Build.connection ConnectionState.offline) rt) in
      unsubscribe_all told.subs
        (record told { tasks = filter (same_task Task.movement) told.tasks })

  unfoldable pub force_connection_state : ConnectionState → RobotRuntime R → Run (RobotRuntime R)
  unfolding send
  force_connection_state forced rt =
      send (Build.connection forced) (record rt { online = is_online forced })

module _ {R : Type 0} ⦃fl : Float R⦄ where
  -- `stamp` is the time that the handler reads.
  unfoldable pub on_order : Handler R (RobotRuntime R)
  unfolding handle_order
  on_order = Handler.order (λ m rt. done (record rt { agv = handle_order m rt.agv }))

  unfoldable pub on_instant_actions : String → Handler R (RobotRuntime R)
  unfolding handle_instant_actions
  on_instant_actions stamp =
      Handler.instant_actions
        (λ m rt. done (record rt { agv = handle_instant_actions stamp m.actions rt.agv }))

  unfoldable pub on_zone_set : Handler R (RobotRuntime R)
  unfolding handle_zone_set
  on_zone_set =
      Handler.zone_set (λ m rt. done (record rt { agv = handle_zone_set m.zone_set rt.agv }))

  unfoldable pub on_responses : Handler R (RobotRuntime R)
  unfolding handle_responses
  on_responses =
      Handler.responses (λ m rt. done (record rt { agv = handle_responses m.responses rt.agv }))
