-- ===== src/Lib.antt =====
-- A model of the VDA5050 robot simulator: one simulated robot, which is the state machine
-- `SimulatedAgv` of src/vda5050_sim/agv.py with the data of src/vda5050_sim/schemas.py, the messages
-- that it sends, and around it the runtime and the fleet of src/vda5050_sim/fleet.py and the
-- transports of src/vda5050_sim/transport.py.
--
-- Parts. A fleet manager sends orders (`handle_order`), instant actions (`handle_instant_actions`),
-- zone sets (`handle_zone_set`) and responses to requests (`handle_responses`). Between messages the
-- runtime calls `tick` and `maybe_inject_fault`. All of them read and write one record `Agv`, so
-- each operation is a function from a robot to a robot; one that may let an exception escape gives a
-- `Run`, whose `raised` keeps the state at that point. Two operations never overlap, because the
-- simulator runs them in one asyncio thread and none of them awaits. A `RobotRuntime` holds the
-- robot. Its four loops tick the robot and build and publish its messages, each round of a loop being
-- a function from runtimes to runtimes; its handlers get the messages that its transport takes in. A
-- `Fleet` starts and stops the runtimes. A transport turns a message into a payload, in the shape of
-- the robot's protocol version (legacy_shapes.py), and routes what comes in to the handlers.
--
-- Files.
--   Prelude    library names, Boolean tests, lists, dicts as association lists, `Run`
--   Floats     the interface of Python's float, with thousandths as a concrete instance
--   Schemas    the messages and the parts of the state (schemas.py)
--   Catalog    ACTION_CATALOG, scopes_for, requires_capability (action_catalog.py)
--   Robot      the attributes of SimulatedAgv in groups, __init__, is_idle, versions, parameters
--   Orders     handle_order, _accept_order and the registration of actions
--   Maps       the map and zone set lifecycle
--   Actions    _apply_action_effect, _advance_all_pending, _handle_instant_action
--   Zones      geometry, requests, leases, access gates, zone actions
--   Movement   graph lookup and _step_towards
--   Tick       tick
--   Battery    what a tick does to the charge (theorems only)
--   Faults     fault injection and the debug routes
--   Specs      ROBOT_SPECS, the declared actions and the factsheet (robot_specs.py)
--   Messages   the header counters and the four message builders (agv.py)
--   Wire       JSON values and their legacy shapes (legacy_shapes.py)
--   Settings   the settings and their defaults (config.py)
--   Runtime    the steps of a robot and the states that they reach
--   Transport  payloads, MqttTransport, NatsTransport and their factory (transport.py)
--   Fleet      RobotRuntime, its loops, Fleet and load_fleet_config (fleet.py)
--   Logs       the ring buffer of log lines (logbuffer.py)
--   Tests      a sample robot, runs, and the theorems at concrete inputs
-- Each parent module passes on the names of its definitions; the modules below a parent that state
-- theorems are named for what they state.
--
-- Conventions. A float is a value of a type R with the operations that the code calls (`Float R`);
-- a theorem that needs a law of them takes it as a hypothesis. sequenceId and orderUpdateId are ℕ.
-- A payload is the dict whose text is sent; pydantic's dump of a message and its validation of a
-- payload are arguments. The calls that a runtime makes of its transport, and a transport of its client
-- library, are kept as lists, the last one first, and are taken to succeed. A transport of a fleet is
-- its identity, a number. What a loop does between two of its sleeps is one round, and rounds of
-- different loops, messages and debug requests follow each other in any order (`Fleet.Rounds`). An
-- exception is `raised`, or `none` where no state changes before it.
-- The time, `datetime.fromisoformat` and the random draws are arguments. An action state carries a
-- `ref`, which stands for the identity of the Python object: the code keeps references to states
-- while it changes lists. Loops over lists are structural recursion, so nothing needs fuel. The
-- text of the exception in the result of initializePosition is left out.
--
-- Not modelled: the calls that log, the web application and its start (main.py), the call of the JSON
-- schema validator (validate.py), reading the environment and the fleet's file, timing (how long a loop
-- sleeps, what wakes it), and the cancellation of a task in the middle of a round.
pub mod Prelude
pub mod Floats
pub mod Schemas
pub mod Catalog
pub mod Robot
pub mod Orders
pub mod Maps
pub mod Actions
pub mod Zones
pub mod Movement
pub mod Tick
pub mod Battery
pub mod Faults
pub mod Specs
pub mod Messages
pub mod Wire
pub mod Settings
pub mod Runtime
pub mod Transport
pub mod Fleet
pub mod Logs
pub mod Tests
