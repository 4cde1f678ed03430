-- ===== src/Fleet/Closing.antt =====
-- fleet.py: the transports and the tasks of a fleet, after `Fleet.start` and `Fleet.stop`.
use vda5050_sim.Prelude.{
  ℕ, nat_eq, String, string_eq, true, ◌||◌, ◌≡◌, refl, List, [], ◌∷◌, map, Dict, insert, contains,
  All, arith, after, ◌==◌,
}
use vda5050_sim.Floats.{Float}
use vda5050_sim.Settings.{Settings}
use vda5050_sim.Schemas.{ConnectionState}
use vda5050_sim.Robot.{RobotConfig}
use vda5050_sim.Messages.{Build}
use vda5050_sim.Fleet.Runtime.{RobotRuntime, stop, send}
use vda5050_sim.Fleet.Group.{Fleet, init_fleet, start_robot, start_fleet, stop_fleet}
use vda5050_sim.Fleet.Keeps.{tasks-unsubscribe_all}
use vda5050_sim.Fleet.Members.{IsDistinct}

abbrev values_of : Dict ℕ ℕ → List ℕ
values_of d = map (λ e. e.1) d

abbrev IsKeyed : Dict ℕ ℕ → Type 0
IsKeyed d = All (λ (e : ℕ × ℕ). e.0 ≡ e.1) d

insert-IsKeyed : (k : ℕ) (d : Dict ℕ ℕ) → IsKeyed d → IsKeyed (insert k k d)
insert-IsKeyed k [] h = (refl, tt)
insert-IsKeyed k ((i, j) ∷ d) (e, h) = ground (arith, nat_eq.beq_iff i k, insert-IsKeyed k d h)

contains-insert :
    (k n : ℕ) (d : Dict ℕ ℕ)
    → IsKeyed d
    → contains n (values_of (insert k k d)) ≡ (k == n || contains n (values_of d))
contains-insert k n [] h = refl
contains-insert k n ((i, j) ∷ d) (e, h) =
    ground (arith, nat_eq.beq_iff i k, contains-insert k n d h)

insert-IsDistinct :
    (k : ℕ) (d : Dict ℕ ℕ)
    → IsKeyed d
    → IsDistinct (values_of d)
    → IsDistinct (values_of (insert k k d))
insert-IsDistinct k [] h distinct = (refl, tt)
insert-IsDistinct k ((i, j) ∷ d) (e, h) (new, distinct) =
    ground (arith, nat_eq.beq_iff i k, contains-insert k j d h, insert-IsDistinct k d h distinct)

module _ {R : Type 0} ⦃fl : Float R⦄ (factory : RobotConfig R → ℕ) where
  record IsTidy (fleet : Fleet R) : Type 0 where
    keyed : IsKeyed fleet.transports
    distinct : IsDistinct (values_of fleet.transports)

  abbrev Opened : Fleet R → ℕ → Type 0
  Opened fleet t = contains t (values_of fleet.transports) ≡ true

  start_robot-IsTidy :
      (cfg : RobotConfig R) (fleet : Fleet R)
      → IsTidy fleet
      → IsTidy (start_robot factory cfg fleet)
  unfolding start_robot
  start_robot-IsTidy cfg fleet h = record {
    keyed = insert-IsKeyed (factory cfg) fleet.transports h.keyed;
    distinct = insert-IsDistinct (factory cfg) fleet.transports h.keyed h.distinct;
  }

  start_robot_opens :
      (cfg : RobotConfig R) (fleet : Fleet R)
      → IsTidy fleet
      → Opened (start_robot factory cfg fleet) (factory cfg)
  unfolding start_robot
  start_robot_opens cfg fleet h = ground (
    arith,
    nat_eq.beq_iff (factory cfg) (factory cfg),
    contains-insert (factory cfg) (factory cfg) fleet.transports h.keyed,
  )

  start_robot_keeps :
      (cfg : RobotConfig R) (fleet : Fleet R) (t : ℕ)
      → IsTidy fleet
      → Opened fleet t
      → Opened (start_robot factory cfg fleet) t
  unfolding start_robot
  start_robot_keeps cfg fleet t h o =
      ground (arith, o, contains-insert (factory cfg) t fleet.transports h.keyed)

  start_fleet-IsTidy :
      (configs : List (RobotConfig R)) (fleet : Fleet R)
      → IsTidy fleet
      → IsTidy (start_fleet factory configs fleet)
  unfolding start_fleet
  start_fleet-IsTidy [] fleet h = h
  start_fleet-IsTidy (cfg ∷ configs) fleet h =
      start_fleet-IsTidy configs (start_robot factory cfg fleet) (start_robot-IsTidy cfg fleet h)

  start_fleet_keeps :
      (configs : List (RobotConfig R)) (fleet : Fleet R) (t : ℕ)
      → IsTidy fleet
      → Opened fleet t
      → Opened (start_fleet factory configs fleet) t
  unfolding start_fleet
  start_fleet_keeps [] fleet t h o = o
  start_fleet_keeps (cfg ∷ configs) fleet t h o =
      start_fleet_keeps configs (start_robot factory cfg fleet) t (start_robot-IsTidy cfg fleet h)
        (start_robot_keeps cfg fleet t h o)

  start_fleet_opens :
      (configs : List (RobotConfig R)) (fleet : Fleet R)
      → IsTidy fleet
      → All (λ cfg. Opened (start_fleet factory configs fleet) (factory cfg)) configs
  unfolding start_fleet
  start_fleet_opens [] fleet h = tt
  start_fleet_opens (cfg ∷ configs) fleet h =
      let next = start_robot factory cfg fleet in
      let tidy = start_robot-IsTidy cfg fleet h in
      (
        start_fleet_keeps configs next (factory cfg) tidy (start_robot_opens cfg fleet h),
        start_fleet_opens configs next tidy,
      )

  tasks-stop :
      (str : R → String) (now : String) (rt : RobotRuntime R) → (stop str now rt).tasks ≡ []
  unfolding stop
  tasks-stop str now rt =
      let told = after (send str now (Build.connection ConnectionState.offline) rt) in
      tasks-unsubscribe_all told.subs (record told { tasks = [] })

  stop-All :
      (str : R → String) (now : String) (d : Dict String (RobotRuntime R))
      → All (λ (e : String × RobotRuntime R). e.1.tasks ≡ []) (map (λ e. (e.0, stop str now e.1)) d)
  stop-All str now [] = tt
  stop-All str now ((k, rt) ∷ d) = (tasks-stop str now rt, stop-All str now d)

  -- After a fleet was started and stopped, the transport of every robot has been closed, none of
  -- them twice, also if robots share one, and no runtime of the fleet has a task left.
  pub stop_fleet-start_fleet :
      (str : R → String) (now : String) (configs : List (RobotConfig R)) (settings : Settings R)
      → let fleet = stop_fleet str now (start_fleet factory configs (init_fleet settings)) in
        All (λ cfg. contains (factory cfg) fleet.closed ≡ true) configs
        × IsDistinct fleet.closed
        × All (λ (e : String × RobotRuntime R). e.1.tasks ≡ []) fleet.runtimes
  unfolding stop_fleet init_fleet
  stop_fleet-start_fleet str now configs settings =
      let empty = init_fleet settings in
      let tidy : IsTidy empty = record { keyed = tt; distinct = tt } in
      (
        start_fleet_opens configs empty tidy,
        (start_fleet-IsTidy configs empty tidy).distinct,
        stop-All str now (start_fleet factory configs empty).runtimes,
      )
