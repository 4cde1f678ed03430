-- ===== src/Fleet/Members.antt =====
-- fleet.py: the robots of a fleet after `Fleet.start`.
use vda5050_sim.Prelude.{
  ℕ, nat_eq, String, string_eq, Bool, false, ◌&&◌, ◌≡◌, refl, ap, ◌∙◌, subst, Option, none, some,
  List, [], ◌∷◌, map, lookup, lookup-insert, contains, find, arith, Bool-cases, inl, inr, ◌==◌,
  if◌then◌else◌, Eq,
}
use vda5050_sim.Floats.{Float}
use vda5050_sim.Settings.{Settings}
use vda5050_sim.Robot.{RobotConfig, init, setup}
use vda5050_sim.Fleet.Runtime.{RobotRuntime, init_runtime, start, subscribe_channel}
use vda5050_sim.Fleet.Group.{
  Fleet, init_fleet, started_runtime, start_robot, start_fleet, find_runtime, matching,
}

-- No entry comes twice.
abbrev pub IsDistinct : {A : Type 0} ⦃e : Eq A⦄ → List A → Type 0
IsDistinct [] = Unit
IsDistinct (x ∷ xs) = (contains x xs ≡ false) × IsDistinct xs

abbrev pub map_option : {A B : Type 0} → (A → B) → Option A → Option B
map_option f none = none
map_option f (some a) = some (f a)

abbrev or_before : {A : Type 0} → Option A → Option A → Option A
or_before none before = before
or_before (some a) before = some a

or_before_none : {A : Type 0} (o : Option A) → or_before o none ≡ o
or_before_none none = refl
or_before_none (some a) = refl

module _ {R : Type 0} where
  abbrev pub id_is : String → RobotConfig R → Bool
  id_is serial cfg = cfg.id == serial

  abbrev pub ids_of : List (RobotConfig R) → List String
  ids_of configs = map (λ cfg. cfg.id) configs

  absent :
      (serial : String) (configs : List (RobotConfig R))
      → contains serial (ids_of configs) ≡ false
      → find (id_is serial) configs ≡ none
  absent serial [] h = refl
  absent serial (cfg ∷ configs) h = ground (arith, h, absent serial configs)

  abbrev pub robot_is : String → String → RobotConfig R → Bool
  robot_is manufacturer serial cfg = cfg.id == serial && cfg.manufacturer == manufacturer

  absent_robot :
      (manufacturer serial : String) (configs : List (RobotConfig R))
      → contains serial (ids_of configs) ≡ false
      → find (robot_is manufacturer serial) configs ≡ none
  absent_robot manufacturer serial [] h = refl
  absent_robot manufacturer serial (cfg ∷ configs) h =
      ground (arith, h, absent_robot manufacturer serial configs)

module _ {R : Type 0} ⦃fl : Float R⦄ (factory : RobotConfig R → ℕ) where
  settings-start_fleet :
      (configs : List (RobotConfig R)) (fleet : Fleet R)
      → (start_fleet factory configs fleet).settings ≡ fleet.settings
  unfolding start_fleet
  settings-start_fleet [] fleet = refl
  settings-start_fleet (cfg ∷ configs) fleet =
      settings-start_fleet configs (start_robot factory cfg fleet)

  lookup-start_fleet :
      (configs : List (RobotConfig R)) (fleet : Fleet R) (serial : String)
      → IsDistinct (ids_of configs)
      → lookup serial (start_fleet factory configs fleet).runtimes
        ≡ or_before
            (map_option (started_runtime factory fleet.settings) (find (id_is serial) configs))
            (lookup serial fleet.runtimes)
  unfolding start_fleet
  lookup-start_fleet [] fleet serial distinct = refl
  lookup-start_fleet (cfg ∷ configs) fleet serial (new, distinct) =
      let rt = started_runtime factory fleet.settings cfg in
      let before = lookup-insert cfg.id serial rt fleet.runtimes in
      lookup-start_fleet configs (start_robot factory cfg fleet) serial distinct
      ∙ elim (Bool-cases (cfg.id == serial)) [
        | inl e ↦
            let gone =
              subst (λ (i : String). find (id_is i) configs ≡ none)
                ((string_eq.beq_iff cfg.id serial).0 e) (absent cfg.id configs new) in
            rw (gone, before, e) refl
        | inr e ↦ rw (before, e) refl
      ]

  names-started_runtime :
      (settings : Settings R) (cfg : RobotConfig R)
      → (started_runtime factory settings cfg).agv.manufacturer ≡ cfg.manufacturer
  unfolding started_runtime start init_runtime subscribe_channel init setup
  names-started_runtime settings cfg = ground arith

  named :
      (manufacturer : String) (cfg : RobotConfig R) {o : Option (RobotConfig R)}
      (f : RobotConfig R → RobotRuntime R)
      → o ≡ none
      → (if cfg.manufacturer == manufacturer then some (f cfg) else none)
        ≡ map_option f (if cfg.manufacturer == manufacturer then some cfg else o)
  named manufacturer cfg f gone = elim (Bool-cases (cfg.manufacturer == manufacturer)) [
    | inl e ↦ rw e refl
    | inr e ↦ rw (e, gone) refl
  ]

  matching-find :
      (manufacturer serial : String) (settings : Settings R) (configs : List (RobotConfig R))
      → IsDistinct (ids_of configs)
      → matching manufacturer
          (map_option (started_runtime factory settings) (find (id_is serial) configs))
        ≡ map_option
            (started_runtime factory settings)
            (find (robot_is manufacturer serial) configs)
  matching-find manufacturer serial settings [] distinct = refl
  matching-find manufacturer serial settings (cfg ∷ configs) (new, distinct) =
      elim (Bool-cases (cfg.id == serial)) [
        | inl e ↦
            let gone =
              subst (λ (i : String). find (robot_is manufacturer i) configs ≡ none)
                ((string_eq.beq_iff cfg.id serial).0 e)
                (absent_robot manufacturer cfg.id configs new) in
            rw e (
              ap
                (λ (m : String).
                  if m == manufacturer then some (started_runtime factory settings cfg) else none)
                (names-started_runtime settings cfg)
              ∙ named manufacturer cfg (started_runtime factory settings) gone)
        | inr e ↦ rw e (matching-find manufacturer serial settings configs distinct)
      ]

  -- In a fleet whose robots have distinct ids, `find_runtime` finds for a manufacturer and a serial
  -- number the runtime of the robot that is configured so, and nothing if there is none.
  pub find_runtime-start_fleet :
      (configs : List (RobotConfig R)) (settings : Settings R) (manufacturer serial : String)
      → IsDistinct (ids_of configs)
      → find_runtime manufacturer serial (start_fleet factory configs (init_fleet settings))
        ≡ map_option
            (started_runtime factory settings)
            (find (robot_is manufacturer serial) configs)
  unfolding find_runtime init_fleet
  find_runtime-start_fleet configs settings manufacturer serial distinct =
      ap (matching manufacturer) (
        lookup-start_fleet configs (init_fleet settings) serial distinct
        ∙ or_before_none
            (map_option (started_runtime factory settings) (find (id_is serial) configs)))
      ∙ matching-find manufacturer serial settings configs distinct
