-- ===== src/Fleet/Loaded.antt =====
-- fleet.py: which robots `load_fleet_config` makes of the entries of a file.
use vda5050_sim.Prelude.{
  String, string_eq, Bool, true, false, ◌&&◌, ◌≡◌, refl, Option, none, some, List, [], ◌∷◌, ◌⊎◌,
  inl, inr, is_some,
}
use vda5050_sim.Floats.{Float}
use vda5050_sim.Robot.{RobotConfig}
use vda5050_sim.Fleet.Loading.{
  RobotEntry, get_or, filled_in, robot_config, load_robot, load_fleet_config,
}

module _ {R : Type 0} where
  abbrev pub is_complete : RobotEntry R → Bool
  is_complete entry = is_some entry.model && is_some entry.id

  -- `robot` is made of `entry`.
  pub record IsMadeOf ⦃fl : Float R⦄ (entry : RobotEntry R) (robot : RobotConfig R) : Type 0 where
    pub id : entry.id ≡ some robot.id
    pub model : entry.model ≡ some robot.model
    pub named : robot.manufacturer ≡ filled_in R (get_or "" entry.manufacturer) robot.model
    pub supported : robot.supported_actions ≡ get_or [] entry.supported_actions

  -- One after the other.
  pub data AreMadeOf ⦃fl : Float R⦄ : List (RobotEntry R) → List (RobotConfig R) → Type 0 where
    nothing : AreMadeOf [] []
    also :
        {entry : RobotEntry R} {robot : RobotConfig R} {entries : List (RobotEntry R)}
        {robots : List (RobotConfig R)}
        → IsMadeOf entry robot
        → AreMadeOf entries robots
        → AreMadeOf (entry ∷ entries) (robot ∷ robots)

  abbrev pub are_complete : List (RobotEntry R) → Bool
  are_complete [] = true
  are_complete (entry ∷ entries) = is_complete entry && are_complete entries

module _ {R : Type 0} ⦃fl : Float R⦄ where
  abbrev pub Loads : List (RobotEntry R) → Type 0
  Loads entries =
      ((are_complete entries ≡ true)
        × ((robots : List (RobotConfig R)) × (load_fleet_config entries ≡ some robots)
            × AreMadeOf entries robots))
      ⊎ ((are_complete entries ≡ false) × (load_fleet_config entries ≡ none))

  robot_config-IsMadeOf :
      (entry : RobotEntry R) (id model : String)
      → entry.id ≡ some id
      → entry.model ≡ some model
      → IsMadeOf entry (robot_config id model entry)
  unfolding robot_config
  robot_config-IsMadeOf entry id model e m = record {
    id = e;
    model = m;
    named = refl;
    supported = refl;
  }

  -- An entry in front of others.
  one_more :
      (entry : RobotEntry R) (entries : List (RobotEntry R)) (model id : Option String)
      → entry.model ≡ model
      → entry.id ≡ id
      → Loads entries
      → Loads (entry ∷ entries)
  unfolding load_fleet_config load_robot
  one_more entry entries none id m e rest = inr (rw m refl, rw m refl)
  one_more entry entries (some model) none m e rest = inr (rw (m, e) refl, rw (m, e) refl)
  one_more entry entries (some model) (some id) m e (inl (complete, (robots, loaded, made))) = inl (
    rw (m, e, complete) refl,
    (
      robot_config id model entry ∷ robots,
      rw (m, e, loaded) refl,
      also (robot_config-IsMadeOf entry id model e m) made,
    ),
  )
  one_more entry entries (some model) (some id) m e (inr (missing, failed)) =
      inr (rw (m, e, missing) refl, rw (m, e, failed) refl)

  -- If every entry of the file has a model and an id, then a robot is made of each, in order, with
  -- that model and id, the manufacturer of the entry or else of its model, and the actions of the
  -- entry. Otherwise no robot at all is made.
  pub load_fleet_config-Loads : (entries : List (RobotEntry R)) → Loads entries
  unfolding load_fleet_config
  load_fleet_config-Loads [] = inl (refl, ([], refl, nothing))
  load_fleet_config-Loads (entry ∷ entries) =
      one_more entry entries entry.model entry.id refl refl (load_fleet_config-Loads entries)
