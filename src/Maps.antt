-- ===== src/Maps.antt =====
-- src/vda5050_sim/agv.py: the life of maps and zone sets.
pub mod Exclusive
use vda5050_sim.Prelude.{
  String, string_eq, pair_eq, ◌<>◌, Bool, true, false, none, some, [], ◌∷◌, ◌==◌, if◌then◌else◌,
  Dict, lookup, insert, remove, is_some,
}
use vda5050_sim.Schemas.{Action, ActionStatus, MapState, ZoneSet}
use vda5050_sim.Robot.{Agv, append_instant_state, report, params_of, str_param}

-- What a finished action did: `(True, None)`, `(False, reason)`, or an exception.
pub data Effect (R : Type 0) : Type 0 where
  succeeds : Agv R → Effect R
  fails : String → Agv R → Effect R
  raises : Agv R → Effect R

abbrev pub map_state : String × String → String → MapState
map_state key status = record { map_id = key.0; map_version = key.1; map_status = status }

-- The loop over `self._maps.items()`.
abbrev pub enable_version :
    String × String → Dict (String × String) MapState → Dict (String × String) MapState
enable_version key [] = []
enable_version key ((k, m) ∷ ms) =
    (
      k,
      (if k.0 == key.0
          then record m { map_status = if k.1 == key.1 then "ENABLED" else "DISABLED" }
          else m),
    )
    ∷ enable_version key ms

module _ {R : Type 0} where
  unfoldable pub reject_instant_action : Action R → String → String → Agv R → Agv R
  reject_instant_action action error_type reason s =
      report error_type reason (append_instant_state action ActionStatus.failed (some reason) s)

  -- The pair (mapId, mapVersion) of an action's parameters.
  unfoldable pub map_key : Action R → String × String
  map_key action =
      let params = params_of action in
      (str_param params "mapId" "", str_param params "mapVersion" "")

  unfoldable pub zone_set_key : Action R → String
  zone_set_key action = str_param (params_of action) "zoneSetId" ""

  -- The result says whether the download may start.
  unfoldable pub start_download_map : Action R → Agv R → Agv R × Bool
  start_download_map action s =
      let key = map_key action in
      if is_some (lookup key s.maps)
      then (
        reject_instant_action action "duplicateMap"
            ("map '" <> key.0 <> "'/" <> key.1 <> " already present") s,
        false,
      )
      else (s, true)

  unfoldable pub apply_download_map : Action R → Agv R → Effect R
  apply_download_map action s =
      let key = map_key action in
      succeeds
        (record s { site = record s.site { maps = insert key (map_state key "DISABLED") s.maps } })

  unfoldable pub apply_enable_map : Action R → Agv R → Effect R
  apply_enable_map action s =
      let key = map_key action in
      if is_some (lookup key s.maps)
      then succeeds (record s { site = record s.site { maps = enable_version key s.maps } })
      else fails ("map '" <> key.0 <> "'/" <> key.1 <> " not found") s

  unfoldable pub apply_delete_map : Action R → Agv R → Effect R
  apply_delete_map action s =
      let key = map_key action in
      if is_some (lookup key s.maps)
      then succeeds (record s { site = record s.site { maps = remove key s.maps } })
      else fails "map not found" s

  unfoldable pub start_download_zone_set : Action R → Agv R → Agv R × Bool
  start_download_zone_set action s =
      let key = zone_set_key action in
      if is_some (lookup key s.zone_sets)
      then (
        reject_instant_action action "duplicateZoneSet" ("zone set '" <> key <> "' already present")
            s,
        false,
      )
      else (s, true)

  unfoldable pub apply_download_zone_set : Action R → Agv R → Effect R
  apply_download_zone_set action s =
      let key = zone_set_key action in
      let empty : ZoneSet R = record {
        map_id = s.map_id;
        zone_set_id = key;
        zone_set_descriptor = none;
        zones = [];
      } in
      succeeds (record s {
        site = record s.site {
          zone_sets = insert key empty s.zone_sets;
          zone_set_status = insert key "DISABLED" s.zone_set_status;
        };
      })

  -- The loop over `self._zone_sets.items()`, which writes to the dictionary of statuses.
  abbrev pub enable_zone_set :
      String → String → Dict String (ZoneSet R) → Dict String String → Dict String String
  enable_zone_set key map_id [] status = status
  enable_zone_set key map_id ((k, other) ∷ rest) status = enable_zone_set key map_id rest (
      if other.map_id == map_id
      then insert k (if k == key then "ENABLED" else "DISABLED") status
      else status)

  unfoldable pub apply_enable_zone_set : Action R → Agv R → Effect R
  apply_enable_zone_set action s =
      let key = zone_set_key action in
      elim (lookup key s.zone_sets) [
        | none ↦ fails ("zone set '" <> key <> "' not found") s
        | some zs ↦ succeeds (record s {
          site = record s.site {
            zone_set_status = enable_zone_set key zs.map_id s.zone_sets s.zone_set_status;
          };
        })
      ]

  unfoldable pub apply_delete_zone_set : Action R → Agv R → Effect R
  apply_delete_zone_set action s =
      let key = zone_set_key action in
      if is_some (lookup key s.zone_sets)
      then succeeds (record s {
        site = record s.site {
          zone_sets = remove key s.zone_sets;
          zone_set_status = remove key s.zone_set_status;
        };
      })
      else fails "zone set not found" s
