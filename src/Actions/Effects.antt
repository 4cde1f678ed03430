-- ===== src/Actions/Effects.antt =====
-- agv.py: `_apply_action_effect` and the effects it dispatches to.
use vda5050_sim.Prelude.{
  String, string_eq, true, false, Option, none, some, List, [], ◌∷◌, ◌++◌, ◌==◌, if◌then◌else◌,
  filter, lookup, Dict,
}
use vda5050_sim.Floats.{Float}
use vda5050_sim.Schemas.{Value, Action, Load}
use vda5050_sim.Robot.{Agv, not_terminal, params_of, str_param, to_float}
use vda5050_sim.Maps.{
  Effect, succeeds, fails, raises, apply_enable_map, apply_download_map, apply_delete_map,
  apply_enable_zone_set, apply_download_zone_set, apply_delete_zone_set,
}

-- The branches of `_apply_action_effect`.
pub data EffectKind : Type 0 where
  start_charging stop_charging initialize_position : EffectKind
  enable_map download_map delete_map : EffectKind
  enable_zone_set download_zone_set delete_zone_set : EffectKind
  pick drop clear_instant_actions clear_zone_actions no_effect : EffectKind

unfoldable pub effect_kind : String → EffectKind
effect_kind at =
    if at == "startCharging"
    then start_charging
    else if at == "stopCharging"
    then stop_charging
    else if at == "initializePosition"
    then initialize_position
    else if at == "enableMap"
    then enable_map
    else if at == "downloadMap"
    then download_map
    else if at == "deleteMap"
    then delete_map
    else if at == "enableZoneSet"
    then enable_zone_set
    else if at == "downloadZoneSet"
    then download_zone_set
    else if at == "deleteZoneSet"
    then delete_zone_set
    else if at == "pick"
    then pick
    else if at == "drop"
    then drop
    else if at == "clearInstantActions"
    then clear_instant_actions
    else if at == "clearZoneActions"
    then clear_zone_actions
    else no_effect

-- A value for a field of type `str | None`; `none` where pydantic raises a ValidationError.
abbrev optional_text : {R : Type 0} → Option (Value R) → Option (Option String)
optional_text none = some none
optional_text (some (Value.text t)) = some (some t)
optional_text (some Value.null) = some none
optional_text (some _) = none

abbrev without_first : List Load → List Load
without_first [] = []
without_first (l ∷ ls) = ls

abbrev invalid_position : String
invalid_position = "invalid initializePosition parameters"

module _ {R : Type 0} where
  -- Load(loadId=…, loadType=…, loadPosition=…), appended.
  abbrev load_with :
      Agv R → Option (Option String) → Option (Option String) → Option (Option String) → Effect R
  load_with s (some id) (some type) (some position) = succeeds (record s {
    site = record s.site {
      loads = s.loads ++ record { load_id = id; load_type = type; load_position = position } ∷ [];
    };
  })
  load_with s _ _ _ = raises s

  unfoldable pub apply_pick : Action R → Agv R → Effect R
  apply_pick action s =
      let params = params_of action in
      load_with s (optional_text (lookup "loadId" params))
        (optional_text (lookup "loadType" params)) (optional_text (lookup "side" params))

  unfoldable pub apply_drop : Action R → Agv R → Effect R
  apply_drop action s =
      succeeds (record s { site = record s.site { loads = without_first s.loads } })

  unfoldable pub clear_terminal_instants : Agv R → Agv R
  clear_terminal_instants s = record s {
    tracking = record s.tracking {
      instant_action_states = filter not_terminal s.instant_action_states;
    };
  }

  unfoldable pub clear_terminal_zones : Agv R → Agv R
  clear_terminal_zones s = record s {
    tracking = record s.tracking { zone_action_states = filter not_terminal s.zone_action_states };
  }

module _ {R : Type 0} ⦃fl : Float R⦄ where
  -- float(params.get(key, current))
  abbrev float_param : Dict String (Value R) → String → R → Option R
  float_param params key current = elim (lookup key params) [
    | none ↦ some current
    | some v ↦ to_float v
  ]

  -- The writes after the three conversions, none of which raises.
  abbrev place : Dict String (Value R) → Agv R → Agv R
  place params s = record s {
    motion = record s.motion { map_id = str_param params "mapId" s.map_id };
    graph = record s.graph { last_node_id = str_param params "lastNodeId" s.last_node_id };
  }

  -- Each conversion may raise; the writes before it stay.
  unfoldable pub apply_initialize_position : Action R → Agv R → Effect R
  apply_initialize_position action s =
      let params = params_of action in
      elim (float_param params "x" s.x) [
        | none ↦ fails invalid_position s
        | some x ↦
            let s1 = record s { motion = record s.motion { x = x } } in
            elim (float_param params "y" s.y) [
              | none ↦ fails invalid_position s1
              | some y ↦
                  let s2 = record s1 { motion = record s1.motion { y = y } } in
                  elim (float_param params "theta" s.theta) [
                    | none ↦ fails invalid_position s2
                    | some theta ↦
                        succeeds
                          (place params (record s2 { motion = record s2.motion { theta = theta } }))
                  ]
            ]
      ]

  unfoldable pub apply_kind : EffectKind → Action R → Agv R → Effect R
  apply_kind start_charging action s =
      succeeds (record s { motion = record s.motion { charging = true } })
  apply_kind stop_charging action s =
      succeeds (record s { motion = record s.motion { charging = false } })
  apply_kind initialize_position action s = apply_initialize_position action s
  apply_kind enable_map action s = apply_enable_map action s
  apply_kind download_map action s = apply_download_map action s
  apply_kind delete_map action s = apply_delete_map action s
  apply_kind enable_zone_set action s = apply_enable_zone_set action s
  apply_kind download_zone_set action s = apply_download_zone_set action s
  apply_kind delete_zone_set action s = apply_delete_zone_set action s
  apply_kind pick action s = apply_pick action s
  apply_kind drop action s = apply_drop action s
  apply_kind clear_instant_actions action s = succeeds (clear_terminal_instants s)
  apply_kind clear_zone_actions action s = succeeds (clear_terminal_zones s)
  apply_kind no_effect action s = succeeds s

  unfoldable pub apply_action_effect : Action R → Agv R → Effect R
  apply_action_effect action s = apply_kind (effect_kind action.action_type) action s
