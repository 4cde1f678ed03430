-- ===== src/Actions/MapEffects.antt =====
-- agv.py: what the end of an action leaves of the maps.
use vda5050_sim.Prelude.{◌≡◌, sym, subst, arith}
use vda5050_sim.Floats.{Float}
use vda5050_sim.Schemas.{Action}
use vda5050_sim.Robot.{Agv}
use vda5050_sim.Maps.{apply_enable_zone_set, apply_download_zone_set, apply_delete_zone_set}
use vda5050_sim.Maps.Exclusive.{
  IsConsistent, maps_after, apply_enable_map-IsConsistent, apply_download_map-IsConsistent,
  apply_delete_map-IsConsistent,
}
use vda5050_sim.Actions.Effects.{
  EffectKind, effect_kind, apply_pick, apply_drop, clear_terminal_instants, clear_terminal_zones,
  apply_initialize_position, apply_kind, apply_action_effect,
}

module _ {R : Type 0} ⦃fl : Float R⦄ where
  initialize_position_maps :
      (action : Action R) (s : Agv R) → maps_after (apply_initialize_position action s) ≡ s.maps
  unfolding apply_initialize_position
  initialize_position_maps action s = ground arith

  pick_maps : (action : Action R) (s : Agv R) → maps_after (apply_pick action s) ≡ s.maps
  unfolding apply_pick
  pick_maps action s = ground arith

  enable_zone_set_maps :
      (action : Action R) (s : Agv R) → maps_after (apply_enable_zone_set action s) ≡ s.maps
  unfolding apply_enable_zone_set
  enable_zone_set_maps action s = ground arith

  delete_zone_set_maps :
      (action : Action R) (s : Agv R) → maps_after (apply_delete_zone_set action s) ≡ s.maps
  unfolding apply_delete_zone_set
  delete_zone_set_maps action s = ground arith

  -- Whatever action ends, and however: every stored map version stands once, under its own id, and
  -- no map has two enabled versions, if that was so before.
  pub apply_action_effect-IsConsistent :
      (action : Action R) (s : Agv R)
      → IsConsistent s.maps
      → IsConsistent (maps_after (apply_action_effect action s))
  unfolding apply_action_effect apply_kind apply_drop clear_terminal_instants clear_terminal_zones
      apply_download_zone_set
  apply_action_effect-IsConsistent action s c = by_kind (effect_kind action.action_type)
    where
      by_kind : (kind : EffectKind) → IsConsistent (maps_after (apply_kind kind action s))
      by_kind EffectKind.enable_map = apply_enable_map-IsConsistent action s c
      by_kind EffectKind.download_map = apply_download_map-IsConsistent action s c
      by_kind EffectKind.delete_map = apply_delete_map-IsConsistent action s c
      by_kind EffectKind.initialize_position =
          subst IsConsistent (sym (initialize_position_maps action s)) c
      by_kind EffectKind.pick = subst IsConsistent (sym (pick_maps action s)) c
      by_kind EffectKind.enable_zone_set =
          subst IsConsistent (sym (enable_zone_set_maps action s)) c
      by_kind EffectKind.delete_zone_set =
          subst IsConsistent (sym (delete_zone_set_maps action s)) c
      by_kind _ = c
