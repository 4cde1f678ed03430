-- ===== src/Maps/Exclusive.antt =====
-- agv.py: `_maps`, and the three effects that write to it.
use vda5050_sim.Prelude.{
  String, string_eq, pair_eq, Eq, Bool, false, ◌&&◌, ◌≡◌, refl, none, [], ◌∷◌, arith, Dict, lookup,
  insert, remove, lookup-insert, lookup-remove, any, ◌==◌, is_some, if_ind, if◌then◌else◌,
  Bool-cases, inl, inr, Option-cases, ◌⊎◌, ◌<>◌,
}
use mathlib.Core.Option
use vda5050_sim.Schemas.{Action, MapState}
use vda5050_sim.Robot.{Agv}
use vda5050_sim.Maps.{
  Effect, succeeds, fails, raises, map_state, enable_version, map_key, apply_download_map,
  apply_enable_map, apply_delete_map,
}

abbrev Maps : Type 0
Maps = Dict (String × String) MapState

-- An enabled version of the map.
abbrev pub enables : String → (String × String) × MapState → Bool
enables id e = e.1.map_id == id && e.1.map_status == "ENABLED"

-- Every key stands once, and each entry is about the map of its key.
abbrev pub Keyed : Maps → Type 0
Keyed [] = Unit
Keyed ((k, m) ∷ ms) = (m.map_id ≡ k.0) × (lookup k ms ≡ none) × Keyed ms

-- No two entries enable the same map.
abbrev pub Exclusive : Maps → Type 0
Exclusive [] = Unit
Exclusive ((k, m) ∷ ms) =
    ((m.map_status == "ENABLED" && any (enables m.map_id) ms) ≡ false) × Exclusive ms

pub record IsConsistent (ms : Maps) : Type 0 where
  pub keyed : Keyed ms
  pub exclusive : Exclusive ms

-- What `enableMap` does to the entry of a key.
abbrev pub restatus : String × String → String × String → MapState → MapState
restatus key k m =
    if k.0 == key.0
    then record m { map_status = if k.1 == key.1 then "ENABLED" else "DISABLED" }
    else m

map_id-restatus : (key k : String × String) (m : MapState) → (restatus key k m).map_id ≡ m.map_id
map_id-restatus key k m = ground arith

enabled-restatus :
    (key k : String × String) (m : MapState)
    → ((restatus key k m).map_status == "ENABLED")
      ≡ (if k.0 == key.0 then k.1 == key.1 else m.map_status == "ENABLED")
enabled-restatus key k m = elim (Bool-cases (k.0 == key.0)) [
  | inr e ↦ rw e refl
  | inl e ↦ elim (Bool-cases (k.1 == key.1)) [ inl e' ↦ rw (e, e') refl | inr e' ↦ rw (e, e') refl ]
]

lookup-enable_version :
    (key k : String × String) (ms : Maps)
    → lookup k (enable_version key ms) ≡ Option.map (restatus key k) (lookup k ms)
lookup-enable_version key k [] = refl
lookup-enable_version key k ((j, m) ∷ ms) =
    ground (arith, Eq.beq_iff pair_eq j k, lookup-enable_version key k ms)

Keyed-enable_version :
    (key : String × String) (ms : Maps) → Keyed ms → Keyed (enable_version key ms)
Keyed-enable_version key [] h = tt
Keyed-enable_version key ((k, m) ∷ ms) h = (
  ground (arith, h.0),
  ground (arith, lookup-enable_version key k ms, h.1),
  Keyed-enable_version key ms h.2,
)

others_disabled :
    (key : String × String) (ms : Maps)
    → Keyed ms
    → lookup key ms ≡ none
    → any (enables key.0) (enable_version key ms) ≡ false
others_disabled key [] h absent = refl
others_disabled key ((k, m) ∷ ms) h absent = ground (
  arith,
  h.0,
  Eq.beq_iff pair_eq k key,
  Eq.beq_iff string_eq k.0 key.0,
  Eq.beq_iff string_eq k.1 key.1,
  Eq.beq_iff string_eq m.map_id key.0,
  others_disabled key ms h.2,
  map_id-restatus key k m,
  enabled-restatus key k m,
)

other_maps_keep :
    (key : String × String) (id : String) (ms : Maps)
    → Keyed ms
    → (id == key.0) ≡ false
    → any (enables id) (enable_version key ms) ≡ any (enables id) ms
other_maps_keep key id [] h other = refl
other_maps_keep key id ((k, m) ∷ ms) h other = ground (
  arith,
  h.0,
  Eq.beq_iff string_eq k.0 key.0,
  Eq.beq_iff string_eq m.map_id id,
  Eq.beq_iff string_eq id key.0,
  other_maps_keep key id ms h.2,
)

Exclusive-enable_version :
    (key : String × String) (ms : Maps)
    → Keyed ms
    → Exclusive ms
    → Exclusive (enable_version key ms)
Exclusive-enable_version key [] h x = tt
Exclusive-enable_version key ((k, m) ∷ ms) h x = (
  ground (
    arith,
    h.0,
    h.1,
    x.0,
    Eq.beq_iff pair_eq k key,
    Eq.beq_iff string_eq k.0 key.0,
    Eq.beq_iff string_eq k.1 key.1,
    Eq.beq_iff string_eq m.map_id key.0,
    others_disabled key ms h.2,
    other_maps_keep key m.map_id ms h.2,
    map_id-restatus key k m,
    enabled-restatus key k m,
  ),
  Exclusive-enable_version key ms h.2 x.1,
)

Keyed-insert :
    (key : String × String) (status : String) (ms : Maps)
    → Keyed ms
    → Keyed (insert key (map_state key status) ms)
Keyed-insert key status [] h = (refl, refl, tt)
Keyed-insert key status ((k, m) ∷ ms) h = ground (
  arith,
  h.0,
  h.1,
  h.2,
  Eq.beq_iff pair_eq k key,
  Eq.beq_iff pair_eq key k,
  lookup-insert key k (map_state key status) ms,
  Keyed-insert key status ms h.2,
)

-- A disabled version adds no enabled one.
enables-insert :
    (id : String) (key : String × String) (ms : Maps)
    → any (enables id) ms ≡ false
    → any (enables id) (insert key (map_state key "DISABLED") ms) ≡ false
enables-insert id key [] h = ground arith
enables-insert id key ((k, m) ∷ ms) h = ground (arith, h, enables-insert id key ms)

Exclusive-insert :
    (key : String × String) (ms : Maps)
    → Exclusive ms
    → Exclusive (insert key (map_state key "DISABLED") ms)
Exclusive-insert key [] x = (refl, tt)
Exclusive-insert key ((k, m) ∷ ms) x =
    ground (arith, x.0, x.1, enables-insert m.map_id key ms, Exclusive-insert key ms x.1)

Keyed-remove : (key : String × String) (ms : Maps) → Keyed ms → Keyed (remove key ms)
Keyed-remove key [] h = tt
Keyed-remove key ((k, m) ∷ ms) h =
    ground (arith, h.0, h.1, h.2, lookup-remove key k ms, Keyed-remove key ms h.2)

enables-remove :
    (id : String) (key : String × String) (ms : Maps)
    → any (enables id) ms ≡ false
    → any (enables id) (remove key ms) ≡ false
enables-remove id key [] h = refl
enables-remove id key ((k, m) ∷ ms) h = ground (arith, h, enables-remove id key ms)

Exclusive-remove : (key : String × String) (ms : Maps) → Exclusive ms → Exclusive (remove key ms)
Exclusive-remove key [] x = tt
Exclusive-remove key ((k, m) ∷ ms) x =
    ground (arith, x.0, x.1, enables-remove m.map_id key ms, Exclusive-remove key ms x.1)

module _ {R : Type 0} where
  -- The maps after an effect, whatever its result.
  abbrev pub maps_after : Effect R → Maps
  maps_after (succeeds s) = s.maps
  maps_after (fails reason s) = s.maps
  maps_after (raises s) = s.maps

  -- What `enableMap` is to do.
  abbrev pub Enabled : Action R → Agv R → Effect R → Type 0
  Enabled action s effect =
      let key = map_key action in
      ((lookup key s.maps ≡ none)
        × (effect ≡ fails ("map '" <> key.0 <> "'/" <> key.1 <> " not found") s))
      ⊎ ((t : Agv R) × (effect ≡ succeeds t)
          × (t ≡ record s { site = record s.site { maps = t.maps } })
          × ((k : String × String)
              → lookup k t.maps ≡ Option.map (restatus key k) (lookup k s.maps)))

  -- `enableMap` fails on a version that is not stored, with the reason, and changes nothing of the
  -- robot. On a stored version it succeeds: it enables that version, disables every other version
  -- of the map, leaves other maps alone, and changes nothing else of the robot.
  pub apply_enable_map_lem :
      (action : Action R) (s : Agv R) → Enabled action s (apply_enable_map action s)
  unfolding apply_enable_map
  apply_enable_map_lem action s =
      let key = map_key action in
      let enabled = record s { site = record s.site { maps = enable_version key s.maps } } in
      elim (Option-cases (lookup key s.maps)) [
        | inl absent ↦ inl (absent, rw (absent, apply_enable_map) refl)
        | inr (m, stored) ↦ inr (
          enabled,
          rw (stored, apply_enable_map) refl,
          refl,
          λ k. lookup-enable_version key k s.maps,
        )
      ]

  pub apply_enable_map-IsConsistent :
      (action : Action R) (s : Agv R)
      → IsConsistent s.maps
      → IsConsistent (maps_after (apply_enable_map action s))
  unfolding apply_enable_map
  apply_enable_map-IsConsistent action s c =
      if_ind (λ e. IsConsistent (maps_after e)) (is_some (lookup (map_key action) s.maps))
        (λ _. record {
          keyed = Keyed-enable_version (map_key action) s.maps c.keyed;
          exclusive = Exclusive-enable_version (map_key action) s.maps c.keyed c.exclusive;
        })
        (λ _. c)

  pub apply_download_map-IsConsistent :
      (action : Action R) (s : Agv R)
      → IsConsistent s.maps
      → IsConsistent (maps_after (apply_download_map action s))
  unfolding apply_download_map
  apply_download_map-IsConsistent action s c = record {
    keyed = Keyed-insert (map_key action) "DISABLED" s.maps c.keyed;
    exclusive = Exclusive-insert (map_key action) s.maps c.exclusive;
  }

  pub apply_delete_map-IsConsistent :
      (action : Action R) (s : Agv R)
      → IsConsistent s.maps
      → IsConsistent (maps_after (apply_delete_map action s))
  unfolding apply_delete_map
  apply_delete_map-IsConsistent action s c =
      if_ind (λ e. IsConsistent (maps_after e)) (is_some (lookup (map_key action) s.maps))
        (λ _. record {
          keyed = Keyed-remove (map_key action) s.maps c.keyed;
          exclusive = Exclusive-remove (map_key action) s.maps c.exclusive;
        })
        (λ _. c)
