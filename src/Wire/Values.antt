-- ===== src/Wire/Values.antt =====
-- The values of `model_dump(mode="json")`, as the code reads and builds them.
use vda5050_sim.Prelude.{
  ◌≡◌, refl, ℕ, String, string_eq, Bool, Option, none, some, [], ◌∷◌, Dict, lookup,
}

mutual
  pub data Json (R : Type 0) : Type 0 where
    null : Json R
    flag : Bool → Json R
    integer : ℕ → Json R
    number : R → Json R
    text : String → Json R
    array : Items R → Json R
    object : Members R → Json R

  pub data Items (R : Type 0) : Type 0 where
    nil : Items R
    cons : Json R → Items R → Items R

  pub data Members (R : Type 0) : Type 0 where
    end : Members R
    member : String → Json R → Members R → Members R

module _ {R : Type 0} where
  abbrev pub members : Members R → Dict String (Json R)
  members end = []
  members (member k v ms) = (k, v) ∷ members ms

  abbrev pub to_members : Dict String (Json R) → Members R
  to_members [] = end
  to_members ((k, v) ∷ d) = member k v (to_members d)

  -- A dict that is a value itself.
  abbrev pub dict : Dict String (Json R) → Json R
  dict d = object (to_members d)

  -- v[k], where that does not raise
  abbrev pub item : String → Json R → Option (Json R)
  item k (object ms) = lookup k (members ms)
  item k _ = none

  -- A value that is not None.
  abbrev pub known : Option (Json R) → Option (Json R)
  known none = none
  known (some null) = none
  known (some v) = some v

infixl 5 ◌>>=◌
abbrev pub ◌>>=◌ {ℓ κ} : {A : Type ℓ} {B : Type κ} → Option A → (A → Option B) → Option B
none >>= f = none
some a >>= f = f a

pub bind_some :
    {A B : Type 0} (o : Option A) {f : A → Option B} {b : B}
    → (o >>= f) ≡ some b
    → (a : A) × (o ≡ some a) × (f a ≡ some b)
bind_some (some a) e = (a, refl, e)
bind_some none e = absurd (cc e)
