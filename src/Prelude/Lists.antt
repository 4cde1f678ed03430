-- ===== src/Prelude/Lists.antt =====
-- Lists as the code walks them: searches, filters and writes through a found object.
use Prim.Native.Nat.{ℕ, suc}
use mathlib.Core.Bool.{Bool, false, ◌||◌}
use mathlib.Core.Option.{Option, none, some}
use mathlib.Core.List.{List, [], ◌∷◌, ◌++◌}
use vda5050_sim.Prelude.Tests.{if◌then◌else◌}
use vda5050_sim.Prelude.Equality.{Eq, ◌==◌}

module _ {ℓ} {A : Type ℓ} where
  abbrev pub length : List A → ℕ
  length [] = 0
  length (x ∷ xs) = suc (length xs)

  -- any(p(x) for x in xs)
  abbrev pub any : (A → Bool) → List A → Bool
  any p [] = false
  any p (x ∷ xs) = p x || any p xs

  -- next((x for x in xs if p(x)), None)
  abbrev pub find : (A → Bool) → List A → Option A
  find p [] = none
  find p (x ∷ xs) = if p x then some x else find p xs

  -- [x for x in xs if p(x)]
  abbrev pub filter : (A → Bool) → List A → List A
  filter p [] = []
  filter p (x ∷ xs) = let rest = filter p xs in if p x then x ∷ rest else rest

  -- The write `x.field = …` through the first object that a search finds.
  abbrev pub modify_first : (A → Bool) → (A → A) → List A → List A
  modify_first p f [] = []
  modify_first p f (x ∷ xs) = let rest = modify_first p f xs in if p x then f x ∷ xs else x ∷ rest

  abbrev pub All {κ} : (A → Type κ) → List A → Type κ
  All Q [] = Unit
  All Q (a ∷ as') = Q a × All Q as'

  -- Two lists of the same length whose entries are related one by one.
  abbrev pub Pointwise {κ} : (A → A → Type κ) → List A → List A → Type κ
  Pointwise R [] [] = Unit
  Pointwise R [] (y ∷ ys) = Unit → ⊥
  Pointwise R (x ∷ xs) [] = Unit → ⊥
  Pointwise R (x ∷ xs) (y ∷ ys) = R x y × Pointwise R xs ys

  pub All-append {κ} : (Q : A → Type κ) (as' bs : List A) → All Q as' → All Q bs → All Q (as' ++ bs)
  All-append Q [] bs first second = second
  All-append Q (a ∷ as') bs (q, first) second = (q, All-append Q as' bs first second)

module _ {ℓ} {A : Type ℓ} ⦃e : Eq A⦄ where
  -- a in xs
  abbrev pub contains : A → List A → Bool
  contains a [] = false
  contains a (x ∷ xs) = x == a || contains a xs
