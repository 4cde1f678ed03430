-- ===== src/Robot/Params.antt =====
-- agv.py: `{p.key: p.value for p in action.actionParameters}` and the reads of a parameter.
use vda5050_sim.Prelude.{
  String, string_eq, Bool, true, false, not, Option, none, some, List, [], ◌∷◌, ◌==◌, Dict, lookup,
  insert, if◌then◌else◌,
}
use vda5050_sim.Floats.{Float, nought}
use vda5050_sim.Schemas.{Value, ActionParameter, Action}

-- str(value)
unfoldable pub str : {R : Type 0} → Value R → String
str (Value.text t) = t
str (Value.number n t) = t
str (Value.flag true) = "True"
str (Value.flag false) = "False"
str Value.null = "None"
str (Value.compound t b) = t

module _ {R : Type 0} where
  collect : Dict String (Value R) → List (ActionParameter R) → Dict String (Value R)
  collect d [] = d
  collect d (p ∷ ps) = collect (insert p.key p.value d) ps

  unfoldable pub params_of : Action R → Dict String (Value R)
  unfolding collect
  params_of action = collect [] action.action_parameters

  -- str(params.get(key, default))
  unfoldable pub str_param : Dict String (Value R) → String → String → String
  str_param params key d = elim (lookup key params) [ none ↦ d | some v ↦ str v ]

  -- f"{params.get(key)}"
  unfoldable pub show_param : Dict String (Value R) → String → String
  show_param params key = str_param params key "None"

module _ {R : Type 0} ⦃fl : Float R⦄ where
  -- bool(value)
  unfoldable pub truth : Value R → Bool
  truth (Value.text t) = not (t == "")
  truth (Value.number n t) = not (fl.eq n nought)
  truth (Value.flag b) = b
  truth Value.null = false
  truth (Value.compound t b) = b

  -- float(value); `none` where that raises TypeError or ValueError.
  unfoldable pub to_float : Value R → Option R
  to_float (Value.text t) = fl.parse t
  to_float (Value.number n t) = some n
  to_float (Value.flag true) = some (fl.decimal 1 0)
  to_float (Value.flag false) = some nought
  to_float Value.null = none
  to_float (Value.compound t b) = none

  -- params[key] if params.get(key) is true-like
  unfoldable pub true_param : Dict String (Value R) → String → Option (Value R)
  true_param params key = elim (lookup key params) [
    | none ↦ none
    | some v ↦ if truth v then some v else none
  ]
