-- ===== src/Transport/Payload.antt =====
-- transport.py: what is published and what comes in. A payload is the dict whose text `json.dumps`
-- writes; `model_dump` gives the dict of a message, without the fields that are None.
use vda5050_sim.Prelude.{
  String, string_eq, not, ◌&&◌, Option, none, some, List, [], ◌∷◌, Dict, lookup, insert, is_some,
  ◌==◌, if◌then◌else◌, Run, raised,
}
use vda5050_sim.Schemas.{OrderMessage, InstantActionsMessage, ZoneSetMessage, ResponsesMessage}
use vda5050_sim.Messages.{Message}
use vda5050_sim.Wire.{Json, text, downgrade_state, downgrade_connection}

unfoldable pub retained_message_types : List String
retained_message_types = "state" ∷ "connection" ∷ "factsheet" ∷ []

-- `none` where the downgrade raises.
unfoldable pub dump :
    {R : Type 0}
    → (Message R → Dict String (Json R))
    → Message R
    → String
    → String
    → Option (Dict String (Json R))
unfolding downgrade_state downgrade_connection
dump model_dump model message_type version =
    let d = model_dump model in
    if message_type == "state"
    then downgrade_state d version
    else if message_type == "connection"
    then some (downgrade_connection d version)
    else if not (version == "3.0.0") && is_some (lookup "version" d)
    then some (insert "version" (text version) d)
    else some d

-- A handler with the class of the messages that it takes. It changes a state, and may raise.
pub data Handler (R S : Type 0) : Type 0 where
  order : (OrderMessage R → S → Run S) → Handler R S
  instant_actions : (InstantActionsMessage R → S → Run S) → Handler R S
  zone_set : (ZoneSetMessage R → S → Run S) → Handler R S
  responses : (ResponsesMessage → S → Run S) → Handler R S

-- `model_validate_json` of the four classes, on payloads of type B; `none` where it raises.
pub record Validators (R B : Type 0) : Type 0 where
  pub order : B → Option (OrderMessage R)
  pub instant_actions : B → Option (InstantActionsMessage R)
  pub zone_set : B → Option (ZoneSetMessage R)
  pub responses : B → Option ResponsesMessage

abbrev pub handle_valid : {M S : Type 0} → Option M → (M → S → Run S) → S → Run S
handle_valid none handler s = raised s
handle_valid (some m) handler s = handler m s

-- handler(cls.model_validate_json(payload))
abbrev pub run_handler : {R B S : Type 0} → Validators R B → Handler R S → B → S → Run S
run_handler v (Handler.order h) payload s = handle_valid (v.order payload) h s
run_handler v (Handler.instant_actions h) payload s = handle_valid (v.instant_actions payload) h s
run_handler v (Handler.zone_set h) payload s = handle_valid (v.zone_set payload) h s
run_handler v (Handler.responses h) payload s = handle_valid (v.responses payload) h s
