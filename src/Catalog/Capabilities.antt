-- ===== src/Catalog/Capabilities.antt =====
-- Part of the dictionary of action_catalog.py, in its order.
use vda5050_sim.Prelude.{String, true, false, [], ◌∷◌, Dict}
use vda5050_sim.Schemas.{ActionScope}
use vda5050_sim.Catalog.Defs.{ActionDef, timer_blocking, control_blocking, param, entry}

unfoldable pub payload_actions : Dict String ActionDef
payload_actions =
    entry "pick" "Request the mobile robot to pick a load."
      (ActionScope.node ∷ ActionScope.edge ∷ []) timer_blocking true true
      (param "lhd" "string" "" true
        ∷ param "stationType" "string" "" true
        ∷ param "stationName" "string" "" true
        ∷ param "loadType" "string" "" true
        ∷ param "loadId" "string" "" true
        ∷ param "height" "float64" "" true
        ∷ param "depth" "float64" "" true
        ∷ param "side" "string" "" true
        ∷ [])
      false
    ∷ entry "drop" "Request the mobile robot to drop a load."
        (ActionScope.node ∷ ActionScope.edge ∷ []) timer_blocking true true
        (param "lhd" "string" "" true
          ∷ param "stationType" "string" "" true
          ∷ param "stationName" "string" "" true
          ∷ param "loadType" "string" "" true
          ∷ param "loadId" "string" "" true
          ∷ param "height" "float64" "" true
          ∷ param "depth" "float64" "" true
          ∷ [])
        false
    ∷ entry "detectObject"
        "Mobile robot detects an object (e.g., load, charging spot, free parking position)."
        (ActionScope.node ∷ ActionScope.edge ∷ ActionScope.zone ∷ []) timer_blocking false true
        (param "objectType" "string" "" true ∷ []) false
    ∷ entry "finePositioning" "Mobile robot positions itself exactly on a target."
        (ActionScope.node ∷ ActionScope.edge ∷ ActionScope.zone ∷ []) timer_blocking true true
        (param "stationType" "string" "" true ∷ param "stationName" "string" "" true ∷ []) false
    ∷ entry "waitForTrigger" "Mobile robot waits for a trigger of the type(s) given in triggerType."
        (ActionScope.node ∷ ActionScope.zone ∷ []) timer_blocking false true
        (param "triggerType" "string[]" "" true ∷ []) false
    ∷ []

unfoldable pub reply_actions : Dict String ActionDef
reply_actions =
    entry "trigger"
      "Fleet control notifies the mobile robot that a waitForTrigger action has been released."
      (ActionScope.instant ∷ []) control_blocking false true ([]) true
    ∷ entry "retry"
        "Mobile robot retries the action given by actionId, currently in state RETRIABLE."
        (ActionScope.instant ∷ []) control_blocking false true
        (param "actionId" "string" "" true ∷ []) true
    ∷ entry "skipRetry"
        "Mobile robot skips the action given by actionId (currently RETRIABLE), setting it to FAILED."
        (ActionScope.instant ∷ []) control_blocking false true
        (param "actionId" "string" "" true ∷ []) true
    ∷ entry "cancelOrder" "Mobile robot stops as soon as possible." (ActionScope.instant ∷ [])
        control_blocking false true (param "orderId" "string" "" true ∷ []) true
    ∷ entry "factsheetRequest" "Requests the mobile robot to send a factsheet."
        (ActionScope.instant ∷ []) control_blocking false true ([]) true
    ∷ entry "updateCertificate"
        "Requests the mobile robot to download and activate a new certificate set (simulated, no real TLS)."
        (ActionScope.instant ∷ []) timer_blocking false false
        (param "service" "string" "" true
          ∷ param "keyDownloadLink" "string" "" true
          ∷ param "certificateDownloadLink" "string" "" true
          ∷ param "certificateAuthorityDownloadLink" "string" "" true
          ∷ [])
        true
    ∷ []
