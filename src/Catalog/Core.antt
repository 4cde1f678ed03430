-- ===== src/Catalog/Core.antt =====
-- Part of the dictionary of action_catalog.py, in its order.
use vda5050_sim.Prelude.{String, true, false, [], ◌∷◌, Dict}
use vda5050_sim.Schemas.{ActionScope}
use vda5050_sim.Catalog.Defs.{ActionDef, timer_blocking, control_blocking, param, entry}

unfoldable pub control_actions : Dict String ActionDef
control_actions =
    entry "startPause" "Activates the pause mode." (ActionScope.instant ∷ []) control_blocking false
      true ([]) true
    ∷ entry "stopPause" "Deactivates the pause mode." (ActionScope.instant ∷ []) control_blocking
        false true ([]) true
    ∷ entry "startHibernation"
        "Initiates hibernate mode: robot stays connected but stops sending state; publishes connectionState HIBERNATING."
        (ActionScope.instant ∷ []) control_blocking false false
        (param "wakeUpTime" "string" "ISO8601 timestamp to auto stopHibernation" true ∷ []) true
    ∷ entry "stopHibernation" "Ends hibernate mode; publishes connectionState ONLINE."
        (ActionScope.instant ∷ []) control_blocking false false ([]) true
    ∷ entry "shutdown"
        "Coordinated shutdown; requires the robot to be idle; publishes connectionState OFFLINE."
        (ActionScope.instant ∷ []) control_blocking false false ([]) true
    ∷ entry "startCharging" "Activates the charging process."
        (ActionScope.instant ∷ ActionScope.node ∷ []) timer_blocking false true ([]) true
    ∷ entry "stopCharging" "Discontinues the charging process."
        (ActionScope.instant ∷ ActionScope.node ∷ []) timer_blocking false true ([]) true
    ∷ entry "initializePosition"
        "Resets (overrides) the pose of the mobile robot with the given parameters."
        (ActionScope.instant ∷ ActionScope.node ∷ []) timer_blocking false true
        (param "x" "float64" "" true
          ∷ param "y" "float64" "" true
          ∷ param "theta" "float64" "" true
          ∷ param "mapId" "string" "" true
          ∷ param "lastNodeId" "string" "" true
          ∷ [])
        true
    ∷ entry "enableMap"
        "Enables a previously downloaded map for use without initializing a new position."
        (ActionScope.instant ∷ ActionScope.node ∷ []) timer_blocking false true
        (param "mapId" "string" "" true ∷ param "mapVersion" "string" "" true ∷ []) true
    ∷ []

unfoldable pub resource_actions : Dict String ActionDef
resource_actions =
    entry "downloadMap" "Triggers the download of a new map." (ActionScope.instant ∷ [])
      timer_blocking false false
      (param "mapId" "string" "" true
        ∷ param "mapVersion" "string" "" true
        ∷ param "mapDownloadLink" "string" "" true
        ∷ param "mapHash" "string" "" true
        ∷ [])
      true
    ∷ entry "deleteMap" "Removes a map from the mobile robot's memory." (ActionScope.instant ∷ [])
        timer_blocking false true
        (param "mapId" "string" "" true ∷ param "mapVersion" "string" "" true ∷ []) true
    ∷ entry "downloadZoneSet" "Triggers the download of a zone set." (ActionScope.instant ∷ [])
        timer_blocking false false
        (param "zoneSetId" "string" "" true
          ∷ param "zoneSetDownloadLink" "string" "" true
          ∷ param "zoneSetHash" "string" "" true
          ∷ [])
        true
    ∷ entry "enableZoneSet" "Enables a previously downloaded zone set for use in orders."
        (ActionScope.instant ∷ ActionScope.node ∷ []) timer_blocking false true
        (param "zoneSetId" "string" "" true ∷ []) true
    ∷ entry "deleteZoneSet" "Removes a zone set from the mobile robot's memory."
        (ActionScope.instant ∷ []) timer_blocking false true
        (param "zoneSetId" "string" "" true ∷ []) true
    ∷ entry "clearInstantActions"
        "Removes all FINISHED or FAILED instant actions from the mobile robot state."
        (ActionScope.instant ∷ ActionScope.node ∷ []) control_blocking false true ([]) true
    ∷ entry "clearZoneActions"
        "Removes all FINISHED or FAILED zone actions from the mobile robot's state."
        (ActionScope.instant ∷ ActionScope.node ∷ []) control_blocking false true ([]) true
    ∷ entry "stateRequest" "Requests the mobile robot to send a new state message."
        (ActionScope.instant ∷ []) control_blocking false true ([]) true
    ∷ entry "logReport" "Requests the mobile robot to generate and store a log report."
        (ActionScope.instant ∷ []) control_blocking false true
        (param "reason" "string" "" true ∷ []) true
    ∷ []
