-- ===== src/Tests/ZoneTests.antt =====
-- Requests: the theorems at a robot that asked for a corridor and a zone.
use vda5050_sim.Prelude.{some, none, List, [], ◌∷◌, ◌≡◌, refl, done}
use vda5050_sim.Floats.Thousandths.{ℤ, thousandths}
use vda5050_sim.Schemas.{ZoneRequestType, EdgeRequestType, RequestStatus, GrantType, Response}
use vda5050_sim.Robot.{Agv}
use vda5050_sim.Zones.{handle_responses, check_lease_expiry}
use vda5050_sim.Zones.Responses.{decided, handle_responses_lem}
use vda5050_sim.Zones.Leases.{lapsed, check_lease_expiry_lem}
use vda5050_sim.Tests.Samples.{robot, clock}

abbrev asking : Agv ℤ
asking = record robot {
  graph = record robot.graph {
    zone_requests =
        record {
          request_id = "z-access";
          request_type = ZoneRequestType.access;
          zone_id = "z";
          zone_set_id = "zs";
          request_status = RequestStatus.requested;
        }
        ∷ [];
    edge_requests =
        record {
          request_id = "e1-corridor";
          request_type = EdgeRequestType.corridor;
          edge_id = "e1";
          sequence_id = 1;
          request_status = RequestStatus.requested;
        }
        ∷ [];
  };
}

abbrev responses : List Response
responses =
    record { request_id = "z-access"; grant_type = GrantType.granted; lease_expiry = some "noon" }
    ∷ record { request_id = "e1-corridor"; grant_type = GrantType.queued; lease_expiry = none }
    ∷ []

handle_responses_lem_example :
    ((handle_responses responses asking).graph ≡ decided responses asking.graph)
    × ((handle_responses responses asking).tracking ≡ asking.tracking)
    × ((handle_responses responses asking).motion ≡ asking.motion)
    × ((handle_responses responses asking).mode ≡ asking.mode)
handle_responses_lem_example = handle_responses_lem responses asking

abbrev leased : Agv ℤ
leased = record asking {
  site = record asking.site { request_lease_expiry = ("z-access", "noon") ∷ [] };
}

check_lease_expiry_lem_example : check_lease_expiry clock leased ≡ done (lapsed clock leased)
check_lease_expiry_lem_example = check_lease_expiry_lem clock leased refl
