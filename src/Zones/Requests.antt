-- ===== src/Zones/Requests.antt =====
-- agv.py: `handle_zone_set`, `handle_responses` and `_check_lease_expiry`.
use vda5050_sim.Prelude.{
  ℕ, String, string_eq, ◌<>◌, Bool, true, false, ◌||◌, Option, none, some, List, [], ◌∷◌, ◌==◌,
  if◌then◌else◌, any, map, lookup, insert, Dict, is_some, leb, Run, done, raised,
}
use vda5050_sim.Schemas.{ZoneSet, ZoneRequest, EdgeRequest, RequestStatus, GrantType, Response}
use vda5050_sim.Robot.{Agv, report, not_empty}

-- What `datetime.fromisoformat` makes of a text whose "Z" is replaced by "+00:00": a ValueError, a
-- time with no zone, or the number of an instant.
pub data Timestamp : Type 0 where
  invalid : Timestamp
  naive : Timestamp
  aware : ℕ → Timestamp

-- `datetime.now(UTC)` and the reading of a text, at one moment.
pub record Clock : Type 0 where
  pub now : ℕ
  pub fromisoformat : String → Timestamp

abbrev pub is_granted : RequestStatus → Bool
is_granted RequestStatus.granted = true
is_granted _ = false

-- `status_for_grant`; `none` leaves the status.
abbrev pub status_for_grant : GrantType → Option RequestStatus
status_for_grant GrantType.granted = some RequestStatus.granted
status_for_grant GrantType.revoked = some RequestStatus.revoked
status_for_grant GrantType.rejected = some RequestStatus.revoked
status_for_grant GrantType.queued = none

abbrev pub new_status : RequestStatus → Option RequestStatus → RequestStatus
new_status status none = status
new_status status (some status') = status'

abbrev pub answer_zone : Response → ZoneRequest → ZoneRequest
answer_zone resp req =
    if req.request_id == resp.request_id
    then record req {
      request_status = new_status req.request_status (status_for_grant resp.grant_type);
    }
    else req

abbrev pub answer_edge : Response → EdgeRequest → EdgeRequest
answer_edge resp req =
    if req.request_id == resp.request_id
    then record req {
      request_status = new_status req.request_status (status_for_grant resp.grant_type);
    }
    else req

-- resp.leaseExpiry, if it is a text that is not empty
abbrev pub lease_of : Response → Option String
lease_of resp = elim resp.lease_expiry [ none ↦ none | some t ↦ if t == "" then none else some t ]

abbrev pub store_lease : Response → Bool → Dict String String → Dict String String
store_lease resp matched leases = elim (lease_of resp) [
  | none ↦ leases
  | some t ↦ if matched then insert resp.request_id t leases else leases
]

module _ {R : Type 0} where
  unfoldable pub handle_zone_set : ZoneSet R → Agv R → Agv R
  handle_zone_set zone_set s =
      if is_some (lookup zone_set.zone_set_id s.zone_sets)
      then report "duplicateZoneSet" ("zone set '" <> zone_set.zone_set_id <> "' already present") s
      else record s {
        site = record s.site {
          zone_sets = insert zone_set.zone_set_id zone_set s.zone_sets;
          zone_set_status = insert zone_set.zone_set_id "ENABLED" s.zone_set_status;
        };
      }

  abbrev pub has_request : String → Agv R → Bool
  has_request request_id s =
      any (λ req. req.request_id == request_id) s.zone_requests
      || any (λ req. req.request_id == request_id) s.edge_requests

  unfoldable pub apply_response : Response → Agv R → Agv R
  apply_response resp s = record s {
    graph = record s.graph {
      zone_requests = map (answer_zone resp) s.zone_requests;
      edge_requests = map (answer_edge resp) s.edge_requests;
    };
    site = record s.site {
      request_lease_expiry =
          store_lease resp (has_request resp.request_id s) s.request_lease_expiry;
    };
  }

  unfoldable pub handle_responses : List Response → Agv R → Agv R
  handle_responses [] s = s
  handle_responses (resp ∷ rest) s = handle_responses rest (apply_response resp s)

-- What the loop of `_check_lease_expiry` does to one request.
pub data LeaseCheck : Type 0 where
  keeps expires type_error : LeaseCheck

abbrev pub check_time : ℕ → Timestamp → LeaseCheck
check_time now invalid = keeps
check_time now naive = type_error
check_time now (aware t) = if leb t now then expires else keeps

abbrev pub check_lease : Clock → Dict String String → String → RequestStatus → LeaseCheck
check_lease clock leases request_id status =
    if is_granted status
    then elim (lookup request_id leases) [
      | none ↦ keeps
      | some text ↦ check_time clock.now (clock.fromisoformat text)
    ]
    else keeps

-- The loop over one list of requests, given how to check one and how to mark it EXPIRED. The second
-- part says whether the comparison with a time that has no zone raised a TypeError.
unfoldable pub expire : {A : Type 0} → (A → LeaseCheck) → (A → A) → List A → List A × Bool
expire check mark [] = ([], false)
expire check mark (r ∷ rs) =
    let rest = expire check mark rs in
    elim (check r) [
      | keeps ↦ (r ∷ rest.0, rest.1)
      | expires ↦ (mark r ∷ rest.0, rest.1)
      | type_error ↦ (r ∷ rs, true)
    ]

abbrev pub expire_zone : ZoneRequest → ZoneRequest
expire_zone req = record req { request_status = RequestStatus.expired }

abbrev pub expire_edge : EdgeRequest → EdgeRequest
expire_edge req = record req { request_status = RequestStatus.expired }

module _ {R : Type 0} where
  abbrev pub zone_check : Clock → Agv R → ZoneRequest → LeaseCheck
  zone_check clock s req =
      check_lease clock s.request_lease_expiry req.request_id req.request_status

  abbrev pub edge_check : Clock → Agv R → EdgeRequest → LeaseCheck
  edge_check clock s req =
      check_lease clock s.request_lease_expiry req.request_id req.request_status

  -- The requests of edges come after those of zones: where the first raises, they stay.
  unfoldable pub expire_all : Clock → Agv R → Run (Agv R)
  expire_all clock s =
      let (zones, zone_error) = expire (zone_check clock s) expire_zone s.zone_requests in
      let s1 = record s { graph = record s.graph { zone_requests = zones } } in
      let (edges, edge_error) = expire (edge_check clock s) expire_edge s.edge_requests in
      let s2 = record s1 { graph = record s1.graph { edge_requests = edges } } in
      if zone_error then raised s1 else if edge_error then raised s2 else done s2

  unfoldable pub check_lease_expiry : Clock → Agv R → Run (Agv R)
  check_lease_expiry clock s =
      if not_empty s.request_lease_expiry then expire_all clock s else done s
