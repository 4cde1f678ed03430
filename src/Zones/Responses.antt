-- ===== src/Zones/Responses.antt =====
-- agv.py: what `handle_responses` decides for each request.
use vda5050_sim.Prelude.{
  String, string_eq, ◌≡◌, refl, ◌∙◌, Option, none, some, List, [], ◌∷◌, arith, map, if◌then◌else◌,
  ◌==◌,
}
use vda5050_sim.Schemas.{ZoneRequest, EdgeRequest, RequestStatus, Response}
use vda5050_sim.Robot.{Agv, Graph}
use vda5050_sim.Zones.Requests.{
  status_for_grant, new_status, answer_zone, answer_edge, apply_response, handle_responses,
}

-- The status that the last response to the request gives; a queued one gives none.
abbrev pub last_decision : List Response → String → Option RequestStatus
last_decision [] id = none
last_decision (resp ∷ rest) id = elim (last_decision rest id) [
  | some status ↦ some status
  | none ↦ if id == resp.request_id then status_for_grant resp.grant_type else none
]

abbrev pub decide_zone : List Response → ZoneRequest → ZoneRequest
decide_zone responses req = record req {
  request_status = new_status req.request_status (last_decision responses req.request_id);
}

abbrev pub decide_edge : List Response → EdgeRequest → EdgeRequest
decide_edge responses req = record req {
  request_status = new_status req.request_status (last_decision responses req.request_id);
}

decide_zone_first :
    (resp : Response) (rest : List Response) (reqs : List ZoneRequest)
    → map (decide_zone rest) (map (answer_zone resp) reqs) ≡ map (decide_zone (resp ∷ rest)) reqs
decide_zone_first resp rest [] = refl
decide_zone_first resp rest (req ∷ reqs) = ground (arith, decide_zone_first resp rest reqs)

decide_edge_first :
    (resp : Response) (rest : List Response) (reqs : List EdgeRequest)
    → map (decide_edge rest) (map (answer_edge resp) reqs) ≡ map (decide_edge (resp ∷ rest)) reqs
decide_edge_first resp rest [] = refl
decide_edge_first resp rest (req ∷ reqs) = ground (arith, decide_edge_first resp rest reqs)

decide_no_zone : (reqs : List ZoneRequest) → map (decide_zone []) reqs ≡ reqs
decide_no_zone [] = refl
decide_no_zone (req ∷ reqs) = ground (arith, decide_no_zone reqs)

decide_no_edge : (reqs : List EdgeRequest) → map (decide_edge []) reqs ≡ reqs
decide_no_edge [] = refl
decide_no_edge (req ∷ reqs) = ground (arith, decide_no_edge reqs)

module _ {R : Type 0} where
  -- The graph with its requests decided one by one.
  abbrev pub decided : List Response → Graph R → Graph R
  decided responses g = record g {
    zone_requests = map (decide_zone responses) g.zone_requests;
    edge_requests = map (decide_edge responses) g.edge_requests;
  }

  -- A message of responses decides each request on its own: the last response to it that is not
  -- QUEUED sets the status, and without one the status stays. No request comes or goes, and the
  -- rest of the graph, the actions and the motion are as before.
  pub handle_responses_lem :
      (responses : List Response) (s : Agv R)
      → ((handle_responses responses s).graph ≡ decided responses s.graph)
        × ((handle_responses responses s).tracking ≡ s.tracking)
        × ((handle_responses responses s).motion ≡ s.motion)
        × ((handle_responses responses s).mode ≡ s.mode)
  unfolding handle_responses apply_response
  handle_responses_lem [] s = (
    ground (arith, decide_no_zone s.zone_requests, decide_no_edge s.edge_requests),
    refl,
    refl,
    refl,
  )
  handle_responses_lem (resp ∷ rest) s =
      let (graph, tracking, motion, mode) = handle_responses_lem rest (apply_response resp s) in
      (
        graph
            ∙ ground (
              arith,
              decide_zone_first resp rest s.zone_requests,
              decide_edge_first resp rest s.edge_requests,
            ),
        tracking,
        motion,
        mode,
      )
