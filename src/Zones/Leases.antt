-- ===== src/Zones/Leases.antt =====
-- agv.py: what `_check_lease_expiry` does to the requests.
use vda5050_sim.Prelude.{
  ℕ, String, string_eq, Bool, true, false, ◌&&◌, ◌≡◌, refl, ◌∙◌, ap, none, some, List, [], ◌∷◌,
  arith, if_ind, Bool-cases, Option-cases, inl, inr, any, map, lookup, Dict, if◌then◌else◌, leb,
  done, ◌==◌,
}
use vda5050_sim.Schemas.{ZoneRequest, EdgeRequest, RequestStatus}
use vda5050_sim.Robot.{Agv, not_empty}
use vda5050_sim.Zones.Requests.{
  Timestamp, naive, aware, Clock, is_granted, LeaseCheck, keeps, expires, check_time, check_lease,
  expire, expire_zone, expire_edge, zone_check, edge_check, expire_all, check_lease_expiry,
}

abbrev pub has_passed : ℕ → Timestamp → Bool
has_passed now (aware t) = leb t now
has_passed now _ = false

abbrev pub is_naive : Timestamp → Bool
is_naive naive = true
is_naive _ = false

-- The request is GRANTED and its lease is a time that has passed.
abbrev pub is_overdue : Clock → Dict String String → String → RequestStatus → Bool
is_overdue clock leases request_id status = is_granted status && elim (lookup request_id leases) [
  | none ↦ false
  | some text ↦ has_passed clock.now (clock.fromisoformat text)
]

-- Some stored lease is a time without a zone.
abbrev pub has_naive : Clock → Dict String String → Bool
has_naive clock leases = any (λ e. is_naive (clock.fromisoformat e.1)) leases

check_time_lem :
    (now : ℕ) (t : Timestamp)
    → is_naive t ≡ false
    → check_time now t ≡ (if has_passed now t then expires else keeps)
check_time_lem now t h = ground arith

lookup_naive :
    (clock : Clock) (leases : Dict String String) (id text : String)
    → has_naive clock leases ≡ false
    → lookup id leases ≡ some text
    → is_naive (clock.fromisoformat text) ≡ false
lookup_naive clock [] id text h e = cc
lookup_naive clock ((k, v) ∷ leases) id text h e = elim (Bool-cases (k == id)) [
  | inl same ↦ ground arith
  | inr other ↦ lookup_naive clock leases id text (ground arith) (ground arith)
]

check_lease_lem :
    (clock : Clock) (leases : Dict String String) (id : String) (status : RequestStatus)
    → has_naive clock leases ≡ false
    → check_lease clock leases id status
      ≡ (if is_overdue clock leases id status then expires else keeps)
check_lease_lem clock leases id status h = elim (Option-cases (lookup id leases)) [
  | inl e ↦ ground arith
  | inr (text, e) ↦ ground (
    arith,
    lookup_naive clock leases id text h e,
    check_time_lem clock.now (clock.fromisoformat text),
  )
]

expire_lem :
    {A : Type 0} (check : A → LeaseCheck) (mark : A → A) (overdue : A → Bool) (rs : List A)
    → ((r : A) → check r ≡ (if overdue r then expires else keeps))
    → expire check mark rs ≡ (map (λ r. if overdue r then mark r else r) rs, false)
unfolding expire
expire_lem check mark overdue [] h = refl
expire_lem check mark overdue (r ∷ rs) h = elim (Bool-cases (overdue r)) [
  | inl e ↦
      let now : check r ≡ expires = h r ∙ ap (λ b. if b then expires else keeps) e in
      rw (now, expire, e, expire_lem check mark overdue rs h) refl
  | inr e ↦
      let not_yet : check r ≡ keeps = h r ∙ ap (λ b. if b then expires else keeps) e in
      rw (not_yet, expire, e, expire_lem check mark overdue rs h) refl
]

empty_leases :
    (clock : Clock) (leases : Dict String String) (id : String) (status : RequestStatus)
    → not_empty leases ≡ false
    → is_overdue clock leases id status ≡ false
empty_leases clock [] id status h = ground arith
empty_leases clock (e ∷ leases) id status h = cc

map_unmarked :
    {A : Type 0} (mark : A → A) (overdue : A → Bool) (rs : List A)
    → ((r : A) → overdue r ≡ false)
    → map (λ r. if overdue r then mark r else r) rs ≡ rs
map_unmarked mark overdue [] h = refl
map_unmarked mark overdue (r ∷ rs) h = rw (h r, map_unmarked mark overdue rs h) refl

module _ {R : Type 0} where
  abbrev pub zone_overdue : Clock → Agv R → ZoneRequest → Bool
  zone_overdue clock s req =
      is_overdue clock s.request_lease_expiry req.request_id req.request_status

  abbrev pub edge_overdue : Clock → Agv R → EdgeRequest → Bool
  edge_overdue clock s req =
      is_overdue clock s.request_lease_expiry req.request_id req.request_status

  -- Every overdue request is EXPIRED, and nothing else is changed.
  abbrev pub lapsed : Clock → Agv R → Agv R
  lapsed clock s = record s {
    graph = record s.graph {
      zone_requests =
          map (λ req. if zone_overdue clock s req then expire_zone req else req) s.zone_requests;
      edge_requests =
          map (λ req. if edge_overdue clock s req then expire_edge req else req) s.edge_requests;
    };
  }

  no_leases :
      (clock : Clock) (s : Agv R) → not_empty s.request_lease_expiry ≡ false → s ≡ lapsed clock s
  no_leases clock s e =
      rw
        (
          map_unmarked expire_zone (zone_overdue clock s) s.zone_requests (λ req.
              empty_leases clock s.request_lease_expiry req.request_id req.request_status e),
          map_unmarked expire_edge (edge_overdue clock s) s.edge_requests (λ req.
              empty_leases clock s.request_lease_expiry req.request_id req.request_status e),
        )
        refl

  -- If no stored lease is a time without a zone, the check of the leases raises nothing, marks
  -- every GRANTED request EXPIRED whose lease has passed, and changes nothing else.
  pub check_lease_expiry_lem :
      (clock : Clock) (s : Agv R)
      → has_naive clock s.request_lease_expiry ≡ false
      → check_lease_expiry clock s ≡ done (lapsed clock s)
  unfolding check_lease_expiry expire_all
  check_lease_expiry_lem clock s readable =
      if_ind (λ r. r ≡ done (lapsed clock s)) (not_empty s.request_lease_expiry)
        (λ _.
          rw
            (
              expire_lem (zone_check clock s) expire_zone (zone_overdue clock s) s.zone_requests
                  (λ req.
                    check_lease_lem clock s.request_lease_expiry req.request_id req.request_status
                      readable),
              expire_lem (edge_check clock s) expire_edge (edge_overdue clock s) s.edge_requests
                  (λ req.
                    check_lease_lem clock s.request_lease_expiry req.request_id req.request_status
                      readable),
            )
            refl)
        (λ e. ap done (no_leases clock s e))
