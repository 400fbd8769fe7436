-- ===== src/Dispatches/Triage.antt =====
-- Whose unit a preemption takes (Preempt of internal/dispatch/reassign_service.go over
-- FindPreemptable of reassign.go).
use crisis_link.Common.{
  ℕ, ◌<◌, ◌≡◌, inl, inr, true, ◌&&◌, ltb, Option, none, some, List, [], ◌∷◌, arith, Option-cases,
  Bool-cases, refl, subst, sym, take,
}
use crisis_link.Common.Int.{ℤ}
use crisis_link.Common.Sort.{sort_by}
use crisis_link.Table.{Table, find}
use crisis_link.Table.Laws.{Unique}
use crisis_link.Table.Every.{All, All-sort_by, All-take, All-StandsIn, StandsIn}
use crisis_link.Store.Rows.{Db, Dispatch, Incident, RescueUnit, EventType, Severity}
use crisis_link.Store.Tx.{ok, Result-cases}
use crisis_link.Incidents.{get_incident}
use crisis_link.Dispatches.{is_active_dispatch}
use crisis_link.Dispatches.Reassignment.{
  reassign, Preemptable, joined, preemptable_rows, find_preemptable, severity_rank,
}
use crisis_link.Dispatches.Replaced.{Replacement, reassign-Replacement}
use crisis_link.Dispatches.Service.{NearbyUnit, try_victims, preempt}

-- A dispatch that may be ended for an incident of that severity.
pub record Expendable (severity : Severity) (db : Db) (p : Preemptable) : Type 0 where
  pub dispatch : Dispatch
  pub incident : Incident
  pub found : find p.dispatch_id db.dispatches ≡ some dispatch
  pub same_unit : dispatch.unit_id ≡ p.unit_id
  pub incident_found : find dispatch.incident_id db.incidents ≡ some incident
  pub less_severe : severity_rank incident.severity < severity_rank severity

-- What a preemption for `inc` did: the dispatch that it ended, and the replacement.
pub record Triaged (id incident_id : ℕ) (inc : Incident) (db db' : Db) : Type 0 where
  pub victim : Preemptable
  pub expendable : Expendable inc.severity db victim
  pub replacement :
      Replacement id victim.dispatch_id incident_id victim.unit_id EventType.dispatch_preempted db
        db'

module _ (distance : ℤ → ℤ → ℤ → ℤ → ℕ) where
  joined-Expendable :
      (severity : Severity) (lat lng : ℤ) (id : ℕ) (d : Dispatch) (i : Option Incident)
      (u : Option RescueUnit) (p : Preemptable) (db : Db)
      → find id db.dispatches ≡ some d
      → find d.incident_id db.incidents ≡ i
      → joined distance lat lng id d i u ≡ some p
      → ltb (severity_rank p.severity) (severity_rank severity) ≡ true
      → Expendable severity db p
  joined-Expendable severity lat lng id d (some i) (some u) p db fd fi h less = record {
    dispatch = d;
    incident = i;
    found = ground (arith, fd, h);
    same_unit = ground (arith, h);
    incident_found = fi;
    less_severe = ground (arith, h, less);
  }
  joined-Expendable severity lat lng id d (some i) none p db fd fi h less =
      absurd (ground (arith, h))
  joined-Expendable severity lat lng id d none u p db fd fi h less = absurd (ground (arith, h))

  preemptable_rows-Expendable :
      (severity : Severity) (lat lng : ℤ) (db : Db) (t : Table Dispatch)
      → All (StandsIn db.dispatches) t
      → All (Expendable severity db) (preemptable_rows distance severity lat lng db t)
  preemptable_rows-Expendable severity lat lng db [] stand = tt
  preemptable_rows-Expendable severity lat lng db ((id, d) ∷ rest) stand =
      let others = preemptable_rows-Expendable severity lat lng db rest stand.1 in
      let rows = preemptable_rows distance severity lat lng db rest in
      let all = preemptable_rows distance severity lat lng db ((id, d) ∷ rest) in
      elim (Option-cases (
        joined distance lat lng id d (find d.incident_id db.incidents) (find d.unit_id db.units))) [
          | inl e ↦
              let same : all ≡ rows = ground (arith, e) in
              subst (All (Expendable severity db)) (sym same) others
          | inr (p, e) ↦
              elim (Bool-cases (
                is_active_dispatch d.status
                && ltb (severity_rank p.severity) (severity_rank severity))) [
                  | inl pass ↦
                      let same : all ≡ p ∷ rows = ground (arith, e, pass) in
                      subst (All (Expendable severity db)) (sym same) (
                        joined-Expendable severity lat lng id d (find d.incident_id db.incidents)
                            (find d.unit_id db.units) p db stand.0 refl e (ground (arith, pass)),
                        others,
                      )
                  | inr drop ↦
                      let same : all ≡ rows = ground (arith, e, drop) in
                      subst (All (Expendable severity db)) (sym same) others
                ]
        ]

  module _ (nearby_live : ℤ → ℤ → ℕ → Option (List NearbyUnit)) where
    try_victims-Triaged :
        (id incident_id : ℕ) (inc : Incident) (victims : List Preemptable) (db : Db)
        (r : (ℕ × Dispatch) × Db)
        → All (Expendable inc.severity db) victims
        → try_victims distance nearby_live id incident_id victims db ≡ ok r
        → Triaged id incident_id inc db r.1
    unfolding try_victims
    try_victims-Triaged id incident_id inc [] db r all h = absurd (ground (arith, h))
    try_victims-Triaged id incident_id inc (v ∷ rest) db r all h =
        elim (Result-cases
          (reassign id v.dispatch_id incident_id v.unit_id EventType.dispatch_preempted db)) [
            | inl (e, f) ↦
                try_victims-Triaged id incident_id inc rest db r all.1 (ground (arith, h, f))
            | inr ((d, db'), f) ↦
                let (done, _) =
                  reassign-Replacement id v.dispatch_id incident_id v.unit_id
                    EventType.dispatch_preempted db d db' f in
                let same : db' ≡ r.1 = ground (arith, h, f) in
                subst (Triaged id incident_id inc db) same
                  (record { victim = v; expendable = all.0; replacement = done })
          ]

    -- If no id of a dispatch occurs twice: a preemption for an incident that commits has ended an
    -- active dispatch to a strictly less severe incident, and its unit is the one that it sends.
    pub preempt-Triaged :
        (id incident_id : ℕ) (inc : Incident) (db : Db) (r : (ℕ × Dispatch) × Db)
        → Unique db.dispatches
        → find incident_id db.incidents ≡ some inc
        → preempt distance nearby_live id incident_id db ≡ ok r
        → Triaged id incident_id inc db r.1
    unfolding preempt get_incident find_preemptable
    preempt-Triaged id incident_id inc db r unique found h =
        let rows =
          preemptable_rows distance inc.severity inc.latitude inc.longitude db db.dispatches in
        try_victims-Triaged id incident_id inc (take 5 (sort_by (λ p. p.distance_meters) rows)) db r
          (All-take (Expendable inc.severity db) 5 (sort_by (λ p. p.distance_meters) rows) (
            All-sort_by (Expendable inc.severity db) (λ p. p.distance_meters) rows
              (preemptable_rows-Expendable inc.severity inc.latitude inc.longitude db db.dispatches
                (All-StandsIn db.dispatches unique))))
          (ground (arith, h, found))
