-- ===== src/Dispatches/Rerouting.antt =====
-- Reroute and Preempt of internal/dispatch/reassign_service.go: the attempts that they make.
use crisis_link.Common.{
  ℕ, ◌≡◌, inl, inr, Bool, Option, none, some, List, [], ◌∷◌, arith, ◌==◌, ◌*◌, Bool-cases,
  Option-cases, subst,
}
use crisis_link.Common.Int.{ℤ, pos}
use crisis_link.Table.{find}
use crisis_link.Store.Rows.{Db, Dispatch, EventType, Incident, UnitType}
use crisis_link.Store.Tx.{Commits, Error, Result, ok, err, after, Result-cases, after-keeps}
use crisis_link.Units.{find_available_by_ids, find_nearest_available}
use crisis_link.Incidents.{get_incident}
use crisis_link.Dispatches.Preservation.{WellFormed}
use crisis_link.Dispatches.Reassignment.{reassign, Preemptable, find_preemptable}
use crisis_link.Dispatches.Safety.{reassign-WellFormed}
use crisis_link.Dispatches.Service.{
  NearbyUnit, ScoredUnit, or_next, is_unit_taken, is_victim_gone, candidates, candidate_units,
  from_nearby, candidate_limit, hydrate_live, try_units, try_victims, reroute, preempt,
}

or_next-Commits {ℓ κ} :
    {A : Type ℓ} (P : Db → Type κ) (retries : Error → Bool) (r later : Result (A × Db))
    → Commits P r
    → Commits P later
    → Commits P (or_next retries r later)
or_next-Commits P retries (ok x) later first rest = first
or_next-Commits P retries (err e) later first rest = elim (Bool-cases (retries e)) [
  | inl on ↦ rw on rest
  | inr ends ↦ rw ends first
]

module _ (distance : ℤ → ℤ → ℤ → ℤ → ℕ) (nearby_live : ℤ → ℤ → ℕ → Option (List NearbyUnit)) where
  -- What every reassignment with the event `event` keeps.
  abbrev pub ReassignKeeps : (Db → Type 0) → EventType → Type 0
  ReassignKeeps P event =
      (id old_id new_incident new_unit : ℕ) (db : Db)
      → P db
      → Commits P (reassign id old_id new_incident new_unit event db)

  try_units-Commits :
      (P : Db → Type 0) (id old_id : ℕ) (old : Dispatch) (units : List ScoredUnit) (db : Db)
      → ReassignKeeps P EventType.dispatch_rerouted
      → P db
      → Commits P (try_units distance nearby_live id old_id old units db)
  unfolding try_units
  try_units-Commits P id old_id old [] db keeps w = λ d db' h. ground arith
  try_units-Commits P id old_id old (s ∷ rest) db keeps w =
      let later = try_units-Commits P id old_id old rest db keeps w in
      elim (Bool-cases (s.candidate.id == old.unit_id)) [
        | inl same ↦ rw same later
        | inr other ↦ rw other (
            or_next-Commits P is_unit_taken _ _
              (keeps id old_id old.incident_id s.candidate.id db w) later)
      ]

  try_victims-Commits :
      (P : Db → Type 0) (id incident_id : ℕ) (victims : List Preemptable) (db : Db)
      → ReassignKeeps P EventType.dispatch_preempted
      → P db
      → Commits P (try_victims distance nearby_live id incident_id victims db)
  unfolding try_victims
  try_victims-Commits P id incident_id [] db keeps w = λ d db' h. ground arith
  try_victims-Commits P id incident_id (v ∷ rest) db keeps w =
      or_next-Commits P is_victim_gone _ _ (keeps id v.dispatch_id incident_id v.unit_id db w)
        (try_victims-Commits P id incident_id rest db keeps w)

  pub hydrate_live-reads :
      (nearby : List NearbyUnit) (limit : ℕ) (db : Db)
      → Commits (λ x. x ≡ db) (hydrate_live nearby limit db)
  unfolding hydrate_live find_available_by_ids
  hydrate_live-reads nearby limit db a db' h = ground arith

  from_nearby-reads :
      (inc : Incident) (limit : ℕ) (o : Option (List NearbyUnit)) (db : Db)
      → Commits (λ x. x ≡ db) (from_nearby distance nearby_live inc limit o db)
  unfolding find_nearest_available
  from_nearby-reads inc limit none db a db' h = ground arith
  from_nearby-reads inc limit (some []) db a db' h = ground arith
  from_nearby-reads inc limit (some (n ∷ ns)) db a db' h =
      elim (Result-cases (hydrate_live (n ∷ ns) limit db)) [
        | inl (e, f) ↦ ground (arith, f)
        | inr (([], db1), f) ↦ ground (arith, f, hydrate_live-reads (n ∷ ns) limit db [] db1 f)
        | inr ((c ∷ cs, db1), f) ↦
            ground (arith, f, hydrate_live-reads (n ∷ ns) limit db (c ∷ cs) db1 f)
      ]

  pub candidates-reads :
      (incident_id : ℕ) (preferred : Option UnitType) (limit : ℤ) (db : Db)
      → Commits (λ x. x ≡ db) (candidates distance nearby_live incident_id preferred limit db)
  unfolding candidates candidate_units get_incident
  candidates-reads incident_id preferred limit db a db' h =
      elim (Option-cases (find incident_id db.incidents)) [
        | inl e ↦ ground arith
        | inr (inc, e) ↦
            let hits = nearby_live inc.latitude inc.longitude (candidate_limit limit * 3) in
            elim (Result-cases
              (from_nearby distance nearby_live inc (candidate_limit limit) hits db)) [
                | inl (x, f) ↦ ground (arith, f)
                | inr ((us, db1), f) ↦
                    ground
                      (arith, f, from_nearby-reads inc (candidate_limit limit) hits db us db1 f)
              ]
      ]

  -- What every reassignment keeps, Reroute keeps.
  pub reroute-Commits :
      (P : Db → Type 0) (id old_id : ℕ) (db : Db)
      → ReassignKeeps P EventType.dispatch_rerouted
      → P db
      → Commits P (reroute distance nearby_live id old_id db)
  unfolding reroute
  reroute-Commits P id old_id db keeps w d db' h = elim (Option-cases (find old_id db.dispatches)) [
    | inl e ↦ ground arith
    | inr (old, e) ↦
        elim (Result-cases (candidates distance nearby_live old.incident_id none (pos 5) db)) [
          | inl (x, f) ↦ ground (arith, f)
          | inr (((inc, units, source), db1), f) ↦
              let same : db1 ≡ db =
                candidates-reads old.incident_id none (pos 5) db (inc, units, source) db1 f in
              try_units-Commits P id old_id old units db keeps w d db' (ground (arith, f, same))
        ]
  ]

  -- What every reassignment keeps, Preempt keeps.
  pub preempt-Commits :
      (P : Db → Type 0) (id incident_id : ℕ) (db : Db)
      → ReassignKeeps P EventType.dispatch_preempted
      → P db
      → Commits P (preempt distance nearby_live id incident_id db)
  unfolding preempt get_incident find_preemptable
  preempt-Commits P id incident_id db keeps w d db' h =
      elim (Option-cases (find incident_id db.incidents)) [
        | inl e ↦ ground arith
        | inr (inc, e) ↦
            let victims = find_preemptable distance inc.severity inc.latitude inc.longitude 5 in
            elim (Result-cases (victims db)) [
              | inl (x, f) ↦ ground (arith, f)
              | inr ((vs, db1), f) ↦
                  let same : db1 ≡ db = ground (arith, f) in
                  try_victims-Commits P id incident_id vs db keeps w d db' (ground (arith, f, same))
            ]
      ]

  reassign-keeps : (event : EventType) → ReassignKeeps WellFormed event
  reassign-keeps event id old_id new_incident new_unit db w d db' h =
      subst (λ r. WellFormed (after db r)) h
        (reassign-WellFormed id old_id new_incident new_unit event db w)

  -- Reroute keeps a well-formed database well formed, whatever distances and live positions its
  -- candidates come from, and whichever of its attempts fail.
  pub reroute-WellFormed :
      (id old_id : ℕ) (db : Db)
      → WellFormed db
      → WellFormed (after db (reroute distance nearby_live id old_id db))
  reroute-WellFormed id old_id db w =
      after-keeps WellFormed (reroute distance nearby_live id old_id) db w
        (reroute-Commits WellFormed id old_id db (reassign-keeps EventType.dispatch_rerouted) w)

  -- Preempt keeps a well-formed database well formed, whatever the distances are, and whichever of
  -- its attempts fail.
  pub preempt-WellFormed :
      (id incident_id : ℕ) (db : Db)
      → WellFormed db
      → WellFormed (after db (preempt distance nearby_live id incident_id db))
  preempt-WellFormed id incident_id db w =
      after-keeps WellFormed (preempt distance nearby_live id incident_id) db w (
        preempt-Commits WellFormed id incident_id db (reassign-keeps EventType.dispatch_preempted)
          w)
