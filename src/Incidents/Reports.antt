-- ===== src/Incidents/Reports.antt =====
-- Deduplication of reports (TryDedupe in internal/incident/repository.go and IncidentService.Create).
use crisis_link.Common.{
  ℕ, ◌≡◌, refl, inl, inr, Bool, true, false, Option, none, some, [], ◌∷◌, arith, is_some, suc, ◌⊎◌,
  keep, Option-cases,
}
use crisis_link.Common.Int.{ℤ}
use crisis_link.Common.Sort.{sort_by}
use crisis_link.Table.{Table, find, sum_by}
use crisis_link.Table.Laws.{Unique, sum_by-update}
use crisis_link.Table.Every.{All, All-keep, All-sort_by, All-StandsIn, StandsIn}
use crisis_link.Store.Rows.{Db, Incident, Severity}
use crisis_link.Store.Tx.{ok, pure, Result-cases, bind-ok}
use crisis_link.Geo.{validate_lat_lng}
use crisis_link.Incidents.{
  CreateIncidentInput, severity_of, is_duplicate, add_report, try_dedupe, insert_incident,
  merged_or_new, create_incident,
}

-- All the reports that the database stands for.
abbrev pub reports : Db → ℕ
reports db = sum_by (λ i. i.report_count) db.incidents

first-StandsIn :
    (t ms : Table Incident)
    → All (StandsIn t) ms
    → (ms ≡ [])
      ⊎ ((id : ℕ) × (i : Incident) × (rest : Table Incident) × (ms ≡ (id, i) ∷ rest)
          × (find id t ≡ some i))
first-StandsIn t [] a = inl refl
first-StandsIn t ((id, i) ∷ rest) a = inr (id, i, rest, refl, a.0)

module _ (distance : ℤ → ℤ → ℤ → ℤ → ℕ) where
  abbrev matches : ℤ → ℤ → Db → Table Incident
  matches lat lng db =
      sort_by (λ (id, i). distance lat lng i.latitude i.longitude)
        (keep (λ (id, i). is_duplicate distance lat lng db.now i) db.incidents)

  matches-StandsIn :
      (lat lng : ℤ) (db : Db)
      → Unique db.incidents
      → All (StandsIn db.incidents) (matches lat lng db)
  matches-StandsIn lat lng db u = All-sort_by (StandsIn db.incidents) _ _ (
      All-keep (StandsIn db.incidents) (StandsIn db.incidents) _ db.incidents (λ b s h. s)
        (All-StandsIn db.incidents u))

  -- A duplicate adds its report, and without one nothing changes.
  try_dedupe_counts :
      (lat lng : ℤ) (db db' : Db) (o : Option (ℕ × Incident))
      → Unique db.incidents
      → try_dedupe distance lat lng db ≡ ok (o, db')
      → ((o ≡ none) × (db' ≡ db)) ⊎ ((is_some o ≡ true) × (reports db' ≡ suc (reports db)))
  unfolding try_dedupe
  try_dedupe_counts lat lng db db' o u h =
      elim (first-StandsIn db.incidents (matches lat lng db) (matches-StandsIn lat lng db u)) [
        | inl e ↦ inl (ground arith, ground arith)
        | inr (id, i, rest, e, f) ↦ inr (
          ground arith,
          ground (
            arith,
            sum_by-update (λ x. x.report_count) id (add_report db.now) db.incidents i u f,
          ),
        )
      ]

  insert_incident_counts :
      (id : ℕ) (input : CreateIncidentInput) (severity : Severity) (db db' : Db) (r : ℕ × Incident)
      → insert_incident id input severity db ≡ ok (r, db')
      → reports db' ≡ suc (reports db)
  unfolding insert_incident
  insert_incident_counts id input severity db db' r h = elim (Option-cases (find id db.incidents)) [
    | inl e ↦ ground arith
    | inr (i, e) ↦ ground arith
  ]

  new_counts :
      (id : ℕ) (input : CreateIncidentInput) (severity : Severity) (db db' : Db)
      (r : (ℕ × Incident) × Bool)
      → merged_or_new id input severity none db ≡ ok (r, db')
      → reports db' ≡ suc (reports db)
  new_counts id input severity db db' r h =
      let (row, db2, g, told) =
        bind-ok (insert_incident id input severity) (λ x. pure (x, false)) db db' r h in
      ground (arith, insert_incident_counts id input severity db db2 row g)

  merged_or_new_counts :
      (id : ℕ) (input : CreateIncidentInput) (severity : Severity) (db db1 db' : Db)
      (o : Option (ℕ × Incident)) (r : (ℕ × Incident) × Bool)
      → ((o ≡ none) × (db1 ≡ db)) ⊎ ((is_some o ≡ true) × (reports db1 ≡ suc (reports db)))
      → merged_or_new id input severity o db1 ≡ ok (r, db')
      → reports db' ≡ suc (reports db)
  merged_or_new_counts id input severity db db1 db' none r (inl (e, same)) h =
      ground (arith, new_counts id input severity db1 db' r h, same)
  merged_or_new_counts id input severity db db1 db' none r (inr (e, c)) h = ground arith
  merged_or_new_counts id input severity db db1 db' (some x) r (inl (e, same)) h = ground arith
  merged_or_new_counts id input severity db db1 db' (some x) r (inr (e, c)) h = ground arith

  -- If no id of an incident occurs twice, a report that is accepted, as a new incident or merged
  -- into an open one, raises the sum of all report counts by exactly one.
  pub create_incident_counts :
      (id : ℕ) (input : CreateIncidentInput) (db db' : Db) (r : (ℕ × Incident) × Bool)
      → Unique db.incidents
      → create_incident distance id input db ≡ ok (r, db')
      → reports db' ≡ suc (reports db)
  unfolding create_incident validate_lat_lng
  create_incident_counts id input db db' r u h =
      elim (Result-cases (try_dedupe distance input.latitude input.longitude db)) [
        | inl (x, f) ↦ ground (arith, f)
        | inr ((o, db1), f) ↦ elim (Option-cases (severity_of input.severity)) [
          | inl e ↦ ground arith
          | inr (severity, e) ↦
              merged_or_new_counts id input severity db db1 db' o r
                (try_dedupe_counts input.latitude input.longitude db db1 o u f) (ground (arith, f))
        ]
      ]
