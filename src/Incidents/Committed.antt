-- ===== src/Incidents/Committed.antt =====
-- What IncidentService.Create and IncidentService.UpdateStatus did to the database when they committed.
use Prim.Native.String.{String}
use crisis_link.Common.{
  ℕ, ◌≡◌, ◌⊎◌, refl, inl, inr, Bool, true, false, Option, none, some, List, [], ◌∷◌, arith, keep,
  Option-cases,
}
use crisis_link.Common.Int.{ℤ}
use crisis_link.Common.Sort.{sort_by}
use crisis_link.Table.{find, update}
use crisis_link.Table.Laws.{find-update_self}
use crisis_link.Store.Rows.{Db, Incident, IncidentStatus, Severity}
use crisis_link.Store.Tx.{ok, pure, Result-cases, bind-ok}
use crisis_link.Geo.{validate_lat_lng}
use crisis_link.Incidents.{
  CreateIncidentInput, severity_of, is_duplicate, add_report, try_dedupe, insert_incident,
  create_incident, merged_or_new, update_incident_status, write_incident_status, get_incident,
  can_transition, incident_status_of, set_incident_status,
}

-- A report either raised the count of an incident or became one.
abbrev pub Filed : ℕ → Db → Db → Type 0
Filed id db db' =
    ((k : ℕ) × (db' ≡ record db { incidents = update k (add_report db.now) db.incidents }))
    ⊎ ((i : Incident) × (find id db.incidents ≡ none)
        × (db' ≡ record db { incidents = (id, i) ∷ db.incidents }))

List-cases {ℓ} :
    {A : Type ℓ} (xs : List A) → (xs ≡ []) ⊎ ((a : A) × (rest : List A) × (xs ≡ a ∷ rest))
List-cases [] = inl refl
List-cases (a ∷ rest) = inr (a, rest, refl)

insert_incident-Filed :
    (id : ℕ) (input : CreateIncidentInput) (severity : Severity) (db db' : Db) (r : ℕ × Incident)
    → insert_incident id input severity db ≡ ok (r, db')
    → Filed id db db'
unfolding insert_incident
insert_incident-Filed id input severity db db' r h = elim (Option-cases (find id db.incidents)) [
  | inr (i, e) ↦ ground arith
  | inl e ↦ inr (r.1, e, ground arith)
]

-- What TryDedupe answers, and what it did.
abbrev Deduped : Option (ℕ × Incident) → Db → Db → Type 0
Deduped none db db1 = db1 ≡ db
Deduped (some _) db db1 =
    (k : ℕ) × (db1 ≡ record db { incidents = update k (add_report db.now) db.incidents })

merged_or_new-Filed :
    (id : ℕ) (input : CreateIncidentInput) (severity : Severity) (db db1 db' : Db)
    (o : Option (ℕ × Incident)) (r : (ℕ × Incident) × Bool)
    → Deduped o db db1
    → merged_or_new id input severity o db1 ≡ ok (r, db')
    → Filed id db db'
merged_or_new-Filed id input severity db db1 db' none r same h =
    let (row, db2, g, told) =
      bind-ok (insert_incident id input severity) (λ x. pure (x, false)) db1 db' r h in
    let same' : db2 ≡ db' = ground arith in
    rw (← same) (rw (← same') (insert_incident-Filed id input severity db1 db2 row g))
merged_or_new-Filed id input severity db db1 db' (some x) r (k, e) h = inl (k, ground arith)

module _ (distance : ℤ → ℤ → ℤ → ℤ → ℕ) where
  try_dedupe-Deduped :
      (lat lng : ℤ) (db db1 : Db) (o : Option (ℕ × Incident))
      → try_dedupe distance lat lng db ≡ ok (o, db1)
      → Deduped o db db1
  unfolding try_dedupe
  try_dedupe-Deduped lat lng db db1 o h =
      elim (List-cases (
        sort_by (λ (id, i). distance lat lng i.latitude i.longitude)
          (keep (λ (id, i). is_duplicate distance lat lng db.now i) db.incidents))) [
            | inl e ↦ ground arith
            | inr ((k, i), rest, e) ↦ go k i o (ground arith)
          ]
    where
      go :
          (k : ℕ) (i : Incident) (o : Option (ℕ × Incident))
          → (o ≡ some (k, add_report db.now i))
            × (db1 ≡ record db { incidents = update k (add_report db.now) db.incidents })
          → Deduped o db db1
      go k i none e = ground arith
      go k i (some x) e = (k, e.1)

  pub create_incident-Filed :
      (id : ℕ) (input : CreateIncidentInput) (db db' : Db) (r : (ℕ × Incident) × Bool)
      → create_incident distance id input db ≡ ok (r, db')
      → Filed id db db'
  unfolding create_incident validate_lat_lng
  create_incident-Filed id input db db' r h = elim (Option-cases (severity_of input.severity)) [
    | inl e ↦ ground arith
    | inr (severity, e) ↦
        elim (Result-cases (try_dedupe distance input.latitude input.longitude db)) [
          | inl (x, f) ↦ ground (arith, f)
          | inr ((o, db1), f) ↦
              merged_or_new-Filed id input severity db db1 db' o r
                (try_dedupe-Deduped input.latitude input.longitude db db1 o f) (ground (arith, f))
        ]
  ]

pub update_incident_status-ok :
    (id : ℕ) (status : String) (db db' : Db) (r : Incident)
    → update_incident_status (λ x. x) id status db ≡ ok (r, db')
    → (s : IncidentStatus) × (i : Incident) × (find id db.incidents ≡ some i)
      × (can_transition i.status s ≡ true)
      × (db' ≡ record db { incidents = update id (set_incident_status s db.now) db.incidents })
unfolding update_incident_status write_incident_status get_incident
update_incident_status-ok id status db db' r h = elim (Option-cases (incident_status_of status)) [
  | inl e ↦ ground arith
  | inr (s, e) ↦ elim (Option-cases (find id db.incidents)) [
    | inl f ↦ ground arith
    | inr (i, f) ↦
        let facts = find-update_self id (set_incident_status s db.now) db.incidents i f in
        (s, i, f, ground (arith, facts), ground (arith, facts))
  ]
]
