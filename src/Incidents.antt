-- ===== src/Incidents.antt =====
-- internal/incident: reporting with deduplication, and the status machine.
pub mod Reports
pub mod Committed
use Prim.Native.String.{String}
use text.Mathlib.Text.{◌==◌ as str_eq}
use crisis_link.Common.{
  ℕ, ◌+◌, ◌*◌, Bool, true, false, ◌&&◌, Option, none, some, List, [], ◌∷◌, ltb, leb, if◌then◌else◌,
  exists_in, keep, is_some,
}
use crisis_link.Common.Int.{ℤ}
use crisis_link.Common.Sort.{sort_by}
use crisis_link.Table.{find, update, update_where}
use crisis_link.Store.Rows.{Db, Incident, IncidentStatus, Severity}
use crisis_link.Store.Tx.{
  Tx, ok, err, pure, gets, modify, guard, row_or, ◌>>=◌, ◌>>◌, incident_not_found, unique_violation,
  invalid_severity, invalid_status, illegal_transition,
}
use crisis_link.Geo.{validate_lat_lng}

-- The test `status IN ('reported','verified')`.
abbrev pub is_undispatched : IncidentStatus → Bool
is_undispatched IncidentStatus.reported = true
is_undispatched IncidentStatus.verified = true
is_undispatched _ = false

abbrev pub is_dispatched : IncidentStatus → Bool
is_dispatched IncidentStatus.dispatched = true
is_dispatched _ = false

-- The test `== StatusResolved || == StatusCancelled`.
abbrev pub is_closed : IncidentStatus → Bool
is_closed IncidentStatus.resolved = true
is_closed IncidentStatus.cancelled = true
is_closed _ = false

abbrev pub set_incident_status : IncidentStatus → ℕ → Incident → Incident
set_incident_status s now i = record i { status = s; updated_at = now }

unfoldable pub status_tx : ℕ → Tx IncidentStatus
status_tx id = do i ← row_or incident_not_found (← gets (λ db. find id db.incidents)); pure i.status

unfoldable pub mark_dispatched : ℕ → Tx (Unit {0})
mark_dispatched id = modify λ db. record db {
  incidents =
      update_where id (λ i. is_undispatched i.status)
        (set_incident_status IncidentStatus.dispatched db.now) db.incidents;
}

unfoldable pub resolve_if_dispatched : ℕ → Tx (Unit {0})
resolve_if_dispatched id = modify λ db. record db {
  incidents =
      update_where id (λ i. is_dispatched i.status)
        (set_incident_status IncidentStatus.resolved db.now) db.incidents;
}

unfoldable pub revert_to_verified : ℕ → Tx (Unit {0})
revert_to_verified id = modify λ db. record db {
  incidents =
      update_where id (λ i. is_dispatched i.status)
        (set_incident_status IncidentStatus.verified db.now) db.incidents;
}

unfoldable pub get_incident : ℕ → Tx Incident
get_incident id = do i ← gets (λ db. find id db.incidents); row_or incident_not_found i

abbrev pub allowed_transitions : IncidentStatus → List IncidentStatus
allowed_transitions IncidentStatus.reported =
    IncidentStatus.verified ∷ IncidentStatus.cancelled ∷ []
allowed_transitions IncidentStatus.verified =
    IncidentStatus.dispatched ∷ IncidentStatus.cancelled ∷ []
allowed_transitions IncidentStatus.dispatched =
    IncidentStatus.resolved ∷ IncidentStatus.cancelled ∷ []
allowed_transitions IncidentStatus.resolved = []
allowed_transitions IncidentStatus.cancelled = []

abbrev same_status : IncidentStatus → IncidentStatus → Bool
same_status IncidentStatus.reported IncidentStatus.reported = true
same_status IncidentStatus.verified IncidentStatus.verified = true
same_status IncidentStatus.dispatched IncidentStatus.dispatched = true
same_status IncidentStatus.resolved IncidentStatus.resolved = true
same_status IncidentStatus.cancelled IncidentStatus.cancelled = true
same_status _ _ = false

unfoldable pub can_transition : IncidentStatus → IncidentStatus → Bool
can_transition from to = exists_in (λ allowed. same_status allowed to) (allowed_transitions from)

-- The keys of allowedTransitions and of validSeverities, with the constant that a text names.
unfoldable pub incident_status_of : String → Option IncidentStatus
incident_status_of s =
    if str_eq s "reported"
    then some IncidentStatus.reported
    else if str_eq s "verified"
    then some IncidentStatus.verified
    else if str_eq s "dispatched"
    then some IncidentStatus.dispatched
    else if str_eq s "resolved"
    then some IncidentStatus.resolved
    else if str_eq s "cancelled"
    then some IncidentStatus.cancelled
    else none

unfoldable pub severity_of : String → Option Severity
severity_of s =
    if str_eq s "low"
    then some Severity.low
    else if str_eq s "medium"
    then some Severity.medium
    else if str_eq s "high"
    then some Severity.high
    else if str_eq s "critical"
    then some Severity.critical
    else none

-- IncidentRepository.UpdateStatus
unfoldable pub write_incident_status : ℕ → IncidentStatus → Tx Incident
unfolding get_incident
write_incident_status id s = do
  get_incident id
  modify λ db. record db { incidents = update id (set_incident_status s db.now) db.incidents }
  get_incident id

-- IncidentService.UpdateStatus reads and writes in two statements with no transaction round them:
-- `between` is what the others commit in between.
unfoldable pub update_incident_status : (Db → Db) → ℕ → String → Tx Incident
unfolding get_incident
update_incident_status between id status = do
  new_status ← row_or invalid_status (incident_status_of status)
  i ← get_incident id
  guard (can_transition i.status new_status) illegal_transition
  modify between
  write_incident_status id new_status

pub record CreateIncidentInput : Type 0 where
  pub reporter_id : ℕ
  pub title : String
  pub description : String
  pub severity : String
  pub latitude : ℤ
  pub longitude : ℤ

abbrev pub dedupe_radius_meters : ℕ
dedupe_radius_meters = 100

abbrev pub dedupe_window_minutes : ℕ
dedupe_window_minutes = 15

-- The test `status IN ('reported', 'verified', 'dispatched')`.
abbrev pub is_open : IncidentStatus → Bool
is_open IncidentStatus.resolved = false
is_open IncidentStatus.cancelled = false
is_open _ = true

abbrev pub add_report : ℕ → Incident → Incident
add_report now i = record i { report_count = i.report_count + 1; updated_at = now }

unfoldable pub insert_incident : ℕ → CreateIncidentInput → Severity → Tx (ℕ × Incident)
insert_incident id input severity db =
    let row : Incident = record {
      reporter_id = input.reporter_id;
      title = input.title;
      description = input.description;
      severity = severity;
      status = IncidentStatus.reported;
      report_count = 1;
      latitude = input.latitude;
      longitude = input.longitude;
      created_at = db.now;
      updated_at = db.now;
    } in
    if is_some (find id db.incidents)
    then err unique_violation
    else ok ((id, row), record db { incidents = (id, row) ∷ db.incidents })

abbrev pub merged_or_new :
    ℕ → CreateIncidentInput → Severity → Option (ℕ × Incident) → Tx ((ℕ × Incident) × Bool)
merged_or_new id input severity (some duplicate) = pure (duplicate, true)
merged_or_new id input severity none = do row ← insert_incident id input severity; pure (row, false)

-- The distance in metres is PostGIS's.
module _ (distance : ℤ → ℤ → ℤ → ℤ → ℕ) where
  abbrev pub is_duplicate : ℤ → ℤ → ℕ → Incident → Bool
  is_duplicate lat lng now i =
      is_open i.status
      && ltb now (i.created_at + dedupe_window_minutes * 60)
      && leb (distance lat lng i.latitude i.longitude) dedupe_radius_meters

  -- The nearest match, whose count the statement raises; `none` is pgx.ErrNoRows.
  unfoldable pub try_dedupe : ℤ → ℤ → Tx (Option (ℕ × Incident))
  try_dedupe lat lng db =
      elim (sort_by (λ (id, i). distance lat lng i.latitude i.longitude)
        (keep (λ (id, i). is_duplicate lat lng db.now i) db.incidents)) [
          | [] ↦ ok (none, db)
          | (id, i) ∷ _ ↦ ok (
            some (id, add_report db.now i),
            record db { incidents = update id (add_report db.now) db.incidents },
          )
        ]

  -- IncidentService.Create; the flag says whether the report was merged.
  unfoldable pub create_incident : ℕ → CreateIncidentInput → Tx ((ℕ × Incident) × Bool)
  unfolding try_dedupe insert_incident
  create_incident id input = do
    severity ← row_or invalid_severity (severity_of input.severity)
    validate_lat_lng input.latitude input.longitude
    duplicate ← try_dedupe input.latitude input.longitude
    merged_or_new id input severity duplicate
