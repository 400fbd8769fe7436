-- ===== src/Dispatches/Lifecycle.antt =====
-- The lifecycle of one dispatch (AdvanceStatus), and what its moves do to the incident.
use crisis_link.Common.{
  ℕ, ◌≡◌, ◌+◌, ◌≤◌, ◌<◌, inl, inr, ◌⊎◌, true, some, List, [], ◌∷◌, arith, if◌then◌else◌, Bool-cases,
}
use crisis_link.Table.{find, update, count_where}
use crisis_link.Table.Laws.{Unique, find-update_self, count_where-update}
use crisis_link.Store.Rows.{Db, Incident, IncidentStatus, Dispatch, DispatchStatus}
use crisis_link.Store.Tx.{ok, err, after, committed, Result-cases, illegal_dispatch_transition}
use crisis_link.Incidents.{is_dispatched, set_incident_status}
use crisis_link.Dispatches.{can_transition_dispatch, set_dispatch_status, serves}
use crisis_link.Dispatches.Transactions.{advance_status}
use crisis_link.Dispatches.Preservation.{legal-active}
use crisis_link.Dispatches.Outcomes.{resolves, advance_status-Advance}

-- How far a dispatch has come.
abbrev pub progress : DispatchStatus → ℕ
progress DispatchStatus.reserved = 0
progress DispatchStatus.en_route = 1
progress DispatchStatus.on_scene = 2
progress DispatchStatus.completed = 3
progress DispatchStatus.cancelled = 3

progress_grows :
    (from to : DispatchStatus)
    → can_transition_dispatch from to ≡ true
    → progress from < progress to
unfolding can_transition_dispatch
progress_grows from to h = ground arith

progress-le : (s : DispatchStatus) → progress s ≤ 3
progress-le s = ground arith

-- The requests to advance one dispatch, in the order in which they get its lock; the answers that
-- commit are counted.
pub advance_all : ℕ → List DispatchStatus → Db → ℕ × Db
advance_all id [] db = (0, db)
advance_all id (s ∷ rest) db =
    let answer = advance_status id s db in
    let later = advance_all id rest (after db answer) in (committed answer + later.0, later.1)

advance_all-progress :
    (id : ℕ) (requests : List DispatchStatus) (db : Db) (d : Dispatch)
    → find id db.dispatches ≡ some d
    → (advance_all id requests db).0 + progress d.status ≤ 3
unfolding advance_all
advance_all-progress id [] db d found = omega (arith, progress-le d.status)
advance_all-progress id (s ∷ rest) db d found = elim (Result-cases (advance_status id s db)) [
  | inl (e, refused) ↦ rw refused (omega (arith, advance_all-progress id rest db d found))
  | inr ((x, db'), moved) ↦
      let a = advance_status-Advance id s db x db' moved in
      let same : a.cur ≡ d = ground arith in
      let grows : progress d.status < progress s = progress_grows d.status s (ground arith) in
      rw moved (
        omega (
          arith,
          grows,
          advance_all-progress id rest db' (set_dispatch_status s db.now d) (
              rw a.db_after
                (find-update_self id (set_dispatch_status s db.now) db.dispatches d found)),
        ))
]

-- Of all requests to move one dispatch, whatever they ask for and in whatever order, AdvanceStatus
-- commits at most three.
pub advance_all-le-three :
    (id : ℕ) (requests : List DispatchStatus) (db : Db) (d : Dispatch)
    → find id db.dispatches ≡ some d
    → (advance_all id requests db).0 ≤ 3
advance_all-le-three id requests db d found =
    omega (arith, advance_all-progress id requests db d found)

-- A dispatch that has ended refuses every move.
pub advance_ended :
    (id : ℕ) (s : DispatchStatus) (db : Db) (d : Dispatch)
    → find id db.dispatches ≡ some d
    → progress d.status ≡ 3
    → advance_status id s db ≡ err illegal_dispatch_transition
unfolding advance_status
advance_ended id s db d found ended = ground arith

-- What a move of the dispatch `d` of the incident `i` does to the incidents.
abbrev pub IncidentFollows : DispatchStatus → Db → Db → Dispatch → Incident → Type 0
IncidentFollows s db db' d i =
    ((s ≡ DispatchStatus.completed)
      × (count_where (serves d.incident_id) db'.dispatches ≡ 0)
      × (find d.incident_id db'.incidents
          ≡ some (
              if is_dispatched i.status
              then set_incident_status IncidentStatus.resolved db.now i
              else i)))
    ⊎ (¬ ((s ≡ DispatchStatus.completed) × (count_where (serves d.incident_id) db'.dispatches ≡ 0))
        × (db'.incidents ≡ db.incidents))

-- A move that commits resolves the incident of the dispatch, if that was dispatched, exactly when
-- it completes the dispatch and no active one serves the incident after it; otherwise it leaves
-- all incidents as they are.
pub advance_status_incident :
    (id : ℕ) (s : DispatchStatus) (db db' : Db) (x : ℕ × Dispatch) (d : Dispatch) (i : Incident)
    → find id db.dispatches ≡ some d
    → find d.incident_id db.incidents ≡ some i
    → advance_status id s db ≡ ok (x, db')
    → IncidentFollows s db db' d i
advance_status_incident id s db db' x d i found fi h =
    let a = advance_status-Advance id s db x db' h in
    let same : a.cur ≡ d = ground arith in
    rw a.db_after (
      rw same
        (elim (Bool-cases
          (resolves s d.incident_id (update id (set_dispatch_status s db.now) db.dispatches))) [
            | inl e ↦ inl (
              ground arith,
              ground arith,
              ground (
                arith,
                find-update_self d.incident_id
                    (λ j.
                      if is_dispatched j.status
                      then set_incident_status IncidentStatus.resolved db.now j
                      else j)
                    db.incidents i,
              ),
            )
            | inr e ↦ inr (λ (p, q). ground arith, ground arith)
          ]))

-- If ids are unique, cancelling by AdvanceStatus the only active dispatch of a dispatched incident
-- leaves no active dispatch to it, and the incident unchanged, that is dispatched.
pub cancel_strands_incident :
    (id : ℕ) (db db' : Db) (x : ℕ × Dispatch) (d : Dispatch) (i : Incident)
    → find id db.dispatches ≡ some d
    → find d.incident_id db.incidents ≡ some i
    → i.status ≡ IncidentStatus.dispatched
    → count_where (serves d.incident_id) db.dispatches ≡ 1
    → Unique db.dispatches
    → advance_status id DispatchStatus.cancelled db ≡ ok (x, db')
    → (count_where (serves d.incident_id) db'.dispatches ≡ 0)
      × (find d.incident_id db'.incidents ≡ some i)
cancel_strands_incident id db db' x d i found fi is last ids h =
    let a = advance_status-Advance id DispatchStatus.cancelled db x db' h in
    let same : a.cur ≡ d = ground arith in
    let act = legal-active d.status DispatchStatus.cancelled (ground arith) in
    rw a.db_after (
      ground (
        arith,
        count_where-update (serves d.incident_id) id
            (set_dispatch_status DispatchStatus.cancelled db.now) db.dispatches d ids found,
      ),
      fi,
    )
