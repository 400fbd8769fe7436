-- ===== src/Dispatches/Preservation.antt =====
-- The invariant of the transactions of internal/dispatch, for the databases that they leave.
use crisis_link.Common.{
  ℕ, ◌≡◌, Bool, refl, if◌then◌else◌, inl, inr, true, false, some, ◌∷◌, arith, not, ◌&&◌, ◌==◌,
  Bool-cases,
}
use crisis_link.Table.{Table, find, update, count_where}
use crisis_link.Table.Laws.{Unique, update-Unique, find-update, find-update_self, count_where-zero}
use crisis_link.Store.Rows.{
  Db, RescueUnit, Incident, Dispatch, DispatchStatus, UnitStatus, IncidentStatus, EventType,
}
use crisis_link.Units.{set_status, is_available}
use crisis_link.Incidents.{is_undispatched, is_dispatched, set_incident_status}
use crisis_link.Dispatches.{
  new_dispatch, set_dispatch_status, is_active_dispatch, can_transition_dispatch, serves,
  unit_status_for_dispatch, holds_unit,
}
use crisis_link.Dispatches.Outcomes.{Reservation, reserved_db, advanced_db, resolves}
use crisis_link.Dispatches.Optimistic.{Claim, swapped_db}
use crisis_link.Dispatches.Replaced.{
  Replacement, without_old, with_new, moved_units, promoted, replaced_db, released_incidents,
  with_replacement,
}
use crisis_link.Dispatches.Invariant.{
  Held-set_where, OneActive, Held, Attended, OneActive-insert, OneActive-set, Held-set_unit,
  Held-insert, Held-set, Attended-insert, Attended-set, Attended-move,
}

pub record WellFormed (db : Db) : Type 0 where
  pub ids : Unique db.dispatches
  pub one_active : OneActive db.dispatches
  pub held : Held db.units db.dispatches
  pub attended : Attended db.incidents db.dispatches

-- The incident's half of a reservation, by either path.
reserved-Attended :
    (id incident_id unit_id : ℕ) (i : Incident) (db : Db)
    → WellFormed db
    → find incident_id db.incidents ≡ some i
    → Attended
        (promoted incident_id db)
        ((id, new_dispatch incident_id unit_id db.now) ∷ db.dispatches)
reserved-Attended id incident_id unit_id i db w found =
    Attended-insert id incident_id unit_id db.now (promoted incident_id db) db.dispatches
      (Attended-move incident_id db.now _ IncidentStatus.dispatched db.incidents db.dispatches
        w.attended (λ k d f a e. refl))
      (ground (
        arith,
        find-update_self incident_id
            (λ a.
              if is_undispatched a.status
              then set_incident_status IncidentStatus.dispatched db.now a
              else a)
            db.incidents i,
      ))

pub reserved_db-WellFormed :
    (id incident_id unit_id : ℕ) (db : Db)
    → WellFormed db
    → Reservation id incident_id unit_id db
    → WellFormed (reserved_db id incident_id unit_id db)
reserved_db-WellFormed id incident_id unit_id db w r = record {
  ids = (r.id_fresh, w.ids);
  one_active =
      OneActive-insert id incident_id unit_id db.now db.dispatches w.one_active r.unit_unheld;
  held =
      Held-insert id incident_id unit_id db.now
        (update unit_id (set_status UnitStatus.reserved db.now) db.units) db.dispatches
        (Held-set_unit unit_id db.now UnitStatus.reserved db.units db.dispatches w.held
          (λ i d f h. refl))
        (ground (
          arith,
          find-update_self unit_id (set_status UnitStatus.reserved db.now) db.units r.unit,
        ));
  attended = reserved-Attended id incident_id unit_id r.incident db w r.incident_found;
}

-- A swap that met the version that was read.
pub swapped_db-WellFormed :
    (id incident_id unit_id : ℕ) (db seen : Db)
    → WellFormed seen
    → (c : Claim id incident_id unit_id db seen)
    → WellFormed (swapped_db c.unit.version id incident_id unit_id seen)
swapped_db-WellFormed id incident_id unit_id db seen w c =
    let same : RescueUnit → Bool = λ u. u.version == c.unit.version in
    record {
      ids = (c.id_fresh, w.ids);
      one_active =
          OneActive-insert id incident_id unit_id seen.now seen.dispatches w.one_active
            c.unit_unheld;
      held =
          Held-insert id incident_id unit_id seen.now _ seen.dispatches
            (Held-set_where unit_id seen.now same seen.units seen.dispatches w.held)
            (ground (
              arith,
              find-update_self unit_id
                  (λ u. if same u then set_status UnitStatus.reserved seen.now u else u) seen.units
                  c.unit_then,
            ));
      attended = reserved-Attended id incident_id unit_id c.incident seen w c.incident_found;
    }

-- Once a dispatch has ended, no active one holds its unit.
unit_let_go :
    (id now : ℕ) (s : DispatchStatus) (cur : Dispatch) (ds : Table Dispatch)
    → OneActive ds
    → find id ds ≡ some cur
    → is_active_dispatch cur.status ≡ true
    → (i : ℕ) (d : Dispatch) → find i (update id (set_dispatch_status s now) ds) ≡ some d
    → holds_unit cur.unit_id d ≡ true
    → is_available (unit_status_for_dispatch s) ≡ false
unit_let_go id now s cur ds one found act i d fi h =
    ground (arith, find-update i id (set_dispatch_status s now) ds, one i id d cur)

pub legal-active :
    (from to : DispatchStatus)
    → can_transition_dispatch from to ≡ true
    → is_active_dispatch from ≡ true
unfolding can_transition_dispatch
legal-active from to h = ground arith

pub advanced_db-WellFormed :
    (id : ℕ) (s : DispatchStatus) (cur : Dispatch) (db : Db)
    → WellFormed db
    → find id db.dispatches ≡ some cur
    → can_transition_dispatch cur.status s ≡ true
    → WellFormed (advanced_db id s cur db)
advanced_db-WellFormed id s cur db w found legal =
    let act = legal-active cur.status s legal in
    let ds' : Table Dispatch = update id (set_dispatch_status s db.now) db.dispatches in
    let att = Attended-set id db.now s cur db.incidents db.dispatches w.attended found act in
    record {
      ids = update-Unique id (set_dispatch_status s db.now) db.dispatches w.ids;
      one_active = OneActive-set id db.now s cur db.dispatches w.one_active found act;
      held =
          Held-set_unit cur.unit_id db.now (unit_status_for_dispatch s) db.units ds'
            (Held-set id db.now s cur db.units db.dispatches w.held found act)
            (unit_let_go id db.now s cur db.dispatches w.one_active found act);
      attended = elim (Bool-cases (resolves s cur.incident_id ds')) [
        | inl e ↦ rw e (
            Attended-move cur.incident_id db.now (λ i. is_dispatched i.status)
              IncidentStatus.resolved db.incidents ds' att (λ i d f a h. refl))
        | inr e ↦ rw e att
      ];
    }

-- After the old dispatch was cancelled and the unit moved.
replaced-Held :
    (id old_id new_incident new_unit : ℕ) (event : EventType) (db db' : Db)
    → WellFormed db
    → (r : Replacement id old_id new_incident new_unit event db db')
    → Held (moved_units r.old.unit_id new_unit db) (with_new id old_id new_incident new_unit db)
replaced-Held id old_id new_incident new_unit event db db' w r =
    let ds' = without_old old_id db in
    let now = db.now in
    let old = r.old in
    let kept =
      Held-set old_id now DispatchStatus.cancelled old db.units db.dispatches w.held r.found
        r.active in
    elim (Bool-cases (old.unit_id == new_unit)) [
      | inl same ↦ rw same (
          Held-insert id new_incident new_unit now db.units ds' kept
            (ground (arith, w.held old_id old r.found r.active)))
      | inr other ↦ rw other (
          Held-insert id new_incident new_unit now _ ds'
            (Held-set_unit new_unit now UnitStatus.reserved _ ds'
              (Held-set_unit old.unit_id now UnitStatus.available db.units ds' kept (
                unit_let_go old_id now DispatchStatus.cancelled old db.dispatches w.one_active
                  r.found r.active))
              (λ i d f h. refl))
            (ground (
              arith,
              find-update_self new_unit (set_status UnitStatus.reserved now)
                  (update old.unit_id (set_status UnitStatus.available now) db.units),
              find-update new_unit old.unit_id (set_status UnitStatus.available now) db.units,
              find-update new_unit new_unit (set_status UnitStatus.reserved now)
                  (update old.unit_id (set_status UnitStatus.available now) db.units),
            )))
    ]

replaced-Attended :
    (id old_id new_incident new_unit : ℕ) (event : EventType) (db db' : Db)
    → WellFormed db
    → (r : Replacement id old_id new_incident new_unit event db db')
    → Attended
        (released_incidents r.old.incident_id new_incident
          (with_replacement id old_id new_incident new_unit r.old db))
        (with_new id old_id new_incident new_unit db)
replaced-Attended id old_id new_incident new_unit event db db' w r =
    let ds = with_new id old_id new_incident new_unit db in
    let now = db.now in
    let old = r.old in
    let served =
      Attended-insert id new_incident new_unit now (promoted new_incident db)
        (without_old old_id db)
        (Attended-move new_incident now _ IncidentStatus.dispatched db.incidents
          (without_old old_id db)
          (Attended-set old_id now DispatchStatus.cancelled old db.incidents db.dispatches
            w.attended r.found r.active)
          (λ i d f a e. refl))
        (ground (
          arith,
          find-update_self new_incident
              (λ i.
                if is_undispatched i.status
                then set_incident_status IncidentStatus.dispatched now i
                else i)
              db.incidents r.incident,
        )) in
    elim (Bool-cases
      (not (old.incident_id == new_incident) && count_where (serves old.incident_id) ds == 0)) [
        | inl e ↦ rw e (
            Attended-move old.incident_id now (λ i. is_dispatched i.status) IncidentStatus.verified
              (promoted new_incident db) ds served
              (λ i d f a h. ground (arith, count_where-zero (serves old.incident_id) ds i d)))
        | inr e ↦ rw e served
      ]

pub replaced_db-WellFormed :
    (id old_id new_incident new_unit : ℕ) (event : EventType) (db db' : Db)
    → WellFormed db
    → (r : Replacement id old_id new_incident new_unit event db db')
    → WellFormed (replaced_db id old_id new_incident new_unit event r.old db)
replaced_db-WellFormed id old_id new_incident new_unit event db db' w r = record {
  ids = (
    r.id_fresh,
    update-Unique old_id (set_dispatch_status DispatchStatus.cancelled db.now) db.dispatches w.ids,
  );
  one_active =
      OneActive-insert id new_incident new_unit db.now (without_old old_id db)
        (OneActive-set old_id db.now DispatchStatus.cancelled r.old db.dispatches w.one_active
          r.found r.active)
        r.unit_unheld;
  held = replaced-Held id old_id new_incident new_unit event db db' w r;
  attended = replaced-Attended id old_id new_incident new_unit event db db' w r;
}
