-- ===== src/System/Filed.antt =====
-- Incidents and the relay under the invariant of the database.
use Prim.Native.String.{String}
use crisis_link.Common.{ℕ, refl, inl, inr, Bool, Option, List, ◌∷◌, arith, ◌∙◌}
use crisis_link.Common.Int.{ℤ}
use crisis_link.Table.{update}
use crisis_link.Table.Laws.{update-Unique, find-update}
use crisis_link.Store.Rows.{Db, OutboxEvent}
use crisis_link.Store.Tx.{Commits, after-ok}
use crisis_link.Incidents.{
  CreateIncidentInput, create_incident, update_incident_status, can_transition, set_incident_status,
  add_report,
}
use crisis_link.Incidents.Committed.{create_incident-Filed, update_incident_status-ok}
use crisis_link.Outbox.Publishing.{publish_batch}
use crisis_link.Outbox.Budget.{publish_batch-InBudget, InBudget}
use crisis_link.Table.Every.{Every}
use crisis_link.Outbox.Frame.{publish_batch-OutboxOnly, Lasting}
use crisis_link.System.Sound.{Sound, WellFormed-frame, Seating-frame, Capacity-frame, begins}

module _ (distance : ℤ → ℤ → ℤ → ℤ → ℕ) where
  pub create_incident-Sound :
      (id : ℕ) (input : CreateIncidentInput) (db : Db)
      → Sound db
      → Commits Sound (create_incident distance id input db)
  create_incident-Sound id input db s r db' h =
      let w = s.dispatching in
      elim (create_incident-Filed distance id input db db' r h) [
        | inl (k, e) ↦
            let after_it : Db = record db {
              incidents = update k (add_report db.now) db.incidents;
            } in
            rw e (record {
              dispatching = record {
                ids = w.ids;
                one_active = w.one_active;
                held = w.held;
                attended = λ i d f a. ground (
                  arith,
                  w.attended i d f a,
                  find-update d.incident_id k (add_report db.now) db.incidents,
                );
              };
              seating = Seating-frame db after_it refl refl s.seating;
              capacity = Capacity-frame db after_it refl refl s.capacity;
              budget = s.budget;
              unit_ids = s.unit_ids;
              incident_ids = update-Unique k (add_report db.now) db.incidents s.incident_ids;
              recorded = s.recorded;
            })
        | inr (x, fresh, e) ↦
            let after_it : Db = record db { incidents = (id, x) ∷ db.incidents } in
            rw e (record {
              dispatching = record {
                ids = w.ids;
                one_active = w.one_active;
                held = w.held;
                attended = λ i d f a. ground (arith, w.attended i d f a);
              };
              seating = Seating-frame db after_it refl refl s.seating;
              capacity = Capacity-frame db after_it refl refl s.capacity;
              budget = s.budget;
              unit_ids = s.unit_ids;
              incident_ids = (fresh, s.incident_ids);
              recorded = s.recorded;
            })
      ]

-- UpdateStatus of an incident, with nothing between its read and its write.
pub update_incident_status-Sound :
    (id : ℕ) (status : String) (db : Db)
    → Sound db
    → Commits Sound (update_incident_status (λ x. x) id status db)
unfolding can_transition
update_incident_status-Sound id status db s r db' h =
    let (x, i, found, legal, e) = update_incident_status-ok id status db db' r h in
    let w = s.dispatching in
    let after_it : Db = record db {
      incidents = update id (set_incident_status x db.now) db.incidents;
    } in
    rw e (record {
      dispatching = record {
        ids = w.ids;
        one_active = w.one_active;
        held = w.held;
        attended = λ k d f a. ground (
          arith,
          w.attended k d f a,
          legal,
          find-update d.incident_id id (set_incident_status x db.now) db.incidents,
        );
      };
      seating = Seating-frame db after_it refl refl s.seating;
      capacity = Capacity-frame db after_it refl refl s.capacity;
      budget = s.budget;
      unit_ids = s.unit_ids;
      incident_ids = update-Unique id (set_incident_status x db.now) db.incidents s.incident_ids;
      recorded = s.recorded;
    })

pub begins-Lasting : Lasting begins
begins-Lasting = record { failing = λ n now cause e. refl; publishing = λ now e. refl }

module _ (publish : ℕ × OutboxEvent → Option (List ℕ)) where
  pub publish_batch-Sound :
      (locked : ℕ → Bool) (limit : ℕ) (db : Db)
      → Sound db
      → Commits Sound (publish_batch publish locked limit db)
  publish_batch-Sound locked limit db s res db' h =
      let o = publish_batch-OutboxOnly begins begins-Lasting publish locked limit db res db' h in
      let after_it : Db = record db { outbox = db'.outbox } in
      let kept =
        after-ok (λ x. Every InBudget x.outbox) db db' (publish_batch publish locked limit db) res h
          (publish_batch-InBudget publish locked limit db s.budget) in
      rw o.others (record {
        dispatching = WellFormed-frame db after_it refl refl refl s.dispatching;
        seating = Seating-frame db after_it refl refl s.seating;
        capacity = Capacity-frame db after_it refl refl s.capacity;
        budget = kept;
        unit_ids = s.unit_ids;
        incident_ids = s.incident_ids;
        recorded = o.counted ∙ s.recorded;
      })
