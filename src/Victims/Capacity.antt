-- ===== src/Victims/Capacity.antt =====
-- The occupancy of shelters and the people in them (AdmitTx in internal/shelter, Assign in internal/victim).
use crisis_link.Common.{
  ℕ, suc, ◌⊎◌, ◌≡◌, ◌≤◌, inl, inr, Bool, true, false, ◌&&◌, Option, none, some, ◌∷◌, arith, ◌==◌,
  if◌then◌else◌, Option-cases, Bool-cases,
}
use crisis_link.Table.{find, update, update_where, count_where, passes}
use crisis_link.Table.Laws.{
  Unique, update-Unique, find-update, find-update_self, count_where-update,
}
use crisis_link.Store.Rows.{Db, Shelter, Victim, VictimStatus, AggregateType, EventType, Payload}
use crisis_link.Store.Tx.{ok, err, after, after-keeps, shelter_not_found, Error}
use crisis_link.Outbox.{new_event}
use crisis_link.Shelters.{admit_tx, refusal, has_room, admit}
use crisis_link.Victims.{assign, is_registered, shelter_in}

abbrev pub same_shelter : ℕ → Option ℕ → Bool
same_shelter id none = false
same_shelter id (some j) = j == id

abbrev is_sheltered : VictimStatus → Bool
is_sheltered VictimStatus.sheltered = true
is_sheltered _ = false

-- The people in a shelter.
abbrev pub lives_in : ℕ → Victim → Bool
lives_in id v = is_sheltered v.status && same_shelter id v.shelter_id

abbrev pub occupancy_of : Option Shelter → ℕ
occupancy_of none = 0
occupancy_of (some s) = s.occupancy

pub record Capacity (db : Db) : Type 0 where
  pub people : Unique db.victims
  pub counted : (id : ℕ) → count_where (lives_in id) db.victims ≡ occupancy_of (find id db.shelters)
  pub within : (id : ℕ) (s : Shelter) → find id db.shelters ≡ some s → s.occupancy ≤ s.capacity

-- The database after an assignment.
abbrev pub assigned_db : ℕ → ℕ → Shelter → Db → Db
assigned_db victim_id shelter_id s db = record db {
  shelters = update_where shelter_id has_room (admit db.now) db.shelters;
  victims = update victim_id (shelter_in shelter_id db.now) db.victims;
  outbox =
      (
        db.next_event,
        new_event AggregateType.victim victim_id EventType.victim_assigned
            (Payload.assigned victim_id shelter_id (suc s.occupancy)) db.now,
      )
      ∷ db.outbox;
  next_event = suc db.next_event;
}

pub record Assignment (victim_id shelter_id : ℕ) (db db' : Db) : Type 0 where
  pub victim : Victim
  pub shelter : Shelter
  pub victim_found : find victim_id db.victims ≡ some victim
  pub unassigned : is_registered victim.status ≡ true
  pub shelter_found : find shelter_id db.shelters ≡ some shelter
  pub room : has_room shelter ≡ true
  pub db_after : db' ≡ assigned_db victim_id shelter_id shelter db

-- A person is admitted by an open shelter with room, and by no other.
admit_tx-cases :
    (id : ℕ) (db : Db)
    → ((e : Error) × (admit_tx id db ≡ err e))
      ⊎ ((s : Shelter) × (find id db.shelters ≡ some s)
          × (has_room s ≡ true)
          × (admit_tx id db
              ≡ ok (
                tt,
                record db { shelters = update_where id has_room (admit db.now) db.shelters },
              )))
unfolding admit_tx
admit_tx-cases id db = elim (Option-cases (find id db.shelters)) [
  | inl e ↦ inl (shelter_not_found, rw (e, passes))
  | inr (s, e) ↦ elim (Bool-cases (has_room s)) [
    | inl room ↦ inr (s, e, room, rw (e, passes) (rw room))
    | inr none_left ↦ inl (refusal (some s), rw (e, passes) (rw none_left))
  ]
]

pub assign-Assignment :
    (victim_id shelter_id : ℕ) (db : Db) (r : (ℕ × Victim) × (ℕ × Shelter)) (db' : Db)
    → assign victim_id shelter_id db ≡ ok (r, db')
    → Assignment victim_id shelter_id db db'
unfolding assign
assign-Assignment victim_id shelter_id db r db' h =
    elim (Option-cases (find victim_id db.victims)) [
      | inl e ↦ ground arith
      | inr (v, ev) ↦ elim (admit_tx-cases shelter_id db) [
        | inl (e, refused) ↦ ground (arith, refused)
        | inr (s, es, room, admitted) ↦ record {
          victim = v;
          shelter = s;
          victim_found = ev;
          unassigned = ground (arith, admitted);
          shelter_found = es;
          room = room;
          db_after = ground (
            arith,
            admitted,
            find-update_self shelter_id (λ x. if has_room x then admit db.now x else x) db.shelters
                s,
            find-update_self victim_id (shelter_in shelter_id db.now) db.victims v,
          );
        }
      ]
    ]

-- Assign, whether it commits or fails, keeps the occupancy of every shelter equal to the number of
-- people sheltered in it and within its capacity, and the ids of people unique.
pub assign-Capacity :
    (victim_id shelter_id : ℕ) (db : Db)
    → Capacity db
    → Capacity (after db (assign victim_id shelter_id db))
assign-Capacity victim_id shelter_id db c =
    after-keeps Capacity (assign victim_id shelter_id) db c (λ r db' h.
      let a = assign-Assignment victim_id shelter_id db r db' h in
      let f : Shelter → Shelter = λ x. if has_room x then admit db.now x else x in
      rw a.db_after (record {
        people = update-Unique victim_id (shelter_in shelter_id db.now) db.victims c.people;
        counted = λ id. ground (
          arith,
          c.counted id,
          count_where-update (lives_in id) victim_id (shelter_in shelter_id db.now) db.victims
              a.victim c.people a.victim_found,
          find-update id shelter_id f db.shelters,
        );
        within = λ id s e. ground (
          arith,
          c.within id,
          c.within id s,
          find-update id shelter_id f db.shelters,
          c.within id a.shelter,
        );
      }))
