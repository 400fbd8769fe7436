-- ===== src/Victims.antt =====
-- internal/victim: intake, and the assignment of a person to a shelter.
pub mod Capacity
pub mod Register
use Prim.Native.String.{String}
use crisis_link.Common.{ℕ, Bool, true, false, Option, none, some, ◌∷◌, if◌then◌else◌, is_some}
use crisis_link.Common.Int.{ℤ}
use crisis_link.Table.{find, update}
use crisis_link.Store.Rows.{Db, Victim, VictimStatus, Shelter, AggregateType, EventType, Payload}
use crisis_link.Store.Tx.{
  Tx, ok, err, pure, raise, gets, modify, guard, row_or, ◌>>=◌, ◌>>◌, victim_not_found,
  victim_already_assigned, unique_violation, no_rows,
}
use crisis_link.Geo.{validate_lat_lng}
use crisis_link.Shelters.{admit_tx, get_shelter}
use crisis_link.Outbox.{write_tx}

pub record CreateVictimInput : Type 0 where
  pub name : String
  pub notes : String
  pub latitude : ℤ
  pub longitude : ℤ

-- INSERT INTO victims: the fresh id is an argument.
unfoldable pub insert_victim : ℕ → CreateVictimInput → Tx (ℕ × Victim)
insert_victim id input db =
    let row : Victim = record {
      name = input.name;
      status = VictimStatus.registered;
      notes = input.notes;
      shelter_id = none;
      latitude = input.latitude;
      longitude = input.longitude;
      created_at = db.now;
      updated_at = db.now;
    } in
    if is_some (find id db.victims)
    then err unique_violation
    else ok ((id, row), record db { victims = (id, row) ∷ db.victims })

-- VictimService.Create
unfoldable pub create_victim : ℕ → CreateVictimInput → Tx (ℕ × Victim)
unfolding insert_victim
create_victim id input = do validate_lat_lng input.latitude input.longitude; insert_victim id input

abbrev pub is_registered : VictimStatus → Bool
is_registered VictimStatus.registered = true
is_registered _ = false

abbrev pub shelter_in : ℕ → ℕ → Victim → Victim
shelter_in shelter_id now v = record v {
  shelter_id = some shelter_id;
  status = VictimStatus.sheltered;
  updated_at = now;
}

-- VictimRepository.Assign
unfoldable pub assign : ℕ → ℕ → Tx ((ℕ × Victim) × (ℕ × Shelter))
unfolding get_shelter write_tx
assign victim_id shelter_id = do
  cur ← row_or victim_not_found (← gets (λ db. find victim_id db.victims))
  guard (is_registered cur.status) victim_already_assigned
  admit_tx shelter_id
  modify λ db. record db { victims = update victim_id (shelter_in shelter_id db.now) db.victims }
  v ← row_or no_rows (← gets (λ db. find victim_id db.victims))
  sh ← get_shelter shelter_id
  write_tx AggregateType.victim victim_id EventType.victim_assigned
      (Payload.assigned victim_id shelter_id sh.occupancy)
  pure ((victim_id, v), (shelter_id, sh))
