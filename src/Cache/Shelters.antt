-- ===== src/Cache/Shelters.antt =====
-- The shelters behind the cache (GetByID and UpdateStatus of shelter/service.go, and Assign of
-- victim/service.go): every read and write of a shelter in one order. The database's time is in
-- seconds, Redis's in nanoseconds.
use Prim.Native.String.{String}
use crisis_link.Common.{
  ℕ, ◌+◌, ◌*◌, Bool, true, Option, none, some, List, [], ◌∷◌, ◌==◌, if◌then◌else◌,
}
use crisis_link.Store.Rows.{Db, Shelter}
use crisis_link.Store.Tx.{Result, ok, err, after}
use crisis_link.Shelters.{get_shelter, update_shelter_status}
use crisis_link.Victims.{assign}
use crisis_link.Cache.{Entry, second, shelter_ttl, get_json, set_json, del}

-- The database, and the keys in Redis by the shelters' ids.
pub record Cached : Type 0 where
  pub db : Db
  pub keys : ℕ → Option (Entry Shelter)

abbrev pub set_key :
    ℕ → Option (Entry Shelter) → (ℕ → Option (Entry Shelter)) → ℕ → Option (Entry Shelter)
set_key id entry keys k = if k == id then entry else keys k

abbrev pub clock : Db → ℕ
clock db = db.now * second

-- The backfill of GetOrLoad after the loader's answer; a failure is not cached.
abbrev pub loaded :
    (up : Bool)
    → (draw id : ℕ) → Option (Entry Shelter)
    → Result (Shelter × Db)
    → Cached
    → Result Shelter × Cached
loaded up draw id entry (err e) s = (err e, record s { keys = set_key id entry s.keys })
loaded up draw id entry (ok (sh, db')) s = (
  ok sh,
  record s { keys = set_key id (set_json up draw (clock s.db) sh shelter_ttl entry) s.keys },
)

-- GetOrLoad after its lookup.
unfoldable pub after_lookup :
    (up : Bool)
    → (draw id : ℕ) → Option Shelter
    → Option (Entry Shelter)
    → Cached
    → Result Shelter × Cached
unfolding get_shelter set_json
after_lookup up draw id none entry s = loaded up draw id entry (get_shelter id s.db) s
after_lookup up draw id (some sh) entry s = (ok sh, record s { keys = set_key id entry s.keys })

-- ShelterService.GetByID. The lookup under singleflight is left out: it meets what the first has
-- met.
unfoldable pub get_cached : (up : Bool) → (draw id : ℕ) → Cached → Result Shelter × Cached
unfolding get_json after_lookup
get_cached up draw id s =
    let (hit, entry) = get_json up (clock s.db) (s.keys id) in after_lookup up draw id hit entry s

abbrev pub committed_or {ℓ} : {A : Type ℓ} → (up : Bool) → ℕ → Result (A × Db) → Cached → Cached
committed_or up id (err e) s = s
committed_or up id (ok (a, db')) s = record {
  db = db';
  keys = set_key id (del up (s.keys id)) s.keys;
}

-- ShelterService.UpdateStatus: the key is deleted after the commit.
unfoldable pub update_status_cached : (up : Bool) → ℕ → String → Cached → Cached
unfolding update_shelter_status del
update_status_cached up id status s = committed_or up id (update_shelter_status id status s.db) s

-- VictimService.Assign
unfoldable pub assign_cached : (up : Bool) → (victim_id shelter_id : ℕ) → Cached → Cached
unfolding assign del
assign_cached up victim_id shelter_id s =
    committed_or up shelter_id (assign victim_id shelter_id s.db) s

-- What clients and time do.
pub data Op : Type 0 where
  reads : (up : Bool) → (draw id : ℕ) → Op
  sets : ℕ → String → Op
  admits : (victim_id shelter_id : ℕ) → Op
  waits : ℕ → Op

abbrev pub step_cached : Op → Cached → Cached
step_cached (Op.reads up draw id) s = (get_cached up draw id s).1
step_cached (Op.sets id status) s = update_status_cached true id status s
step_cached (Op.admits victim_id shelter_id) s = assign_cached true victim_id shelter_id s
step_cached (Op.waits n) s = record s { db = record s.db { now = s.db.now + n } }

abbrev pub step_plain : Op → Db → Db
step_plain (Op.reads up draw id) db = db
step_plain (Op.sets id status) db = after db (update_shelter_status id status db)
step_plain (Op.admits victim_id shelter_id) db = after db (assign victim_id shelter_id db)
step_plain (Op.waits n) db = record db { now = db.now + n }

abbrev pub value_of : Result (Shelter × Db) → Result Shelter
value_of (ok (sh, db')) = ok sh
value_of (err e) = err e

-- The answers to the reads, through the cache and without one.
abbrev pub answers_cached : List Op → Cached → List (Result Shelter)
answers_cached [] s = []
answers_cached (Op.reads up draw id ∷ ops) s =
    let (r, s') = get_cached up draw id s in r ∷ answers_cached ops s'
answers_cached (op ∷ ops) s = answers_cached ops (step_cached op s)

abbrev pub answers_plain : List Op → Db → List (Result Shelter)
answers_plain [] db = []
answers_plain (Op.reads up draw id ∷ ops) db = value_of (get_shelter id db) ∷ answers_plain ops db
answers_plain (op ∷ ops) db = answers_plain ops (step_plain op db)
