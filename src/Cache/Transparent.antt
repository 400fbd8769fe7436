-- ===== src/Cache/Transparent.antt =====
-- The cache in front of the shelters changes no answer (ShelterService.GetByID) while the writers' DELs
-- are answered and no reader stalls.
use Prim.Native.String.{String}
use crisis_link.Common.{ℕ, ◌≡◌, some}
use crisis_link.Table.{find}
use crisis_link.Store.Rows.{Shelter}
use crisis_link.Store.Tx.{Result}
use crisis_link.Shelters.{get_shelter}
use crisis_link.Cache.{decoded}
use crisis_link.Cache.Shelters.{Cached, value_of}

-- Every value in the cache is the row.
abbrev pub Agree : Cached → Type 0
Agree s = (id : ℕ) (sh : Shelter) → decoded (s.keys id) ≡ some sh → find id s.db.shelters ≡ some sh

abbrev Transparent : ℕ → Cached → Result Shelter × Cached → Type 0
Transparent id s (r, s') = (r ≡ value_of (get_shelter id s.db)) × Agree s' × (s'.db ≡ s.db)
