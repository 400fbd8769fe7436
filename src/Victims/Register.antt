-- ===== src/Victims/Register.antt =====
-- The reads of internal/victim/service.go and repository.go (GetByID, List and NearestShelters).
use Prim.Native.String.{String}
use text.Mathlib.Text.{◌==◌ as str_eq}
use crisis_link.Common.{
  ℕ, zero, suc, ◌-◌, Bool, true, false, ◌||◌, ◌&&◌, Option, none, some, List, [], ◌∷◌, ◌==◌,
  if◌then◌else◌, keep, take, map,
}
use crisis_link.Common.Int.{ℤ, pos, leb_ℤ, ltb_ℤ, pos_part}
use crisis_link.Common.Sort.{sort_by}
use crisis_link.Table.{Table, find}
use crisis_link.Store.Rows.{Victim, VictimStatus, Shelter}
use crisis_link.Store.Tx.{Tx, pure, gets, row_or, ◌>>=◌, victim_not_found}
use crisis_link.Shelters.{find_nearest_open}
use crisis_link.Scoring.Allocation.{Fraction, score_shelter, rank}

unfoldable pub get_victim : ℕ → Tx Victim
get_victim id = do v ← gets (λ db. find id db.victims); row_or victim_not_found v

abbrev pub victim_status_text : VictimStatus → String
victim_status_text VictimStatus.registered = "registered"
victim_status_text VictimStatus.sheltered = "sheltered"
victim_status_text VictimStatus.discharged = "discharged"

abbrev pub drop {ℓ} : {A : Type ℓ} → ℕ → List A → List A
drop zero xs = xs
drop (suc n) [] = []
drop (suc n) (x ∷ xs) = drop n xs

-- `$2 = '' OR shelter_id = $2`: the empty scope is `none`, and a NULL equals nothing.
abbrev pub in_scope : Option ℕ → Option ℕ → Bool
in_scope none _ = true
in_scope (some s) none = false
in_scope (some s) (some i) = i == s

-- ORDER BY created_at DESC: no row is younger than the transaction's time.
unfoldable pub list_victims : String → Option ℕ → (limit offset : ℕ) → Tx (Table Victim)
list_victims status scope limit offset = gets λ db. take limit (
    drop offset (
      sort_by (λ (_, v). db.now - v.created_at)
        (keep
          (λ (_, v).
            (str_eq status "" || str_eq (victim_status_text v.status) status)
            && in_scope scope v.shelter_id)
          db.victims)))

pub record ScoredShelter : Type 0 where
  pub id : ℕ
  pub shelter : Shelter
  pub score : Fraction

abbrev pub shelter_limit : ℤ → ℕ
shelter_limit limit = if leb_ℤ limit (pos 0) || ltb_ℤ (pos 50) limit then 5 else pos_part limit

module _ (distance : ℤ → ℤ → ℤ → ℤ → ℕ) where
  abbrev pub scored_shelter : Victim → ℕ × Shelter → ScoredShelter
  scored_shelter v (id, sh) = record {
    id = id;
    shelter = sh;
    score = score_shelter (distance v.latitude v.longitude sh.latitude sh.longitude) sh;
  }

  unfoldable pub nearest_shelters : ℕ → ℤ → Tx (Victim × List ScoredShelter)
  unfolding get_victim find_nearest_open
  nearest_shelters victim_id limit = do
    v ← get_victim victim_id
    shelters ← find_nearest_open distance v.latitude v.longitude (shelter_limit limit)
    pure (v, rank (λ (s : ScoredShelter). s.score) (map (scored_shelter v) shelters))
