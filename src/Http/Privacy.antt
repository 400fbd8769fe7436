-- ===== src/Http/Privacy.antt =====
-- What the handlers of the victim register show a shelter manager, and for whom a heartbeat counts
-- (victim/handler.go and presence/handler.go).
use Prim.Native.String.{String}
use text.Mathlib.Text.{◌==◌ as str_eq}
use crisis_link.Common.{
  ℕ, zero, suc, ◌-◌, map, ◌≡◌, ◌≢◌, inl, inr, ◌⊎◌, ap, subst, Bool, true, ◌&&◌, ◌||◌, Option, none,
  some, List, [], ◌∷◌, keep, arith, Bool-cases, Option-cases, eq_of_test,
}
use crisis_link.Common.Int.{ℤ, pos}
use crisis_link.Common.Sort.{sort_by}
use crisis_link.Table.{Table, find}
use crisis_link.Table.Every.{All, All-any, All-keep, All-sort_by, All-take}
use crisis_link.Store.Rows.{Db, Victim}
use crisis_link.Store.Tx.{ok, Result-cases}
use crisis_link.Roles.{
  Actor, responder, shelter_manager, operator, admin, owns_unit, owns_unit_iff, holds_role,
}
use crisis_link.Victims.Register.{
  get_victim, list_victims, in_scope, drop, victim_status_text, nearest_shelters, ScoredShelter,
  shelter_limit, scored_shelter,
}
use crisis_link.Shelters.{find_nearest_open}
use crisis_link.Scoring.Allocation.{rank}
use crisis_link.Presence.{Redis}
use crisis_link.Http.{success, missing, clamp_int}
use crisis_link.Http.Registers.{
  keepers, list, scope_of, get_by_id, list_nearest_shelters, report_position,
}

All-drop {ℓ κ} : {B : Type ℓ} (P : B → Type κ) (n : ℕ) (xs : List B) → All P xs → All P (drop n xs)
All-drop P zero xs e = e
All-drop P (suc n) [] e = tt
All-drop P (suc n) (x ∷ xs) e = All-drop P n xs e.1

and_right : (a b : Bool) → (a && b) ≡ true → b ≡ true
and_right a b h = ground arith

scope_housed : (s : ℕ) (i : Option ℕ) → in_scope (some s) i ≡ true → i ≡ some s
scope_housed s none h = ground arith
scope_housed s (some i) h = ap some (eq_of_test i s h)

-- The rows of a scope are those of its shelter.
list_victims-scope :
    (status : String) (s limit offset : ℕ) (db db' : Db) (rows : Table Victim)
    → list_victims status (some s) limit offset db ≡ ok (rows, db')
    → All (λ (i, v). v.shelter_id ≡ some s) rows
unfolding list_victims
list_victims-scope status s limit offset db db' rows h =
    let p : ℕ × Victim → Bool = λ (_, v).
      (str_eq status "" || str_eq (victim_status_text v.status) status)
      && in_scope (some s) v.shelter_id in
    let age : ℕ × Victim → ℕ = λ (_, v). db.now - v.created_at in
    let shown = keep p db.victims in
    subst (All (λ (i, v). v.shelter_id ≡ some s)) (ground (arith, h)) (
      All-take (λ (i, v). v.shelter_id ≡ some s) limit (drop offset (sort_by age shown))
        (All-drop (λ (i, v). v.shelter_id ≡ some s) offset (sort_by age shown)
          (All-sort_by (λ (i, v). v.shelter_id ≡ some s) age shown
            (All-keep (λ b. Unit {0}) (λ (i, v). v.shelter_id ≡ some s) p db.victims
              (λ b u pass. scope_housed s b.1.shelter_id (
                and_right (str_eq status "" || str_eq (victim_status_text b.1.status) status)
                  (in_scope (some s) b.1.shelter_id) pass))
              (All-any db.victims)))))

scope_of_manager :
    (actor : Actor) (s : ℕ)
    → actor.role ≡ shelter_manager
    → actor.shelter_id ≡ some s
    → scope_of actor ≡ some s
unfolding scope_of
scope_of_manager actor s r b = ground (arith, r, b)

manager_list :
    (actor : Actor) (s : ℕ) (db : Db) (status : String) (limit offset : Option ℤ)
    (rows : Table Victim)
    → scope_of actor ≡ some s
    → (list actor status limit offset db).0 ≡ success 200 rows
    → All (λ (i, v). v.shelter_id ≡ some s) rows
unfolding list
manager_list actor s db status limit offset rows e h =
    let lim = clamp_int limit 50 1 200 in
    let off = clamp_int offset 0 0 1000000 in
    elim (Bool-cases (holds_role actor keepers)) [
      | inr other ↦ ground (arith, other)
      | inl keeper ↦ elim (Result-cases (list_victims status (scope_of actor) lim off db)) [
        | inl (x, f) ↦ ground (arith, keeper, f)
        | inr ((found, db'), f) ↦ list_victims-scope status s lim off db db' rows (
            subst (λ o. list_victims status o lim off db ≡ ok (rows, db')) e
              (ground (arith, keeper, f)))
      ]
    ]

manager_get :
    (actor : Actor) (s id : ℕ) (db : Db) (v : Victim)
    → actor.role ≡ shelter_manager
    → actor.shelter_id ≡ some s
    → (get_by_id actor id db).0 ≡ success 200 v
    → (find id db.victims ≡ some v) × (v.shelter_id ≡ some s)
unfolding get_by_id get_victim
manager_get actor s id db v r b h = elim (Option-cases (find id db.victims)) [
  | inl e ↦ ground (arith, e, r)
  | inr (w, e) ↦ elim (Option-cases w.shelter_id) [
    | inl o ↦ ground (arith, e, r, b, o)
    | inr (i, o) ↦ ground (arith, e, r, b, o)
  ]
]

-- A shelter manager who is bound to a shelter is shown that shelter's people and no others: every
-- row of the list is housed there, and so is each record that is answered by its id.
pub manager_sees :
    (actor : Actor) (s : ℕ) (db : Db)
    → actor.role ≡ shelter_manager
    → actor.shelter_id ≡ some s
    → ((status : String) (limit offset : Option ℤ) (rows : Table Victim)
        → (list actor status limit offset db).0 ≡ success 200 rows
        → All (λ (i, v). v.shelter_id ≡ some s) rows)
      × ((id : ℕ) (v : Victim)
          → (get_by_id actor id db).0 ≡ success 200 v
          → (find id db.victims ≡ some v) × (v.shelter_id ≡ some s))
manager_sees actor s db r b = (
  λ status limit offset rows h.
      manager_list actor s db status limit offset rows (scope_of_manager actor s r b) h,
  λ id v h. manager_get actor s id db v r b h,
)

-- The other read of a record does not ask whose it is: for every record that is kept from a shelter
-- manager, GET /victims/:id/shelters answers it to the same manager.
pub nearest_shelters_shows :
    (distance : ℤ → ℤ → ℤ → ℤ → ℕ) (actor : Actor) (id : ℕ) (limit : Option ℤ) (db : Db)
    (v : Victim)
    → actor.role ≡ shelter_manager
    → find id db.victims ≡ some v
    → (get_by_id actor id db).0 ≡ missing
    → (shelters : List ScoredShelter) × ((list_nearest_shelters distance actor id limit db).0
        ≡ success 200 (v, shelters))
unfolding list_nearest_shelters nearest_shelters
nearest_shelters_shows distance actor id limit db v r f hidden =
    let n = shelter_limit (pos (clamp_int limit 5 1 50)) in
    elim (Result-cases (find_nearest_open distance v.latitude v.longitude n db)) [
      | inl (x, g) ↦ ground (arith, f, g, r)
      | inr ((rows, db'), g) ↦ (
        rank (λ (x : ScoredShelter). x.score) (map (scored_shelter distance v) rows),
        ground (arith, f, g, r),
      )
    ]

-- A heartbeat is recorded only for an operator, an administrator, or the responder of the very unit.
pub report_position_owner :
    (actor : Actor) (indexable : ℤ → ℤ → Bool) (now id : ℕ) (lat lng : ℤ) (r : Redis)
    → (report_position actor indexable now id lat lng r).1 ≢ r
    → (actor.role ≡ operator)
      ⊎ (actor.role ≡ admin)
      ⊎ ((actor.role ≡ responder) × (actor.unit_id ≡ some id))
unfolding report_position
report_position_owner actor indexable now id lat lng r changed =
    elim (Bool-cases (owns_unit actor (some id))) [
      | inl own ↦ (owns_unit_iff actor id).0 own
      | inr other ↦ ground (arith, other)
    ]
