-- ===== src/Units/Versions.antt =====
-- The version column of units, by which the compare-and-swap of the optimistic path tells a row that
-- was written from the row that was read (unit/repository.go).
use crisis_link.Common.{
  ℕ, ◌≤◌, ◌≡◌, refl, ◌∙◌, inl, inr, Bool, true, ◌&&◌, none, some, ◌∷◌, arith, ◌==◌, if◌then◌else◌,
  Bool-cases,
}
use crisis_link.Table.{Table, find, update, update_where}
use crisis_link.Table.Laws.{find-update}
use crisis_link.Store.Rows.{RescueUnit, UnitStatus}
use crisis_link.Units.{set_status}

abbrev pub Versioned : Table RescueUnit → Table RescueUnit → Type 0
Versioned us us' =
    (id : ℕ) (u : RescueUnit)
    → find id us ≡ some u
    → (u' : RescueUnit) × (find id us' ≡ some u')
      × (u.version ≤ u'.version)
      × (u'.version ≡ u.version → u' ≡ u)

pub Versioned-refl : (us : Table RescueUnit) → Versioned us us
Versioned-refl us id u h = (u, h, omega arith, λ e. refl)

pub Versioned-trans :
    (us us' us'' : Table RescueUnit) → Versioned us us' → Versioned us' us'' → Versioned us us''
Versioned-trans us us' us'' f g id u h =
    let (v, fv, le, same) = f id u h in
    let (w, fw, le', same') = g id v fv in
    (w, fw, omega arith, λ e. same' (omega arith) ∙ same (omega arith))

-- A write under any guard counts the version up.
pub Versioned-write :
    (id now : ℕ) (p : RescueUnit → Bool) (s : UnitStatus) (us : Table RescueUnit)
    → Versioned us (update_where id p (set_status s now) us)
Versioned-write id now p s us k u h = elim (Bool-cases (id == k && p u)) [
  | inl e ↦ (
    set_status s now u,
    ground (arith, find-update k id (λ v. if p v then set_status s now v else v) us),
    omega arith,
    λ bad. absurd (omega arith),
  )
  | inr e ↦ (
    u,
    ground (arith, find-update k id (λ v. if p v then set_status s now v else v) us),
    omega arith,
    λ same. refl,
  )
]

pub Versioned-set :
    (id now : ℕ) (s : UnitStatus) (us : Table RescueUnit)
    → Versioned us (update id (set_status s now) us)
Versioned-set id now s us = Versioned-write id now (λ u. true) s us

pub Versioned-insert :
    (id : ℕ) (row : RescueUnit) (us : Table RescueUnit)
    → find id us ≡ none
    → Versioned us ((id, row) ∷ us)
Versioned-insert id row us fresh k u h = (u, ground arith, omega arith, λ e. refl)
