-- ===== src/Roles.antt =====
-- internal/platform/authz/roles.go: who may act for what. A user id or a resource id is a number,
-- and the empty text is `none`.
use crisis_link.Common.{
  ℕ, Bool, true, false, ◌&&◌, ◌||◌, Option, none, some, List, [], ◌∷◌, ◌==◌, exists_in, ◌≡◌, ◌↔◌,
  ◌⊎◌, arith,
}

pub data Role : Type 0 where
  citizen responder shelter_manager operator admin : Role

abbrev same_role : Role → Role → Bool
same_role citizen citizen = true
same_role responder responder = true
same_role shelter_manager shelter_manager = true
same_role operator operator = true
same_role admin admin = true
same_role _ _ = false

pub record Actor : Type 0 where
  pub user_id : ℕ
  pub role : Role
  pub unit_id : Option ℕ
  pub shelter_id : Option ℕ

unfoldable pub holds_role : Actor → List Role → Bool
holds_role a roles = exists_in (λ r. same_role a.role r) roles

-- `own != "" && own == id`, where the requested id may be empty too.
abbrev same_id : Option ℕ → Option ℕ → Bool
same_id none _ = false
same_id (some i) none = false
same_id (some i) (some j) = i == j

unfoldable pub owns_unit : Actor → Option ℕ → Bool
unfolding holds_role
owns_unit a unit_id =
    holds_role a (operator ∷ admin ∷ [])
    || holds_role a (responder ∷ []) && same_id a.unit_id unit_id

unfoldable pub owns_shelter : Actor → Option ℕ → Bool
unfolding holds_role
owns_shelter a shelter_id =
    holds_role a (operator ∷ admin ∷ [])
    || holds_role a (shelter_manager ∷ []) && same_id a.shelter_id shelter_id

-- An actor may act for a unit if and only if it is an operator or an administrator, or a responder
-- that is bound to this unit.
pub owns_unit_iff :
    (a : Actor) (id : ℕ)
    → (owns_unit a (some id) ≡ true)
      ↔ ((a.role ≡ operator) ⊎ (a.role ≡ admin) ⊎ ((a.role ≡ responder) × (a.unit_id ≡ some id)))
unfolding owns_unit
owns_unit_iff a id = (λ h. ground arith, λ h. ground arith)

-- No actor may act for both a unit and a shelter, except an operator or an administrator.
pub owns_both :
    (a : Actor) (unit_id shelter_id : Option ℕ)
    → owns_unit a unit_id ≡ true
    → owns_shelter a shelter_id ≡ true
    → (a.role ≡ operator) ⊎ (a.role ≡ admin)
unfolding owns_unit owns_shelter
owns_both a unit_id shelter_id h k = ground arith
