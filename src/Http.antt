-- ===== src/Http.antt =====
-- The HTTP layer: what the handlers (the handler.go files) answer, and the middleware before them.
-- Bodies are decoded; of a failure the status and the code are kept, not the message.
pub mod Dispatching
pub mod Access
pub mod Registers
pub mod Privacy
pub mod Creation
pub mod Reading
pub mod Accounts
pub mod Live
pub mod Trails
use crisis_link.Common.{ℕ, Bool, Option, none, some, List, if◌then◌else◌, ◌≤◌, arith}
use crisis_link.Common.Int.{ℤ, pos, ltb_ℤ, pos_part}
use crisis_link.Store.Rows.{Db}
use crisis_link.Store.Tx.{Tx, Error, ok, err}
use crisis_link.Roles.{Role, Actor, holds_role}

-- The codes of common.Error.
pub data Code : Type 0 where
  validation_error not_found conflict illegal_transition forbidden internal_error : Code
  duplicate_call_sign duplicate_name duplicate_user invalid_credentials not_present
        presence_unavailable :
      Code

pub data Reply {ℓ} (A : Type ℓ) : Type ℓ where
  success : (status : ℕ) → A → Reply A
  failure : (status : ℕ) → Code → Reply A

abbrev pub Handler {ℓ} : Type ℓ → Type ℓ
Handler A = Db → Reply A × Db

-- common.ClampInt, where `none` is a text that is empty or no number.
abbrev pub clamp_int : Option ℤ → (default lo hi : ℕ) → ℕ
clamp_int none default lo hi = default
clamp_int (some n) default lo hi =
    if ltb_ℤ n (pos lo) then lo else if ltb_ℤ (pos hi) n then hi else pos_part n

pub clamp_int-bounds :
    (raw : Option ℤ) (default lo hi : ℕ)
    → lo ≤ default
    → default ≤ hi
    → (lo ≤ clamp_int raw default lo hi) × (clamp_int raw default lo hi ≤ hi)
clamp_int-bounds raw default lo hi p q = ground arith

module _ {ℓ} {A : Type ℓ} where
  abbrev pub bad_request : Reply A
  bad_request = failure 400 Code.validation_error

  abbrev pub missing : Reply A
  missing = failure 404 Code.not_found

  abbrev pub conflicting : Reply A
  conflicting = failure 409 Code.conflict

  abbrev pub refused : Reply A
  refused = failure 403 Code.forbidden

  abbrev pub internal : Reply A
  internal = failure 500 Code.internal_error

  -- The end of a handler: the service's result, or its error by the handler's switch.
  abbrev pub answer : ℕ → (Error → Reply A) → Tx A → Handler A
  answer status table m db = elim (m db) [
    | ok (a, db') ↦ (success status a, db')
    | err e ↦ (table e, db)
  ]

  abbrev pub when_valid : Bool → Handler A → Handler A
  when_valid valid h db = if valid then h db else (bad_request, db)

  abbrev pub when_allowed : Bool → Handler A → Handler A
  when_allowed allowed h db = if allowed then h db else (refused, db)

  -- RequireRole in front of a handler.
  abbrev pub with_roles : List Role → Actor → Handler A → Handler A
  with_roles roles actor h = when_allowed (holds_role actor roles) h
