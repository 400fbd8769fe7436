-- ===== src/Registers/Pages.antt =====
-- Pages of a list, and the texts of the filters.
use crisis_link.Common.{
  ℕ, zero, suc, ◌+◌, ◌*◌, ◌≤◌, ◌≡◌, refl, ap, sym, ◌∙◌, some, List, [], ◌∷◌, ◌++◌, take, length,
  arith,
}
use crisis_link.Store.Rows.{UnitStatus, UnitType, ShelterStatus, VehicleKind}
use crisis_link.Victims.Register.{drop}
use crisis_link.Units.{unit_status_of, unit_type_of}
use crisis_link.Shelters.{shelter_status_of}
use crisis_link.Transports.{kind_of}
use crisis_link.Registers.{unit_status_text, unit_type_text, shelter_status_text, kind_text}

times_none : (n : ℕ) → 0 ≡ 0 * n
times_none n = omega arith

suc_add : (m n : ℕ) → suc (m + n) ≡ suc m + n
suc_add m n = omega arith

module _ {ℓ} {A : Type ℓ} where
  abbrev page : (size : ℕ) → ℕ → List A → List A
  page size k xs = take size (drop (k * size) xs)

  -- The first pages of a size, in their order.
  abbrev pub pages : (size count : ℕ) → List A → List A
  pages size zero xs = []
  pages size (suc count) xs = pages size count xs ++ page size count xs

  append_nil : (xs : List A) → xs ++ [] ≡ xs
  append_nil [] = refl
  append_nil (x ∷ xs) = ap (λ t. x ∷ t) (append_nil xs)

  take-nil : (n : ℕ) → take {A = A} n [] ≡ []
  take-nil zero = refl
  take-nil (suc n) = refl

  take-drop : (m n : ℕ) (xs : List A) → take m xs ++ take n (drop m xs) ≡ take (m + n) xs
  take-drop zero n xs = ap (λ m. take m xs) (omega arith)
  take-drop (suc m) n [] = take-nil n ∙ sym (take-nil (suc m + n))
  take-drop (suc m) n (x ∷ xs) =
      ap (λ t. x ∷ t) (take-drop m n xs) ∙ ap (λ k. take k (x ∷ xs)) (suc_add m n)

  pages-take : (size count : ℕ) (xs : List A) → pages size count xs ≡ take (count * size) xs
  pages-take size zero xs = ap (λ m. take m xs) (times_none size)
  pages-take size (suc count) xs =
      ap (λ t. t ++ page size count xs) (pages-take size count xs)
      ∙ take-drop (count * size) size xs
      ∙ ap (λ n. take n xs) (omega arith)

  take-all : (n : ℕ) (xs : List A) → length xs ≤ n → take n xs ≡ xs
  take-all zero [] h = refl
  take-all zero (x ∷ xs) h = absurd (omega arith)
  take-all (suc n) [] h = refl
  take-all (suc n) (x ∷ xs) h = ap (λ t. x ∷ t) (take-all n xs (omega arith))

  -- Pages of one size that are asked for one after the other, as many as cover the list, put
  -- together give the list: no row is left out and none comes twice.
  pub pages-all :
      (size count : ℕ) (xs : List A) → length xs ≤ count * size → pages size count xs ≡ xs
  pages-all size count xs h = pages-take size count xs ∙ take-all (count * size) xs h

unit_status_read_back : (s : UnitStatus) → unit_status_of (unit_status_text s) ≡ some s
unfolding unit_status_of
unit_status_read_back UnitStatus.available = refl
unit_status_read_back UnitStatus.reserved = refl
unit_status_read_back UnitStatus.en_route = refl
unit_status_read_back UnitStatus.on_scene = refl
unit_status_read_back UnitStatus.out_of_service = refl

unit_type_read_back : (t : UnitType) → unit_type_of (unit_type_text t) ≡ some t
unfolding unit_type_of
unit_type_read_back UnitType.ambulance = refl
unit_type_read_back UnitType.fire = refl
unit_type_read_back UnitType.rescue = refl
unit_type_read_back UnitType.police = refl

shelter_status_read_back : (s : ShelterStatus) → shelter_status_of (shelter_status_text s) ≡ some s
unfolding shelter_status_of
shelter_status_read_back ShelterStatus.open_for_intake = refl
shelter_status_read_back ShelterStatus.closed = refl

kind_read_back : (k : VehicleKind) → kind_of (kind_text k) ≡ some k
unfolding kind_of
kind_read_back VehicleKind.bus = refl
kind_read_back VehicleKind.boat = refl
kind_read_back VehicleKind.helicopter = refl
kind_read_back VehicleKind.truck = refl

-- Every status and type that a row holds is a filter that the lists accept, and it is read back as
-- itself.
pub texts_read_back :
    (s : UnitStatus) (t : UnitType) (o : ShelterStatus) (k : VehicleKind)
    → (unit_status_of (unit_status_text s) ≡ some s)
      × (unit_type_of (unit_type_text t) ≡ some t)
      × (shelter_status_of (shelter_status_text o) ≡ some o)
      × (kind_of (kind_text k) ≡ some k)
texts_read_back s t o k =
    (unit_status_read_back s, unit_type_read_back t, shelter_status_read_back o, kind_read_back k)
