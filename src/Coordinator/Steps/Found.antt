-- ===== src/Coordinator/Steps/Found.antt =====
-- src/coordinator.rs: the identifiers that a statement selects from the reservations, and their rows.
use cede_grid.Common.{
  String, Bool, true, none, some, List, [], ◌∷◌, map, ◌==◌, String_eq, ◌≡◌, refl, filter, All,
  Bool-cases, inl, inr, eq_iff, subst,
}
use cede_grid.Coordinator.Tables.{Reservation, find_reservation}
use cede_grid.Coordinator.Steps.Rows.{Allows, Keeps, IsKeyed}

pub record Has (rows : List Reservation) (id : String) : Type 0 where
  pub row : Reservation
  pub found : find_reservation id rows ≡ some row

-- What is kept is still found.
pub Has-Keeps :
    (may : Allows) (rows rows' : List Reservation) (id : String)
    → Keeps may rows rows'
    → Has rows id
    → Has rows' id
Has-Keeps may rows rows' id k h =
    let x = k id h.row h.found in record { row = x.row; found = x.found }

pub All-Has-Keeps :
    (may : Allows) (rows rows' : List Reservation) (ids : List String)
    → Keeps may rows rows'
    → All (Has rows) ids
    → All (Has rows') ids
All-Has-Keeps may rows rows' [] k h = tt
All-Has-Keeps may rows rows' (id ∷ ids) k h =
    (Has-Keeps may rows rows' id k h.0, All-Has-Keeps may rows rows' ids k h.1)

Has-cons :
    (x : Reservation) (rows : List Reservation) (id : String) → Has rows id → Has (x ∷ rows) id
Has-cons x rows id h = elim (Bool-cases (x.assignment_id == id)) [
  | inl e ↦ record { row = x; found = rw e }
  | inr n ↦ record { row = h.row; found = rw n h.found }
]

abbrev pub AllFound : List Reservation → List Reservation → Type 0
AllFound rows = All (λ r. Has rows r.assignment_id)

AllFound-cons :
    (x : Reservation) (rows part : List Reservation) → AllFound rows part → AllFound (x ∷ rows) part
AllFound-cons x rows [] h = tt
AllFound-cons x rows (r ∷ rest) h =
    (Has-cons x rows r.assignment_id h.0, AllFound-cons x rows rest h.1)

-- Every row is found under its own key, though it may be another row.
pub rows-AllFound : (rows : List Reservation) → AllFound rows rows
rows-AllFound [] = tt
rows-AllFound (r ∷ rest) = (
  record { row = r; found = rw ((eq_iff r.assignment_id r.assignment_id).1 refl) },
  AllFound-cons r rest rest (rows-AllFound rest),
)

-- The identifiers of the rows that pass a test.
pub filter-Has :
    (rows part : List Reservation) (p : Reservation → Bool)
    → AllFound rows part
    → All (Has rows) (map (λ (r : Reservation). r.assignment_id) (filter p part))
filter-Has rows [] p h = tt
filter-Has rows (r ∷ rest) p h = elim (Bool-cases (p r)) [
  | inl e ↦ rw e (h.0, filter-Has rows rest p h.1)
  | inr n ↦ rw n (filter-Has rows rest p h.1)
]

pub filter-All {ℓ} :
    {A : Type ℓ} (P : A → Type 0) (p : A → Bool) (xs : List A) → All P xs → All P (filter p xs)
filter-All P p [] h = tt
filter-All P p (x ∷ xs) h = elim (Bool-cases (p x)) [
  | inl e ↦ rw e (h.0, filter-All P p xs h.1)
  | inr n ↦ rw n (filter-All P p xs h.1)
]

-- Where the key is a primary key, a row is found under its own key.
abbrev pub AllSelf : List Reservation → List Reservation → Type 0
AllSelf rows = All (λ r. find_reservation r.assignment_id rows ≡ some r)

AllSelf-cons :
    (x : Reservation) (rows part : List Reservation)
    → find_reservation x.assignment_id rows ≡ none
    → AllSelf rows part
    → AllSelf (x ∷ rows) part
AllSelf-cons x rows [] n h = tt
AllSelf-cons x rows (r ∷ rest) n h = elim (Bool-cases (x.assignment_id == r.assignment_id)) [
  | inl e ↦
      let same : x.assignment_id ≡ r.assignment_id = (eq_iff x.assignment_id r.assignment_id).0 e in
      absurd (let b = subst (λ j. find_reservation j rows ≡ none) same n in let c = h.0 in cc)
  | inr d ↦ (rw d h.0, AllSelf-cons x rows rest n h.1)
]

pub rows-AllSelf : (rows : List Reservation) → IsKeyed rows → AllSelf rows rows
rows-AllSelf [] k = tt
rows-AllSelf (r ∷ rest) k = (
  rw ((eq_iff r.assignment_id r.assignment_id).1 refl),
  AllSelf-cons r rest rest k.0 (rows-AllSelf rest k.1),
)

-- A row that passed a test, found by its key.
pub record Picked (p : Reservation → Bool) (rows : List Reservation) (id : String) : Type 0 where
  pub row : Reservation
  pub found : find_reservation id rows ≡ some row
  pub passed : p row ≡ true

pub filter-Picked :
    (p : Reservation → Bool) (rows part : List Reservation)
    → AllSelf rows part
    → All (Picked p rows) (map (λ (r : Reservation). r.assignment_id) (filter p part))
filter-Picked p rows [] h = tt
filter-Picked p rows (r ∷ rest) h = elim (Bool-cases (p r)) [
  | inl e ↦ rw e (record { row = r; found = h.0; passed = e }, filter-Picked p rows rest h.1)
  | inr n ↦ rw n (filter-Picked p rows rest h.1)
]
