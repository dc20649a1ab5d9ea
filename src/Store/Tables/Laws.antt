-- ===== src/Store/Tables/Laws.antt =====
-- What a lookup finds after an insertion or an update of a table.
use cede_grid.Common.{
  String, none, some, List, [], ◌∷◌, ◌++◌, ◌==◌, String_eq, ◌≡◌, refl, arith, if◌then◌else◌, eq_iff,
}
use cede_grid.Store.Tables.{find_row, update_row}

module _ {A : Type 0} (key : A → String) where
  -- A new row is found by its key where no older row has it.
  pub find-append :
      (id : String) (rows : List A) (row : A)
      → find_row key id (rows ++ (row ∷ [])) ≡ (elim (find_row key id rows) [
        | some r ↦ some r
        | none ↦ if key row == id then some row else none
      ])
  find-append id [] row = refl
  find-append id (r ∷ rest) row = ground (arith, find-append id rest row)

  -- A row that is found has the key.
  pub find-key : (id : String) (rows : List A) (r : A) → find_row key id rows ≡ some r → key r ≡ id
  find-key id [] r h = cc
  find-key id (x ∷ rest) r h = ground (arith, eq_iff (key x) id, find-key id rest r)

  -- An update that keeps the key changes what is found under it, and nothing else.
  pub find-update :
      (id j : String) (f : A → A) (rows : List A)
      → ((r : A) → key r ≡ id → key (f r) ≡ id)
      → find_row key j (update_row key id f rows) ≡ (
          if id == j
          then elim (find_row key j rows) [ some r ↦ some (f r) | none ↦ none ]
          else find_row key j rows)
  unfolding update_row
  find-update id j f [] k = ground arith
  find-update id j f (r ∷ rest) k =
      ground
        (arith, eq_iff id j, eq_iff (key r) id, eq_iff (key r) j, k r, find-update id j f rest k)
