-- ===== src/Coordinator/Steps/Rows.antt =====
-- src/coordinator.rs: the rows of the table of reservations, before and after a statement.
use cede_grid.Common.{
  ◌≤◌, String, Bool, true, false, ◌||◌, not, none, some, List, [], ◌∷◌, ◌++◌, ◌==◌, String_eq, ◌≡◌,
  refl, arith, contains, set_insert, eq_iff, inl, inr, Bool-cases, map, sym, subst, ◌∙◌,
}
use cede_grid.Store.Tables.{update_row}
use cede_grid.Store.Tables.Laws.{find-update, find-append}
use cede_grid.Coordinator.Tables.{
  Reservation, find_reservation, update_reservation, is_held, is_live,
}

-- Whether a step may release an allocation, by its identifier and its node.
abbrev pub Allows : Type 0
Allows = String → String → Bool

-- A row after a step: its node and its resources stay, its lease does not go back, and it is held
-- unless the step may release it.
pub record Follows (may : Allows) (id : String) (r r' : Reservation) : Type 0 where
  pub node : r'.node_id ≡ r.node_id
  pub resources : r'.resources ≡ r.resources
  pub sequence : r.lease_sequence ≤ r'.lease_sequence
  pub held : (not (is_held r.phase) || is_held r'.phase || may id r.node_id) ≡ true

pub record Followed (may : Allows) (rows : List Reservation) (id : String) (r : Reservation)
    : Type 0 where
  pub row : Reservation
  pub found : find_reservation id rows ≡ some row
  pub follows : Follows may id r row

abbrev pub Keeps : Allows → List Reservation → List Reservation → Type 0
Keeps may rows rows' =
    (id : String) (r : Reservation) → find_reservation id rows ≡ some r → Followed may rows' id r

abbrev pub nothing : Allows
nothing id node_id = false

pub Follows-refl : (may : Allows) (id : String) (r : Reservation) → Follows may id r r
Follows-refl may id r = ground arith

pub Keeps-refl : (may : Allows) (rows : List Reservation) → Keeps may rows rows
Keeps-refl may rows id r h = record { row = r; found = h; follows = Follows-refl may id r }

Follows-trans :
    (may : Allows) (id : String) (r s t : Reservation)
    → Follows may id r s
    → Follows may id s t
    → Follows may id r t
Follows-trans may id r s t f g = record {
  node = ground (arith, f.node, g.node);
  resources = ground (arith, f.resources, g.resources);
  sequence = omega (arith, f.sequence, g.sequence);
  held =
      let h =
        subst (λ n. (not (is_held s.phase) || is_held t.phase || may id n) ≡ true) f.node g.held in
      ground (arith, f.held, h);
}

pub Keeps-trans :
    (may : Allows) (a b c : List Reservation) → Keeps may a b → Keeps may b c → Keeps may a c
Keeps-trans may a b c f g id r h =
    let x = f id r h in
    let y = g id x.row x.found in
    record {
      row = y.row;
      found = y.found;
      follows = Follows-trans may id r x.row y.row x.follows y.follows;
    }

pub Follows-weaken :
    (may : Allows) (id : String) (r s : Reservation) → Follows nothing id r s → Follows may id r s
Follows-weaken may id r s f = record {
  node = f.node;
  resources = f.resources;
  sequence = f.sequence;
  held = ground (arith, f.held);
}

pub Keeps-weaken : (may : Allows) (a b : List Reservation) → Keeps nothing a b → Keeps may a b
Keeps-weaken may a b f id r h =
    let x = f id r h in
    record { row = x.row; found = x.found; follows = Follows-weaken may id r x.row x.follows }

-- An update of one row.
pub Keeps-update :
    (may : Allows) (id : String) (f : Reservation → Reservation) (rows : List Reservation)
    → ((r : Reservation) → r.assignment_id ≡ id → (f r).assignment_id ≡ id)
    → ((r : Reservation) → find_reservation id rows ≡ some r → Follows may id r (f r))
    → Keeps may rows (update_reservation id f rows)
Keeps-update may id f rows k g j r h =
    let u = find-update (λ (x : Reservation). x.assignment_id) id j f rows k in
    elim (Bool-cases (id == j)) [
      | inl e ↦
          let same : id ≡ j = (eq_iff id j).0 e in
          record {
            row = f r;
            found = rw (e, h) at u;
            follows = rw same at (g r (rw (← same) at h));
          }
      | inr n ↦ record { row = r; found = rw (n, h) at u; follows = Follows-refl may j r }
    ]

-- A new row with a new key.
pub Keeps-append :
    (may : Allows) (rows : List Reservation) (r : Reservation) → Keeps may rows (rows ++ (r ∷ []))
Keeps-append may rows r j x h =
    let u = find-append (λ (y : Reservation). y.assignment_id) j rows r in
    record { row = x; found = rw h at u; follows = Follows-refl may j x }

-- Fenced allocations have a row, which is uncertain or released.
pub record Settled (rows : List Reservation) (id : String) : Type 0 where
  pub row : Reservation
  pub found : find_reservation id rows ≡ some row
  pub settled : is_live row.phase ≡ false

abbrev pub HasFences : List String → List Reservation → Type 0
HasFences fences rows = (id : String) → contains fences id ≡ true → Settled rows id

contains-insert :
    (id j : String) (fences : List String)
    → contains (set_insert id fences) j ≡ (id == j || contains fences j)
contains-insert id j fences = elim (Bool-cases (contains fences id)) [
  | inl e ↦ elim (Bool-cases (id == j)) [
    | inl s ↦ let same : id ≡ j = (eq_iff id j).0 s in ground (arith, e, s, rw same at e)
    | inr n ↦ ground (arith, e, n)
  ]
  | inr n ↦ ground (arith, n)
]

-- A fence that is added stays with those before it.
pub fences-insert :
    (id j : String) (fences : List String)
    → contains fences j ≡ true
    → contains (set_insert id fences) j ≡ true
fences-insert id j fences h = ground (arith, contains-insert id j fences, h)

pub HasFences-insert :
    (id : String) (fences : List String) (rows : List Reservation)
    → Settled rows id
    → HasFences fences rows
    → HasFences (set_insert id fences) rows
HasFences-insert id fences rows s v j h =
    let c = contains-insert id j fences in
    elim (Bool-cases (id == j)) [
      | inl e ↦ rw ((eq_iff id j).0 e) at s
      | inr n ↦ v j (ground (arith, c, h, n))
    ]

-- An update that leaves settled rows settled.
pub Settled-update :
    (id j : String) (f : Reservation → Reservation) (rows : List Reservation)
    → ((r : Reservation) → r.assignment_id ≡ id → (f r).assignment_id ≡ id)
    → ((r : Reservation)
        → (id == j) ≡ true
        → find_reservation id rows ≡ some r
        → is_live r.phase ≡ false
        → is_live (f r).phase ≡ false)
    → Settled rows j
    → Settled (update_reservation id f rows) j
Settled-update id j f rows k g s =
    let u = find-update (λ (x : Reservation). x.assignment_id) id j f rows k in
    elim (Bool-cases (id == j)) [
      | inl e ↦
          let same : id ≡ j = (eq_iff id j).0 e in
          record {
            row = f s.row;
            found = rw (e, s.found) at u;
            settled = g s.row e (let b = s.found in rw (← same) at b) s.settled;
          }
      | inr n ↦ record { row = s.row; found = rw (n, s.found) at u; settled = s.settled }
    ]

pub Settled-append :
    (j : String) (rows : List Reservation) (r : Reservation)
    → Settled rows j
    → Settled (rows ++ (r ∷ [])) j
Settled-append j rows r s =
    let u = find-append (λ (y : Reservation). y.assignment_id) j rows r in
    record { row = s.row; found = (let b = s.found in rw b at u); settled = s.settled }

-- A row that an update settles.
pub Settled-self :
    (id : String) (f : Reservation → Reservation) (rows : List Reservation) (r : Reservation)
    → ((x : Reservation) → x.assignment_id ≡ id → (f x).assignment_id ≡ id)
    → find_reservation id rows ≡ some r
    → is_live (f r).phase ≡ false
    → Settled (update_reservation id f rows) id
Settled-self id f rows r k h s =
    let u = find-update (λ (x : Reservation). x.assignment_id) id id f rows k in
    record { row = f r; found = rw ((eq_iff id id).1 refl, h) at u; settled = s }

-- The key is a primary key: a row's identifier is not found among the later rows.
abbrev pub IsKeyed : List Reservation → Type 0
IsKeyed [] = Unit
IsKeyed (r ∷ rest) = (find_reservation r.assignment_id rest ≡ none) × IsKeyed rest

pub IsKeyed-update :
    (id : String) (f : Reservation → Reservation) (rows : List Reservation)
    → ((r : Reservation) → r.assignment_id ≡ id → (f r).assignment_id ≡ id)
    → IsKeyed rows
    → IsKeyed (update_reservation id f rows)
unfolding update_row
IsKeyed-update id f [] k h = tt
IsKeyed-update id f (r ∷ rest) k h = elim (Bool-cases (r.assignment_id == id)) [
  | inl e ↦
      let same : r.assignment_id ≡ id = (eq_iff r.assignment_id id).0 e in
      rw e (subst (λ j. find_reservation j rest ≡ none) (same ∙ sym (k r same)) h.0, h.1)
  | inr n ↦ rw n (
    find-update (λ (x : Reservation). x.assignment_id) id r.assignment_id f rest k
        ∙ ground (arith, h.0),
    IsKeyed-update id f rest k h.1,
  )
]

pub IsKeyed-append :
    (rows : List Reservation) (x : Reservation)
    → find_reservation x.assignment_id rows ≡ none
    → IsKeyed rows
    → IsKeyed (rows ++ (x ∷ []))
IsKeyed-append [] x f h = (refl, tt)
IsKeyed-append (r ∷ rest) x f h = elim (Bool-cases (r.assignment_id == x.assignment_id)) [
  | inl e ↦ absurd (let b = f in cc (rw e at b))
  | inr n ↦ (
    find-append (λ (y : Reservation). y.assignment_id) r.assignment_id rest x
        ∙ ground (
          arith,
          h.0,
          n,
          eq_iff r.assignment_id x.assignment_id,
          eq_iff x.assignment_id r.assignment_id,
        ),
    IsKeyed-append rest x (rw n at f) h.1,
  )
]

-- The rewriting of every row, which keeps the keys.
module _ (g : Reservation → Reservation)
    (k : (r : Reservation) → (g r).assignment_id ≡ r.assignment_id) where
  pub find-map :
      (id : String) (rows : List Reservation)
      → find_reservation id (map g rows)
        ≡ (elim (find_reservation id rows) [ some r ↦ some (g r) | none ↦ none ])
  find-map id [] = refl
  find-map id (r ∷ rest) = elim (Bool-cases (r.assignment_id == id)) [
    | inl e ↦
        let c : ((g r).assignment_id == id) ≡ true = subst (λ j. (j == id) ≡ true) (sym (k r)) e in
        rw (c, e)
    | inr n ↦
        let c : ((g r).assignment_id == id) ≡ false =
          subst (λ j. (j == id) ≡ false) (sym (k r)) n in
        rw (c, n) (find-map id rest)
  ]

  pub IsKeyed-map : (rows : List Reservation) → IsKeyed rows → IsKeyed (map g rows)
  IsKeyed-map [] h = tt
  IsKeyed-map (r ∷ rest) h = (
    subst (λ j. find_reservation j (map g rest) ≡ none) (sym (k r))
        (find-map r.assignment_id rest ∙ rw h.0),
    IsKeyed-map rest h.1,
  )

  pub Keeps-map :
      (may : Allows) (rows : List Reservation)
      → ((id : String) (r : Reservation) → Follows may id r (g r))
      → Keeps may rows (map g rows)
  Keeps-map may rows f id r h = record {
    row = g r;
    found = find-map id rows ∙ rw h;
    follows = f id r;
  }

  pub Settled-map :
      (id : String) (rows : List Reservation)
      → ((r : Reservation) → is_live r.phase ≡ false → is_live (g r).phase ≡ false)
      → Settled rows id
      → Settled (map g rows) id
  Settled-map id rows s h = record {
    row = g h.row;
    found = find-map id rows ∙ rw h.found;
    settled = s h.row h.settled;
  }
