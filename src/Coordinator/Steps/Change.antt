-- ===== src/Coordinator/Steps/Change.antt =====
-- src/coordinator.rs: the relation between the ledgers before and after an operation.
use cede_grid.Common.{
  String, eq_iff, true, false, some, ◌≡◌, refl, arith, contains, sym, subst, set_insert, ok, err,
  Result, String_eq,
}
use cede_grid.Store.Tables.{AssignmentRow, find_assignment}
use cede_grid.Coordinator.Tables.{
  CoordinatorError, Ledger, Reservation, find_reservation, update_reservation, is_live,
}
use cede_grid.Coordinator.Outcome.{Outcome, commit, after, require}
use cede_grid.Coordinator.Steps.Rows.{
  Allows, Follows, Keeps, Keeps-refl, Keeps-trans, Keeps-weaken, Keeps-update, HasFences,
  HasFences-insert, Settled-update, Settled-self, fences-insert, nothing, IsKeyed, IsKeyed-update,
}

-- What every ledger satisfies: the key of the reservations, and the state of the fenced ones.
pub record IsSound (l : Ledger) : Type 0 where
  pub keyed : IsKeyed l.reservations
  pub fenced : HasFences l.fences l.reservations

pub record Change (may : Allows) (l l' : Ledger) : Type 0 where
  pub keeps : Keeps may l.reservations l'.reservations
  pub sound : IsSound l → IsSound l'
  pub fences : (id : String) → contains l.fences id ≡ true → contains l'.fences id ≡ true
  pub assigned :
      (id : String) (a : AssignmentRow)
      → find_assignment id l.store.assignments ≡ some a
      → find_assignment id l'.store.assignments ≡ some a

pub Change-refl : (may : Allows) (l : Ledger) → Change may l l
Change-refl may l = record {
  keeps = Keeps-refl may l.reservations;
  sound = λ v. v;
  fences = λ id h. h;
  assigned = λ id a h. h;
}

pub Change-trans :
    (may : Allows) (a b c : Ledger) → Change may a b → Change may b c → Change may a c
Change-trans may a b c f g = record {
  keeps = Keeps-trans may a.reservations b.reservations c.reservations f.keeps g.keeps;
  sound = λ v. g.sound (f.sound v);
  fences = λ id h. g.fences id (f.fences id h);
  assigned = λ id x h. g.assigned id x (f.assigned id x h);
}

pub Change-weaken : (may : Allows) (a b : Ledger) → Change nothing a b → Change may a b
Change-weaken may a b f = record {
  keeps = Keeps-weaken may a.reservations b.reservations f.keeps;
  sound = f.sound;
  fences = f.fences;
  assigned = f.assigned;
}

-- A step that leaves the three tables alone.
pub Change-same :
    (may : Allows) (l l' : Ledger)
    → l'.reservations ≡ l.reservations
    → l'.fences ≡ l.fences
    → l'.store.assignments ≡ l.store.assignments
    → Change may l l'
Change-same may l l' r f a = record {
  keeps = subst (λ x. Keeps may l.reservations x) (sym r) (Keeps-refl may l.reservations);
  sound = λ v. record {
    keyed = subst IsKeyed (sym r) v.keyed;
    fenced =
        subst (λ x. HasFences l'.fences x) (sym r)
          (subst (λ x. HasFences x l.reservations) (sym f) v.fenced);
  };
  fences = λ id h. subst (λ x. contains x id ≡ true) (sym f) h;
  assigned = λ id x h. subst (λ y. find_assignment id y ≡ some x) (sym a) h;
}

-- The rewriting of one row that leaves a settled row settled.
pub Change-update :
    (may : Allows) (l : Ledger) (id : String) (f : Reservation → Reservation)
    → ((r : Reservation) → r.assignment_id ≡ id → (f r).assignment_id ≡ id)
    → ((r : Reservation) → find_reservation id l.reservations ≡ some r → Follows may id r (f r))
    → ((r : Reservation)
        → find_reservation id l.reservations ≡ some r
        → contains l.fences id ≡ true
        → is_live r.phase ≡ false
        → is_live (f r).phase ≡ false)
    → Change may l (record l { reservations = update_reservation id f l.reservations })
Change-update may l id f k g s = record {
  keeps = Keeps-update may id f l.reservations k g;
  sound = λ v. record {
    keyed = IsKeyed-update id f l.reservations k v.keyed;
    fenced = λ j h.
        Settled-update id j f l.reservations k
          (λ r e c d. s r c (subst (λ x. contains l.fences x ≡ true) (sym ((eq_iff id j).0 e)) h) d)
          (v.fenced j h);
  };
  fences = λ j h. h;
  assigned = λ j a h. h;
}

-- A row that becomes uncertain, and is fenced.
pub Change-fence :
    (may : Allows) (l : Ledger) (id : String) (f : Reservation → Reservation) (r : Reservation)
    → find_reservation id l.reservations ≡ some r
    → ((x : Reservation) → x.assignment_id ≡ id → (f x).assignment_id ≡ id)
    → ((x : Reservation) → find_reservation id l.reservations ≡ some x → Follows may id x (f x))
    → ((x : Reservation) → is_live (f x).phase ≡ false)
    → Change may l (record l {
      reservations = update_reservation id f l.reservations;
      fences = set_insert id l.fences;
    })
Change-fence may l id f r h k g s = record {
  keeps = Keeps-update may id f l.reservations k g;
  sound = λ v. record {
    keyed = IsKeyed-update id f l.reservations k v.keyed;
    fenced =
        HasFences-insert id l.fences (update_reservation id f l.reservations)
          (Settled-self id f l.reservations r k h (s r))
          (λ j c. Settled-update id j f l.reservations k (λ x q e d. s x) (v.fenced j c));
  };
  fences = λ j c. fences-insert id j l.fences c;
  assigned = λ j a c. c;
}

-- A step that may release less.
pub Change-widen :
    (may may' : Allows) (l l' : Ledger)
    → ((id node_id : String) → may id node_id ≡ true → may' id node_id ≡ true)
    → Change may l l'
    → Change may' l l'
Change-widen may may' l l' w c = record {
  keeps = λ id r h.
      let x = c.keeps id r h in
      record {
        row = x.row;
        found = x.found;
        follows = record {
          node = x.follows.node;
          resources = x.follows.resources;
          sequence = x.follows.sequence;
          held = ground (arith, x.follows.held, w id r.node_id);
        };
      };
  sound = c.sound;
  fences = c.fences;
  assigned = c.assigned;
}

-- After a transaction, either it failed and the ledger stands, or the next one runs on its ledger.
pub after-Change :
    {A B : Type 0} (may : Allows) (l : Ledger) (o : Outcome A) (next : A → Ledger → Outcome B)
    → Change may l o.0
    → ((a : A) (m : Ledger) → o ≡ (m, ok a) → Change may m (next a m).0)
    → Change may l (after o next).0
after-Change may l (m, err e) next c n = c
after-Change may l (m, ok a) next c n = Change-trans may l m (next a m).0 c (n a m refl)

pub require-Change :
    {A B : Type 0} (may : Allows) (l : Ledger) (r : Result CoordinatorError A)
    (next : A → Outcome B)
    → ((a : A) → r ≡ ok a → Change may l (next a).0)
    → Change may l (require l r next).0
require-Change may l (err e) next n = Change-refl may l
require-Change may l (ok a) next n = n a refl

pub commit-Change :
    {A : Type 0} (may : Allows) (l : Ledger) (r : Result CoordinatorError (A × Ledger))
    → ((a : A) (m : Ledger) → r ≡ ok (a, m) → Change may l m)
    → Change may l (commit l r).0
commit-Change may l (err e) n = Change-refl may l
commit-Change may l (ok (a, m)) n = n a m refl
