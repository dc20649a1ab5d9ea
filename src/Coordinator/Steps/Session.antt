-- ===== src/Coordinator/Steps/Session.antt =====
-- src/coordinator.rs, `open_replay_session`, as a change of the ledger.
use cede_grid.Common.{
  String, true, false, not, Option, none, some, List, [], ◌∷◌, ◌==◌, String_eq, Pair_eq, ◌≡◌, refl,
  arith, contains, set_insert, All, Bool-cases, inl, inr, ok, ◌∙◌, >>=-eq-ok, ensure-eq-ok,
  ok-injective, subst, ap,
}
use cede_grid.Protocol.{ReplayRecoverySnapshot}
use cede_grid.Coordinator.Tables.{
  CoordinatorError, Ledger, Reservation, SessionRow, find_session, is_live,
}
use cede_grid.Coordinator.Session.{
  replace_session, renew_session, open_replay_session, retained, is_retained, fence_retained,
  fence_reservations, add_fences,
}
use cede_grid.Coordinator.Steps.Rows.{
  Follows, Follows-refl, HasFences, HasFences-insert, Settled, Settled-map, Keeps-map, IsKeyed-map,
  find-map, fences-insert, nothing,
}
use cede_grid.Coordinator.Steps.Found.{Picked, filter-Picked, rows-AllSelf}
use cede_grid.Coordinator.Steps.Change.{Change, Change-refl}

add_fences-HasFences :
    (ids fences : List String) (rows : List Reservation)
    → All (Settled rows) ids
    → HasFences fences rows
    → HasFences (add_fences ids fences) rows
unfolding add_fences
add_fences-HasFences [] fences rows s h = h
add_fences-HasFences (id ∷ ids) fences rows s h =
    add_fences-HasFences ids (set_insert id fences) rows s.1 (HasFences-insert id fences rows s.0 h)

fences-add_fences :
    (ids : List String) (j : String) (fences : List String)
    → contains fences j ≡ true
    → contains (add_fences ids fences) j ≡ true
unfolding add_fences
fences-add_fences [] j fences h = h
fences-add_fences (id ∷ ids) j fences h =
    fences-add_fences ids j (set_insert id fences) (fences-insert id j fences h)

fence_retained-key :
    (node_id : String) (r : Reservation)
    → (fence_retained node_id r).assignment_id ≡ r.assignment_id
fence_retained-key node_id r = ground arith

fence_retained-Follows :
    (node_id id : String) (r : Reservation) → Follows nothing id r (fence_retained node_id r)
fence_retained-Follows node_id id r = elim (Bool-cases (is_retained node_id r)) [
  | inl y ↦
      rw y (record { node = refl; resources = refl; sequence = omega arith; held = ground arith })
  | inr n ↦ rw n (Follows-refl nothing id r)
]

fence_retained-settled :
    (node_id : String) (r : Reservation)
    → is_live r.phase ≡ false
    → is_live (fence_retained node_id r).phase ≡ false
fence_retained-settled node_id r h = ground (arith, h)

Picked-Settled :
    (node_id id : String) (rows : List Reservation)
    → Picked (is_retained node_id) rows id
    → Settled (fence_reservations node_id rows) id
Picked-Settled node_id id rows p = record {
  row = fence_retained node_id p.row;
  found = find-map (fence_retained node_id) (fence_retained-key node_id) id rows ∙ rw p.found;
  settled = rw p.passed;
}

All-Settled :
    (node_id : String) (ids : List String) (rows : List Reservation)
    → All (Picked (is_retained node_id) rows) ids
    → All (Settled (fence_reservations node_id rows)) ids
All-Settled node_id [] rows h = tt
All-Settled node_id (id ∷ ids) rows h =
    (Picked-Settled node_id id rows h.0, All-Settled node_id ids rows h.1)

pub replace_session-Change :
    (l : Ledger) (node_id boot_id session_id : String) (old : Option SessionRow)
    → Change nothing l (replace_session l node_id boot_id session_id old)
unfolding replace_session
replace_session-Change l node_id boot_id session_id old = record {
  keeps =
      Keeps-map (fence_retained node_id) (fence_retained-key node_id) nothing l.reservations
        (fence_retained-Follows node_id);
  sound = λ v. record {
    keyed =
        IsKeyed-map (fence_retained node_id) (fence_retained-key node_id) l.reservations v.keyed;
    fenced =
        add_fences-HasFences (retained l node_id) l.fences
          (fence_reservations node_id l.reservations)
          (All-Settled node_id (retained l node_id) l.reservations (
            filter-Picked (is_retained node_id) l.reservations l.reservations
              (rows-AllSelf l.reservations v.keyed)))
          (λ j h.
            Settled-map (fence_retained node_id) (fence_retained-key node_id) j l.reservations
              (fence_retained-settled node_id) (v.fenced j h));
  };
  fences = λ j h. fences-add_fences (retained l node_id) j l.fences h;
  assigned = λ j a h. h;
}

renew_session-Change :
    (l : Ledger) (node_id boot_id session_id : String) (old : Option SessionRow) {l' : Ledger}
    → renew_session l node_id boot_id session_id old ≡ ok l'
    → Change nothing l l'
unfolding renew_session
renew_session-Change l node_id boot_id session_id none h =
    subst (λ x. Change nothing l x) (ok-injective h)
      (replace_session-Change l node_id boot_id session_id none)
renew_session-Change l node_id boot_id session_id (some s) h =
    elim (Bool-cases (s.session_id == session_id)) [
      | inl y ↦
          let (b, e) =
            ensure-eq-ok (s.boot_id == boot_id) CoordinatorError.session_boot_changed (ok l)
              (rw (y, renew_session) at h) in
          subst (λ x. Change nothing l x) (ok-injective e) (Change-refl nothing l)
      | inr n ↦
          let (b, e) =
            ensure-eq-ok (not (contains l.retired_sessions (node_id, s.session_id)))
              CoordinatorError.constraint_failed
              (ok (replace_session l node_id boot_id session_id (some s)))
              (rw (n, renew_session) at h) in
          subst (λ x. Change nothing l x) (ok-injective e)
            (replace_session-Change l node_id boot_id session_id (some s))
    ]

pub open_replay_session-Change :
    (l : Ledger) (node_id boot_id session_id : String) {s : ReplayRecoverySnapshot} {l' : Ledger}
    → open_replay_session l node_id boot_id session_id ≡ ok (s, l')
    → Change nothing l l'
unfolding open_replay_session
open_replay_session-Change l node_id boot_id session_id h =
    let (m, r, e) =
      >>=-eq-ok (renew_session l node_id boot_id session_id (find_session node_id l.sessions)) _
        h in
    subst (λ x. Change nothing l x)
      (ap (λ (x : ReplayRecoverySnapshot × Ledger). x.1) (ok-injective e))
      (renew_session-Change l node_id boot_id session_id (find_session node_id l.sessions) r)
