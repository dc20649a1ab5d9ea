-- ===== src/Coordinator/Outcome.antt =====
-- The outcome of a request: the ledger that it leaves, also where it fails, since only what stands
-- in one transaction is undone together.
use cede_grid.Common.{Result, ok, err}
use cede_grid.Coordinator.Tables.{CoordinatorError, Ledger}

abbrev pub Outcome : Type 0 → Type 0
Outcome A = Ledger × Result CoordinatorError A

-- One transaction: an error leaves the ledger as it was.
abbrev pub commit : {A : Type 0} → Ledger → Result CoordinatorError (A × Ledger) → Outcome A
commit l (err e) = (l, err e)
commit l (ok (a, l')) = (l', ok a)

-- The next transaction, if the one before succeeded.
abbrev pub after : {A B : Type 0} → Outcome A → (A → Ledger → Outcome B) → Outcome B
after (l, err e) next = (l, err e)
after (l, ok a) next = next a l

-- A check that writes nothing.
abbrev pub require :
    {A B : Type 0} → Ledger → Result CoordinatorError A → (A → Outcome B) → Outcome B
require l (err e) next = (l, err e)
require l (ok a) next = next a
