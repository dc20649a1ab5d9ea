-- ===== src/Coordinator/Steps.antt =====
-- The life of a ledger: each step is one request, whatever its outcome, or the start of another
-- coordinator on the same database.
pub mod Rows
pub mod Change
pub mod Grant
pub mod Found
pub mod Expire
pub mod Session
pub mod Report
pub mod Heartbeat
pub mod Schedule
pub mod Resent
pub mod Rest
pub mod Retries
pub mod Release
pub mod Handled
pub mod Budget
pub mod Checkpoints
pub mod Delay
pub mod Leases
pub mod Refused
pub mod Receipts
use cede_grid.Common.{ℕ, ok, ◌≡◌}
use cede_grid.Protocol.{Principal, CoordinatorConfig, Request}
use cede_grid.Coordinator.Tables.{Ledger, Services}
use cede_grid.Coordinator.Handle.{handle_at, restart}

module _ (env : Services) where
  pub data Step (l : Ledger) (l' : Ledger) : Type 0 where
    handles :
        (config : CoordinatorConfig) (p : Principal) (request : Request) (now : ℕ)
        → l' ≡ (handle_at env config l p request now).0
        → Step l l'
    restarts : (config : CoordinatorConfig) → restart config l ≡ ok l' → Step l l'

  pub data Reach (l : Ledger) : Ledger → Type 0 where
    here : Reach l l
    next : {m n : Ledger} → Reach l m → Step m n → Reach l n
