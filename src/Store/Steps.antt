-- ===== src/Store/Steps.antt =====
-- The operations on the local store as a step relation: each constructor is one committed
-- transaction. A failed operation writes nothing, so it is no step.
pub mod Effects
pub mod Origins
pub mod Barrier
pub mod Family
pub mod History
use cede_grid.Common.{ℕ, String, Bool, Option, List, ℤ, ok, ◌≡◌}
use cede_grid.Model.Resources.{Resources}
use cede_grid.Execution.{LaunchRequest, ExecutionRecord, ProcessIdentity, ControlEvidence}
use cede_grid.Protocol.{ReplayRecoveryAllocation}
use cede_grid.Store.Tables.{Store, TaskStatus, ManagedChildRecord, ManagedChildPhase}
use cede_grid.Store.Tasks.{submit, assign, mark_uncertain, accept_result, ResultReceipt}
use cede_grid.Store.Reserve.{reserve_generation}
use cede_grid.Store.Transition.{transition}
use cede_grid.Store.Recovery.{import_replay_reservation}
use cede_grid.Store.Children.{
  reserve_managed_child, prepare_managed_child, transition_managed_child,
}

module _ (same_request : LaunchRequest → LaunchRequest → Bool) where
  pub data Step (s : Store) (s' : Store) : Type 0 where
    submits : (id : String) (safe : Bool) → submit s id safe ≡ ok s' → Step s s'
    assigns : (id assignment : String) (n : ℕ) → assign s id assignment ≡ ok (n, s') → Step s s'
    loses : (id : String) (n : ℕ) (t : TaskStatus) → mark_uncertain s id n ≡ ok (t, s') → Step s s'
    accepts :
        (id : String) (n : ℕ) (hash : String) (r : ResultReceipt)
        → accept_result s id n hash ≡ ok (r, s')
        → Step s s'
    reserves :
        (request : LaunchRequest) (capacity : Resources) (remote : Option ℕ)
        (entry : ExecutionRecord)
        → reserve_generation s request capacity remote ≡ ok (entry, s')
        → Step s s'
    transits :
        (boot : Option String) (entry : ExecutionRecord)
        → transition s boot entry ≡ ok s'
        → Step s s'
    imports :
        (r : ReplayRecoveryAllocation) (entry : ExecutionRecord)
        → import_replay_reservation s r ≡ ok (entry, s')
        → Step s s'
    reserves_child :
        (assignment : String) (n : ℕ) (child request_id : String) (request : LaunchRequest)
        (c : ManagedChildRecord)
        → reserve_managed_child same_request s assignment n child request_id request ≡ ok (c, s')
        → Step s s'
    prepares_child :
        (child : String) (identity : ProcessIdentity) (evidence : List ControlEvidence)
        → prepare_managed_child s child identity evidence ≡ ok s'
        → Step s s'
    moves_child :
        (child : String) (phase : ManagedChildPhase) (code signal : Option ℤ) (detail : String)
        → transition_managed_child s child phase code signal detail ≡ ok s'
        → Step s s'

  pub data Reach (s : Store) : Store → Type 0 where
    here : Reach s s
    next : {t u : Store} → Reach s t → Step t u → Reach s u
