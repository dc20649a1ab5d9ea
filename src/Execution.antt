-- ===== src/Execution.antt =====
-- src/execution_model.rs: launch requests, process identities, control evidence and the records
-- of the execution journal. Paths are texts.
use cede_grid.Common.{
  ℕ, String, Bool, true, false, ◌&&◌, Option, List, StringMap, Eq, ◌==◌, ◌≡◌, ◌↔◌, arith, not,
  ==_iff, and_iff, refl, subst, Bool_eq, String_eq, Option_eq, ℕ_eq,
}
use cede_grid.Model.Resources.{Resources}

pub data AllocationClass : Type 0 where
  guaranteed opportunistic : AllocationClass

abbrev pub class_eq : AllocationClass → AllocationClass → Bool
class_eq AllocationClass.guaranteed AllocationClass.guaranteed = true
class_eq AllocationClass.opportunistic AllocationClass.opportunistic = true
class_eq _ _ = false

pub class_eq_iff : (a b : AllocationClass) → (class_eq a b ≡ true) ↔ (a ≡ b)
class_eq_iff a b = ground arith

instance abbrev pub AllocationClass_eq : Eq AllocationClass
AllocationClass_eq = record { equals = class_eq; decides = class_eq_iff }

pub record NamedArtifact : Type 0 where
  pub name : String
  pub sha256 : String
  pub size : ℕ  -- u64

abbrev pub artifact_eq : NamedArtifact → NamedArtifact → Bool
artifact_eq a b = a.name == b.name && a.sha256 == b.sha256 && a.size == b.size

pub artifact_eq_iff : (a b : NamedArtifact) → (artifact_eq a b ≡ true) ↔ (a ≡ b)
artifact_eq_iff a b = ground (arith, ==_iff a.name b.name, ==_iff a.sha256 b.sha256)

instance abbrev pub NamedArtifact_eq : Eq NamedArtifact
NamedArtifact_eq = record { equals = artifact_eq; decides = artifact_eq_iff }

pub record LaunchRequest : Type 0 where
  pub task_id : String
  pub assignment_id : String
  pub argv : List String
  pub cwd : String
  pub env : StringMap String
  pub resources : Resources
  pub replay_safe : Bool
  pub class : AllocationClass
  pub no_escape : Bool
  pub single_process : Bool
  pub managed_child_limit : ℕ  -- u16
  pub max_attempts : Option ℕ  -- u32
  pub input_artifacts : List NamedArtifact
  pub required_controls : List String
  pub allow_fallback : Bool

pub record ProcessIdentity : Type 0 where
  pub pid : ℕ  -- u32
  pub boot_id : String
  pub start_time : ℕ  -- u64
  pub assignment_id : String
  pub generation : ℕ  -- u64

abbrev pub identity_eq : ProcessIdentity → ProcessIdentity → Bool
identity_eq a b =
    a.pid == b.pid
    && a.boot_id == b.boot_id
    && a.start_time == b.start_time
    && a.assignment_id == b.assignment_id
    && a.generation == b.generation

pub identity_eq_iff : (a b : ProcessIdentity) → (identity_eq a b ≡ true) ↔ (a ≡ b)
identity_eq_iff a b =
    ground (arith, ==_iff a.boot_id b.boot_id, ==_iff a.assignment_id b.assignment_id)

instance abbrev pub ProcessIdentity_eq : Eq ProcessIdentity
ProcessIdentity_eq = record { equals = identity_eq; decides = identity_eq_iff }

pub data ExecutionPhase : Type 0 where
  reserved prepared authorized running draining needs_reconciliation released : ExecutionPhase

abbrev pub is_reserved : ExecutionPhase → Bool
is_reserved ExecutionPhase.reserved = true
is_reserved _ = false

abbrev pub is_prepared : ExecutionPhase → Bool
is_prepared ExecutionPhase.prepared = true
is_prepared _ = false

abbrev pub is_needs_reconciliation : ExecutionPhase → Bool
is_needs_reconciliation ExecutionPhase.needs_reconciliation = true
is_needs_reconciliation _ = false

abbrev pub is_released : ExecutionPhase → Bool
is_released ExecutionPhase.released = true
is_released _ = false

-- `matches!(phase, Authorized | Running)`
abbrev pub is_authorizing : ExecutionPhase → Bool
is_authorizing ExecutionPhase.authorized = true
is_authorizing ExecutionPhase.running = true
is_authorizing _ = false

pub record ControlEvidence : Type 0 where
  pub control : String
  pub available : Option Bool
  pub permitted : Option Bool
  pub configured : Bool
  pub applied : Bool
  pub fallback : Bool
  pub scope : String
  pub requested : Option String
  pub effective : Option String
  pub detail : String

abbrev pub evidence_eq : ControlEvidence → ControlEvidence → Bool
evidence_eq a b =
    a.control == b.control
    && a.available == b.available
    && a.permitted == b.permitted
    && a.configured == b.configured
    && a.applied == b.applied
    && a.fallback == b.fallback
    && a.scope == b.scope
    && a.requested == b.requested
    && a.effective == b.effective
    && a.detail == b.detail

evidence_parts :
    (a b : ControlEvidence)
    → (evidence_eq a b ≡ true) ↔ (
        (((((((((a.control ≡ b.control) × (a.available ≡ b.available))
                      × (a.permitted ≡ b.permitted))
                    × (a.configured ≡ b.configured))
                  × (a.applied ≡ b.applied))
                × (a.fallback ≡ b.fallback))
              × (a.scope ≡ b.scope))
            × (a.requested ≡ b.requested))
          × (a.effective ≡ b.effective))
        × (a.detail ≡ b.detail))
evidence_parts a b =
    and_iff
      (and_iff
        (and_iff
          (and_iff
            (and_iff
              (and_iff
                (and_iff
                  (and_iff (and_iff (==_iff a.control b.control) (==_iff a.available b.available))
                    (==_iff a.permitted b.permitted))
                  (==_iff a.configured b.configured))
                (==_iff a.applied b.applied))
              (==_iff a.fallback b.fallback))
            (==_iff a.scope b.scope))
          (==_iff a.requested b.requested))
        (==_iff a.effective b.effective))
      (==_iff a.detail b.detail)

evidence_self : (a : ControlEvidence) → evidence_eq a a ≡ true
evidence_self a =
    (evidence_parts a a).1
      (((((((((refl, refl), refl), refl), refl), refl), refl), refl), refl), refl)

pub evidence_eq_iff : (a b : ControlEvidence) → (evidence_eq a b ≡ true) ↔ (a ≡ b)
evidence_eq_iff a b = (
  λ e.
      let q = (evidence_parts a b).0 e in
      λ i. record {
        control = q.0.0.0.0.0.0.0.0.0 i;
        available = q.0.0.0.0.0.0.0.0.1 i;
        permitted = q.0.0.0.0.0.0.0.1 i;
        configured = q.0.0.0.0.0.0.1 i;
        applied = q.0.0.0.0.0.1 i;
        fallback = q.0.0.0.0.1 i;
        scope = q.0.0.0.1 i;
        requested = q.0.0.1 i;
        effective = q.0.1 i;
        detail = q.1 i;
      },
  λ p. subst (λ x. evidence_eq a x ≡ true) p (evidence_self a),
)

instance abbrev pub ControlEvidence_eq : Eq ControlEvidence
ControlEvidence_eq = record { equals = evidence_eq; decides = evidence_eq_iff }

pub record ExecutionRecord : Type 0 where
  pub task_id : String
  pub assignment_id : String
  pub generation : ℕ  -- u64
  pub class : AllocationClass
  pub phase : ExecutionPhase
  pub resources : Resources
  pub identity : Option ProcessIdentity
  pub backend : String
  pub evidence : List ControlEvidence
  pub detail : String

-- The test that both journals make of each required control: applied, not a fallback, and
-- positively available and permitted.
unfoldable pub verifies : String → ControlEvidence → Bool
verifies required e =
    e.control == required
    && e.applied
    && not e.fallback
    && e.available == Option.some true
    && e.permitted == Option.some true
