-- ===== src/Agent.antt =====
-- src/agent.rs: what an agent computes before it acts: the check of a lease, the charge of its
-- allocations, and the times of its periodic work.
pub mod Charges
pub mod Leases
pub mod Clock
use cede_grid.Common.{
  saturating_add, ℕ, ◌+◌, ◌-◌, ◌*◌, ◌/◌, min, max, String, Bool, true, false, ◌&&◌, Option, none,
  some, List, [], ◌∷◌, ◌==◌, String_eq, ℕ_eq, StringMap, get, insert, amount, map, all, ltb, leb,
  Result, ok, err, ensure, u64_max, if◌then◌else◌,
}
use cede_grid.Model.Resources.{Resources, no_resources}
use cede_grid.Model.Snapshot.{Allocation}
use cede_grid.Execution.{ExecutionPhase}
use cede_grid.Protocol.{Lease, Assignment, RemotePhase}

pub data AgentError : Type 0 where
  lease_mismatch : AgentError

-- `validate_lease`
unfoldable pub validate_lease : Lease → Assignment → Result AgentError (Unit {0})
validate_lease lease assignment =
    ensure
      (lease.assignment_id == assignment.request.assignment_id
        && lease.generation == assignment.generation
        && leb assignment.coordinator_epoch lease.coordinator_epoch
        && ltb 0 lease.sequence)
      AgentError.lease_mismatch

-- `filter_map` on a device that both sides hold
minimum_at : String → ℕ → Option ℕ → StringMap ℕ → StringMap ℕ
minimum_at id n none more = more
minimum_at id n (some r) more = (id, min n r) ∷ more

unfoldable pub minimum_gpus : StringMap ℕ → StringMap ℕ → StringMap ℕ
unfolding minimum_at
minimum_gpus [] right = []
minimum_gpus ((id, n) ∷ rest) right = minimum_at id n (get id right) (minimum_gpus rest right)

-- `minimum`
unfoldable pub minimum : Resources → Resources → Resources
minimum left right = record {
  cpu_millicores = min left.cpu_millicores right.cpu_millicores;
  ram_mib = min left.ram_mib right.ram_mib;
  gpu_memory_mib = minimum_gpus left.gpu_memory_mib right.gpu_memory_mib;
}

-- `phase`
unfoldable pub phase : ExecutionPhase → RemotePhase
phase ExecutionPhase.reserved = RemotePhase.offered
phase ExecutionPhase.prepared = RemotePhase.prepared
phase ExecutionPhase.authorized = RemotePhase.authorized
phase ExecutionPhase.running = RemotePhase.running
phase ExecutionPhase.draining = RemotePhase.draining
phase ExecutionPhase.needs_reconciliation = RemotePhase.uncertain
phase ExecutionPhase.released = RemotePhase.released

-- the entries of `observed` where they are more
unfoldable pub raise_gpus : StringMap ℕ → StringMap ℕ → StringMap ℕ
raise_gpus gpu [] = gpu
raise_gpus gpu ((id, n) ∷ rest) = raise_gpus (insert id (max (amount id gpu) n) gpu) rest

unfoldable pub charge_gpus : StringMap ℕ → StringMap ℕ → StringMap ℕ
charge_gpus used [] = used
charge_gpus used ((id, n) ∷ rest) =
    charge_gpus (insert id (saturating_add (amount id used) n) used) rest

-- what an allocation uses, with 0 for what is unknown
abbrev pub observed_or_none : Option Resources → Resources
observed_or_none none = no_resources
observed_or_none (some observed) = observed

-- the body of the loop
unfoldable pub charge_one : Resources → Allocation → Resources
charge_one used a =
    let observed = observed_or_none a.observed in
    record {
      cpu_millicores =
          saturating_add used.cpu_millicores
            (max a.requested.cpu_millicores observed.cpu_millicores);
      ram_mib = saturating_add used.ram_mib (max a.requested.ram_mib observed.ram_mib);
      gpu_memory_mib =
          charge_gpus used.gpu_memory_mib
            (raise_gpus a.requested.gpu_memory_mib observed.gpu_memory_mib);
    }

unfoldable pub charge_from : Resources → List Allocation → Resources
charge_from used [] = used
charge_from used (a ∷ rest) = charge_from (charge_one used a) rest

-- `allocation_charge`
unfoldable pub allocation_charge : List Allocation → Resources
allocation_charge = charge_from no_resources

-- `allocations_fit`
unfoldable pub allocations_fit : List Allocation → Resources → Bool
allocations_fit allocations capacity =
    let used = allocation_charge allocations in
    leb used.cpu_millicores capacity.cpu_millicores
    && leb used.ram_mib capacity.ram_mib
    && all (λ (g : String × ℕ). leb g.1 (amount g.0 capacity.gpu_memory_mib)) used.gpu_memory_mib

-- `remaining_capacity`
unfoldable pub remaining_capacity : Resources → Resources → Resources
remaining_capacity capacity used = record {
  cpu_millicores = capacity.cpu_millicores - used.cpu_millicores;
  ram_mib = capacity.ram_mib - used.ram_mib;
  gpu_memory_mib =
      map (λ (g : String × ℕ). (g.0, g.1 - amount g.0 used.gpu_memory_mib)) capacity.gpu_memory_mib;
}

abbrev pub u32_max : ℕ
u32_max = 4294967295

abbrev pub nanos_per_milli : ℕ
nanos_per_milli = 1000000

-- `Duration::as_millis`. An `Instant` and a `Duration` are counted in nanoseconds.
abbrev pub as_millis : ℕ → ℕ
as_millis nanos = nanos / nanos_per_milli

-- `next_control_due_at`: the due time, and the new value of `last`
unfoldable pub next_control_due_at : ℕ → ℕ → ℕ → ℕ × ℕ
next_control_due_at last interval now =
    let due = last + interval in
    let missed = as_millis (now - due) / max (as_millis interval) 1 in
    (due, due + interval * min missed u32_max)

-- `next_periodic_wake`
unfoldable pub next_periodic_wake : ℕ → ℕ → ℕ → ℕ
next_periodic_wake due interval now =
    let intervals = (now - due) / max interval 1 + 1 in
    if ltb now due then due else due + interval * min intervals u32_max

-- `wire_charge`
unfoldable pub wire_charge : ℕ → ℕ
wire_charge json_bytes = saturating_add (saturating_add json_bytes (json_bytes / 20)) 4096
