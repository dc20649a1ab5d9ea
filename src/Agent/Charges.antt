-- ===== src/Agent/Charges.antt =====
-- src/agent.rs, `allocation_charge`, against the charge of src/policy.rs.
use cede_grid.Common.{
  ℕ, ◌+◌, min, max, true, false, Option, none, some, List, [], ◌∷◌, StringMap, insert, amount, ◌≡◌,
  ◌&&◌, is_some, refl, ◌∙◌, ap, arith, ok, context, >>=-eq-ok, context-eq-ok, ok-injective,
  checked_add, All, Bool-cases, inl, inr, u64_max,
}
use cede_grid.Model.Resources.{Resources}
use cede_grid.Model.Snapshot.{Allocation, is_pending}
use cede_grid.Policy.Amounts.{PolicyError, add_resources, add_gpus, maximum, maximum_gpus}
use cede_grid.Policy.Charges.{Charges, charge_all, charge_step, charge_of, no_charges}
use cede_grid.Policy.Charges.Laws.{charge_step-charged}
use cede_grid.Agent.{
  allocation_charge, charge_from, charge_one, charge_gpus, raise_gpus, observed_or_none,
}

-- Whether usage is reported only for what may run.
abbrev pub PendingUnobserved : Allocation → Type 0
PendingUnobserved a = (is_pending a.phase && is_some a.observed) ≡ false

pending-none : (o : Option Resources) → (true && is_some o) ≡ false → o ≡ none
pending-none none h = refl
pending-none (some x) h = ground (arith, h)

raise_gpus-maximum :
    (gpu observed : StringMap ℕ) → raise_gpus gpu observed ≡ maximum_gpus gpu observed
unfolding raise_gpus maximum_gpus
raise_gpus-maximum gpu [] = refl
raise_gpus-maximum gpu ((id, n) ∷ rest) =
    raise_gpus-maximum (insert id (max (amount id gpu) n) gpu) rest

saturating-exact : (a b : ℕ) {c : ℕ} → checked_add a b ≡ some c → min (a + b) u64_max ≡ c
unfolding checked_add
saturating-exact a b h = ground (arith, h)

charge_gpus-add :
    (used gpus : StringMap ℕ) {total : StringMap ℕ}
    → add_gpus used gpus ≡ ok total
    → charge_gpus used gpus ≡ total
unfolding charge_gpus add_gpus
charge_gpus-add used [] h = ok-injective h
charge_gpus-add used ((id, n) ∷ rest) {total} h =
    let (sum, e, h1) =
      >>=-eq-ok (context (checked_add (amount id used) n) PolicyError.gpu_overflow) _ h in
    let s =
      saturating-exact (amount id used) n (context-eq-ok (checked_add (amount id used) n) _ e) in
    rw s (charge_gpus-add (insert id sum used) rest h1)

-- The charge of one allocation, as the policy adds it.
charge_add : Resources → Resources → Resources
charge_add used c = record {
  cpu_millicores = min (used.cpu_millicores + c.cpu_millicores) u64_max;
  ram_mib = min (used.ram_mib + c.ram_mib) u64_max;
  gpu_memory_mib = charge_gpus used.gpu_memory_mib c.gpu_memory_mib;
}

-- What the agent counts for one allocation.
raised : Resources → Option Resources → Resources
raised requested observed = record {
  cpu_millicores = max requested.cpu_millicores (observed_or_none observed).cpu_millicores;
  ram_mib = max requested.ram_mib (observed_or_none observed).ram_mib;
  gpu_memory_mib = raise_gpus requested.gpu_memory_mib (observed_or_none observed).gpu_memory_mib;
}

raised-none : (r : Resources) → raised r none ≡ r
unfolding raised raise_gpus
raised-none r =
    let c : max r.cpu_millicores 0 ≡ r.cpu_millicores = omega arith in
    let m : max r.ram_mib 0 ≡ r.ram_mib = omega arith in rw (c, m) refl

raised-some : (r o : Resources) → raised r (some o) ≡ maximum r o
unfolding raised maximum
raised-some r o = rw (raise_gpus-maximum r.gpu_memory_mib o.gpu_memory_mib) refl

raised-charge_of :
    (a : Allocation) → PendingUnobserved a → raised a.requested a.observed ≡ charge_of a
unfolding charge_of
raised-charge_of a p = elim (Bool-cases (is_pending a.phase)) [
  | inl y ↦ rw (pending-none a.observed (rw y at p), y) (raised-none a.requested)
  | inr n ↦ rw n (go a.observed)
]
  where
    go :
        (o : Option Resources)
        → raised a.requested o
          ≡ (elim o [ none ↦ a.requested | some observed ↦ maximum a.requested observed ])
    go none = raised-none a.requested
    go (some o) = raised-some a.requested o

charge_one-charge_of :
    (used : Resources) (a : Allocation)
    → PendingUnobserved a
    → charge_one used a ≡ charge_add used (charge_of a)
unfolding charge_one charge_add raised
charge_one-charge_of used a p = ap (charge_add used) (raised-charge_of a p)

charge_add-exact :
    (used c : Resources) {total : Resources}
    → add_resources used c ≡ ok total
    → charge_add used c ≡ total
unfolding charge_add add_resources
charge_add-exact used c {total} h =
    let (cpu, e1, h1) =
      >>=-eq-ok
        (context (checked_add used.cpu_millicores c.cpu_millicores) PolicyError.cpu_overflow) _ h in
    let (ram, e2, h2) =
      >>=-eq-ok (context (checked_add used.ram_mib c.ram_mib) PolicyError.ram_overflow) _ h1 in
    let (gpus, e3, h3) = >>=-eq-ok (add_gpus used.gpu_memory_mib c.gpu_memory_mib) _ h2 in
    let a =
      saturating-exact used.cpu_millicores c.cpu_millicores
        (context-eq-ok (checked_add used.cpu_millicores c.cpu_millicores) _ e1) in
    let b =
      saturating-exact used.ram_mib c.ram_mib
        (context-eq-ok (checked_add used.ram_mib c.ram_mib) _ e2) in
    rw (a, b, charge_gpus-add used.gpu_memory_mib c.gpu_memory_mib e3) (ok-injective h3)

charge_from-charge_all :
    (c : Charges) (allocations : List Allocation) {total : Charges}
    → All PendingUnobserved allocations
    → charge_all c allocations ≡ ok total
    → charge_from c.charged allocations ≡ total.charged
unfolding charge_from charge_all
charge_from-charge_all c [] p h = ap (λ (x : Charges). x.charged) (ok-injective h)
charge_from-charge_all c (a ∷ rest) p h =
    let (next, e, h1) = >>=-eq-ok (charge_step c a) _ h in
    let s =
      charge_one-charge_of c.charged a p.0
      ∙ charge_add-exact c.charged (charge_of a) (charge_step-charged c a e) in
    rw s (charge_from-charge_all next rest p.1 h1)

-- Where usage is reported only for what may run and the policy's charge of all allocations does not
-- overflow, the agent fits into its capacity what the policy charges.
pub allocation_charge-charge_all :
    (allocations : List Allocation) {total : Charges}
    → All PendingUnobserved allocations
    → charge_all no_charges allocations ≡ ok total
    → allocation_charge allocations ≡ total.charged
unfolding allocation_charge
allocation_charge-charge_all allocations p h = charge_from-charge_all no_charges allocations p h
