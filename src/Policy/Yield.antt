-- ===== src/Policy/Yield.antt =====
-- src/policy.rs: whom a decision asks to drain, and what an explicit drain yields.
use cede_grid.Common.{
  ℕ, ◌≡◌, refl, true, false, Bool, ◌&&◌, ◌⊎◌, inl, inr, List, [], ◌∷◌, ◌++◌, String, StringMap,
  amount, get, ok, arith, map, filter, not, ap, subst, ◌∙◌, sym, ok-injective, Bool-cases,
}
use mathlib.Core.Path.{fun_ext}
use mathlib.Core.List.{Memᴰ, Perm}
use mathlib.Core.List.Perm
use cede_grid.Model.Resources.{Resources, no_resources}
use cede_grid.Model.Snapshot.{
  Snapshot, PolicyInput, Decision, Allocation, is_draining, GpuSnapshot, is_available,
}
use cede_grid.Config.{Config}
use cede_grid.Policy.Amounts.{contributes_to_excess}
use cede_grid.Policy.Charges.{Charges, no_charges, charge_all, charge_at}
use cede_grid.Policy.Gpu.{
  PreviousGpu, GpuState, gpu_step, gpu_loop, block_loop, block_gpu, gpu_part, has_cooled,
}
use cede_grid.Policy.Victims.{choose_victims, candidates, is_candidate, after_drains}
use cede_grid.Policy.Victims.Laws.{
  release, release-append, draining_ids, choose_victims-release, after_drains-release,
  choose_victims-mem, choose_victims_enough, choose_victims_all, candidates-mem, mem-candidates,
  candidates-perm,
}
use cede_grid.Policy.Engine.{
  PolicyEngine, Budgeted, evaluate, budgeted, decide_allocation, keep_stable, is_host_safe,
}
use cede_grid.Policy.Admission.{decide-IsLeft}
use cede_grid.Policy.Engine.Steps.{evaluate-Evaluated}

-- the victims that a decision names
decide-would_drain :
    (e : PolicyEngine) (config : Config) (snapshot : Snapshot) (input : PolicyInput) (now : ℕ)
    (b : Budgeted)
    → (decide_allocation e config snapshot input now b).0.would_drain
      ≡ (choose_victims input.explicit_drain b.charges.charges b.budget
          (after_drains b.charges.charges b.charges.charged input.allocations)
          (candidates input)).1
unfolding decide_allocation
decide-would_drain e config snapshot input now b = refl

decide-budget :
    (e : PolicyEngine) (config : Config) (snapshot : Snapshot) (input : PolicyInput) (now : ℕ)
    (b : Budgeted)
    → (decide_allocation e config snapshot input now b).0.managed_budget ≡ b.budget
unfolding decide_allocation
decide-budget e config snapshot input now b = refl

-- The choice is enough, by what the draining and the chosen leave.
victims-enough :
    (drain : Bool) (charges : StringMap Resources) (budget total : Resources)
    (allocations cs : List Allocation) (a : Allocation)
    → Memᴰ a cs
    → let ids =
        (choose_victims drain charges budget (after_drains charges total allocations) cs).1 in
      Memᴰ a.id ids
      ⊎ (contributes_to_excess
            (release charges total (draining_ids allocations ++ ids))
            budget
            (charge_at a.id charges)
          ≡ false)
victims-enough drain charges budget total allocations cs a m =
    let start = after_drains charges total allocations in
    let chosen = choose_victims drain charges budget start cs in
    let left : chosen.0 ≡ release charges total (draining_ids allocations ++ chosen.1) =
      choose_victims-release drain charges budget start cs
      ∙ (ap (λ x. release charges x chosen.1) (after_drains-release charges total allocations)
          ∙ sym (release-append charges total (draining_ids allocations) chosen.1)) in
    elim (choose_victims_enough drain charges budget start cs a m) [
      | inl d ↦ inl d
      | inr n ↦
          inr (subst (λ x. contributes_to_excess x budget (charge_at a.id charges) ≡ false) left n)
    ]

module _ (e : PolicyEngine) (config : Config) (snapshot : Snapshot) (input : PolicyInput) (now : ℕ)
    {d : Decision} {e' : PolicyEngine} (h : evaluate e config snapshot input now ≡ ok (d, e')) where
  -- Whoever a decision asks to drain is an allocation of the input that is not draining yet, and
  -- is opportunistic unless an explicit drain is on.
  pub would_drain_candidates :
      (id : String)
      → Memᴰ id d.would_drain
      → (a : Allocation) × Memᴰ a input.allocations
        × (a.id ≡ id)
        × (is_candidate input.explicit_drain a ≡ true)
  unfolding budgeted
  would_drain_candidates id m =
      let v = evaluate-Evaluated e config snapshot input now h in
      let b = budgeted e config snapshot input now v.charges in
      let same = ap (λ (r : Decision × PolicyEngine). r.0.would_drain) v.decided in
      let (a, k, p) =
        choose_victims-mem input.explicit_drain v.charges.charges b.budget _ (candidates input) id
          (subst (Memᴰ id) (sym same ∙ decide-would_drain e config snapshot input now b) m) in
      let (q, r) = candidates-mem input a k in (a, q, p, r)

  -- The planned releases are enough: each allocation that may be drained is drained, or its charge
  -- contributes to no excess of the managed budget by what is left of the total charge once the
  -- charges of the allocations that are draining or are drained now are released.
  pub would_drain_enough :
      (c : Charges)
      → charge_all no_charges input.allocations ≡ ok c
      → (a : Allocation) → Memᴰ a input.allocations
      → is_candidate input.explicit_drain a ≡ true
      → Memᴰ a.id d.would_drain
        ⊎ (contributes_to_excess
              (release c.charges c.charged (draining_ids input.allocations ++ d.would_drain))
              d.managed_budget
              (charge_at a.id c.charges)
            ≡ false)
  unfolding budgeted decide_allocation
  would_drain_enough c g a m k =
      let v = evaluate-Evaluated e config snapshot input now h in
      let b = budgeted e config snapshot input now v.charges in
      let same = ap (λ (r : Decision × PolicyEngine). r.0.would_drain) v.decided in
      let same_budget = ap (λ (r : Decision × PolicyEngine). r.0.managed_budget) v.decided in
      let same_charges : c ≡ v.charges = ok-injective (sym g ∙ v.charged) in
      rw same_charges (
        rw (← same, ← same_budget)
          (victims-enough input.explicit_drain v.charges.charges b.budget v.charges.charged
            input.allocations (candidates input) a (mem-candidates input a m k)))

gpu_step-unsafe :
    (config : Config) (at : ℕ) (c : Charges) (g : StringMap PreviousGpu) (safe : Bool) (now : ℕ)
    (s : GpuState) (gpu : GpuSnapshot)
    → s.unsafe_now ≡ true
    → (gpu_step config at c g safe now s gpu).unsafe_now ≡ true
unfolding gpu_step
gpu_step-unsafe config at c g safe now s gpu h = rw h

gpu_loop-unsafe :
    (config : Config) (at : ℕ) (c : Charges) (g : StringMap PreviousGpu) (safe : Bool) (now : ℕ)
    (s : GpuState) (gpus : List GpuSnapshot)
    → s.unsafe_now ≡ true
    → (gpu_loop config at c g safe now s gpus).unsafe_now ≡ true
unfolding gpu_loop
gpu_loop-unsafe config at c g safe now s [] h = h
gpu_loop-unsafe config at c g safe now s (gpu ∷ rest) h =
    gpu_loop-unsafe config at c g safe now (gpu_step config at c g safe now s gpu) rest
      (gpu_step-unsafe config at c g safe now s gpu h)

block_loop-unsafe :
    (p : String → Bool) (s : GpuState) (ids : List String)
    → s.unsafe_now ≡ true
    → (block_loop p s ids).unsafe_now ≡ true
unfolding block_loop
block_loop-unsafe p s [] h = h
block_loop-unsafe p s (id ∷ rest) h = elim (Bool-cases (p id)) [
  | inl t ↦ rw (t, block_loop) (block_loop-unsafe p s rest h)
  | inr t ↦ rw (t, block_loop) (block_loop-unsafe p (block_gpu s id) rest refl)
]

gpu_part-unsafe :
    (config : Config) (snapshot : Snapshot) (c : Charges) (g : StringMap PreviousGpu) (safe : Bool)
    (now : ℕ)
    → (gpu_part config snapshot c g safe now true).unsafe_now ≡ true
unfolding gpu_part
gpu_part-unsafe config snapshot c g safe now =
    elim (Bool-cases (is_available snapshot.gpu_inventory)) [
      | inl t ↦
          rw t
            (block_loop-unsafe _ _ _ (gpu_loop-unsafe config _ c g safe now _ snapshot.gpus refl))
      | inr t ↦ rw t (block_loop-unsafe _ _ _ refl)
    ]

-- A full yield of a list of allocations: no budget, no headroom, no expansion, and everything that
-- is not draining yet is to be drained.
pub record IsDrained (allocations : List Allocation) (d : Decision) : Type 0 where
  pub budget : d.managed_budget ≡ no_resources
  pub no_headroom :
      (d.admission_headroom.cpu_millicores ≡ 0)
      × (d.admission_headroom.ram_mib ≡ 0)
      × ((j : String) → amount j d.admission_headroom.gpu_memory_mib ≡ 0)
  pub no_expansion : (d.expansion_allowed ≡ false) × (d.cpu_ram_expansion_allowed ≡ false)
  pub drained :
      Perm d.would_drain
        (map (λ (a : Allocation). a.id) (filter (λ a. not (is_draining a.phase)) allocations))

drain-budgeted :
    (e : PolicyEngine) (config : Config) (snapshot : Snapshot) (allocations : List Allocation)
    (now : ℕ) (c : Charges)
    → let input : PolicyInput = record { allocations = allocations; explicit_drain = true } in
      let b = budgeted e config snapshot input now c in
      (b.budget ≡ no_resources) × (b.unsafe_now ≡ true)
unfolding budgeted
drain-budgeted e config snapshot allocations now c = (refl, rw gpu_part-unsafe refl)

drain-expansion :
    (e : PolicyEngine) (config : Config) (snapshot : Snapshot) (allocations : List Allocation)
    (now : ℕ) (b : Budgeted)
    → b.unsafe_now ≡ true
    → let input : PolicyInput = record { allocations = allocations; explicit_drain = true } in
      let d = (decide_allocation e config snapshot input now b).0 in
      (d.expansion_allowed ≡ false) × (d.cpu_ram_expansion_allowed ≡ false)
unfolding decide_allocation is_host_safe keep_stable has_cooled
drain-expansion e config snapshot allocations now b u = ground arith

or_drain : (b : Bool) → (b && true) ≡ b
or_drain true = refl
or_drain false = refl

candidate_drain :
    ◌≡◌ {A = Allocation → Bool} (λ a. is_candidate true a) (λ a. not (is_draining a.phase))
candidate_drain = fun_ext λ a. or_drain (not (is_draining a.phase))

drain-IsDrained :
    (e : PolicyEngine) (config : Config) (snapshot : Snapshot) (allocations : List Allocation)
    (now : ℕ) (c : Charges)
    → let input : PolicyInput = record { allocations = allocations; explicit_drain = true } in
      IsDrained allocations
        (decide_allocation e config snapshot input now (budgeted e config snapshot input now c)).0
unfolding get
drain-IsDrained e config snapshot allocations now c =
    let input : PolicyInput = record { allocations = allocations; explicit_drain = true } in
    let b = budgeted e config snapshot input now c in
    let (no_budget, u) = drain-budgeted e config snapshot allocations now c in
    let l = decide-IsLeft e config snapshot input now b in
    let same = decide-budget e config snapshot input now b ∙ no_budget in
    let cpu = ap (λ (r : Resources). r.cpu_millicores) same in
    let ram = ap (λ (r : Resources). r.ram_mib) same in
    let gpu = λ (j : String). ap (λ (r : Resources). amount j r.gpu_memory_mib) same in
    record {
      budget = same;
      no_headroom = (
        omega (arith, l.cpu, cpu),
        omega (arith, l.ram, ram),
        λ j. omega (arith, l.gpu j, gpu j),
      );
      no_expansion = drain-expansion e config snapshot allocations now b u;
      drained =
          rw (decide-would_drain e config snapshot input now b, choose_victims_all)
            (Perm.map (λ (a : Allocation). a.id) (rw candidate_drain at (candidates-perm input)));
    }

-- Under an explicit drain a successful evaluation gives no budget, no headroom and no expansion,
-- and asks to drain exactly the allocations that are not draining yet, guaranteed ones included.
pub explicit_drain_yields_all :
    (e : PolicyEngine) (config : Config) (snapshot : Snapshot) (allocations : List Allocation)
    (now : ℕ) {d : Decision} {e' : PolicyEngine}
    → evaluate e config snapshot (record { allocations = allocations; explicit_drain = true }) now
      ≡ ok (d, e')
    → IsDrained allocations d
explicit_drain_yields_all e config snapshot allocations now h =
    let v = evaluate-Evaluated e config snapshot _ now h in
    subst (λ (r : Decision × PolicyEngine). IsDrained allocations r.0) v.decided
      (drain-IsDrained e config snapshot allocations now v.charges)
