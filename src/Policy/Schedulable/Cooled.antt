-- ===== src/Policy/Schedulable/Cooled.antt =====
-- src/policy.rs: `schedulable_budget` after an evaluation.
use cede_grid.Common.{
  ℕ, ◌-◌, ◌≤◌, ◌<◌, ◌≡◌, refl, true, String, StringMap, [], ◌∷◌, amount, contains_key, get,
  get-retain, retain, if◌then◌else◌, arith, eq_iff, eq_refl, Bool, Bool-cases, inl, inr, ◌==◌,
  String_eq, some, none, Option, ok, ap, subst, sym, ◌∙◌,
}
use cede_grid.Model.Snapshot.{Snapshot, PolicyInput, Decision}
use cede_grid.Config.{Config}
use cede_grid.Policy.Amounts.{subtract_resources}
use cede_grid.Policy.Gpu.{has_cooled, stable_start, PreviousGpu}
use cede_grid.Policy.Schedulable.{schedulable_budget, clear_missing}
use cede_grid.Policy.Engine.{
  PolicyEngine, Budgeted, evaluate, budgeted, decide_allocation, raw_headroom, may_admit,
}
use cede_grid.Policy.Engine.Steps.{evaluate-Evaluated}

amount-clear_missing :
    (j : String) (headroom budget : StringMap ℕ)
    → amount j (clear_missing headroom budget)
      ≡ (if contains_key j headroom then amount j budget else 0)
unfolding clear_missing get
amount-clear_missing j headroom [] = ground arith
amount-clear_missing j headroom ((uuid, value) ∷ rest) =
    let more = amount-clear_missing j headroom rest in
    elim (Bool-cases (j == uuid)) [
      | inl y ↦ rw ((eq_iff j uuid).0 y) (ground (arith, eq_refl uuid))
      | inr n ↦ ground (arith, n, more)
    ]

retained-passes :
    (p : String → Bool) (j : String) (m : StringMap ℕ)
    → contains_key j (retain p m) ≡ true
    → p j ≡ true
retained-passes p j m h = ground (arith, h, get-retain p j m)

placed-listed :
    (d : Decision) (j : String)
    → 0 < amount j (schedulable_budget d).gpu_memory_mib
    → contains_key j d.admission_headroom.gpu_memory_mib ≡ true
unfolding schedulable_budget
placed-listed d j h = ground (
  arith,
  h,
  amount-clear_missing j d.admission_headroom.gpu_memory_mib d.managed_budget.gpu_memory_mib,
)

decide-headroom :
    (e : PolicyEngine) (config : Config) (snapshot : Snapshot) (input : PolicyInput) (now : ℕ)
    (b : Budgeted)
    → (decide_allocation e config snapshot input now b).0.admission_headroom.gpu_memory_mib
      ≡ (raw_headroom config now b).gpu_memory_mib
unfolding decide_allocation
decide-headroom e config snapshot input now b = ground arith

-- A device on which memory may be placed was admitted by the evaluation.
placed-admits :
    (e : PolicyEngine) (config : Config) (snapshot : Snapshot) (input : PolicyInput) (now : ℕ)
    (b : Budgeted) (j : String)
    → 0
      < amount j
          (schedulable_budget (decide_allocation e config snapshot input now b).0).gpu_memory_mib
    → may_admit config now b j ≡ true
unfolding raw_headroom
placed-admits e config snapshot input now b j h =
    retained-passes (may_admit config now b) j
      (subtract_resources b.budget b.charges.charged).gpu_memory_mib
      (subst (λ m. contains_key j m ≡ true) (decide-headroom e config snapshot input now b)
        (placed-listed (decide_allocation e config snapshot input now b).0 j h))

cooled-since :
    (config : Config) (now : ℕ) (o : Option ℕ)
    → has_cooled config now o ≡ true
    → (start : ℕ) × (o ≡ some start) × (config.gpu.scale_up_cooldown_ms ≤ now - start)
unfolding has_cooled
cooled-since config now none h = cc h
cooled-since config now (some start) h = (start, refl, ground (arith, h))

decide-keeps :
    (e : PolicyEngine) (config : Config) (snapshot : Snapshot) (input : PolicyInput) (now : ℕ)
    (b : Budgeted)
    → (decide_allocation e config snapshot input now b).1.previous_gpus ≡ b.gpus.next_gpus
unfolding decide_allocation
decide-keeps e config snapshot input now b = refl

placed-whole :
    (d : Decision) (j : String)
    → 0 < amount j (schedulable_budget d).gpu_memory_mib
    → amount j (schedulable_budget d).gpu_memory_mib ≡ amount j d.managed_budget.gpu_memory_mib
unfolding schedulable_budget
placed-whole d j h = ground (
  arith,
  h,
  amount-clear_missing j d.admission_headroom.gpu_memory_mib d.managed_budget.gpu_memory_mib,
)

-- After an evaluation the coordinator may place memory on a device only if the engine keeps for it a
-- stable interval that has lasted for the cooldown, and then the whole managed budget of the device.
pub schedulable_cooled :
    (e : PolicyEngine) (config : Config) (snapshot : Snapshot) (input : PolicyInput) (now : ℕ)
    (j : String) {d : Decision} {e' : PolicyEngine}
    → evaluate e config snapshot input now ≡ ok (d, e')
    → 0 < amount j (schedulable_budget d).gpu_memory_mib
    → (start : ℕ) × (stable_start j e'.previous_gpus ≡ some start)
      × (config.gpu.scale_up_cooldown_ms ≤ now - start)
      × (amount j (schedulable_budget d).gpu_memory_mib ≡ amount j d.managed_budget.gpu_memory_mib)
schedulable_cooled e config snapshot input now j {d} {e'} h p =
    let v = evaluate-Evaluated e config snapshot input now h in
    let b = budgeted e config snapshot input now v.charges in
    let same : (decide_allocation e config snapshot input now b).0 ≡ d =
      ap (λ (r : Decision × PolicyEngine). r.0) v.decided in
    let kept : e'.previous_gpus ≡ b.gpus.next_gpus =
      sym (ap (λ (r : Decision × PolicyEngine). r.1.previous_gpus) v.decided)
      ∙ decide-keeps e config snapshot input now b in
    let q =
      placed-admits e config snapshot input now b j (
        subst (λ (x : Decision). 0 < amount j (schedulable_budget x).gpu_memory_mib) (sym same)
          p) in
    let (start, s, c) =
      cooled-since config now (stable_start j b.gpus.next_gpus) (ground (arith, q)) in
    (start, ap (λ (x : StringMap PreviousGpu). stable_start j x) kept ∙ s, c, placed-whole d j p)
