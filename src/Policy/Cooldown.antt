-- ===== src/Policy/Cooldown.antt =====
-- src/policy.rs: the cooldown after an unsafe evaluation.
use cede_grid.Common.{
  ℕ, ◌+◌, ◌≤◌, ◌≡◌, refl, Bool, true, ◌||◌, not, Option, none, some, ok, arith, is_none_or,
  is_some_and, leb, subst, Bool-cases, inl, inr,
}
use cede_grid.Model.Snapshot.{Snapshot, PolicyInput, Decision}
use cede_grid.Config.{Config}
use cede_grid.Policy.Gpu.{has_cooled}
use cede_grid.Policy.Engine.{
  PolicyEngine, Budgeted, evaluate, budgeted, decide_allocation, keep_stable, is_host_safe,
}
use cede_grid.Policy.Engine.Steps.{evaluate-Evaluated}

-- Evaluations one after the other, each under a configuration of its own.
pub data Run (e : PolicyEngine) : PolicyEngine → Type 0 where
  here : Run e e
  next :
      {e1 e2 : PolicyEngine} {d : Decision}
      → Run e e1
      → (config : Config) (snapshot : Snapshot) (input : PolicyInput) (now : ℕ)
      → evaluate e1 config snapshot input now ≡ ok (d, e2)
      → Run e e2

-- The last evaluation was at some time or later, and every stable interval began then or later.
pub record IsSince (start : ℕ) (e : PolicyEngine) : Type 0 where
  pub clock : is_some_and e.last_now (λ last. leb start last) ≡ true
  pub stable : is_none_or e.stable_since (λ since. leb start since) ≡ true
  pub host_stable : is_none_or e.cpu_ram_stable_since (λ since. leb start since) ≡ true

keep_stable-later :
    (start now : ℕ) (b : Bool) (since : Option ℕ)
    → start ≤ now
    → is_none_or since (λ s. leb start s) ≡ true
    → is_none_or (keep_stable b since now) (λ s. leb start s) ≡ true
unfolding keep_stable
keep_stable-later start now b none l h = ground arith
keep_stable-later start now b (some s) l h = ground arith

has_cooled-later :
    (config : Config) (start now : ℕ) (since : Option ℕ)
    → start ≤ now
    → is_none_or since (λ s. leb start s) ≡ true
    → has_cooled config now since ≡ true
    → start + config.gpu.scale_up_cooldown_ms ≤ now
unfolding has_cooled
has_cooled-later config start now since l h c = ground arith

clock-le :
    (start now : ℕ) (last : Option ℕ)
    → is_some_and last (λ l. leb start l) ≡ true
    → is_none_or last (λ l. leb l now) ≡ true
    → start ≤ now
clock-le start now none a b = cc
clock-le start now (some l) a b = ground arith

-- What a decision and the next state say of a start.
pub record IsLate (config : Config) (start now : ℕ) (r : Decision × PolicyEngine) : Type 0 where
  pub since : IsSince start r.1
  pub expands : r.0.expansion_allowed ≡ true → start + config.gpu.scale_up_cooldown_ms ≤ now
  pub host_expands :
      r.0.cpu_ram_expansion_allowed ≡ true → start + config.gpu.scale_up_cooldown_ms ≤ now

decide-IsLate :
    (e : PolicyEngine) (config : Config) (snapshot : Snapshot) (input : PolicyInput) (start now : ℕ)
    (b : Budgeted)
    → start ≤ now
    → is_none_or b.stable_since (λ since. leb start since) ≡ true
    → IsSince start e
    → IsLate config start now (decide_allocation e config snapshot input now b)
unfolding decide_allocation
decide-IsLate e config snapshot input start now b l s i =
    let host_safe =
      is_host_safe snapshot input.explicit_drain b.scope b.host b.charges.charged
        b.budget.cpu_millicores b.budget.ram_mib in
    let kept = keep_stable-later start now host_safe e.cpu_ram_stable_since l i.host_stable in
    let late =
      has_cooled-later config start now (keep_stable host_safe e.cpu_ram_stable_since now) l kept in
    let legacy = has_cooled-later config start now b.stable_since l s in
    record {
      since = record { clock = ground arith; stable = s; host_stable = kept };
      expands = λ h. ground (arith, h, late, legacy);
      host_expands = late;
    }

-- An evaluation never goes back before a start.
evaluate-IsLate :
    (e : PolicyEngine) (config : Config) (snapshot : Snapshot) (input : PolicyInput) (start now : ℕ)
    {r : Decision × PolicyEngine}
    → IsSince start e
    → evaluate e config snapshot input now ≡ ok r
    → IsLate config start now r
unfolding budgeted
evaluate-IsLate e config snapshot input start now i h =
    let v = evaluate-Evaluated e config snapshot input now h in
    let l : start ≤ now = clock-le start now e.last_now i.clock v.clock in
    subst (IsLate config start now) v.decided (
      decide-IsLate e config snapshot input start now
        (budgeted e config snapshot input now v.charges) l
        (keep_stable-later start now
          (not (budgeted e config snapshot input now v.charges).unsafe_now) e.stable_since l
          i.stable)
        i)

Run-IsSince : {e e1 : PolicyEngine} (start : ℕ) → IsSince start e → Run e e1 → IsSince start e1
Run-IsSince start i Run.here = i
Run-IsSince start i (Run.next {e1 = e1} r config snapshot input now h) =
    (evaluate-IsLate e1 config snapshot input start now (Run-IsSince start i r) h).since

-- If at some time an evaluation left no stable interval, then whatever is evaluated after it, an
-- evaluation that allows an expansion (of CPU and RAM, or in all) comes no sooner than the cooldown
-- of its configuration after that time.
pub cooldown_holds_back :
    (e : PolicyEngine) (start : ℕ) {e1 e2 : PolicyEngine} {d : Decision}
    → e.last_now ≡ some start
    → e.stable_since ≡ none
    → e.cpu_ram_stable_since ≡ none
    → Run e e1
    → (config : Config) (snapshot : Snapshot) (input : PolicyInput) (now : ℕ)
    → evaluate e1 config snapshot input now ≡ ok (d, e2)
    → d.expansion_allowed || d.cpu_ram_expansion_allowed ≡ true
    → start + config.gpu.scale_up_cooldown_ms ≤ now
cooldown_holds_back e start {e1 = e1} {d = d} t s c r config snapshot input now h x =
    let i : IsSince start e = record {
      clock = rw t (ground arith);
      stable = rw s refl;
      host_stable = rw c refl;
    } in
    let late = evaluate-IsLate e1 config snapshot input start now (Run-IsSince start i r) h in
    elim (Bool-cases d.expansion_allowed) [
      | inl y ↦ late.expands y
      | inr n ↦ late.host_expands (ground (arith, x, n))
    ]
