-- ===== src/Policy/Amounts/Laws.antt =====
-- The arithmetic of src/policy.rs: what rounding up, adding and subtracting resources yield.
use cede_grid.Common.{
  ℕ, ◌+◌, ◌-◌, ◌≤◌, ◌≡◌, [], ◌∷◌, String, StringMap, get, insert, get-insert, amount, arith,
  Option-cases, inl, inr, if◌then◌else◌, eq_iff, ok, checked_add, context, >>=-eq-ok,
}
use text.Mathlib.Text.{◌==◌ as str_eq}
use cede_grid.Model.Resources.{Resources}
use cede_grid.Policy.Amounts.{
  ceil_ratio, subtract_gpus, subtract_at, add_gpus, add_resources, PolicyError,
}

-- A percentage of at most 100, rounded up, is at most the value.
pub ceil_ratio-le : (value percent : ℕ) → percent ≤ 100 → ceil_ratio value percent 100 ≤ value
unfolding ceil_ratio
ceil_ratio-le value percent h = grind arith

amount-insert :
    (j k : String) (n : ℕ) (m : StringMap ℕ)
    → amount j (insert k n m) ≡ (if str_eq j k then n else amount j m)
amount-insert j k n m = ground (arith, get-insert j k n m)

amount-subtract_at :
    (j k : String) (n : ℕ) (m : StringMap ℕ)
    → amount j (subtract_at k n (get k m) m) ≡ (if str_eq j k then amount j m - n else amount j m)
unfolding subtract_at
amount-subtract_at j k n m = elim (Option-cases (get k m)) [
  | inl absent ↦ ground (arith, absent, eq_iff j k)
  | inr (v, present) ↦ rw present (ground (arith, present, eq_iff j k, amount-insert j k (v - n) m))
]

-- What a subtraction leaves of a device is at most the old amount less what is subtracted.
pub subtract_gpus-le :
    (j : String) (total value : StringMap ℕ)
    → amount j (subtract_gpus total value) ≤ amount j total - amount j value
unfolding subtract_gpus get
subtract_gpus-le j total [] = omega arith
subtract_gpus-le j total ((g, n) ∷ rest) = ground (
  arith,
  subtract_gpus-le j (subtract_at g n (get g total) total) rest,
  amount-subtract_at j g n total,
)

-- All that a map charges to one device.
abbrev pub sum_at : String → StringMap ℕ → ℕ
sum_at j [] = 0
sum_at j ((g, n) ∷ rest) = (if str_eq j g then n else 0) + sum_at j rest

context_checked :
    (a b : ℕ) (e : PolicyError) {c : ℕ} → context (checked_add a b) e ≡ ok c → c ≡ a + b
unfolding checked_add
context_checked a b e h = ground arith

-- A sum of GPU amounts that is returned is exact on each device.
pub amount-add_gpus :
    (j : String) (total value : StringMap ℕ) {result : StringMap ℕ}
    → add_gpus total value ≡ ok result
    → amount j result ≡ amount j total + sum_at j value
unfolding add_gpus
amount-add_gpus j total [] h = ground arith
amount-add_gpus j total ((g, n) ∷ rest) h =
    let (s, summed, next) =
      >>=-eq-ok (context (checked_add (amount g total) n) PolicyError.gpu_overflow) _ h in
    ground (
      arith,
      context_checked (amount g total) n PolicyError.gpu_overflow summed,
      amount-add_gpus j (insert g s total) rest next,
      amount-insert j g s total,
      eq_iff j g,
    )

-- A sum of resources that is returned is exact in every dimension.
pub record IsSum (total value result : Resources) : Type 0 where
  pub cpu : result.cpu_millicores ≡ total.cpu_millicores + value.cpu_millicores
  pub ram : result.ram_mib ≡ total.ram_mib + value.ram_mib
  pub gpu :
      (j : String)
      → amount j result.gpu_memory_mib
        ≡ amount j total.gpu_memory_mib + sum_at j value.gpu_memory_mib

pub add_resources-IsSum :
    (total value : Resources) {result : Resources}
    → add_resources total value ≡ ok result
    → IsSum total value result
unfolding add_resources
add_resources-IsSum total value h =
    let (cpu, c, h1) =
      >>=-eq-ok
        (context (checked_add total.cpu_millicores value.cpu_millicores) PolicyError.cpu_overflow) _
        h in
    let (ram, r, h2) =
      >>=-eq-ok (context (checked_add total.ram_mib value.ram_mib) PolicyError.ram_overflow) _ h1 in
    let (gpus, g, h3) = >>=-eq-ok (add_gpus total.gpu_memory_mib value.gpu_memory_mib) _ h2 in
    record {
      cpu = ground (arith, context_checked _ _ PolicyError.cpu_overflow c);
      ram = ground (arith, context_checked _ _ PolicyError.ram_overflow r);
      gpu = λ j. ground (arith, amount-add_gpus j total.gpu_memory_mib value.gpu_memory_mib g);
    }
