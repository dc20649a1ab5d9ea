-- ===== src/Policy/Amounts.antt =====
-- src/policy.rs: the arithmetic on resources. Every amount is a `u64`.
pub mod Laws
use cede_grid.Common.{
  ℕ, ◌-◌, ◌*◌, min, max, Bool, ◌&&◌, ◌||◌, Option, none, some, [], ◌∷◌, String, StringMap, get,
  insert, amount, checked_add, u64_max, div_ceil, ltb, any, Result, ok, context, ◌>>=◌,
}
use cede_grid.Model.Resources.{Resources}

pub data PolicyError : Type 0 where
  config invalid_snapshot invalid_gpu invalid_allocation : PolicyError
  clock_backwards node_switched : PolicyError
  cpu_overflow ram_overflow gpu_overflow : PolicyError
  guaranteed_gpu inventory_unavailable gpu_absent gpu_unobserved : PolicyError
  gpu_shared gpu_busy : PolicyError

-- `ceil_ratio`: the product is taken in `u128`, where it cannot overflow
unfoldable pub ceil_ratio : ℕ → ℕ → ℕ → ℕ
ceil_ratio value numerator denominator = min (div_ceil (value * numerator) denominator) u64_max

-- the loops over `gpu_memory_mib` of `add_resources`, `maximum` and `subtract_resources`
unfoldable pub add_gpus : StringMap ℕ → StringMap ℕ → Result PolicyError (StringMap ℕ)
add_gpus total [] = ok total
add_gpus total ((gpu, n) ∷ rest) =
    context (checked_add (amount gpu total) n) PolicyError.gpu_overflow >>= λ sum.
    add_gpus (insert gpu sum total) rest

unfoldable pub add_resources : Resources → Resources → Result PolicyError Resources
add_resources total value = do
  cpu ← context (checked_add total.cpu_millicores value.cpu_millicores) PolicyError.cpu_overflow
  ram ← context (checked_add total.ram_mib value.ram_mib) PolicyError.ram_overflow
  gpus ← add_gpus total.gpu_memory_mib value.gpu_memory_mib
  ok (record { cpu_millicores = cpu; ram_mib = ram; gpu_memory_mib = gpus })

unfoldable pub maximum_gpus : StringMap ℕ → StringMap ℕ → StringMap ℕ
maximum_gpus result [] = result
maximum_gpus result ((gpu, n) ∷ rest) =
    maximum_gpus (insert gpu (max (amount gpu result) n) result) rest

unfoldable pub maximum : Resources → Resources → Resources
maximum left right = record {
  cpu_millicores = max left.cpu_millicores right.cpu_millicores;
  ram_mib = max left.ram_mib right.ram_mib;
  gpu_memory_mib = maximum_gpus left.gpu_memory_mib right.gpu_memory_mib;
}

-- `get_mut`: a device that the total does not hold is left out
subtract_at : String → ℕ → Option ℕ → StringMap ℕ → StringMap ℕ
subtract_at gpu n none total = total
subtract_at gpu n (some current) total = insert gpu (current - n) total

unfoldable pub subtract_gpus : StringMap ℕ → StringMap ℕ → StringMap ℕ
unfolding subtract_at
subtract_gpus total [] = total
subtract_gpus total ((gpu, n) ∷ rest) = subtract_gpus (subtract_at gpu n (get gpu total) total) rest

unfoldable pub subtract_resources : Resources → Resources → Resources
subtract_resources total value = record {
  cpu_millicores = total.cpu_millicores - value.cpu_millicores;
  ram_mib = total.ram_mib - value.ram_mib;
  gpu_memory_mib = subtract_gpus total.gpu_memory_mib value.gpu_memory_mib;
}

unfoldable pub contributes_to_excess : Resources → Resources → Resources → Bool
contributes_to_excess total budget charge =
    ltb budget.cpu_millicores total.cpu_millicores && ltb 0 charge.cpu_millicores
    || ltb budget.ram_mib total.ram_mib && ltb 0 charge.ram_mib
    || any
        (λ g. ltb 0 g.1 && ltb (amount g.0 budget.gpu_memory_mib) (amount g.0 total.gpu_memory_mib))
        charge.gpu_memory_mib
