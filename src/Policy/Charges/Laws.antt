-- ===== src/Policy/Charges/Laws.antt =====
-- What the first loop of `evaluate` adds up.
use cede_grid.Common.{
  ℕ, ◌+◌, ◌≡◌, Option, none, some, List, [], ◌∷◌, String, amount, arith, ok, >>=-eq-ok,
  ok-injective, ap, sym, subst, Bool-cases, inl, inr, if◌then◌else◌,
}
use cede_grid.Model.Resources.{Resources}
use cede_grid.Model.Snapshot.{Allocation, is_pending}
use cede_grid.Policy.Amounts.{add_resources}
use cede_grid.Policy.Amounts.Laws.{IsSum, add_resources-IsSum, sum_at}
use cede_grid.Policy.Charges.{Charges, charge_of, charge_step, charge_all, note_usage}

-- The sums of the charges of a list of allocations, in each dimension.
abbrev pub total_cpu : List Allocation → ℕ
total_cpu [] = 0
total_cpu (a ∷ rest) = (charge_of a).cpu_millicores + total_cpu rest

abbrev pub total_ram : List Allocation → ℕ
total_ram [] = 0
total_ram (a ∷ rest) = (charge_of a).ram_mib + total_ram rest

abbrev pub total_gpu : String → List Allocation → ℕ
total_gpu j [] = 0
total_gpu j (a ∷ rest) = sum_at j (charge_of a).gpu_memory_mib + total_gpu j rest

note_usage-charged :
    (a : Allocation) (o : Option Resources) (c : Charges) {c' : Charges}
    → note_usage a o c ≡ ok c'
    → c'.charged ≡ c.charged
unfolding note_usage
note_usage-charged a none c h = ground arith
note_usage-charged a (some observed) c h = ground arith

noted-charged :
    (a : Allocation) (c : Charges) {c' : Charges}
    → (if is_pending a.phase then ok c else note_usage a a.observed c) ≡ ok c'
    → c'.charged ≡ c.charged
noted-charged a c {c' = c'} h = elim (Bool-cases (is_pending a.phase)) [
  | inl p ↦ sym (ap (λ (x : Charges). x.charged) (ok-injective (rw p at h)))
  | inr p ↦ note_usage-charged a a.observed c (rw p at h)
]

pub charge_step-charged :
    (c : Charges) (a : Allocation) {c' : Charges}
    → charge_step c a ≡ ok c'
    → add_resources c.charged (charge_of a) ≡ ok c'.charged
unfolding charge_step
charge_step-charged c a {c'} h =
    let (noted, n, h1) =
      >>=-eq-ok (if is_pending a.phase then ok c else note_usage a a.observed c) _ h in
    let (total, t, h2) = >>=-eq-ok (add_resources noted.charged (charge_of a)) _ h1 in
    let e : add_resources noted.charged (charge_of a) ≡ ok c'.charged =
      rw (← ap (λ (x : Charges). x.charged) (ok-injective h2)) t in
    subst (λ x. add_resources x (charge_of a) ≡ ok c'.charged) (noted-charged a c n) e

pub charge_step-IsSum :
    (c : Charges) (a : Allocation) {c' : Charges}
    → charge_step c a ≡ ok c'
    → IsSum c.charged (charge_of a) c'.charged
charge_step-IsSum c a h = add_resources-IsSum c.charged (charge_of a) (charge_step-charged c a h)

-- The total that is charged is the exact sum of the charges, in every dimension.
pub charge_all-exact :
    (c : Charges) (as' : List Allocation) {c' : Charges}
    → charge_all c as' ≡ ok c'
    → (c'.charged.cpu_millicores ≡ c.charged.cpu_millicores + total_cpu as')
      × (c'.charged.ram_mib ≡ c.charged.ram_mib + total_ram as')
      × ((j : String)
          → amount j c'.charged.gpu_memory_mib
            ≡ amount j c.charged.gpu_memory_mib + total_gpu j as')
unfolding charge_all
charge_all-exact c [] h = rw (← ok-injective h) (omega arith, omega arith, λ j. omega arith)
charge_all-exact c (a ∷ rest) h =
    let (d, step, next) = >>=-eq-ok (charge_step c a) _ h in
    let s = charge_step-IsSum c a step in
    let (cpu, ram, gpu) = charge_all-exact d rest next in
    (omega (arith, s.cpu, cpu), omega (arith, s.ram, ram), λ j. omega (arith, s.gpu j, gpu j))
