-- ===== src/Policy/Charges.antt =====
-- src/policy.rs: the first loop of `evaluate`, which charges each allocation.
pub mod Laws
use cede_grid.Common.{
  Option, none, some, List, [], ◌∷◌, String, StringMap, get, insert, unwrap_or, Result, ok, ◌>>=◌,
  if◌then◌else◌,
}
use cede_grid.Model.Resources.{Resources, no_resources}
use cede_grid.Model.Snapshot.{Allocation, is_pending}
use cede_grid.Policy.Amounts.{PolicyError, add_resources, maximum}

pub record Charges : Type 0 where
  pub charged : Resources  -- the sum of all charges
  pub managed_observed : Resources  -- the sum of what was observed
  pub missing : Resources  -- the reservations of work whose usage is unknown
  pub charges : StringMap Resources  -- by allocation ID

abbrev pub no_charges : Charges
no_charges = record {
  charged = no_resources;
  managed_observed = no_resources;
  missing = no_resources;
  charges = [];
}

-- what one allocation is charged: its reservation, and what it uses where that is more
unfoldable pub charge_of : Allocation → Resources
charge_of a =
    if is_pending a.phase
    then a.requested
    else elim a.observed [ none ↦ a.requested | some observed ↦ maximum a.requested observed ]

-- the branch on `observed`, for an allocation that is not pending
note_usage : Allocation → Option Resources → Charges → Result PolicyError Charges
note_usage a none c =
    add_resources c.missing a.requested >>= λ missing. ok (record c { missing = missing })
note_usage a (some observed) c = add_resources c.managed_observed observed >>= λ total.
    ok (record c { managed_observed = total })

unfoldable pub charge_step : Charges → Allocation → Result PolicyError Charges
unfolding note_usage
charge_step c a = do
  noted ← if is_pending a.phase then ok c else note_usage a a.observed c
  total ← add_resources noted.charged (charge_of a)
  ok (record noted { charged = total; charges = insert a.id (charge_of a) noted.charges })

unfoldable pub charge_all : Charges → List Allocation → Result PolicyError Charges
charge_all c [] = ok c
charge_all c (a ∷ rest) = charge_step c a >>= λ next. charge_all next rest

-- `charges[&id]`, which panics where no charge is recorded
unfoldable pub charge_at : String → StringMap Resources → Resources
charge_at id charges = unwrap_or (get id charges) no_resources
