-- ===== src/Policy/Engine/Steps.antt =====
-- A successful evaluation, taken apart into the steps that it went through.
use cede_grid.Common.{
  ℕ, ◌≡◌, true, ok, >>=-eq-ok, ensure-eq-ok, ok-injective, is_none_or, leb, ◌==◌, String_eq,
}
use cede_grid.Model.Snapshot.{Snapshot, PolicyInput, Decision}
use cede_grid.Config.{Config}
use cede_grid.Policy.Amounts.{PolicyError}
use cede_grid.Policy.Input.{validate}
use cede_grid.Policy.Charges.{Charges, no_charges, charge_all}
use cede_grid.Policy.Engine.{PolicyEngine, evaluate, budgeted, decide_allocation, config_checked}

pub record Evaluated (e : PolicyEngine) (config : Config) (snapshot : Snapshot)
    (input : PolicyInput) (now : ℕ) (result : Decision × PolicyEngine) : Type 0 where
  pub configured : config_checked config ≡ ok tt
  pub valid : validate snapshot input config.node_id ≡ ok tt
  pub clock : is_none_or e.last_now (λ last. leb last now) ≡ true
  pub same_node : is_none_or e.node_id (λ id. id == snapshot.node_id) ≡ true
  pub charges : Charges
  pub charged : charge_all no_charges input.allocations ≡ ok charges
  pub decided :
      decide_allocation e config snapshot input now (budgeted e config snapshot input now charges)
      ≡ result

pub evaluate-Evaluated :
    (e : PolicyEngine) (config : Config) (snapshot : Snapshot) (input : PolicyInput) (now : ℕ)
    {result : Decision × PolicyEngine}
    → evaluate e config snapshot input now ≡ ok result
    → Evaluated e config snapshot input now result
unfolding evaluate
evaluate-Evaluated e config snapshot input now h =
    let (u, a, h1) = >>=-eq-ok (config_checked config) _ h in
    let (v, b, h2) = >>=-eq-ok (validate snapshot input config.node_id) _ h1 in
    let (k, h3) = ensure-eq-ok _ PolicyError.clock_backwards _ h2 in
    let (i, h4) = ensure-eq-ok _ PolicyError.node_switched _ h3 in
    let (c, g, h5) = >>=-eq-ok (charge_all no_charges input.allocations) _ h4 in
    record {
      configured = a;
      valid = b;
      clock = k;
      same_node = i;
      charges = c;
      charged = g;
      decided = ok-injective h5;
    }
