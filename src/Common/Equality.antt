-- ===== src/Common/Equality.antt =====
-- Rust's `PartialEq` as an interface: a test and the law that it decides equality.
use Prim.Native.Nat.{ℕ}
use Prim.Native.String.{String}
use mathlib.Core.Path.{◌≡◌, refl, ap}
use mathlib.Core.Logic.{◌↔◌}
use mathlib.Core.Bool.{Bool, true, false, ◌&&◌, false≢true}
use mathlib.Core.Option.{Option, none, some}
use mathlib.Core.List.{List, [], ◌∷◌}
use native.Mathlib.Omega.{arith}
use text.Mathlib.Text.{◌==◌ as str_eq}
use text.Mathlib.TextEquality.{eq_iff}
use cede_grid.Common.Tests.{nat_eq, nat_eq_iff}

pub record Eq {ℓ} (T : Type ℓ) : Type ℓ where
  pub equals : T → T → Bool
  pub decides : (x y : T) → (equals x y ≡ true) ↔ (x ≡ y)

module _ {ℓ} {T : Type ℓ} ⦃i : Eq T⦄ where
  infix 50 ◌==◌
  abbrev pub ◌==◌ : T → T → Bool
  x == y = i.equals x y

  -- The law of the operator, at any instance.
  pub ==_iff : (x y : T) → ((x == y) ≡ true) ↔ (x ≡ y)
  ==_iff = i.decides

-- Two tests in a row decide two statements.
pub and_iff {ℓ κ} :
    {P : Type ℓ} {Q : Type κ} {x y : Bool}
    → (x ≡ true) ↔ P
    → (y ≡ true) ↔ Q
    → ((x && y) ≡ true) ↔ (P × Q)
and_iff {x = true} {y = true} p q = (λ _. (p.0 refl, q.0 refl), λ _. refl)
and_iff {x = true} {y = false} p q = (λ h. absurd (false≢true h), λ h. q.1 h.1)
and_iff {x = false} {y = y} p q = (λ h. absurd (false≢true h), λ h. p.1 h.0)

abbrev pub bool_eq : Bool → Bool → Bool
bool_eq true b = b
bool_eq false true = false
bool_eq false false = true

pub bool_eq_iff : (a b : Bool) → (bool_eq a b ≡ true) ↔ (a ≡ b)
bool_eq_iff a b = ground arith

instance abbrev pub Bool_eq : Eq Bool
Bool_eq = record { equals = bool_eq; decides = bool_eq_iff }

instance abbrev pub ℕ_eq : Eq ℕ
ℕ_eq = record { equals = nat_eq; decides = nat_eq_iff }

instance abbrev pub String_eq : Eq String
String_eq = record { equals = str_eq; decides = eq_iff }

module _ {ℓ} {A : Type ℓ} ⦃e : Eq A⦄ where
  abbrev pub option_eq : Option A → Option A → Bool
  option_eq none none = true
  option_eq none (some b) = false
  option_eq (some a) none = false
  option_eq (some a) (some b) = e.equals a b

  pub option_eq_iff : (a b : Option A) → (option_eq a b ≡ true) ↔ (a ≡ b)
  option_eq_iff none none = ground arith
  option_eq_iff none (some b) = ground arith
  option_eq_iff (some a) none = ground arith
  option_eq_iff (some a) (some b) =
      (λ h. ap {B = Option A} some ((e.decides a b).0 h), λ h. (e.decides a b).1 (cc))

  abbrev pub list_eq : List A → List A → Bool
  list_eq [] [] = true
  list_eq [] (b ∷ bs) = false
  list_eq (a ∷ as') [] = false
  list_eq (a ∷ as') (b ∷ bs) = e.equals a b && list_eq as' bs

  pub list_eq_iff : (a b : List A) → (list_eq a b ≡ true) ↔ (a ≡ b)
  list_eq_iff [] [] = ground arith
  list_eq_iff [] (b ∷ bs) = ground arith
  list_eq_iff (a ∷ as') [] = ground arith
  list_eq_iff (a ∷ as') (b ∷ bs) = ground (arith, e.decides a b, list_eq_iff as' bs)

instance abbrev pub Option_eq {ℓ} : {A : Type ℓ} ⦃e : Eq A⦄ → Eq (Option A)
Option_eq = record { equals = option_eq; decides = option_eq_iff }

instance abbrev pub List_eq {ℓ} : {A : Type ℓ} ⦃e : Eq A⦄ → Eq (List A)
List_eq = record { equals = list_eq; decides = list_eq_iff }

module _ {ℓ κ} {A : Type ℓ} {B : Type κ} ⦃e : Eq A⦄ ⦃f : Eq B⦄ where
  abbrev pub pair_eq : A × B → A × B → Bool
  pair_eq (a, b) (c, d) = e.equals a c && f.equals b d

  pub pair_eq_iff : (x y : A × B) → (pair_eq x y ≡ true) ↔ (x ≡ y)
  pair_eq_iff (a, b) (c, d) = ground (arith, e.decides a c, f.decides b d)

instance abbrev pub Pair_eq {ℓ κ} : {A : Type ℓ} {B : Type κ} ⦃e : Eq A⦄ ⦃f : Eq B⦄ → Eq (A × B)
Pair_eq = record { equals = pair_eq; decides = pair_eq_iff }
