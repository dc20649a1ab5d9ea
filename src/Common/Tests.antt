-- ===== src/Common/Tests.antt =====
-- Boolean tests on the native numbers, the conditional, and case lemmas.
use Prim.Native.Nat.{ℕ, ◌≤◌, ◌<◌, compare, Ordering}
use mathlib.Core.Path.{◌≡◌, refl}
use mathlib.Core.Logic.{◌↔◌, ◌⊎◌, inl, inr}
use mathlib.Core.Bool.{Bool, true, false, ◌&&◌}
use mathlib.Core.Option.{Option, none, some}
use native.Mathlib.Omega.{arith}

abbrev pub ltb : ℕ → ℕ → Bool
ltb a b = elim (compare a b) [ Ordering.lt ↦ true | _ ↦ false ]

abbrev pub leb : ℕ → ℕ → Bool
leb a b = elim (compare a b) [ Ordering.gt ↦ false | _ ↦ true ]

abbrev pub nat_eq : ℕ → ℕ → Bool
nat_eq a b = elim (compare a b) [ Ordering.eq ↦ true | _ ↦ false ]

infix 1 if◌then◌else◌
abbrev pub if◌then◌else◌ {ℓ} : {A : Type ℓ} → Bool → A → A → A
if true then x else y = x
if false then x else y = y

pub ltb→lt : (a b : ℕ) → ltb a b ≡ true → a < b
ltb→lt a b h = ground arith

pub leb→le : (a b : ℕ) → leb a b ≡ true → a ≤ b
leb→le a b h = ground arith

pub nat_eq_iff : (a b : ℕ) → (nat_eq a b ≡ true) ↔ (a ≡ b)
nat_eq_iff a b = ground arith

-- Both halves of a conjunction.
pub and-eq-true : (a b : Bool) → (a && b) ≡ true → (a ≡ true) × (b ≡ true)
and-eq-true a b h = ground arith

pub Bool-cases : (b : Bool) → (b ≡ true) ⊎ (b ≡ false)
Bool-cases true = inl refl
Bool-cases false = inr refl

pub Option-cases {ℓ} : {A : Type ℓ} (o : Option A) → (o ≡ none) ⊎ ((a : A) × (o ≡ some a))
Option-cases none = inl refl
Option-cases (some a) = inr (a, refl)

-- `is_some_and`, `is_none_or` and `is_some` of Rust's `Option`.
module _ {ℓ} {A : Type ℓ} where
  abbrev pub is_some : Option A → Bool
  is_some none = false
  is_some (some a) = true

  abbrev pub is_none : Option A → Bool
  is_none none = true
  is_none (some a) = false

  abbrev pub is_some_and : Option A → (A → Bool) → Bool
  is_some_and none p = false
  is_some_and (some a) p = p a

  abbrev pub is_none_or : Option A → (A → Bool) → Bool
  is_none_or none p = true
  is_none_or (some a) p = p a

  abbrev pub unwrap_or : Option A → A → A
  unwrap_or none d = d
  unwrap_or (some a) d = a
