-- ===== src/Common/Results.antt =====
-- Rust's `Result`, with `?` as `>>=` and `ensure!` as `ensure`.
use mathlib.Core.Path.{◌≡◌, refl, ap}
use mathlib.Core.Bool.{Bool, true, false}
use mathlib.Core.Option.{Option, none, some}

pub data Result {ℓ} (E : Type 0) (A : Type ℓ) : Type ℓ where
  err : E → Result E A
  ok : A → Result E A

module _ {ℓ κ} {E : Type 0} {A : Type ℓ} {B : Type κ} where
  infixl 5 ◌>>=◌
  abbrev pub ◌>>=◌ : Result E A → (A → Result E B) → Result E B
  err why >>= next = err why
  ok value >>= next = next value

  -- A successful chain went through its first step.
  pub >>=-eq-ok :
      (first : Result E A) (next : A → Result E B) {last : B}
      → (first >>= next) ≡ ok last
      → (value : A) × (first ≡ ok value) × (next value ≡ ok last)
  >>=-eq-ok (err why) next passed = cc
  >>=-eq-ok (ok value) next passed = (value, refl, passed)

module _ {ℓ} {E : Type 0} {B : Type ℓ} where
  infixl 5 ◌>>◌
  abbrev pub ◌>>◌ : Result E (Unit {0}) → Result E B → Result E B
  check >> rest = check >>= λ _. rest

-- `ensure!(test, e)`
abbrev pub ensure : {E : Type 0} → Bool → E → Result E (Unit {0})
ensure false why = err why
ensure true why = ok tt

-- `option.context(e)?`
abbrev pub context {ℓ} : {E : Type 0} {A : Type ℓ} → Option A → E → Result E A
context (some value) why = ok value
context none why = err why

-- A passed guard, taken apart.
pub ensure-eq-ok {ℓ} :
    {E : Type 0} {B : Type ℓ} (test : Bool) (why : E) (rest : Result E B) {last : B}
    → (ensure test why >> rest) ≡ ok last
    → (test ≡ true) × (rest ≡ ok last)
ensure-eq-ok false why rest passed = cc
ensure-eq-ok true why rest passed = (refl, passed)

pub ok-injective {ℓ} :
    {E : Type 0} {A : Type ℓ} {a b : A} → ◌≡◌ {A = Result E A} (ok a) (ok b) → a ≡ b
ok-injective same = cc

-- A passed `context`, taken apart.
pub context-eq-ok {ℓ} :
    {E : Type 0} {A : Type ℓ} (o : Option A) (why : E) {value : A}
    → context o why ≡ ok value
    → o ≡ some value
context-eq-ok (some x) why passed = ap {B = Option _} some (ok-injective passed)
context-eq-ok none why passed = cc

pub some-injective {ℓ} : {A : Type ℓ} {a b : A} → ◌≡◌ {A = Option A} (some a) (some b) → a ≡ b
some-injective same = cc
