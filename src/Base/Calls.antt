-- ===== src/Base/Calls.antt =====
-- The result of a call that may stop the program, and what is known of such a call.
use mathlib.Core.Bool.{Bool, true, false}
use mathlib.Core.Option.{Option, none, some}
use cyglibabigail.Base.Tests.{if◌then◌else◌}

-- How a call ends: it returns, an `assert` stops the program, or the model's fuel runs out.
pub data Outcome {ℓ} (A : Type ℓ) : Type ℓ where
  returned : A → Outcome A
  aborted : Outcome A
  out_of_fuel : Outcome A

infixl 5 ◌>>=◌
abbrev pub ◌>>=◌ {ℓ κ} : {A : Type ℓ} {B : Type κ} → Outcome A → (A → Outcome B) → Outcome B
returned a >>= f = f a
aborted >>= f = aborted
out_of_fuel >>= f = out_of_fuel

-- The call returns with a value that satisfies `P`, or aborts where `Q` holds.
pub data Ensures {A : Type 0} (Q : Type 0) (P : A → Type 0) : Outcome A → Type 0 where
  returns : {a : A} → P a → Ensures Q P (returned a)
  aborts : Q → Ensures Q P aborted

module _ {A : Type 0} {Q : Type 0} {P : A → Type 0} where
  pub Ensures-bind :
      {B : Type 0} {R : B → Type 0} {o : Outcome A} {f : A → Outcome B}
      → Ensures Q P o
      → ((a : A) → P a → Ensures Q R (f a))
      → Ensures Q R (o >>= f)
  Ensures-bind (returns p) k = k _ p
  Ensures-bind (aborts q) k = aborts q

  pub Ensures-map :
      {R : A → Type 0} {o : Outcome A} → Ensures Q P o → ((a : A) → P a → R a) → Ensures Q R o
  Ensures-map (returns p) k = returns (k _ p)
  Ensures-map (aborts q) k = aborts q

  -- Two properties of one call.
  pub Ensures-both :
      {R : A → Type 0} {o : Outcome A}
      → Ensures Q P o
      → Ensures Q R o
      → Ensures Q (λ a. P a × R a) o
  Ensures-both (returns p) (returns r) = returns (p, r)
  Ensures-both (aborts q) (aborts r) = aborts q

-- The same for a call whose result is an option and a state, by cases on the option.
pub Ensures-cases :
    {A S B : Type 0} {Q : Type 0} {P : Option A × S → Type 0} {R : B → Type 0}
    {o : Outcome (Option A × S)} (f : Option A × S → Outcome B)
    → Ensures Q P o
    → ((s : S) → P (none, s) → Ensures Q R (f (none, s)))
    → ((a : A) (s : S) → P (some a, s) → Ensures Q R (f (some a, s)))
    → Ensures Q R (o >>= f)
Ensures-cases f (returns {a = (none, s)} p) k l = k s p
Ensures-cases f (returns {a = (some a, s)} p) k l = l a s p
Ensures-cases f (aborts q) k l = aborts q

-- A call under a test.
pub Ensures-if :
    {A : Type 0} {Q : Type 0} {P : A → Type 0} (b : Bool) {o p : Outcome A}
    → Ensures Q P o
    → Ensures Q P p
    → Ensures Q P (if b then o else p)
Ensures-if true h k = h
Ensures-if false h k = k
