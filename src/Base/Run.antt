-- ===== src/Base/Run.antt =====
-- Runs of code that can fault: a null or dangling pointer, an access outside an array, a failed
-- assertion. A loop on fuel that it uses up is `out_of_fuel`, which the program has no counterpart of.
use coxx.Base.{Bool, true, false, Option, none, some, ◌≡◌}

pub data Run {ℓ} (A : Type ℓ) : Type ℓ where
  ok : A → Run A
  fault out_of_fuel : Run A

-- A value that has to be there.
abbrev pub need {ℓ} : {A : Type ℓ} → Option A → Run A
need none = fault
need (some a) = ok a

-- `assert`
abbrev pub check {ℓ} : {A : Type ℓ} → Bool → Run A → Run A
check true r = r
check false r = fault

module _ {ℓ κ} {X : Type ℓ} {Y : Type κ} where
  infixl 5 ◌>>=◌
  abbrev pub ◌>>=◌ : Run X → (X → Run Y) → Run Y
  fault >>= next = fault
  out_of_fuel >>= next = out_of_fuel
  ok x >>= next = next x

module _ {ℓ κ} {X : Type ℓ} where
  -- The run ends normally, in a result of which `Post` holds.
  abbrev pub Returns : Run X → (X → Type κ) → Type (ℓ ⊔ κ)
  Returns run Post = (result : X) × (run ≡ ok result) × Post result
