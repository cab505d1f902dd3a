-- ===== src/Server/Slots.antt =====
-- The table of connections as a map from descriptors to connections.
use coxx.Base.{
  ℕ, zero, suc, ◌+◌, ◌-◌, ◌<◌, ◌≡◌, ◌≢◌, refl, ap, Bool, true, false, Option, none, some, List, [],
  ◌∷◌, ◌++◌, arith, leb, length, get_elem?, set, replicate, length-append, length-replicate,
}
use coxx.Server.{Held, grown}

abbrev pub Table : Type 0
Table = List (Option Held)

-- The connection at an index, none where the pointer is null and behind the end.
abbrev pub slot : Table → ℕ → Option Held
slot [] k = none
slot (x ∷ xs) zero = x
slot (x ∷ xs) (suc k) = slot xs k

pub slot-set : (xs : Table) (k : ℕ) (v : Option Held) → k < length xs → slot (set xs k v) k ≡ v
slot-set [] k v h = absurd (omega arith)
slot-set (x ∷ xs) zero v h = refl
slot-set (x ∷ xs) (suc k) v h = slot-set xs k v (omega arith)

pub slot-set_other :
    (xs : Table) (j k : ℕ) (v : Option Held) → k ≢ j → slot (set xs j v) k ≡ slot xs k
slot-set_other [] j k v h = refl
slot-set_other (x ∷ xs) zero zero v h = absurd (h refl)
slot-set_other (x ∷ xs) zero (suc k) v h = refl
slot-set_other (x ∷ xs) (suc j) zero v h = refl
slot-set_other (x ∷ xs) (suc j) (suc k) v h = slot-set_other xs j k v (λ e. h (ap suc e))

-- An index within the table gives its slot.
pub get_elem?-slot : (xs : Table) (k : ℕ) → k < length xs → get_elem? xs k ≡ some (slot xs k)
get_elem?-slot [] k h = absurd (omega arith)
get_elem?-slot (x ∷ xs) zero h = refl
get_elem?-slot (x ∷ xs) (suc k) h = get_elem?-slot xs k (omega arith)

pub slot-lt : (xs : Table) (k : ℕ) (h : Held) → slot xs k ≡ some h → k < length xs
slot-lt [] k h e = cc
slot-lt (x ∷ xs) zero h e = omega arith
slot-lt (x ∷ xs) (suc k) h e = omega (arith, slot-lt xs k h e)

pub slot-replicate : (n k : ℕ) → slot (replicate n none) k ≡ none
slot-replicate zero k = refl
slot-replicate (suc n) zero = refl
slot-replicate (suc n) (suc k) = slot-replicate n k

slot-append : (xs : Table) (n k : ℕ) → slot (xs ++ replicate n none) k ≡ slot xs k
slot-append [] n k = slot-replicate n k
slot-append (x ∷ xs) n zero = refl
slot-append (x ∷ xs) n (suc k) = slot-append xs n k

-- The table that has grown has room for the descriptor, and the same connections.
pub slot-grown : (xs : Table) (fd k : ℕ) → slot (grown xs fd) k ≡ slot xs k
unfolding grown
slot-grown xs fd k = by_test (leb (length xs) fd) refl
  where
    by_test : (b : Bool) → leb (length xs) fd ≡ b → slot (grown xs fd) k ≡ slot xs k
    by_test true e = rw e (slot-append xs (fd + 1 - length xs) k)
    by_test false e = rw e

pub length-grown : (xs : Table) (fd : ℕ) → fd < length (grown xs fd)
unfolding grown
length-grown xs fd = by_test (leb (length xs) fd) refl
  where
    nulls : ℕ
    nulls = fd + 1 - length xs

    by_test : (b : Bool) → leb (length xs) fd ≡ b → fd < length (grown xs fd)
    by_test true e = rw e (
        ground (
          arith,
          e,
          length-append xs (replicate (fd + 1 - length xs) none),
          length-replicate {A = Option Held} (fd + 1 - length xs) none,
        ))
    by_test false e = rw e (ground (arith, e))
