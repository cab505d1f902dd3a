-- ===== src/Zset/Swap.antt =====
-- One address in place of another in a list of them.
use coxx.Base.{
  ℕ, ◌+◌, ◌<◌, ◌≡◌, ◌≢◌, refl, subst, Bool, List, [], ◌∷◌, ◌++◌, if◌then◌else◌, arith, All,
  All-append, ◌==◌,
}
use coxx.Map.Slots.{to_nat}
use coxx.Avl.Order.{occurrences, occurrences-append}
use coxx.Zset.Tally.{tally, tally-append, All-split}

-- An address moved to another place of the list.
pub All-swap :
    (P : ℕ → Type 0) (front back front' back' : List ℕ) (a : ℕ)
    → front ++ back ≡ front' ++ back'
    → All P (front ++ a ∷ back)
    → All P (front' ++ a ∷ back')
All-swap P front back front' back' a e h =
    let (low, high) = All-split P front (a ∷ back) h in
    let (low', high') =
      All-split P front' back' (subst (All P) e (All-append P front back low high.1)) in
    All-append P front' (a ∷ back') low' (high.0, high')

pub absent-All : (a : ℕ) (xs : List ℕ) → occurrences a xs ≡ 0 → All (λ (x : ℕ). x ≢ a) xs
unfolding occurrences
absent-All a [] e = tt
absent-All a (x ∷ xs) e = (λ same. ground (arith, same, e), absent-All a xs (ground (arith, e)))

pub below-absent : (next : ℕ) (xs : List ℕ) → All (λ (x : ℕ). x < next) xs → occurrences next xs ≡ 0
unfolding occurrences
below-absent next [] h = refl
below-absent next (x ∷ xs) (h, hs) = ground (arith, h, below-absent next xs hs)

pub tally-insert :
    (q : ℕ → Bool) (xs : List ℕ) (a : ℕ) (ys : List ℕ)
    → tally q (xs ++ a ∷ ys) ≡ tally q (xs ++ ys) + to_nat (q a)
unfolding tally
tally-insert q xs a ys = omega (arith, tally-append q xs (a ∷ ys), tally-append q xs ys)

pub occurrences-insert :
    (b : ℕ) (xs : List ℕ) (a : ℕ) (ys : List ℕ)
    → occurrences b (xs ++ a ∷ ys) ≡ occurrences b (xs ++ ys) + (if a == b then 1 else 0)
unfolding occurrences
occurrences-insert b xs a ys =
    omega (arith, occurrences-append b xs (a ∷ ys), occurrences-append b xs ys)

pub everywhere-All : (P : ℕ → Type 0) → ((x : ℕ) → P x) → (xs : List ℕ) → All P xs
everywhere-All P f [] = tt
everywhere-All P f (x ∷ xs) = (f x, everywhere-All P f xs)
