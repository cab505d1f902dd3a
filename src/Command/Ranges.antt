-- ===== src/Command/Ranges.antt =====
-- A part of a sorted set as a list, and the lemmas on lists that its walk needs.
use coxx.Base.{
  ℕ, zero, suc, ◌+◌, ◌-◌, ◌≤◌, ◌≡◌, refl, Bool, ◌&&◌, inl, inr, Bool-cases, none, some, List, [],
  ◌∷◌, arith, get_elem?, length, drop, ltb, leb, if◌then◌else◌,
}
use coxx.Base.Int.{ℤ, pos, ltz, plus, minus}
use coxx.Zset.{Pairs}
use coxx.Zset.Query.{first}
use coxx.Serialize.Value.{Value, Values, empty, item}

-- The pairs that the loop comes to before the count reaches the limit.
unfoldable pub wanted : ℤ → ℕ → List ℕ → List ℕ
wanted limit n [] = []
wanted limit n (x ∷ xs) =
    let rest = wanted limit (n + 2) xs in if ltz (pos n) limit then x ∷ rest else []

-- A name and a score for each pair
unfoldable pub values : Pairs → List ℕ → Values
values pairs [] = empty
values pairs (p ∷ ps) =
    item (Value.str (pairs.pair p).name) (item (Value.dbl (pairs.pair p).score) (values pairs ps))

-- How many pairs come before the first that is not less.
unfoldable pub rank_of : (ℕ → Bool) → List ℕ → ℕ
rank_of f [] = 0
rank_of f (x ∷ xs) = if f x then suc (rank_of f xs) else 0

-- The pairs from the one on that is `off` places from rank `j`, if there are both.
unfoldable pub listed : List ℕ → ℕ → ℤ → List ℕ
listed xs j off =
    if ltb j (length xs) && leb (minus off) (j + plus off)
    then drop (j + plus off - minus off) xs
    else []

pub get_elem?-first : (f : ℕ → Bool) (xs : List ℕ) → first f xs none ≡ get_elem? xs (rank_of f xs)
unfolding first rank_of
get_elem?-first f [] = refl
get_elem?-first f (x ∷ xs) = elim (Bool-cases (f x)) [
  | inl e ↦ rw e (get_elem?-first f xs)
  | inr e ↦ rw e refl
]

pub drop-some : (xs : List ℕ) (i p : ℕ) → get_elem? xs i ≡ some p → drop i xs ≡ p ∷ drop (suc i) xs
drop-some [] i p e = cc
drop-some (x ∷ xs) zero p e = cc
drop-some (x ∷ xs) (suc i) p e = drop-some xs i p e

pub drop_end : (xs : List ℕ) (i : ℕ) → length xs ≤ i → (drop i xs ≡ []) × (get_elem? xs i ≡ none)
drop_end [] zero h = (refl, refl)
drop_end [] (suc i) h = (refl, refl)
drop_end (x ∷ xs) zero h = absurd (omega arith)
drop_end (x ∷ xs) (suc i) h = drop_end xs i (omega arith)

pub get_elem?-none : (xs : List ℕ) (i : ℕ) → get_elem? xs i ≡ none → length xs ≤ i
get_elem?-none [] i e = omega arith
get_elem?-none (x ∷ xs) zero e = cc
get_elem?-none (x ∷ xs) (suc i) e = omega (arith, get_elem?-none xs i e)
