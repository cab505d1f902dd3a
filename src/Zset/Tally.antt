-- ===== src/Zset/Tally.antt =====
-- How many addresses of a list, and how many nodes of a map, pass a test.
use coxx.Base.{
  ℕ, ◌+◌, ◌<◌, ◌≤◌, ◌≡◌, refl, ap, ◌∙◌, subst, Bool, true, false, Bool-cases, inl, inr, List, [],
  ◌∷◌, ◌++◌, if◌then◌else◌, arith, All, length, ◌==◌,
}
use coxx.Map.{Node, Chain, Map}
use coxx.Map.Slots.{to_nat, count, count_all}
use coxx.Map.Moved.{bag}
use coxx.Avl.Order.{occurrences}

pub All-split : (P : ℕ → Type 0) (xs ys : List ℕ) → All P (xs ++ ys) → All P xs × All P ys
All-split P [] ys h = (tt, h)
All-split P (x ∷ xs) ys (h, hs) = let (front, back) = All-split P xs ys hs in ((h, front), back)

pub All-map : (P Q : ℕ → Type 0) (xs : List ℕ) → ((x : ℕ) → P x → Q x) → All P xs → All Q xs
All-map P Q [] f h = tt
All-map P Q (x ∷ xs) f (h, hs) = (f x h, All-map P Q xs f hs)

unfoldable pub tally : (ℕ → Bool) → List ℕ → ℕ
tally q [] = 0
tally q (x ∷ xs) = to_nat (q x) + tally q xs

pub tally-append : (q : ℕ → Bool) (xs ys : List ℕ) → tally q (xs ++ ys) ≡ tally q xs + tally q ys
unfolding tally
tally-append q [] ys = omega arith
tally-append q (x ∷ xs) ys = omega (arith, tally-append q xs ys)

pub tally-le :
    (p q : ℕ → Bool) (xs : List ℕ) → ((x : ℕ) → p x ≡ true → q x ≡ true) → tally p xs ≤ tally q xs
unfolding tally
tally-le p q [] h = omega arith
tally-le p q (x ∷ xs) h = omega (arith, tally-le p q xs h, to_nat-le (p x) (q x) (h x))
  where
    to_nat-le : (a b : Bool) → (a ≡ true → b ≡ true) → to_nat a ≤ to_nat b
    to_nat-le false b h = ground arith
    to_nat-le true b h = rw (h refl) (omega arith)

-- Tests that agree on a list have the same count.
pub tally-agree :
    (p q : ℕ → Bool) (xs : List ℕ) → All (λ (x : ℕ). p x ≡ q x) xs → tally p xs ≡ tally q xs
unfolding tally
tally-agree p q [] h = refl
tally-agree p q (x ∷ xs) (h, hs) = omega (arith, ap to_nat h, tally-agree p q xs hs)

pub tally-any : (xs : List ℕ) → tally (λ (x : ℕ). true) xs ≡ length xs
unfolding tally
tally-any [] = refl
tally-any (x ∷ xs) = omega (arith, tally-any xs)

pub tally-occurrences : (a : ℕ) (xs : List ℕ) → tally (λ (x : ℕ). x == a) xs ≡ occurrences a xs
unfolding tally occurrences
tally-occurrences a [] = refl
tally-occurrences a (x ∷ xs) = omega (arith, tally-occurrences a xs, one (x == a))
  where
    one : (b : Bool) → to_nat b ≡ (if b then 1 else 0)
    one true = refl
    one false = refl

-- What holds of all of a list holds of each address in it.
pub All-at : (P : ℕ → Type 0) (a : ℕ) (xs : List ℕ) → 0 < occurrences a xs → All P xs → P a
unfolding occurrences
All-at P a [] h g = absurd (omega arith)
All-at P a (x ∷ xs) h (g, gs) = elim (Bool-cases (x == a)) [
  | inl e ↦ subst P (ground (arith, e)) g
  | inr e ↦ All-at P a xs (ground (arith, e)) gs
]

-- An address that passes a test and is there is counted.
pub tally_pos :
    (q : ℕ → Bool) (a : ℕ) (xs : List ℕ) → 0 < occurrences a xs → q a ≡ true → 0 < tally q xs
unfolding tally occurrences
tally_pos q a [] h e = absurd (omega arith)
tally_pos q a (x ∷ xs) h e = elim (Bool-cases (x == a)) [
  | inl e' ↦
      let same : x ≡ a = ground (arith, e') in
      let hit : to_nat (q x) ≡ 1 = ap to_nat (ap q same ∙ e) in omega (arith, hit)
  | inr e' ↦ omega (arith, tally_pos q a xs (ground (arith, e')) e)
]

-- Two tests that cover a third count its nodes at least.
module _ (p q r : Node ℕ → Bool)
    (cover : (n : Node ℕ) → to_nat (p n) ≤ to_nat (q n) + to_nat (r n)) where
  count-cover : (c : Chain ℕ) → count p c ≤ count q c + count r c
  unfolding count
  count-cover [] = omega arith
  count-cover (n ∷ c) = omega (arith, cover n, count-cover c)

  count_all-cover :
      (slots : List (Chain ℕ)) → count_all p slots ≤ count_all q slots + count_all r slots
  unfolding count_all
  count_all-cover [] = omega arith
  count_all-cover (c ∷ slots) = omega (arith, count-cover c, count_all-cover slots)

  pub bag-cover : (m : Map ℕ) → bag m p ≤ bag m q + bag m r
  bag-cover m = omega (arith, count_all-cover m.table1.slots, count_all-cover m.table2.slots)
