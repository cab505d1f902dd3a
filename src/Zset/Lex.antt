-- ===== src/Zset/Lex.antt =====
-- The order of pairs: by score, then by name as `memcmp` and the lengths compare them.
use coxx.Base.{
  ℕ, suc, ◌≡◌, refl, sym, ap, ◌∙◌, Bool, true, false, not, ◌&&◌, ◌⊎◌, inl, inr, [], ◌∷◌,
  if◌then◌else◌, ltb, arith, length,
}
use coxx.Base.Bytes.{Bytes}
use coxx.Base.Int.{pos, negsuc, ltz, eqz}
use coxx.Zset.{ZNode, memcmp, min, less, less_node}

-- The dictionary order of texts.
unfoldable pub lex : Bytes → Bytes → Bool
lex [] [] = false
lex [] (b ∷ ys) = true
lex (a ∷ xs) [] = false
lex (a ∷ xs) (b ∷ ys) = if ltb a b then true else if ltb b a then false else lex xs ys

-- What `less` does with two names of the same score.
min-suc : (m n : ℕ) → min (suc m) (suc n) ≡ suc (min m n)
min-suc m n = ground arith

ltb-suc : (m n : ℕ) → ltb (suc m) (suc n) ≡ ltb m n
ltb-suc m n = ground arith

name_less-lex :
    (xs ys : Bytes)
    → (if not (eqz (memcmp xs ys (min (length xs) (length ys))) (pos 0))
        then ltz (memcmp xs ys (min (length xs) (length ys))) (pos 0)
        else ltb (length xs) (length ys))
      ≡ lex xs ys
unfolding memcmp eqz ltz lex
name_less-lex [] [] = refl
name_less-lex [] (b ∷ ys) = ground arith
name_less-lex (a ∷ xs) [] = ground arith
name_less-lex (a ∷ xs) (b ∷ ys) =
    rw (min-suc (length xs) (length ys), ltb-suc (length xs) (length ys))
      (by_head (name_less-lex xs ys) (ltb a b) (ltb b a))
  where
    by_head :
        ((if not (eqz (memcmp xs ys (min (length xs) (length ys))) (pos 0))
            then ltz (memcmp xs ys (min (length xs) (length ys))) (pos 0)
            else ltb (length xs) (length ys))
          ≡ lex xs ys)
        → (below above : Bool)
        → (if not (
              eqz
                (if below
                  then negsuc 0
                  else if above
                  then pos 1
                  else memcmp xs ys (min (length xs) (length ys)))
                (pos 0))
            then ltz
                (if below
                  then negsuc 0
                  else if above
                  then pos 1
                  else memcmp xs ys (min (length xs) (length ys)))
                (pos 0)
            else ltb (length xs) (length ys))
          ≡ (if below then true else if above then false else lex xs ys)
    by_head same true above = refl
    by_head same false true = refl
    by_head same false false = same

lex-asym : (xs ys : Bytes) → lex xs ys ≡ true → lex ys xs ≡ false
unfolding lex
lex-asym [] [] e = refl
lex-asym [] (b ∷ ys) e = refl
lex-asym (a ∷ xs) [] e = cc
lex-asym (a ∷ xs) (b ∷ ys) e = ground (arith, lex-asym xs ys)

lex-cotrans : (xs ys zs : Bytes) → lex xs zs ≡ true → (lex xs ys ≡ true) ⊎ (lex ys zs ≡ true)
unfolding lex
lex-cotrans [] ys [] e = cc
lex-cotrans (a ∷ xs) ys [] e = cc
lex-cotrans [] [] (c ∷ zs) e = inr refl
lex-cotrans [] (b ∷ ys) (c ∷ zs) e = inl refl
lex-cotrans (a ∷ xs) [] (c ∷ zs) e = inr refl
lex-cotrans (a ∷ xs) (b ∷ ys) (c ∷ zs) e = ground (arith, lex-cotrans xs ys zs)

-- What is relied on of the comparisons of doubles that are numbers.
pub record IsComparison (number : ℕ → Bool) (equals is_below : ℕ → ℕ → Bool) : Type 0 where
  pub asym :
      (a b : ℕ) → number a ≡ true → number b ≡ true → is_below a b ≡ true → is_below b a ≡ false
  pub cotrans :
      (a b c : ℕ)
      → number a ≡ true
      → number b ≡ true
      → number c ≡ true
      → is_below a c ≡ true
      → (is_below a b ≡ true) ⊎ (is_below b c ≡ true)
  pub equal :
      (a b : ℕ)
      → number a ≡ true
      → number b ≡ true
      → equals a b ≡ (not (is_below a b) && not (is_below b a))

-- Every pair's score is a number, and its length is that of its name.
pub record ArePairs (number : ℕ → Bool) (pair : ℕ → ZNode) : Type 0 where
  pub numbers : (a : ℕ) → number (pair a).score ≡ true
  pub lengths : (a : ℕ) → (pair a).len ≡ length (pair a).name

-- The order of two pairs from what is said of their scores (`p` below, `q` above) and names.
abbrev ordered : Bool → Bool → Bool → Bool
ordered p q u = if not p && not q then u else p

ordered-asym :
    (p q u v : Bool)
    → (p ≡ true → q ≡ false)
    → (u ≡ true → v ≡ false)
    → ordered p q u ≡ true
    → ordered q p v ≡ false
ordered-asym true true u v h k e = absurd (absurd_of (h refl))
  where
    absurd_of : true ≡ false → ⊥
    absurd_of e = cc
ordered-asym true false u v h k e = refl
ordered-asym false true u v h k e = cc
ordered-asym false false u v h k e = k e

module _ (ab ba bc cb ac ca x y z : Bool) (h₁ : ac ≡ true → (ab ≡ true) ⊎ (bc ≡ true))
    (h₂ : ba ≡ true → (bc ≡ true) ⊎ (ca ≡ true)) (h₃ : cb ≡ true → (ca ≡ true) ⊎ (ab ≡ true))
    (k : z ≡ true → (x ≡ true) ⊎ (y ≡ true)) where
  ordered-cotrans : ordered ac ca z ≡ true → (ordered ab ba x ≡ true) ⊎ (ordered bc cb y ≡ true)
  ordered-cotrans e = ground (arith, h₁, h₂, h₃, k, e)

module _ (number : ℕ → Bool) (equals is_below : ℕ → ℕ → Bool)
    (law : IsComparison number equals is_below) (pair : ℕ → ZNode)
    (pairs : ArePairs number pair) where
  -- `less` of a node and a pair.
  less-lex :
      (a score : ℕ) (name : Bytes)
      → less equals is_below pair a score name (length name) ≡ (
          if equals (pair a).score score
          then lex (pair a).name name
          else is_below (pair a).score score)
  unfolding less
  less-lex a score name = rw (pairs.lengths a) (
      by_score _ _ (equals (pair a).score score)
      ∙ ap (λ (o : Bool). if equals (pair a).score score then o else is_below (pair a).score score)
          (name_less-lex (pair a).name name))
    where
      by_score : (p q b : Bool) → (if not b then p else q) ≡ (if b then q else p)
      by_score p q true = refl
      by_score p q false = refl

  -- `less` of two nodes, in terms of what is below what.
  less_node-ordered :
      (a b : ℕ)
      → less_node equals is_below pair a b
        ≡ ordered
            (is_below (pair a).score (pair b).score)
            (is_below (pair b).score (pair a).score)
            (lex (pair a).name (pair b).name)
  less_node-ordered a b =
      ap (λ (n : ℕ). less equals is_below pair a (pair b).score (pair b).name n) (pairs.lengths b)
      ∙ (less-lex a (pair b).score (pair b).name
          ∙ ap
              (λ (c : Bool).
                if c
                then lex (pair a).name (pair b).name
                else is_below (pair a).score (pair b).score)
              (law.equal (pair a).score (pair b).score (pairs.numbers a) (pairs.numbers b)))

  -- No two nodes are less than each other.
  pub less_node-asym :
      (a b : ℕ)
      → less_node equals is_below pair a b ≡ true
      → less_node equals is_below pair b a ≡ false
  less_node-asym a b e =
      less_node-ordered b a
      ∙ ordered-asym (is_below (pair a).score (pair b).score)
          (is_below (pair b).score (pair a).score) (lex (pair a).name (pair b).name)
          (lex (pair b).name (pair a).name)
          (law.asym (pair a).score (pair b).score (pairs.numbers a) (pairs.numbers b))
          (lex-asym (pair a).name (pair b).name) (sym (less_node-ordered a b) ∙ e)

  -- Of two nodes one of which is less, a third is more than the one or less than the other.
  pub less_node-cotrans :
      (a b c : ℕ)
      → less_node equals is_below pair a c ≡ true
      → (less_node equals is_below pair a b ≡ true) ⊎ (less_node equals is_below pair b c ≡ true)
  less_node-cotrans a b c e =
      let s = λ (x : ℕ). (pair x).score in
      let n = λ (x : ℕ). pairs.numbers x in
      let co = λ (x y z : ℕ). law.cotrans (s x) (s y) (s z) (n x) (n y) (n z) in
      elim (ordered-cotrans (is_below (s a) (s b)) (is_below (s b) (s a)) (is_below (s b) (s c))
        (is_below (s c) (s b)) (is_below (s a) (s c)) (is_below (s c) (s a))
        (lex (pair a).name (pair b).name) (lex (pair b).name (pair c).name)
        (lex (pair a).name (pair c).name) (co a b c) (co b c a) (co c a b)
        (lex-cotrans (pair a).name (pair b).name (pair c).name) (sym (less_node-ordered a c) ∙ e)) [
          | inl first ↦ inl (less_node-ordered a b ∙ first)
          | inr second ↦ inr (less_node-ordered b c ∙ second)
        ]
