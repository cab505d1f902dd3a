-- ===== src/Zset/Query.antt =====
-- `zset::query` finds the first pair that is not less than the argument.
use coxx.Base.{
  ℕ, ◌≡◌, refl, sym, ap, ◌∙◌, Bool, true, false, Bool-cases, inl, inr, Option, none, some, List, [],
  ◌∷◌, ◌++◌, All, if◌then◌else◌,
}
use coxx.Base.Bytes.{Bytes}
use coxx.Avl.{Tree, leaf, node}
use coxx.Avl.Shape.{in_order}
use coxx.Zset.{ZNode, less, search, query}

module _ (is_less : ℕ → Bool) where
  -- The first address whose pair is not less, if there is one.
  unfoldable pub first : List ℕ → Option ℕ → Option ℕ
  first [] found = found
  first (x ∷ xs) found = if is_less x then first xs found else some x

  -- Behind a pair that is not less there is none that is.
  abbrev pub Rising : List ℕ → Type 0
  Rising [] = Unit
  Rising (x ∷ xs) = (is_less x ≡ false → All (λ (y : ℕ). is_less y ≡ false) xs) × Rising xs

  first-skip :
      (xs : List ℕ) (x : ℕ) (ys : List ℕ) (found : Option ℕ)
      → Rising (xs ++ x ∷ ys)
      → is_less x ≡ true
      → first (xs ++ x ∷ ys) found ≡ first ys found
  unfolding first
  first-skip [] x ys found g e = rw e refl
  first-skip (y ∷ xs) x ys found g e = elim (Bool-cases (is_less y)) [
    | inl e' ↦ rw e' (first-skip xs x ys found g.1 e)
    | inr e' ↦ absurd (no_more xs (g.0 e'))
  ]
    where
      no_more : (xs : List ℕ) → All (λ (y : ℕ). is_less y ≡ false) (xs ++ x ∷ ys) → ⊥
      no_more [] h = cc
      no_more (z ∷ xs) h = no_more xs h.1

  first-stop :
      (xs : List ℕ) (x : ℕ) (ys : List ℕ) (found : Option ℕ)
      → is_less x ≡ false
      → first (xs ++ x ∷ ys) found ≡ first xs (some x)
  unfolding first
  first-stop [] x ys found e = rw e refl
  first-stop (y ∷ xs) x ys found e =
      ap (λ (o : Option ℕ). if is_less y then o else some y) (first-stop xs x ys found e)

  Rising-front : (xs : List ℕ) (ys : List ℕ) → Rising (xs ++ ys) → Rising xs
  Rising-front [] ys g = tt
  Rising-front (x ∷ xs) ys g = ((λ e. front xs (g.0 e)), Rising-front xs ys g.1)
    where
      front :
          (xs : List ℕ)
          → All (λ (y : ℕ). is_less y ≡ false) (xs ++ ys)
          → All (λ (y : ℕ). is_less y ≡ false) xs
      front [] h = tt
      front (z ∷ xs) h = (h.0, front xs h.1)

  Rising-back : (xs : List ℕ) (x : ℕ) (ys : List ℕ) → Rising (xs ++ x ∷ ys) → Rising ys
  Rising-back [] x ys g = g.1
  Rising-back (z ∷ xs) x ys g = Rising-back xs x ys g.1

module _ (equals : ℕ → ℕ → Bool) (is_below : ℕ → ℕ → Bool) (pair : ℕ → ZNode) (score : ℕ)
    (name : Bytes) (len : ℕ) where
  abbrev pub is_lower : ℕ → Bool
  is_lower x = less equals is_below pair x score name len

  search-first :
      (t : Tree) (found : Option ℕ)
      → Rising is_lower (in_order t)
      → search equals is_below pair t found score name len ≡ first is_lower (in_order t) found
  unfolding search first in_order
  search-first leaf found g = refl
  search-first (node d c l x r) found g = elim (Bool-cases (is_lower x)) [
    | inl e ↦ rw e (
        search-first r found (Rising-back is_lower (in_order l) x (in_order r) g)
        ∙ sym (first-skip is_lower (in_order l) x (in_order r) found g e))
    | inr e ↦ rw e (
        search-first l (some x) (Rising-front is_lower (in_order l) (x ∷ in_order r) g)
        ∙ sym (first-stop is_lower (in_order l) x (in_order r) found e))
  ]

  -- On a tree in whose order no pair that is less than the argument comes behind one that is not,
  -- `query` finds the first pair in order that is not less, and null when there is none.
  pub query-first :
      (t : Tree)
      → Rising is_lower (in_order t)
      → query equals is_below pair t score name len ≡ first is_lower (in_order t) none
  unfolding query
  query-first t g = search-first t none g
