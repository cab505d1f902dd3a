-- ===== src/Zset/Place.antt =====
-- `treeAdd` keeps the nodes in order.
use coxx.Base.{
  ℕ, suc, ◌<◌, ◌≡◌, refl, sym, ap, ◌∙◌, subst, Bool, true, false, Bool-cases, ◌⊎◌, inl, inr, List,
  [], ◌∷◌, ◌++◌, arith, length, length-append, All, All-append,
}
use coxx.Base.Bytes.{u32_mod}
use coxx.Base.Run.{Returns}
use coxx.Avl.{Tree, leaf, node, single, from_left, from_right, Ancestors, plug, zip}
use coxx.Avl.Shape.{in_order, size, IsAvl, length-in_order}
use coxx.Avl.Order.{before, after, in_order-zip}
use coxx.Avl.Edits.{fix_avl-single}
use coxx.Zset.Tally.{All-map, All-split}
use coxx.Zset.{ZNode, less_node, place, tree_add}

-- No node is less than one before it.
module _ (lt : ℕ → ℕ → Bool) where
  abbrev pub Sorted : List ℕ → Type 0
  Sorted [] = Unit
  Sorted (x ∷ xs) = All (λ (y : ℕ). lt y x ≡ false) xs × Sorted xs

  -- What is known of the parts around a node.
  pub Sorted-split :
      (xs : List ℕ) (x : ℕ) (ys : List ℕ)
      → Sorted (xs ++ x ∷ ys)
      → Sorted xs
        × Sorted ys
        × All (λ (y : ℕ). lt x y ≡ false) xs
        × All (λ (y : ℕ). lt y x ≡ false) ys
  Sorted-split [] x ys (h, s) = (tt, s, tt, h)
  Sorted-split (z ∷ xs) x ys (h, s) =
      let (front, back, low, high) = Sorted-split xs x ys s in
      let (h_front, h_back) = All-split (λ (y : ℕ). lt y z ≡ false) xs (x ∷ ys) h in
      ((h_front, front), back, (h_back.0, low), high)

  pub Sorted-without :
      (xs : List ℕ) (x : ℕ) (ys : List ℕ) → Sorted (xs ++ x ∷ ys) → Sorted (xs ++ ys)
  Sorted-without [] x ys (h, s) = s
  Sorted-without (z ∷ xs) x ys (h, s) =
      let (front, back) = All-split (λ (y : ℕ). lt y z ≡ false) xs (x ∷ ys) h in
      (All-append (λ (y : ℕ). lt y z ≡ false) xs ys front back.1, Sorted-without xs x ys s)

  Sorted-between :
      (xs : List ℕ) (x : ℕ) (ys : List ℕ)
      → Sorted (xs ++ ys)
      → All (λ (y : ℕ). lt x y ≡ false) xs
      → All (λ (y : ℕ). lt y x ≡ false) ys
      → Sorted (xs ++ x ∷ ys)
  Sorted-between [] x ys s low high = (high, s)
  Sorted-between (z ∷ xs) x ys (h, s) (l, low) high =
      let (front, back) = All-split (λ (y : ℕ). lt y z ≡ false) xs ys h in
      (
        All-append (λ (y : ℕ). lt y z ≡ false) xs (x ∷ ys) front (l, back),
        Sorted-between xs x ys s low high,
      )

-- The tree has the new node between the ones that were before and behind its place.
pub record Inserted (equals is_below : ℕ → ℕ → Bool) (pair : ℕ → ZNode) (new : ℕ) (t t' : Tree)
    : Type 0 where
  pub avl : IsAvl t'
  pub sorted : Sorted (less_node equals is_below pair) (in_order t')
  pub front : List ℕ
  pub back : List ℕ
  pub old : in_order t ≡ front ++ back
  pub now : in_order t' ≡ front ++ new ∷ back

module _ (equals is_below : ℕ → ℕ → Bool) (pair : ℕ → ZNode)
    (asym : (a b : ℕ)
      → less_node equals is_below pair a b ≡ true
      → less_node equals is_below pair b a ≡ false)
    (cotrans : (a b c : ℕ)
      → less_node equals is_below pair a c ≡ true
      → (less_node equals is_below pair a b ≡ true) ⊎ (less_node equals is_below pair b c ≡ true))
    (new : ℕ) where
  abbrev lt : ℕ → ℕ → Bool
  lt = less_node equals is_below pair

  -- The place found is a null pointer of the same tree.
  place-zip :
      (t : Tree) (up : Ancestors) → zip leaf (place equals is_below pair new t up) ≡ zip t up
  unfolding place zip plug
  place-zip leaf up = refl
  place-zip (node d c l x r) up = elim (Bool-cases (lt new x)) [
    | inl e ↦ rw e (place-zip l (from_left d c x r ∷ up))
    | inr e ↦ rw e (place-zip r (from_right d c l x ∷ up))
  ]

  lt_upward : (x y : ℕ) → lt new x ≡ true → lt y x ≡ false → lt new y ≡ true
  lt_upward x y e h = elim (cotrans new y x e) [ inl e' ↦ e' | inr e' ↦ absurd cc ]

  lt_downward : (x y : ℕ) → lt new x ≡ false → lt x y ≡ false → lt new y ≡ false
  lt_downward x y e h = elim (Bool-cases (lt new y)) [
    | inl e' ↦ elim (cotrans new x y e') [ inl e'' ↦ absurd cc | inr e'' ↦ absurd cc ]
    | inr e' ↦ e'
  ]

  -- A node that the new one is not less than comes before the place, any other one behind.
  record Parted (up : Ancestors) : Type 0 where
    low : All (λ (y : ℕ). lt new y ≡ false) (before up)
    high : All (λ (y : ℕ). lt new y ≡ true) (after up)

  place-Parted :
      (t : Tree) (up : Ancestors)
      → Sorted lt (in_order t)
      → Parted up
      → Parted (place equals is_below pair new t up)
  unfolding place before after in_order
  place-Parted leaf up s p = p
  place-Parted (node d c l x r) up s p =
      let (sl, sr, low, high) = Sorted-split lt (in_order l) x (in_order r) s in
      elim (Bool-cases (lt new x)) [
        | inl e ↦ rw e (
            place-Parted l (from_left d c x r ∷ up) sl (record {
              low = p.low;
              high = (
                e,
                All-append (λ (y : ℕ). lt new y ≡ true) (in_order r) (after up)
                    (All-map (λ (y : ℕ). lt y x ≡ false) (λ (y : ℕ). lt new y ≡ true) (in_order r)
                      (λ y h. lt_upward x y e h) high)
                    p.high,
              );
            }))
        | inr e ↦ rw e (
            place-Parted r (from_right d c l x ∷ up) sr (record {
              low =
                  All-append (λ (y : ℕ). lt new y ≡ false) (before up) (in_order l ++ x ∷ []) p.low
                    (All-append (λ (y : ℕ). lt new y ≡ false) (in_order l) (x ∷ [])
                      (All-map (λ (y : ℕ). lt x y ≡ false) (λ (y : ℕ). lt new y ≡ false)
                        (in_order l) (λ y h. lt_downward x y e h) low)
                      (e, tt));
              high = p.high;
            }))
      ]

  -- `treeAdd` of a node to an AVL tree in order, with fewer than 2^32 nodes after it, ends with an AVL
  -- tree in order that has this node and the old ones.
  pub tree_add-Inserted :
      (t : Tree)
      → IsAvl t
      → Sorted lt (in_order t)
      → suc (size t) < u32_mod
      → Returns (tree_add equals is_below pair t new) (Inserted equals is_below pair new t)
  unfolding tree_add before after zip in_order
  tree_add-Inserted t g s small =
      let up = place equals is_below pair new t [] in
      let same = place-zip t [] in
      let whole : in_order t ≡ before up ++ after up =
        ap in_order (sym same) ∙ in_order-zip up leaf in
      let grown : size (zip (single new) up) ≡ suc (size t) = omega (
        arith,
        length-in_order (zip (single new) up),
        length-in_order t,
        ap (λ (o : List ℕ). length o) (in_order-zip up (single new)),
        ap (λ (o : List ℕ). length o) whole,
        length-append (before up) (new ∷ after up),
        length-append (before up) (after up),
      ) in
      let parted = place-Parted t [] s (record { low = tt; high = tt }) in
      let (t', run, (avl, order)) =
        fix_avl-single new up (subst IsAvl (sym same) g) (omega (arith, grown)) in
      (
        t',
        run,
        record {
          avl = avl;
          sorted = subst (Sorted lt) (sym order) (
              Sorted-between lt (before up) new (after up) (subst (Sorted lt) whole s) parted.low (
                All-map (λ (y : ℕ). lt new y ≡ true) (λ (y : ℕ). lt y new ≡ false) (after up)
                  (λ y h. asym new y h) parted.high));
          front = before up;
          back = after up;
          old = whole;
          now = order;
        },
      )
