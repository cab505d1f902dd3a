-- ===== src/Avl/Offset.antt =====
-- The turns of `offsetAVL`, with positions as differences of ranks in the whole tree.
use coxx.Base.{
  ℕ, suc, ◌+◌, ◌<◌, ◌≤◌, ◌≡◌, refl, ap, ◌⊎◌, inl, inr, Option, some, List, [], ◌∷◌, ◌++◌, arith,
  length, length-append,
}
use coxx.Base.Int.{ℤ, diff, diff-add, diff-sub, ltz-diff, eqz-diff}
use coxx.Base.Run.{ok}
use coxx.Avl.{
  Tree, leaf, node, from_left, from_right, Ancestors, zip, stop, move, to_right, to_left, to_parent,
  turn, turns,
}
use coxx.Avl.Shape.{in_order, size, IsAvl, IsAvl-count, length-in_order}
use coxx.Avl.Order.{before, after, in_order-zip}

-- The tests of a turn, for the node of rank `i`, a start of rank `r0` and the offset `o - p`.
module _ (d c : ℕ) (l : Tree) (x : ℕ) (r : Tree) (up : Ancestors) (i r0 o p : ℕ) (gl : IsAvl l)
    (gr : IsAvl r) where
  pub turn_here :
      o + r0 ≡ i + p
      → turn (node d c l x r) up (diff i r0) (diff o p) ≡ ok (stop (some (node d c l x r, up)))
  unfolding turn
  turn_here e = rw (eqz-diff o p i r0) (ground arith)

  pub turn_right :
      i + p < o + r0
      → o + r0 ≤ i + size r + p
      → turn (node d c l x r) up (diff i r0) (diff o p) ≡ to_right (node d c l x r) up (diff i r0)
  unfolding turn
  turn_right h k =
      rw
        (
          eqz-diff o p i r0,
          ltz-diff i r0 o p,
          IsAvl-count r gr,
          diff-add i r0 (size r),
          ltz-diff (i + size r) r0 o p,
        )
        (ground arith)

  pub turn_left :
      o + r0 < i + p
      → i + p ≤ o + r0 + size l
      → turn (node d c l x r) up (diff i r0) (diff o p) ≡ to_left (node d c l x r) up (diff i r0)
  unfolding turn
  turn_left h k =
      rw
        (
          eqz-diff o p i r0,
          ltz-diff i r0 o p,
          ltz-diff o p i r0,
          IsAvl-count l gl,
          diff-sub i r0 (size l),
          ltz-diff o p i (r0 + size l),
        )
        (ground arith)

  pub turn_up :
      (i + size r + p < o + r0) ⊎ (o + r0 + size l < i + p)
      → turn (node d c l x r) up (diff i r0) (diff o p) ≡ to_parent (node d c l x r) up (diff i r0)
  unfolding turn
  turn_up h =
      rw
        (
          eqz-diff o p i r0,
          ltz-diff i r0 o p,
          ltz-diff o p i r0,
          IsAvl-count l gl,
          IsAvl-count r gr,
          diff-add i r0 (size r),
          ltz-diff (i + size r) r0 o p,
          diff-sub i r0 (size l),
          ltz-diff o p i (r0 + size l),
        )
        (ground arith)

pub turns-stop :
    (fuel : ℕ) (t : Tree) (up : Ancestors) (at offset : ℤ) (result : Option (Tree × Ancestors))
    → turn t up at offset ≡ ok (stop result)
    → turns (suc fuel) t up at offset ≡ ok result
unfolding turns
turns-stop fuel t up at offset result e = rw e refl

pub turns-move :
    (fuel : ℕ) (t : Tree) (up : Ancestors) (at offset : ℤ) (t' : Tree) (up' : Ancestors) (at' : ℤ)
    → turn t up at offset ≡ ok (move t' up' at')
    → turns (suc fuel) t up at offset ≡ turns fuel t' up' at' offset
unfolding turns
turns-move fuel t up at offset t' up' at' e = rw e refl

-- The node of rank `target`, with the way up from it in the same tree.
pub record Found (whole : Tree) (target : ℕ) (found : Option (Tree × Ancestors)) : Type 0 where
  pub d : ℕ
  pub c : ℕ
  pub l : Tree
  pub x : ℕ
  pub r : Tree
  pub way : Ancestors
  pub here : found ≡ some (node d c l x r, way)
  pub same : zip (node d c l x r) way ≡ whole
  pub rank : length (before way) + size l ≡ target

-- The nodes before a right child.
pub rank-right :
    (d c : ℕ) (l : Tree) (x : ℕ) (up : Ancestors)
    → length (before (from_right d c l x ∷ up)) ≡ length (before up) + suc (size l)
unfolding before
rank-right d c l x up = omega (
  arith,
  length-append (before up) (in_order l ++ x ∷ []),
  length-append (in_order l) (x ∷ []),
  length-in_order l,
)

pub rank-left :
    (d c x : ℕ) (r : Tree) (up : Ancestors)
    → length (before (from_left d c x r ∷ up)) ≡ length (before up)
unfolding before
rank-left d c x r up = refl

pub before-size : (t : Tree) (up : Ancestors) → length (before up) + size t ≤ size (zip t up)
before-size t up = omega (
  arith,
  length-in_order (zip t up),
  ap (λ (o : List ℕ). length o) (in_order-zip up t),
  length-append (before up) (in_order t ++ after up),
  length-append (in_order t) (after up),
  length-in_order t,
)

pub Tree-cases :
    (t : Tree)
    → (size t ≡ 0) ⊎ ((d : ℕ) × (c : ℕ) × (l : Tree) × (x : ℕ) × (r : Tree) × (t ≡ node d c l x r))
unfolding size
Tree-cases leaf = inl refl
Tree-cases (node d c l x r) = inr (d, c, l, x, r, refl)
