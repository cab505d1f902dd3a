-- ===== src/Avl/Edits.antt =====
-- Insertion and removal in a whole AVL tree.
use coxx.Base.{ℕ, ◌<◌, ◌≡◌, sym, ap, ◌∙◌, List, [], ◌∷◌, ◌++◌, append_assoc, arith}
use coxx.Base.Bytes.{u32_mod}
use coxx.Base.Run.{Returns}
use coxx.Avl.{
  Tree, leaf, node, single, from_left, from_right, Ancestors, plug, zip, del_avl, fix_avl,
}
use coxx.Avl.Shape.{in_order, height, size, IsAvl}
use coxx.Avl.Fix.{Fits, fix_avl_node}
use coxx.Avl.Order.{before, after, in_order-zip, Distinct}
use coxx.Avl.Del.{del_avl-Removed}

-- A whole AVL tree is one at each of its nodes.
pub IsAvl-zip : (up : Ancestors) (t : Tree) → IsAvl (zip t up) → IsAvl t × Fits (height t) up
unfolding zip plug height
IsAvl-zip [] t g = (g, tt)
IsAvl-zip (from_left d c x r ∷ up) t g =
    let (here, fits) = IsAvl-zip up (node d c t x r) g in (here.4, (here.5, here.2, here.3, fits))
IsAvl-zip (from_right d c l x ∷ up) t g =
    let (here, fits) = IsAvl-zip up (node d c l x t) g in (here.5, (here.4, here.3, here.2, fits))

-- A new node in the place of a null pointer of an AVL tree, rebalanced up to the root: the result is
-- an AVL tree with one node more, and all nodes come in the order that the place gives.
pub fix_avl-single :
    (x : ℕ) (up : Ancestors)
    → IsAvl (zip leaf up)
    → size (zip (single x) up) < u32_mod
    → Returns (fix_avl (single x) up) λ t. IsAvl t × (in_order t ≡ before up ++ x ∷ after up)
unfolding height in_order
fix_avl-single x up g small =
    let (t, run, fixed) =
      fix_avl_node up 0 1 1 leaf x leaf tt tt (omega arith) (omega arith) (IsAvl-zip up leaf g).1
        (λ t b. omega (arith, b.balanced (omega arith) (omega arith))) small in
    (t, run, (fixed.avl, fixed.order ∙ in_order-zip up (single x)))

-- `delAVL` of a node of an AVL tree whose nodes have different addresses ends with an AVL tree of
-- the other nodes, in the same order. The fuel is the size of the node's subtree.
pub del_avl-in_order :
    (d c : ℕ) (l : Tree) (x : ℕ) (r : Tree) (up : Ancestors)
    → IsAvl (zip (node d c l x r) up)
    → size (zip (node d c l x r) up) < u32_mod
    → Distinct (in_order (zip (node d c l x r) up))
    → Returns (del_avl (size (node d c l x r)) (node d c l x r) up) λ t.
      IsAvl t
      × (xs : List ℕ) × (ys : List ℕ) × (in_order (zip (node d c l x r) up) ≡ xs ++ x ∷ ys)
      × (in_order t ≡ xs ++ ys)
unfolding in_order
del_avl-in_order d c l x r up g small distinct =
    let (here, fits) = IsAvl-zip up (node d c l x r) g in
    let (t, run, removed) =
      del_avl-Removed (size (node d c l x r)) d c l x r up (omega arith) here fits small distinct in
    (
      t,
      run,
      (
        removed.avl,
        before up ++ in_order l,
        in_order r ++ after up,
        in_order-zip up (node d c l x r)
            ∙ (ap (λ (o : List ℕ). before up ++ o)
                  (append_assoc (in_order l) (x ∷ in_order r) (after up))
                ∙ sym (append_assoc (before up) (in_order l) (x ∷ (in_order r ++ after up)))),
        removed.order ∙ sym (append_assoc (before up) (in_order l) (in_order r ++ after up)),
      ),
    )
