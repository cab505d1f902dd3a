-- ===== src/Avl.antt =====
-- avl/c/avl.h and avl/c/avl.c: an AVL tree whose nodes cache the depth and the size of their subtree.
-- A node is its address. A pointer to a node is the subtree below it with the way up from it: for
-- each ancestor the side that it was reached from, its own fields, and its other subtree.
pub mod Shape
pub mod Joins
pub mod Rotate
pub mod Fix
pub mod Order
pub mod Del
pub mod Edits
pub mod Offset
pub mod Seek
pub mod Cursor
use coxx.Base.{
  ℕ, zero, suc, ◌+◌, Bool, true, false, not, ◌&&◌, Option, none, some, List, [], ◌∷◌, ltb, ◌==◌,
  length, if◌then◌else◌,
}
use coxx.Base.Bytes.{add32}
use coxx.Base.Int.{ℤ, pos, diff, ◌+ℤ◌, ◌-ℤ◌, ltz, eqz}
use coxx.Base.Run.{Run, ok, fault, out_of_fuel, ◌>>=◌}

-- `node depth count left address right`; `leaf` is a null pointer.
pub data Tree : Type 0 where
  leaf : Tree
  node : ℕ → ℕ → Tree → ℕ → Tree → Tree

-- An ancestor: the side on which the way leads down from it, its depth and count, its address, and
-- the subtree on the other side.
pub data Frame : Type 0 where
  from_left : ℕ → ℕ → ℕ → Tree → Frame
  from_right : ℕ → ℕ → Tree → ℕ → Frame

-- The ancestors, the parent first.
abbrev pub Ancestors : Type 0
Ancestors = List Frame

-- `depth` and `count`
unfoldable pub depth : Tree → ℕ
depth leaf = 0
depth (node d c l x r) = d

unfoldable pub count : Tree → ℕ
count leaf = 0
count (node d c l x r) = c

unfoldable pub max : ℕ → ℕ → ℕ
max lhs rhs = if ltb lhs rhs then rhs else lhs

-- `init`
abbrev pub single : ℕ → Tree
single x = node 1 1 leaf x leaf

unfoldable pub update : Tree → Run Tree
update leaf = fault
update (node d c l x r) =
    ok (node (add32 1 (max (depth l) (depth r))) (add32 (add32 1 (count l)) (count r)) l x r)

-- `rotateLeft` and `rotateRight`; a null child that they follow is a fault.
unfoldable pub rotate_left : Tree → Run Tree
rotate_left (node d c a x (node d' c' b y e)) = do
  below ← update (node d c a x b)
  update (node d' c' below y e)
rotate_left t = fault

unfoldable pub rotate_right : Tree → Run Tree
rotate_right (node d c (node d' c' a x b) y e) = do
  below ← update (node d c b y e)
  update (node d' c' a x below)
rotate_right t = fault

-- `fixLeft` and `fixRight`
unfoldable pub fix_left : Tree → Run Tree
fix_left (node d c (node d' c' a y b) x r) = do
  l ← if ltb (depth a) (depth b) then rotate_left (node d' c' a y b) else ok (node d' c' a y b)
  rotate_right (node d c l x r)
fix_left t = fault

unfoldable pub fix_right : Tree → Run Tree
fix_right (node d c l x (node d' c' a y b)) = do
  r ← if ltb (depth b) (depth a) then rotate_right (node d' c' a y b) else ok (node d' c' a y b)
  rotate_left (node d c l x r)
fix_right t = fault

-- The two tests of `fixAVL` on a node whose fields are up to date.
unfoldable pub rebalance : Tree → Run Tree
rebalance leaf = fault
rebalance (node d c l x r) =
    if depth l == add32 (depth r) 2
    then fix_left (node d c l x r)
    else if add32 (depth l) 2 == depth r
    then fix_right (node d c l x r)
    else ok (node d c l x r)

-- `*from = node`: the parent with the subtree put in its place.
unfoldable pub plug : Frame → Tree → Tree
plug (from_left d c x r) t = node d c t x r
plug (from_right d c l x) t = node d c l x t

-- The whole tree.
unfoldable pub zip : Tree → Ancestors → Tree
zip t [] = t
zip t (f ∷ up) = zip (plug f t) up

-- `fixAVL`: from a node up to the root.
unfoldable pub fix_avl : Tree → Ancestors → Run Tree
fix_avl t [] = update t >>= rebalance
fix_avl t (f ∷ up) = update t >>= rebalance >>= λ t. fix_avl (plug f t) up

-- `victim = victim->left` down to a node without a left subtree.
unfoldable pub leftmost : Tree → Ancestors → Tree × Ancestors
leftmost leaf up = (leaf, up)
leftmost (node d c leaf x r) up = (node d c leaf x r, up)
leftmost (node d c (node d' c' a y b) x r) up = leftmost (node d' c' a y b) (from_left d c x r ∷ up)

-- `*victim = *node`, and the pointers to the node now lead to the victim.
unfoldable pub replace : ℕ → ℕ → Tree → Tree
replace x v leaf = leaf
replace x v (node d c l y r) = node d c (replace x v l) (if y == x then v else y) (replace x v r)

-- The address of a node.
abbrev pub address : Tree → Run ℕ
address leaf = fault
address (node d c l x r) = ok x

-- `delAVL`: the node without a right subtree gives way to its left one. Another one lets its
-- successor, the victim, be taken out and then puts it in the place of the node. The fuel bounds the nesting.
unfoldable pub del_avl : ℕ → Tree → Ancestors → Run Tree
del_avl zero t up = out_of_fuel
del_avl (suc fuel) leaf up = fault
del_avl (suc fuel) (node d c l x leaf) [] = ok l
del_avl (suc fuel) (node d c l x leaf) (f ∷ up) = fix_avl (plug f l) up
del_avl (suc fuel) (node d c l x (node d' c' a y b)) up =
    let (victim, way) = leftmost (node d' c' a y b) (from_right d c l x ∷ up) in
    address victim >>= λ v. del_avl fuel victim way >>= λ root. ok (replace x v root)

-- One turn of the loop of `offsetAVL`: it ends with a node or with null, or moves to another node.
pub data Turn : Type 0 where
  stop : Option (Tree × Ancestors) → Turn
  move : Tree → Ancestors → ℤ → Turn

-- `node = node->right; pos += count(node->left) + 1`, with the sum in 32 bits, and its mirror image.
unfoldable pub to_right : Tree → Ancestors → ℤ → Run Turn
to_right (node d c l x (node d' c' a y b)) up at =
    ok (move (node d' c' a y b) (from_right d c l x ∷ up) (at +ℤ pos (add32 (count a) 1)))
to_right t up at = fault

unfoldable pub to_left : Tree → Ancestors → ℤ → Run Turn
to_left (node d c (node d' c' a y b) x r) up at =
    ok (move (node d' c' a y b) (from_left d c x r ∷ up) (at -ℤ pos (add32 (count b) 1)))
to_left t up at = fault

unfoldable pub to_parent : Tree → Ancestors → ℤ → Run Turn
to_parent (node d c l x r) (from_right d' c' l' x' ∷ up) at =
    ok (move (node d' c' l' x' (node d c l x r)) up (at -ℤ pos (add32 (count l) 1)))
to_parent (node d c l x r) (from_left d' c' x' r' ∷ up) at =
    ok (move (node d' c' (node d c l x r) x' r') up (at +ℤ pos (add32 (count r) 1)))
to_parent (node d c l x r) [] at = ok (stop none)
to_parent leaf up at = fault

unfoldable pub turn : Tree → Ancestors → ℤ → ℤ → Run Turn
turn leaf up at offset = if eqz offset at then ok (stop none) else fault
turn (node d c l x r) up at offset =
    if eqz offset at
    then ok (stop (some (node d c l x r, up)))
    else if ltz at offset && not (ltz (at +ℤ pos (count r)) offset)
    then to_right (node d c l x r) up at
    else if ltz offset at && not (ltz offset (at -ℤ pos (count l)))
    then to_left (node d c l x r) up at
    else to_parent (node d c l x r) up at

-- The loop. `at` is the position relative to the node at the start.
unfoldable pub turns : ℕ → Tree → Ancestors → ℤ → ℤ → Run (Option (Tree × Ancestors))
turns zero t up at offset = out_of_fuel
turns (suc fuel) t up at offset = turn t up at offset >>= λ m. elim m [
  | stop result ↦ ok result
  | move t' up' at' ↦ turns fuel t' up' at' offset
]

-- `offsetAVL`: as many turns as the tree has nodes and the way up has ancestors, and one more.
unfoldable pub offset_avl : Tree → Ancestors → ℤ → Run (Option (Tree × Ancestors))
offset_avl t up offset = turns (suc (length up + count (zip t up))) t up (pos 0) offset
