-- ===== src/Tests/Trees.antt =====
-- avl/c/avl.c and zset/zset.cxx
use coxx.Base.{◌==◌, ltb, ℕ, ◌+◌, ◌<◌, ◌≡◌, refl, List, [], ◌∷◌, ◌++◌, arith, none, some, length}
use coxx.Base.Bytes.{u32_mod}
use coxx.Base.Int.{pos, negsuc, diff, ◌+ℤ◌, neg, ltz, eqz}
use coxx.Zset.{ZNode, less, memcmp, search, query}
use coxx.Base.Run.{ok, Returns}
use coxx.Avl.{
  Tree, leaf, node, from_left, from_right, Ancestors, depth, count, max, single, update,
  rotate_left, rotate_right, fix_left, fix_right, rebalance, plug, zip, fix_avl, leftmost, replace,
  del_avl, to_right, to_left, to_parent, turn, turns, offset_avl,
}
use coxx.Avl.Shape.{in_order, height, size, IsAvl}
use coxx.Avl.Order.{before, after, occurrences, Distinct}
use coxx.Avl.Edits.{fix_avl-single, del_avl-in_order}
use coxx.Avl.Cursor.{Moved, offset_avl-Moved}

-- 10 with 30 on its right, and the null pointer on the left of 30.
abbrev below_thirty : Ancestors
below_thirty = from_left 1 1 30 leaf ∷ from_right 2 2 leaf 10 ∷ []

-- The insertion of 20 there rotates twice.
insert_between :
    fix_avl (single 20) below_thirty
    ≡ ok (node 2 3 (node 1 1 leaf 10 leaf) 20 (node 1 1 leaf 30 leaf))
unfolding fix_avl update rebalance fix_left fix_right rotate_left rotate_right plug depth count max
insert_between = refl

-- 10, 20, 30 and 40, with 20 at the root.
abbrev right_of_root : Tree
right_of_root = node 2 2 leaf 30 (node 1 1 leaf 40 leaf)

-- The root is 30 once 20 is deleted.
delete_root :
    del_avl 4 (node 3 4 (node 1 1 leaf 10 leaf) 20 right_of_root) []
    ≡ ok (node 2 3 (node 1 1 leaf 10 leaf) 30 (node 1 1 leaf 40 leaf))
unfolding del_avl leftmost replace fix_avl update rebalance fix_left fix_right rotate_left
    rotate_right plug depth count max
delete_root = refl

-- From 40, three back and one more than there are.
offset_back :
    offset_avl
      (node 1 1 leaf 40 leaf)
      (from_right 2 2 leaf 30 ∷ from_right 3 4 (node 1 1 leaf 10 leaf) 20 ∷ [])
      (negsuc 2)
    ≡ ok (some (node 1 1 leaf 10 leaf, from_left 3 4 20 right_of_root ∷ []))
unfolding offset_avl turns turn to_right to_left to_parent diff ◌+ℤ◌ neg ltz eqz zip plug count
offset_back = refl

offset_out :
    offset_avl
      (node 1 1 leaf 40 leaf)
      (from_right 2 2 leaf 30 ∷ from_right 3 4 (node 1 1 leaf 10 leaf) 20 ∷ [])
      (pos 1)
    ≡ ok none
unfolding offset_avl turns turn to_right to_left to_parent diff ◌+ℤ◌ neg ltz eqz zip plug count
offset_out = refl

below_thirty-IsAvl : IsAvl (zip leaf below_thirty)
unfolding zip plug height size max
below_thirty-IsAvl =
    (refl, refl, omega arith, omega arith, tt, (refl, refl, omega arith, omega arith, tt, tt))

thirty_small : size (zip (single 20) below_thirty) < u32_mod
unfolding zip plug size
thirty_small = omega arith

fix_avl-single_example :
    Returns
      (fix_avl (single 20) below_thirty)
      λ t. IsAvl t × (in_order t ≡ before below_thirty ++ 20 ∷ after below_thirty)
fix_avl-single_example = fix_avl-single 20 below_thirty below_thirty-IsAvl thirty_small

four-IsAvl : IsAvl (zip (node 3 4 (node 1 1 leaf 10 leaf) 20 right_of_root) [])
unfolding zip plug height size max
four-IsAvl = (
  refl,
  refl,
  omega arith,
  omega arith,
  (refl, refl, omega arith, omega arith, tt, tt),
  (refl, refl, omega arith, omega arith, tt, (refl, refl, omega arith, omega arith, tt, tt)),
)

four-Distinct : Distinct (in_order (zip (node 3 4 (node 1 1 leaf 10 leaf) 20 right_of_root) []))
unfolding zip in_order occurrences
four-Distinct = λ x. ground arith

four_small : size (zip (node 3 4 (node 1 1 leaf 10 leaf) 20 right_of_root) []) < u32_mod
unfolding zip size
four_small = omega arith

del_avl-in_order_example :
    Returns
      (del_avl
        (size (node 3 4 (node 1 1 leaf 10 leaf) 20 right_of_root))
        (node 3 4 (node 1 1 leaf 10 leaf) 20 right_of_root)
        [])
      λ t.
        IsAvl t
        × (xs : List ℕ) × (ys : List ℕ) × (in_order
              (zip (node 3 4 (node 1 1 leaf 10 leaf) 20 right_of_root) [])
            ≡ xs ++ 20 ∷ ys)
        × (in_order t ≡ xs ++ ys)
del_avl-in_order_example =
    del_avl-in_order 3 4 (node 1 1 leaf 10 leaf) 20 right_of_root [] four-IsAvl four_small
      four-Distinct

offset_avl-Moved_example :
    Returns (offset_avl (node 3 4 (node 1 1 leaf 10 leaf) 20 right_of_root) [] (negsuc 0)) (
      Moved
        (zip (node 3 4 (node 1 1 leaf 10 leaf) 20 right_of_root) [])
        (length (before []) + size (node 1 1 leaf 10 leaf))
        (negsuc 0))
offset_avl-Moved_example =
    offset_avl-Moved 3 4 (node 1 1 leaf 10 leaf) 20 right_of_root [] (negsuc 0) four-IsAvl
      four_small

-- Scores are compared as numbers, and a pair's score is its address.
abbrev pair : ℕ → ZNode
pair x = record { score = x; len = 1; name = 97 ∷ [] }

abbrev four : Tree
four = node 3 4 (node 1 1 leaf 10 leaf) 20 right_of_root

-- The pair of score 20 and name "a" itself, and the one behind it for the name "b".
found_itself : query ◌==◌ ltb pair four 20 (97 ∷ []) 1 ≡ some 20
unfolding query search less memcmp ltz eqz
found_itself = refl

found_behind : query ◌==◌ ltb pair four 20 (98 ∷ []) 1 ≡ some 30
unfolding query search less memcmp ltz eqz
found_behind = refl
