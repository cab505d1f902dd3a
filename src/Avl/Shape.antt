-- ===== src/Avl/Shape.antt =====
-- What a tree is: its nodes in order, its height and size, and when it is an AVL tree.
use coxx.Base.{ℕ, suc, ◌+◌, ◌<◌, ◌≤◌, ◌≡◌, refl, List, [], ◌∷◌, ◌++◌, arith, length, length-append}
use coxx.Base.Bytes.{u32_mod}
use coxx.Base.Run.{ok}
use coxx.Avl.{Tree, leaf, node, depth, count, max, update}

unfoldable pub in_order : Tree → List ℕ
in_order leaf = []
in_order (node d c l x r) = in_order l ++ x ∷ in_order r

unfoldable pub height : Tree → ℕ
unfolding max
height leaf = 0
height (node d c l x r) = suc (max (height l) (height r))

unfoldable pub size : Tree → ℕ
size leaf = 0
size (node d c l x r) = suc (size l + size r)

-- The cached fields are right, and no two siblings differ in height by more than one.
abbrev pub IsAvl : Tree → Type 0
IsAvl leaf = Unit
IsAvl (node d c l x r) =
    (d ≡ suc (max (height l) (height r)))
    × (c ≡ suc (size l + size r))
    × (height l ≤ suc (height r))
    × (height r ≤ suc (height l))
    × IsAvl l
    × IsAvl r

-- A node with the fields that its subtrees give.
abbrev pub bin : Tree → ℕ → Tree → Tree
bin l x r = node (suc (max (height l) (height r))) (suc (size l + size r)) l x r

pub IsAvl-depth : (t : Tree) → IsAvl t → depth t ≡ height t
unfolding depth height
IsAvl-depth leaf g = refl
IsAvl-depth (node d c l x r) g = g.0

pub IsAvl-count : (t : Tree) → IsAvl t → count t ≡ size t
unfolding count size
IsAvl-count leaf g = refl
IsAvl-count (node d c l x r) g = g.1

pub height-le-size : (t : Tree) → height t ≤ size t
unfolding height size
height-le-size leaf = omega arith
height-le-size (node d c l x r) = ground (arith, height-le-size l, height-le-size r)

pub length-in_order : (t : Tree) → length (in_order t) ≡ size t
unfolding in_order size
length-in_order leaf = refl
length-in_order (node d c l x r) =
    omega (arith, length-append (in_order l) (x ∷ in_order r), length-in_order l, length-in_order r)

-- `update` makes the fields right, if those of the subtrees are and the sizes fit their words.
pub update-bin :
    (d c : ℕ) (l : Tree) (x : ℕ) (r : Tree)
    → IsAvl l
    → IsAvl r
    → suc (size l + size r) < u32_mod
    → update (node d c l x r) ≡ ok (bin l x r)
unfolding update max
update-bin d c l x r gl gr small =
    let e = IsAvl-depth l gl in
    let e' = IsAvl-depth r gr in
    let f = IsAvl-count l gl in
    let f' = IsAvl-count r gr in
    rw (e, e', f, f') (ground (arith, height-le-size l, height-le-size r))
