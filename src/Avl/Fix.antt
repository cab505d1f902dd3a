-- ===== src/Avl/Fix.antt =====
-- `fixAVL` from a node whose subtree grew or shrank by one level.
use coxx.Base.{ℕ, suc, ◌+◌, ◌<◌, ◌≤◌, ◌≡◌, ap, ◌∙◌, List, [], ◌∷◌, ◌++◌, arith}
use native.Mathlib.Decide.{dec_lt}
use coxx.Base.Bytes.{u32_mod}
use coxx.Base.Run.{Run, ◌>>=◌, Returns}
use coxx.Avl.{Tree, node, Frame, from_left, from_right, Ancestors, max, plug, zip, fix_avl}
use coxx.Avl.Shape.{in_order, height, size, IsAvl}
use coxx.Avl.Rotate.{Rebuilt, rebalance-Rebuilt}
use coxx.Avl.Joins.{max_bounds}

-- The ancestors are AVL nodes as long as the subtree below them has height `k`.
abbrev pub Fits : ℕ → Ancestors → Type 0
Fits k [] = Unit
Fits k (from_left d c x r ∷ up) =
    IsAvl r × (k ≤ suc (height r)) × (height r ≤ suc k) × Fits (suc (max k (height r))) up
Fits k (from_right d c l x ∷ up) =
    IsAvl l × (k ≤ suc (height l)) × (height l ≤ suc k) × Fits (suc (max (height l) k)) up

-- Heights that differ by one at most.
abbrev pub Close : ℕ → ℕ → Type 0
Close a b = (a ≤ suc b) × (b ≤ suc a)

pub plug-in_order :
    (f : Frame) (t u : Tree) → in_order t ≡ in_order u → in_order (plug f t) ≡ in_order (plug f u)
unfolding plug in_order
plug-in_order (from_left d c x r) t u e = ap (λ (o : List ℕ). o ++ x ∷ in_order r) e
plug-in_order (from_right d c l x) t u e = ap (λ (o : List ℕ). in_order l ++ x ∷ o) e

-- The order of the whole depends on the order of the part.
pub zip-in_order :
    (up : Ancestors) (t u : Tree)
    → in_order t ≡ in_order u
    → in_order (zip t up) ≡ in_order (zip u up)
unfolding zip
zip-in_order [] t u e = e
zip-in_order (f ∷ up) t u e = zip-in_order up (plug f t) (plug f u) (plug-in_order f t u e)

size-plug : (f : Frame) (t : Tree) → size t < size (plug f t)
unfolding plug size
size-plug (from_left d c x r) t = omega arith
size-plug (from_right d c l x) t = omega arith

plug-size : (f : Frame) (t u : Tree) → size t ≡ size u → size (plug f t) ≡ size (plug f u)
unfolding plug size
plug-size (from_left d c x r) t u e = omega arith
plug-size (from_right d c l x) t u e = omega arith

pub zip-size : (up : Ancestors) (t u : Tree) → size t ≡ size u → size (zip t up) ≡ size (zip u up)
unfolding zip
zip-size [] t u e = e
zip-size (f ∷ up) t u e = zip-size up (plug f t) (plug f u) (plug-size f t u e)

pub size-le-zip : (up : Ancestors) (t : Tree) → size t ≤ size (zip t up)
unfolding zip
size-le-zip [] t = omega arith
size-le-zip (f ∷ up) t = omega (arith, size-plug f t, size-le-zip up (plug f t))

-- The height of the parent stays close to what it was.
module _ (k : ℕ) (l : Tree) (x : ℕ) (r t : Tree) (b : Rebuilt l x r t) where
  Close-left : Close (height l) k → Close k (height r) → Close (height t) (suc (max k (height r)))
  Close-left near fits =
      let old = max_bounds k (height r) in
      let new = max_bounds (height l) (height r) in
      elim (dec_lt (suc (height r)) (height l)) [
        | yes deep ↦ omega (arith, b.left_deep (omega arith))
        | no flat ↦ elim (dec_lt (suc (height l)) (height r)) [
          | yes deep ↦ omega (arith, b.right_deep (omega arith))
          | no level ↦ omega (arith, b.balanced (omega arith) (omega arith))
        ]
      ]

  Close-right : Close (height r) k → Close k (height l) → Close (height t) (suc (max (height l) k))
  Close-right near fits =
      let old = max_bounds (height l) k in
      let new = max_bounds (height l) (height r) in
      elim (dec_lt (suc (height r)) (height l)) [
        | yes deep ↦ omega (arith, b.left_deep (omega arith))
        | no flat ↦ elim (dec_lt (suc (height l)) (height r)) [
          | yes deep ↦ omega (arith, b.right_deep (omega arith))
          | no level ↦ omega (arith, b.balanced (omega arith) (omega arith))
        ]
      ]

-- A whole AVL tree with the nodes of `t`, in the same order.
pub record Fixed (before t : Tree) : Type 0 where
  pub avl : IsAvl t
  pub order : in_order t ≡ in_order before
  pub total : size t ≡ size before

root_small :
    (d c : ℕ) (l : Tree) (x : ℕ) (r : Tree) (up : Ancestors)
    → size (zip (node d c l x r) up) < u32_mod
    → suc (size l + size r) < u32_mod
unfolding size
root_small d c l x r up small = omega (arith, size-le-zip up (node d c l x r))

-- The ancestors fit a subtree of height `k`, and the one that is there now comes to a height close
-- to `k` when its root is rebuilt.
pub fix_avl_node :
    (up : Ancestors) (k d c : ℕ) (l : Tree) (x : ℕ) (r : Tree)
    → IsAvl l
    → IsAvl r
    → height l ≤ suc (suc (height r))
    → height r ≤ suc (suc (height l))
    → Fits k up
    → ((t : Tree) → Rebuilt l x r t → Close (height t) k)
    → size (zip (node d c l x r) up) < u32_mod
    → Returns (fix_avl (node d c l x r) up) (Fixed (zip (node d c l x r) up))
unfolding fix_avl plug zip in_order size
fix_avl_node [] k d c l x r gl gr hl hr fits near small =
    let (t, e, rb) = rebalance-Rebuilt d c l x r gl gr (root_small d c l x r [] small) hl hr in
    (t, e, record { avl = rb.joins.avl; order = rb.joins.order; total = rb.joins.total })
fix_avl_node (from_left d' c' x' r' ∷ up) k d c l x r gl gr hl hr (g, h₁, h₂, fits) near small =
    let (t, e, rb) =
      rebalance-Rebuilt d c l x r gl gr (root_small d c l x r (from_left d' c' x' r' ∷ up) small) hl
        hr in
    let same : in_order (zip t (from_left d' c' x' r' ∷ up))
        ≡ in_order (zip (node d c l x r) (from_left d' c' x' r' ∷ up)) =
      zip-in_order (from_left d' c' x' r' ∷ up) t (node d c l x r) rb.joins.order in
    let as_many : size (zip t (from_left d' c' x' r' ∷ up))
        ≡ size (zip (node d c l x r) (from_left d' c' x' r' ∷ up)) =
      zip-size (from_left d' c' x' r' ∷ up) t (node d c l x r) rb.joins.total in
    let close = near t rb in
    let (w, run, f) =
      fix_avl_node up (suc (max k (height r'))) d' c' t x' r' rb.joins.avl g (omega arith)
        (omega arith) fits (λ t' b. Close-left k t x' r' t' b close (h₁, h₂)) (omega arith) in
    (
      w,
      ap (λ (m : Run Tree). m >>= λ t. fix_avl (plug (from_left d' c' x' r') t) up) e ∙ run,
      record { avl = f.avl; order = f.order ∙ same; total = f.total ∙ as_many },
    )
fix_avl_node (from_right d' c' l' x' ∷ up) k d c l x r gl gr hl hr (g, h₁, h₂, fits) near small =
    let (t, e, rb) =
      rebalance-Rebuilt d c l x r gl gr (root_small d c l x r (from_right d' c' l' x' ∷ up) small)
        hl hr in
    let same : in_order (zip t (from_right d' c' l' x' ∷ up))
        ≡ in_order (zip (node d c l x r) (from_right d' c' l' x' ∷ up)) =
      zip-in_order (from_right d' c' l' x' ∷ up) t (node d c l x r) rb.joins.order in
    let as_many : size (zip t (from_right d' c' l' x' ∷ up))
        ≡ size (zip (node d c l x r) (from_right d' c' l' x' ∷ up)) =
      zip-size (from_right d' c' l' x' ∷ up) t (node d c l x r) rb.joins.total in
    let close = near t rb in
    let (w, run, f) =
      fix_avl_node up (suc (max (height l') k)) d' c' l' x' t g rb.joins.avl (omega arith)
        (omega arith) fits (λ t' b. Close-right k l' x' t t' b close (h₁, h₂)) (omega arith) in
    (
      w,
      ap (λ (m : Run Tree). m >>= λ t. fix_avl (plug (from_right d' c' l' x') t) up) e ∙ run,
      record { avl = f.avl; order = f.order ∙ same; total = f.total ∙ as_many },
    )

-- A subtree with a height one away at most from the one that was there.
pub fix_avl-plug :
    (f : Frame) (up : Ancestors) (k : ℕ) (u : Tree)
    → IsAvl u
    → Close (height u) k
    → Fits k (f ∷ up)
    → size (zip u (f ∷ up)) < u32_mod
    → Returns (fix_avl (plug f u) up) (Fixed (zip u (f ∷ up)))
unfolding plug zip
fix_avl-plug (from_left d c x r) up k u g near (g', h₁, h₂, fits) small =
    fix_avl_node up (suc (max k (height r))) d c u x r g g' (omega arith) (omega arith) fits
      (λ t b. Close-left k u x r t b near (h₁, h₂)) small
fix_avl-plug (from_right d c l x) up k u g near (g', h₁, h₂, fits) small =
    fix_avl_node up (suc (max (height l) k)) d c l x u g' g (omega arith) (omega arith) fits
      (λ t b. Close-right k l x u t b near (h₁, h₂)) small
