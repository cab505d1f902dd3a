-- ===== src/Avl/Joins.antt =====
-- One rotation, and two: a node whose one subtree is too deep by two.
use coxx.Base.{
  ℕ, suc, ◌+◌, ◌<◌, ◌≤◌, ◌≡◌, refl, ◌⊎◌, ◌∷◌, ◌++◌, append_assoc, arith, ltb, true, false,
}
use coxx.Base.Bytes.{u32_mod}
use coxx.Base.Run.{ok, ◌>>=◌, Returns}
use coxx.Avl.{Tree, node, depth, max, rotate_left, rotate_right, fix_left, fix_right}
use coxx.Avl.Shape.{in_order, height, size, IsAvl, bin, IsAvl-depth, update-bin}

module _ (d c d' c' : ℕ) (a : Tree) (x : ℕ) (b : Tree) (y : ℕ) (e : Tree) (ga : IsAvl a)
    (gb : IsAvl b) (ge : IsAvl e) where
  -- Both rotations make the fields of the two nodes right.
  rotate_left-bin :
      suc (suc (size a + size b) + size e) < u32_mod
      → IsAvl (bin a x b)
      → rotate_left (node d c a x (node d' c' b y e)) ≡ ok (bin (bin a x b) y e)
  unfolding rotate_left size height
  rotate_left-bin small g =
      rw (update-bin d c a x b ga gb (omega arith), ◌>>=◌)
        (update-bin d' c' (bin a x b) y e g ge small)

  rotate_right-bin :
      suc (size a + suc (size b + size e)) < u32_mod
      → IsAvl (bin b y e)
      → rotate_right (node d c (node d' c' a x b) y e) ≡ ok (bin a x (bin b y e))
  unfolding rotate_right size height
  rotate_right-bin small g =
      rw (update-bin d c b y e gb ge (omega arith), ◌>>=◌)
        (update-bin d' c' a x (bin b y e) ga g small)

-- An AVL tree with the nodes of `l`, then `x`, then those of `r`.
pub record Joins (l : Tree) (x : ℕ) (r t : Tree) : Type 0 where
  pub avl : IsAvl t
  pub order : in_order t ≡ in_order l ++ x ∷ in_order r
  pub total : size t ≡ suc (size l + size r)

-- A rebuilt node is as high as the higher of its old subtrees, or higher by one.
abbrev pub Near : Tree → Tree → Type 0
Near t l = (height l ≤ height t) × (height t ≤ suc (height l))

-- The larger of two numbers, for `omega`.
pub max_bounds : (a b : ℕ) → (a ≤ max a b) × (b ≤ max a b) × ((max a b ≡ a) ⊎ (max a b ≡ b))
unfolding max
max_bounds a b = ground arith

pub bin-IsAvl :
    (l : Tree) (x : ℕ) (r : Tree)
    → IsAvl l
    → IsAvl r
    → height l ≤ suc (height r)
    → height r ≤ suc (height l)
    → IsAvl (bin l x r)
bin-IsAvl l x r gl gr h k = (refl, refl, h, k, gl, gr)

pub height-bin :
    (l : Tree) (x : ℕ) (r : Tree) → height (bin l x r) ≡ suc (max (height l) (height r))
unfolding height
height-bin l x r = refl

module _ (d c d' c' : ℕ) (a : Tree) (y : ℕ) (b : Tree) (x : ℕ) (r : Tree)
    (gl : IsAvl (node d' c' a y b)) (gr : IsAvl r)
    (small : suc (suc (size a + size b) + size r) < u32_mod) where
  pub single_right :
      height a ≡ suc (height r)
      → height b ≤ height a
      → Returns
          (fix_left (node d c (node d' c' a y b) x r))
          λ t. Joins (node d' c' a y b) x r t × Near t (node d' c' a y b)
  unfolding fix_left height size in_order
  single_right ha hb =
      let test : ltb (depth a) (depth b) ≡ false =
        rw (IsAvl-depth a gl.4, IsAvl-depth b gl.5) (ground arith) in
      let inner = max_bounds (height b) (height r) in
      let balanced : IsAvl (bin b x r) = bin-IsAvl b x r gl.5 gr (omega arith) (omega arith) in
      (
        bin a y (bin b x r),
        rw (test, ◌>>=◌) (rotate_right-bin d c d' c' a y b x r gl.4 gl.5 gr (omega arith) balanced),
        (
          record {
            avl = bin-IsAvl a y (bin b x r) gl.4 balanced (omega arith) (omega arith);
            order = simp append_assoc;
            total = omega arith;
          },
          omega (
            arith,
            max_bounds (height a) (suc (max (height b) (height r))),
            max_bounds (height a) (height b),
          ),
        ),
      )

module _ (d c d' c' : ℕ) (l : Tree) (x : ℕ) (a : Tree) (y : ℕ) (b : Tree) (gl : IsAvl l)
    (gr : IsAvl (node d' c' a y b)) (small : suc (size l + suc (size a + size b)) < u32_mod) where
  pub single_left :
      height b ≡ suc (height l)
      → height a ≤ height b
      → Returns
          (fix_right (node d c l x (node d' c' a y b)))
          λ t. Joins l x (node d' c' a y b) t × Near t (node d' c' a y b)
  unfolding fix_right height size in_order
  single_left hb ha =
      let test : ltb (depth b) (depth a) ≡ false =
        rw (IsAvl-depth a gr.4, IsAvl-depth b gr.5) (ground arith) in
      let inner = max_bounds (height l) (height a) in
      let balanced : IsAvl (bin l x a) = bin-IsAvl l x a gl gr.4 (omega arith) (omega arith) in
      (
        bin (bin l x a) y b,
        rw (test, ◌>>=◌) (rotate_left-bin d c d' c' l x a y b gl gr.4 gr.5 (omega arith) balanced),
        (
          record {
            avl = bin-IsAvl (bin l x a) y b balanced gr.5 (omega arith) (omega arith);
            order = simp append_assoc;
            total = omega arith;
          },
          omega (
            arith,
            max_bounds (suc (max (height l) (height a))) (height b),
            max_bounds (height a) (height b),
          ),
        ),
      )

module _ (d c d' c' d'' c'' : ℕ) (a : Tree) (y : ℕ) (p : Tree) (z : ℕ) (q : Tree) (x : ℕ) (r : Tree)
    (gl : IsAvl (node d' c' a y (node d'' c'' p z q))) (gr : IsAvl r)
    (small : suc (suc (size a + suc (size p + size q)) + size r) < u32_mod) where
  pub double_right :
      height a ≡ height r
      → suc (max (height p) (height q)) ≡ suc (height r)
      → Returns (fix_left (node d c (node d' c' a y (node d'' c'' p z q)) x r)) λ t.
        Joins (node d' c' a y (node d'' c'' p z q)) x r t
        × Near t (node d' c' a y (node d'' c'' p z q))
  unfolding fix_left height size in_order
  double_right ha hb =
      let gb = gl.5 in
      let test : ltb (depth a) (depth (node d'' c'' p z q)) ≡ true =
        rw (IsAvl-depth a gl.4, IsAvl-depth (node d'' c'' p z q) gb) (ground arith) in
      let inner = max_bounds (height p) (height q) in
      let left : IsAvl (bin a y p) = bin-IsAvl a y p gl.4 gb.4 (omega arith) (omega arith) in
      let right : IsAvl (bin q x r) = bin-IsAvl q x r gb.5 gr (omega arith) (omega arith) in
      let first = rotate_left-bin d' c' d'' c'' a y p z q gl.4 gb.4 gb.5 (omega arith) left in
      (
        bin (bin a y p) z (bin q x r),
        rw (test, first, ◌>>=◌)
            (rotate_right-bin d c _ _ (bin a y p) z q x r left gb.5 gr (omega arith) right),
        (
          record {
            avl =
                bin-IsAvl (bin a y p) z (bin q x r) left right
                  (omega
                    (arith, max_bounds (height a) (height p), max_bounds (height q) (height r)))
                  (omega
                    (arith, max_bounds (height a) (height p), max_bounds (height q) (height r)));
            order = simp append_assoc;
            total = omega arith;
          },
          omega (
            arith,
            max_bounds (height a) (height p),
            max_bounds (height q) (height r),
            max_bounds (suc (max (height a) (height p))) (suc (max (height q) (height r))),
            max_bounds (height a) (suc (max (height p) (height q))),
          ),
        ),
      )

module _ (d c d' c' d'' c'' : ℕ) (l : Tree) (x : ℕ) (p : Tree) (z : ℕ) (q : Tree) (y : ℕ) (b : Tree)
    (gl : IsAvl l) (gr : IsAvl (node d' c' (node d'' c'' p z q) y b))
    (small : suc (size l + suc (suc (size p + size q) + size b)) < u32_mod) where
  pub double_left :
      height b ≡ height l
      → suc (max (height p) (height q)) ≡ suc (height l)
      → Returns (fix_right (node d c l x (node d' c' (node d'' c'' p z q) y b))) λ t.
        Joins l x (node d' c' (node d'' c'' p z q) y b) t
        × Near t (node d' c' (node d'' c'' p z q) y b)
  unfolding fix_right height size in_order
  double_left hb ha =
      let ga = gr.4 in
      let test : ltb (depth b) (depth (node d'' c'' p z q)) ≡ true =
        rw (IsAvl-depth b gr.5, IsAvl-depth (node d'' c'' p z q) ga) (ground arith) in
      let inner = max_bounds (height p) (height q) in
      let left : IsAvl (bin l x p) = bin-IsAvl l x p gl ga.4 (omega arith) (omega arith) in
      let right : IsAvl (bin q y b) = bin-IsAvl q y b ga.5 gr.5 (omega arith) (omega arith) in
      let first = rotate_right-bin d' c' d'' c'' p z q y b ga.4 ga.5 gr.5 (omega arith) right in
      (
        bin (bin l x p) z (bin q y b),
        rw (test, first, ◌>>=◌)
            (rotate_left-bin d c _ _ l x p z (bin q y b) gl ga.4 right (omega arith) left),
        (
          record {
            avl =
                bin-IsAvl (bin l x p) z (bin q y b) left right
                  (omega
                    (arith, max_bounds (height l) (height p), max_bounds (height q) (height b)))
                  (omega
                    (arith, max_bounds (height l) (height p), max_bounds (height q) (height b)));
            order = simp append_assoc;
            total = omega arith;
          },
          omega (
            arith,
            max_bounds (height l) (height p),
            max_bounds (height q) (height b),
            max_bounds (suc (max (height l) (height p))) (suc (max (height q) (height b))),
            max_bounds (suc (max (height p) (height q))) (height b),
          ),
        ),
      )
