-- ===== src/Avl/Rotate.antt =====
-- `fixLeft`, `fixRight` and `rebalance`: one node whose subtrees differ in height by two at most.
use coxx.Base.{ℕ, suc, ◌+◌, ◌<◌, ◌≤◌, ◌≡◌, refl, arith, ◌==◌, true, false}
use native.Mathlib.Decide.{dec_lt}
use coxx.Base.Bytes.{u32_mod, add32}
use coxx.Base.Run.{◌>>=◌, Returns}
use coxx.Avl.{Tree, leaf, node, depth, max, update, fix_left, fix_right, rebalance}
use coxx.Avl.Shape.{in_order, height, size, IsAvl, bin, IsAvl-depth, update-bin, height-le-size}
use coxx.Avl.Joins.{
  Joins, Near, max_bounds, bin-IsAvl, height-bin, single_right, single_left, double_right,
  double_left,
}

-- The left subtree is too deep by two: one of the two rotations mends it.
fix_left-Joins :
    (d c : ℕ) (l : Tree) (x : ℕ) (r : Tree)
    → IsAvl l
    → IsAvl r
    → suc (size l + size r) < u32_mod
    → height l ≡ suc (suc (height r))
    → Returns (fix_left (node d c l x r)) λ t. Joins l x r t × Near t l
unfolding height size
fix_left-Joins d c leaf x r gl gr small h = absurd (omega arith)
fix_left-Joins d c (node d' c' a y leaf) x r gl gr small h =
    single_right d c d' c' a y leaf x r gl gr (omega arith) (omega (arith, max_bounds (height a) 0))
      (omega arith)
fix_left-Joins d c (node d' c' a y (node d'' c'' p z q)) x r gl gr small h =
    let outer = max_bounds (height a) (suc (max (height p) (height q))) in
    elim (dec_lt (height a) (suc (max (height p) (height q)))) [
      | no single ↦
          single_right d c d' c' a y (node d'' c'' p z q) x r gl gr (omega arith) (omega arith)
            (omega arith)
      | yes double ↦
          double_right d c d' c' d'' c'' a y p z q x r gl gr (omega arith) (omega arith)
            (omega arith)
    ]

fix_right-Joins :
    (d c : ℕ) (l : Tree) (x : ℕ) (r : Tree)
    → IsAvl l
    → IsAvl r
    → suc (size l + size r) < u32_mod
    → height r ≡ suc (suc (height l))
    → Returns (fix_right (node d c l x r)) λ t. Joins l x r t × Near t r
unfolding height size
fix_right-Joins d c l x leaf gl gr small h = absurd (omega arith)
fix_right-Joins d c l x (node d' c' leaf y b) gl gr small h =
    single_left d c d' c' l x leaf y b gl gr (omega arith) (omega (arith, max_bounds 0 (height b)))
      (omega arith)
fix_right-Joins d c l x (node d' c' (node d'' c'' p z q) y b) gl gr small h =
    let outer = max_bounds (suc (max (height p) (height q))) (height b) in
    elim (dec_lt (height b) (suc (max (height p) (height q)))) [
      | no single ↦
          single_left d c d' c' l x (node d'' c'' p z q) y b gl gr (omega arith) (omega arith)
            (omega arith)
      | yes double ↦
          double_left d c d' c' d'' c'' l x p z q y b gl gr (omega arith) (omega arith)
            (omega arith)
    ]

-- How high a rebuilt node is: as it was, if its subtrees are balanced, and otherwise near the
-- higher one.
pub record Rebuilt (l : Tree) (x : ℕ) (r t : Tree) : Type 0 where
  pub joins : Joins l x r t
  pub balanced :
      height l ≤ suc (height r)
      → height r ≤ suc (height l)
      → height t ≡ suc (max (height l) (height r))
  pub left_deep : height l ≡ suc (suc (height r)) → Near t l
  pub right_deep : height r ≡ suc (suc (height l)) → Near t r

module _ (l : Tree) (x : ℕ) (r : Tree) (gl : IsAvl l) (gr : IsAvl r)
    (small : suc (size l + size r) < u32_mod) where
  rebalance-bin :
      height l ≤ suc (suc (height r))
      → height r ≤ suc (suc (height l))
      → Returns (rebalance (bin l x r)) (Rebuilt l x r)
  unfolding rebalance
  rebalance-bin hl hr =
      let dl = IsAvl-depth l gl in
      let dr = IsAvl-depth r gr in
      let wl = height-le-size l in
      let wr = height-le-size r in
      elim (dec_lt (suc (height r)) (height l)) [
        | yes deep ↦
            let (t, e, (joins, near)) =
              fix_left-Joins (suc (max (height l) (height r))) (suc (size l + size r)) l x r gl gr
                small (omega arith) in
            (
              t,
              rw (equal (depth l) (add32 (depth r) 2) (omega arith)) e,
              record {
                joins = joins;
                balanced = λ h k. absurd (omega arith);
                left_deep = λ h. near;
                right_deep = λ h. absurd (omega arith);
              },
            )
        | no flat ↦ elim (dec_lt (suc (height l)) (height r)) [
          | yes deep ↦
              let (t, e, (joins, near)) =
                fix_right-Joins (suc (max (height l) (height r))) (suc (size l + size r)) l x r gl
                  gr small (omega arith) in
              (
                t,
                rw
                    (
                      unequal (depth l) (add32 (depth r) 2) (λ z. absurd (omega arith)),
                      equal (add32 (depth l) 2) (depth r) (omega arith),
                    )
                    e,
                record {
                  joins = joins;
                  balanced = λ h k. absurd (omega arith);
                  left_deep = λ h. absurd (omega arith);
                  right_deep = λ h. near;
                },
              )
          | no level ↦ (
            bin l x r,
            rw (
              unequal (depth l) (add32 (depth r) 2) (λ z. absurd (omega arith)),
              unequal (add32 (depth l) 2) (depth r) (λ z. absurd (omega arith)),
            ),
            record {
              joins = record {
                avl = bin-IsAvl l x r gl gr (omega arith) (omega arith);
                order = unfold in_order in refl;
                total = unfold size in refl;
              };
              balanced = λ h k. height-bin l x r;
              left_deep = λ h. absurd (omega arith);
              right_deep = λ h. absurd (omega arith);
            },
          )
        ]
      ]
    where
      equal : (a b : ℕ) → a ≡ b → (a == b) ≡ true
      equal a b e = ground arith

      unequal : (a b : ℕ) → ¬ (a ≡ b) → (a == b) ≡ false
      unequal a b n = ground arith

-- `update` and the two tests of `fixAVL`, on two AVL trees that differ in height by two at most.
pub rebalance-Rebuilt :
    (d c : ℕ) (l : Tree) (x : ℕ) (r : Tree)
    → IsAvl l
    → IsAvl r
    → suc (size l + size r) < u32_mod
    → height l ≤ suc (suc (height r))
    → height r ≤ suc (suc (height l))
    → Returns (update (node d c l x r) >>= rebalance) (Rebuilt l x r)
rebalance-Rebuilt d c l x r gl gr small hl hr =
    rw (update-bin d c l x r gl gr small, ◌>>=◌) (rebalance-bin l x r gl gr small hl hr)
