-- ===== src/Avl/Seek.antt =====
-- The loop of `offsetAVL` for a target in the tree: a way up, then a way down.
use coxx.Base.{
  ℕ, zero, suc, ◌+◌, ◌<◌, ◌≤◌, ◌≡◌, refl, sym, ap, subst, ◌∙◌, ◌⊎◌, inl, inr, some, [], ◌∷◌, arith,
  length,
}
use native.Mathlib.Decide.{dec_lt}
use coxx.Base.Bytes.{u32_mod, add32}
use coxx.Base.Int.{diff, diff-add, diff-sub, diff-shift}
use coxx.Base.Run.{ok, Returns}
use coxx.Avl.{
  Tree, node, from_left, from_right, Ancestors, plug, zip, move, to_right, to_left, to_parent,
  turns,
}
use coxx.Avl.Shape.{size, IsAvl, IsAvl-count}
use coxx.Avl.Order.{before}
use coxx.Avl.Edits.{IsAvl-zip}
use coxx.Avl.Offset.{
  turn_here, turn_right, turn_left, turn_up, turns-stop, turns-move, Found, rank-right, rank-left,
  before-size, Tree-cases,
}

to_right-move :
    (d c : ℕ) (l : Tree) (x : ℕ) (up : Ancestors) (i r0 d' c' : ℕ) (a : Tree) (y : ℕ) (b r : Tree)
    → r ≡ node d' c' a y b
    → IsAvl a
    → suc (size a) < u32_mod
    → to_right (node d c l x r) up (diff i r0)
      ≡ ok (move (node d' c' a y b) (from_right d c l x ∷ up) (diff (i + suc (size a)) r0))
unfolding to_right
to_right-move d c l x up i r0 d' c' a y b r e g small =
    let n : add32 (size a) 1 ≡ suc (size a) = omega arith in
    rw (e, IsAvl-count a g, n, diff-add i r0 (suc (size a))) refl

to_left-move :
    (d c x : ℕ) (r : Tree) (up : Ancestors) (i j r0 d' c' : ℕ) (a : Tree) (y : ℕ) (b l : Tree)
    → l ≡ node d' c' a y b
    → IsAvl b
    → suc (size b) < u32_mod
    → i ≡ j + suc (size b)
    → to_left (node d c l x r) up (diff i r0)
      ≡ ok (move (node d' c' a y b) (from_left d c x r ∷ up) (diff j r0))
unfolding to_left
to_left-move d c x r up i j r0 d' c' a y b l e g small at =
    let n : add32 (size b) 1 ≡ suc (size b) = omega arith in
    rw
      (
        at,
        e,
        IsAvl-count b g,
        n,
        diff-sub (j + suc (size b)) r0 (suc (size b)),
        diff-shift j r0 (suc (size b)),
      )
      refl

pub to_parent-left :
    (d c : ℕ) (l : Tree) (x : ℕ) (r : Tree) (d' c' x' : ℕ) (r' : Tree) (up : Ancestors) (i r0 : ℕ)
    → IsAvl r
    → suc (size r) < u32_mod
    → to_parent (node d c l x r) (from_left d' c' x' r' ∷ up) (diff i r0)
      ≡ ok (move (node d' c' (node d c l x r) x' r') up (diff (i + suc (size r)) r0))
unfolding to_parent
to_parent-left d c l x r d' c' x' r' up i r0 g small =
    let n : add32 (size r) 1 ≡ suc (size r) = omega arith in
    rw (IsAvl-count r g, n, diff-add i r0 (suc (size r))) refl

pub to_parent-right :
    (d c : ℕ) (l : Tree) (x : ℕ) (r : Tree) (d' c' : ℕ) (l' : Tree) (x' : ℕ) (up : Ancestors)
    (i j r0 : ℕ)
    → IsAvl l
    → suc (size l) < u32_mod
    → i ≡ j + suc (size l)
    → to_parent (node d c l x r) (from_right d' c' l' x' ∷ up) (diff i r0)
      ≡ ok (move (node d' c' l' x' (node d c l x r)) up (diff j r0))
unfolding to_parent
to_parent-right d c l x r d' c' l' x' up i j r0 g small at =
    let n : add32 (size l) 1 ≡ suc (size l) = omega arith in
    rw
      (
        at,
        IsAvl-count l g,
        n,
        diff-sub (j + suc (size l)) r0 (suc (size l)),
        diff-shift j r0 (suc (size l)),
      )
      refl

-- A target in the subtree is found below its root.
descend :
    (fuel d c : ℕ) (l : Tree) (x : ℕ) (r : Tree) (up : Ancestors) (i r0 o p target : ℕ)
    → IsAvl (node d c l x r)
    → size (node d c l x r) < u32_mod
    → size (node d c l x r) ≤ fuel
    → i ≡ length (before up) + size l
    → target + p ≡ r0 + o
    → length (before up) ≤ target
    → target < length (before up) + size (node d c l x r)
    → Returns
        (turns fuel (node d c l x r) up (diff i r0) (diff o p))
        (Found (zip (node d c l x r) up) target)
unfolding size zip plug
descend zero d c l x r up i r0 o p target g small enough at e low high = absurd (omega arith)
descend (suc fuel) d c l x r up i r0 o p target g small enough at e low high =
    elim (dec_lt target i) [
      | yes before_it ↦ elim (Tree-cases l) [
        | inl none_there ↦ absurd (omega arith)
        | inr (d', c', a, y, b, same) ↦
            let many : size l ≡ suc (size a + size b) = ap size same in
            let g' = subst IsAvl same g.4 in
            let (result, run, found) =
              descend fuel d' c' a y b (from_left d c x r ∷ up) (length (before up) + size a) r0 o p
                target g' (omega arith) (omega arith) (omega (arith, rank-left d c x r up)) e
                (omega (arith, rank-left d c x r up)) (omega (arith, rank-left d c x r up)) in
            (
              result,
              turns-move fuel (node d c l x r) up (diff i r0) (diff o p) (node d' c' a y b)
                    (from_left d c x r ∷ up) (diff (length (before up) + size a) r0)
                    (turn_left d c l x r up i r0 o p g.4 g.5 (omega arith) (omega arith)
                      ∙ to_left-move d c x r up i (length (before up) + size a) r0 d' c' a y b l
                          same g'.5 (omega arith) (omega arith))
                  ∙ run,
              subst (λ (t : Tree). Found (zip (node d c t x r) up) target result) (sym same) found,
            )
      ]
      | no not_before ↦ elim (dec_lt i target) [
        | yes behind_it ↦ elim (Tree-cases r) [
          | inl none_there ↦ absurd (omega arith)
          | inr (d', c', a, y, b, same) ↦
              let many : size r ≡ suc (size a + size b) = ap size same in
              let g' = subst IsAvl same g.5 in
              let (result, run, found) =
                descend fuel d' c' a y b (from_right d c l x ∷ up) (i + suc (size a)) r0 o p target
                  g' (omega arith) (omega arith) (omega (arith, rank-right d c l x up)) e
                  (omega (arith, rank-right d c l x up)) (omega (arith, rank-right d c l x up)) in
              (
                result,
                turns-move fuel (node d c l x r) up (diff i r0) (diff o p) (node d' c' a y b)
                      (from_right d c l x ∷ up) (diff (i + suc (size a)) r0)
                      (turn_right d c l x r up i r0 o p g.4 g.5 (omega arith) (omega arith)
                        ∙ to_right-move d c l x up i r0 d' c' a y b r same g'.4 (omega arith))
                    ∙ run,
                subst (λ (t : Tree). Found (zip (node d c l x t) up) target result) (sym same)
                    found,
              )
        ]
        | no not_behind ↦ (
          some (node d c l x r, up),
          turns-stop fuel (node d c l x r) up (diff i r0) (diff o p) (some (node d c l x r, up))
              (turn_here d c l x r up i r0 o p g.4 g.5 (omega arith)),
          record {
            d = d;
            c = c;
            l = l;
            x = x;
            r = r;
            way = up;
            here = refl;
            same = refl;
            rank = omega arith;
          },
        )
      ]
    ]

-- Every rank of the tree is reached: up to an ancestor that has the target below it, then down.
pub seek :
    (up : Ancestors) (fuel d c : ℕ) (l : Tree) (x : ℕ) (r : Tree) (i r0 o p target : ℕ)
    → IsAvl (zip (node d c l x r) up)
    → size (zip (node d c l x r) up) < u32_mod
    → length up + size (zip (node d c l x r) up) < fuel
    → i ≡ length (before up) + size l
    → target + p ≡ r0 + o
    → target < size (zip (node d c l x r) up)
    → Returns
        (turns fuel (node d c l x r) up (diff i r0) (diff o p))
        (Found (zip (node d c l x r) up) target)
unfolding zip plug size before
seek up zero d c l x r i r0 o p target g small enough at e high = absurd (omega arith)
seek [] (suc fuel) d c l x r i r0 o p target g small enough at e high =
    descend (suc fuel) d c l x r [] i r0 o p target g small (omega arith) at e (omega arith)
      (omega arith)
seek (from_left d' c' x' r' ∷ up) (suc fuel) d c l x r i r0 o p target g small enough at e high =
    let here = (IsAvl-zip (from_left d' c' x' r' ∷ up) (node d c l x r) g).0 in
    let part = before-size (node d c l x r) (from_left d' c' x' r' ∷ up) in
    let level = rank-left d' c' x' r' up in
    let climb : (i + size r + p < o + r0) ⊎ (o + r0 + size l < i + p)
        → Returns
            (turns (suc fuel) (node d c l x r) (from_left d' c' x' r' ∷ up) (diff i r0) (diff o p))
            (Found (zip (node d c l x r) (from_left d' c' x' r' ∷ up)) target) =
      λ outside.
        let (result, run, found) =
          seek up fuel d' c' (node d c l x r) x' r' (i + suc (size r)) r0 o p target g small
            (omega arith) (omega arith) e high in
        (
          result,
          turns-move fuel (node d c l x r) (from_left d' c' x' r' ∷ up) (diff i r0) (diff o p)
                (node d' c' (node d c l x r) x' r') up (diff (i + suc (size r)) r0)
                (turn_up d c l x r (from_left d' c' x' r' ∷ up) i r0 o p here.4 here.5 outside
                  ∙ to_parent-left d c l x r d' c' x' r' up i r0 here.5 (omega arith))
              ∙ run,
          found,
        ) in
    elim (dec_lt target (length (before (from_left d' c' x' r' ∷ up)))) [
      | yes low ↦ climb (inr (omega arith))
      | no not_low ↦
          elim (dec_lt target
            (length (before (from_left d' c' x' r' ∷ up)) + size (node d c l x r))) [
              | yes inside ↦
                  descend (suc fuel) d c l x r (from_left d' c' x' r' ∷ up) i r0 o p target here
                    (omega arith) (omega arith) at e (omega arith) inside
              | no not_inside ↦ climb (inl (omega arith))
            ]
    ]
seek (from_right d' c' l' x' ∷ up) (suc fuel) d c l x r i r0 o p target g small enough at e high =
    let here = (IsAvl-zip (from_right d' c' l' x' ∷ up) (node d c l x r) g).0 in
    let part = before-size (node d c l x r) (from_right d' c' l' x' ∷ up) in
    let level = rank-right d' c' l' x' up in
    let climb : (i + size r + p < o + r0) ⊎ (o + r0 + size l < i + p)
        → Returns
            (turns (suc fuel) (node d c l x r) (from_right d' c' l' x' ∷ up) (diff i r0) (diff o p))
            (Found (zip (node d c l x r) (from_right d' c' l' x' ∷ up)) target) =
      λ outside.
        let (result, run, found) =
          seek up fuel d' c' l' x' (node d c l x r) (length (before up) + size l') r0 o p target g
            small (omega arith) refl e high in
        (
          result,
          turns-move fuel (node d c l x r) (from_right d' c' l' x' ∷ up) (diff i r0) (diff o p)
                (node d' c' l' x' (node d c l x r)) up (diff (length (before up) + size l') r0)
                (turn_up d c l x r (from_right d' c' l' x' ∷ up) i r0 o p here.4 here.5 outside
                  ∙ to_parent-right d c l x r d' c' l' x' up i (length (before up) + size l') r0
                      here.4 (omega arith) (omega arith))
              ∙ run,
          found,
        ) in
    elim (dec_lt target (length (before (from_right d' c' l' x' ∷ up)))) [
      | yes low ↦ climb (inr (omega arith))
      | no not_low ↦
          elim (dec_lt target
            (length (before (from_right d' c' l' x' ∷ up)) + size (node d c l x r))) [
              | yes inside ↦
                  descend (suc fuel) d c l x r (from_right d' c' l' x' ∷ up) i r0 o p target here
                    (omega arith) (omega arith) at e (omega arith) inside
              | no not_inside ↦ climb (inl (omega arith))
            ]
    ]
