-- ===== src/Avl/Cursor.antt =====
-- `offsetAVL` moves a pointer by ranks, or reports that it would leave the tree.
use coxx.Base.{
  ℕ, zero, suc, ◌+◌, ◌-◌, ◌<◌, ◌≤◌, ◌≡◌, refl, sym, ap, ◌∙◌, ◌⊎◌, inl, inr, Option, none, [], ◌∷◌,
  arith, length,
}
use native.Mathlib.Decide.{dec_lt}
use coxx.Base.Bytes.{u32_mod}
use coxx.Base.Int.{ℤ, pos, diff, plus, minus, plus-minus, diff-pos, diff_equal, diff_injective}
use coxx.Base.Run.{ok, Returns}
use coxx.Avl.{
  Tree, node, from_left, from_right, Ancestors, count, plug, zip, to_parent, turns, offset_avl,
}
use coxx.Avl.Shape.{size, IsAvl, IsAvl-count}
use coxx.Avl.Order.{before}
use coxx.Avl.Edits.{IsAvl-zip}
use coxx.Avl.Offset.{turn_up, turns-stop, turns-move, Found, rank-right, rank-left, before-size}
use coxx.Avl.Seek.{seek, to_parent-left, to_parent-right}

-- A subtree of `suc (sl + sr)` nodes, after `b` others, has no node so far away.
outside :
    (b whole i sl sr r0 o p : ℕ)
    → (r0 + o < p) ⊎ (whole + p ≤ r0 + o)
    → b + suc (sl + sr) ≤ whole
    → i ≡ b + sl
    → (i + sr + p < o + r0) ⊎ (o + r0 + sl < i + p)
outside b whole i sl sr r0 o p (inl h) k e = inr (omega arith)
outside b whole i sl sr r0 o p (inr h) k e = inl (omega arith)

-- A target outside the tree: up to the root, and null.
leave :
    (up : Ancestors) (fuel d c : ℕ) (l : Tree) (x : ℕ) (r : Tree) (i r0 o p : ℕ)
    → IsAvl (zip (node d c l x r) up)
    → size (zip (node d c l x r) up) < u32_mod
    → length up < fuel
    → i ≡ length (before up) + size l
    → (r0 + o < p) ⊎ (size (zip (node d c l x r) up) + p ≤ r0 + o)
    → turns fuel (node d c l x r) up (diff i r0) (diff o p) ≡ ok none
unfolding zip plug size before to_parent
leave up zero d c l x r i r0 o p g small enough at far = absurd (omega arith)
leave [] (suc fuel) d c l x r i r0 o p g small enough at far =
    turns-stop fuel (node d c l x r) [] (diff i r0) (diff o p) none (
      turn_up d c l x r [] i r0 o p g.4 g.5
        (outside 0 (size (node d c l x r)) i (size l) (size r) r0 o p far (omega arith) at)
      ∙ refl)
leave (from_left d' c' x' r' ∷ up) (suc fuel) d c l x r i r0 o p g small enough at far =
    let here = (IsAvl-zip (from_left d' c' x' r' ∷ up) (node d c l x r) g).0 in
    let part = before-size (node d c l x r) (from_left d' c' x' r' ∷ up) in
    let level = rank-left d' c' x' r' up in
    turns-move fuel (node d c l x r) (from_left d' c' x' r' ∷ up) (diff i r0) (diff o p)
      (node d' c' (node d c l x r) x' r') up (diff (i + suc (size r)) r0)
      (turn_up d c l x r (from_left d' c' x' r' ∷ up) i r0 o p here.4 here.5 (
          outside (length (before (from_left d' c' x' r' ∷ up)))
            (size (zip (node d c l x r) (from_left d' c' x' r' ∷ up))) i (size l) (size r) r0 o p
            far part at)
        ∙ to_parent-left d c l x r d' c' x' r' up i r0 here.5 (omega arith))
    ∙ leave up fuel d' c' (node d c l x r) x' r' (i + suc (size r)) r0 o p g small (omega arith)
        (omega arith) far
leave (from_right d' c' l' x' ∷ up) (suc fuel) d c l x r i r0 o p g small enough at far =
    let here = (IsAvl-zip (from_right d' c' l' x' ∷ up) (node d c l x r) g).0 in
    let part = before-size (node d c l x r) (from_right d' c' l' x' ∷ up) in
    let level = rank-right d' c' l' x' up in
    turns-move fuel (node d c l x r) (from_right d' c' l' x' ∷ up) (diff i r0) (diff o p)
      (node d' c' l' x' (node d c l x r)) up (diff (length (before up) + size l') r0)
      (turn_up d c l x r (from_right d' c' l' x' ∷ up) i r0 o p here.4 here.5 (
          outside (length (before (from_right d' c' l' x' ∷ up)))
            (size (zip (node d c l x r) (from_right d' c' l' x' ∷ up))) i (size l) (size r) r0 o p
            far part at)
        ∙ to_parent-right d c l x r d' c' l' x' up i (length (before up) + size l') r0 here.4
            (omega arith) (omega arith))
    ∙ leave up fuel d' c' l' x' (node d c l x r) (length (before up) + size l') r0 o p g small
        (omega arith) refl far

-- A pointer to the node of rank `i` was moved by `offset`: to a node of the tree, or out of it.
abbrev pub Moved : Tree → ℕ → ℤ → Option (Tree × Ancestors) → Type 0
Moved whole i offset result =
    ((target : ℕ) × (offset ≡ diff target i) × (target < size whole) × Found whole target result)
    ⊎ (((target : ℕ) → offset ≡ diff target i → size whole ≤ target) × (result ≡ none))

start : (i : ℕ) → pos 0 ≡ diff i i
start i = sym (diff-pos i i 0 (omega arith))

-- `offsetAVL` from a node of an AVL tree ends at the node whose rank is `offset` more, when there is
-- one, and with null otherwise.
pub offset_avl-Moved :
    (d c : ℕ) (l : Tree) (x : ℕ) (r : Tree) (up : Ancestors) (offset : ℤ)
    → IsAvl (zip (node d c l x r) up)
    → size (zip (node d c l x r) up) < u32_mod
    → Returns
        (offset_avl (node d c l x r) up offset)
        (Moved (zip (node d c l x r) up) (length (before up) + size l) offset)
unfolding offset_avl
offset_avl-Moved d c l x r up offset g small =
    let i = length (before up) + size l in
    let o = plus offset in
    let p = minus offset in
    let n = IsAvl-count (zip (node d c l x r) up) g in
    let fuel = suc (length up + count (zip (node d c l x r) up)) in
    let begin : turns fuel (node d c l x r) up (pos 0) offset
        ≡ turns fuel (node d c l x r) up (diff i i) (diff o p) =
      ap (λ (at : ℤ). turns fuel (node d c l x r) up at offset) (start i)
      ∙ ap (λ (z : ℤ). turns fuel (node d c l x r) up (diff i i) z) (plus-minus offset) in
    let null : (i + o < p) ⊎ (size (zip (node d c l x r) up) + p ≤ i + o)
        → Returns (turns fuel (node d c l x r) up (pos 0) offset)
            (Moved (zip (node d c l x r) up) i offset) =
      λ far. (
        none,
        begin ∙ leave up fuel d c l x r i i o p g small (omega arith) refl far,
        inr (
          (λ target e.
              let same = diff_injective o p target i (sym (plus-minus offset) ∙ e) in
              omega (arith, far, same)),
          refl,
        ),
      ) in
    elim (dec_lt (i + o) p) [
      | yes low ↦ null (inl low)
      | no not_low ↦ elim (dec_lt (i + o - p) (size (zip (node d c l x r) up))) [
        | yes inside ↦
            let (result, run, found) =
              seek up fuel d c l x r i i o p (i + o - p) g small (omega arith) refl (omega arith)
                inside in
            (
              result,
              begin ∙ run,
              inl (
                i + o - p,
                plus-minus offset ∙ diff_equal o p (i + o - p) i (omega arith),
                inside,
                found,
              ),
            )
        | no high ↦ null (inr (omega arith))
      ]
    ]
