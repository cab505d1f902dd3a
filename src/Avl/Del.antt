-- ===== src/Avl/Del.antt =====
-- `delAVL` takes one node out.
use coxx.Base.{
  ℕ, zero, suc, ◌<◌, ◌≤◌, ◌≡◌, refl, sym, ap, subst, ◌∙◌, List, [], ◌∷◌, ◌++◌, append_assoc,
  append-nil, arith,
}
use coxx.Base.Bytes.{u32_mod}
use coxx.Base.Run.{Run, ok, ◌>>=◌, Returns}
use coxx.Avl.{
  Tree, leaf, node, Frame, from_left, from_right, Ancestors, plug, zip, leftmost, replace, address,
  del_avl, max,
}
use coxx.Avl.Shape.{in_order, height, size, IsAvl}
use coxx.Avl.Joins.{max_bounds}
use coxx.Avl.Fix.{Fits, Close, fix_avl-plug}
use coxx.Avl.Order.{
  before, after, in_order-zip, occurrences, Distinct, occurrences-append, renamed, renamed-once,
  in_order-replace, replace-IsAvl,
}

plug-size_le : (f : Frame) (t u : Tree) → size t ≤ size u → size (plug f t) ≤ size (plug f u)
unfolding plug size
plug-size_le (from_left d c x r) t u e = omega arith
plug-size_le (from_right d c l x) t u e = omega arith

zip-size_le : (up : Ancestors) (t u : Tree) → size t ≤ size u → size (zip t up) ≤ size (zip u up)
unfolding zip
zip-size_le [] t u e = e
zip-size_le (f ∷ up) t u e = zip-size_le up (plug f t) (plug f u) (plug-size_le f t u e)

-- What `leftmost` finds below a node: the first node of the subtree, on the way to it.
record First (t : Tree) (up : Ancestors) : Type 0 where
  d : ℕ
  c : ℕ
  x : ℕ
  r : Tree
  way : Ancestors
  found : leftmost t up ≡ (node d c leaf x r, way)
  same : zip (node d c leaf x r) way ≡ zip t up
  avl : IsAvl (node d c leaf x r)
  fits : Fits (height (node d c leaf x r)) way
  smaller : size (node d c leaf x r) ≤ size t
  behind : before way ≡ before up
  ahead : in_order t ++ after up ≡ x ∷ (in_order r ++ after way)

leftmost-First :
    (d c : ℕ) (l : Tree) (x : ℕ) (r : Tree) (up : Ancestors)
    → IsAvl (node d c l x r)
    → Fits (height (node d c l x r)) up
    → First (node d c l x r) up
unfolding leftmost in_order before after zip plug size height
leftmost-First d c leaf x r up g fits = record {
  d = d;
  c = c;
  x = x;
  r = r;
  way = up;
  found = refl;
  same = refl;
  avl = g;
  fits = fits;
  smaller = omega arith;
  behind = refl;
  ahead = refl;
}
leftmost-First d c (node d' c' a y b) x r up (d_right, c_right, h, k, gl, gr) fits =
    let v = leftmost-First d' c' a y b (from_left d c x r ∷ up) gl (gr, h, k, fits) in
    record {
      d = v.d;
      c = v.c;
      x = v.x;
      r = v.r;
      way = v.way;
      found = v.found;
      same = v.same;
      avl = v.avl;
      fits = v.fits;
      smaller = omega (arith, v.smaller);
      behind = v.behind;
      ahead = append_assoc (in_order (node d' c' a y b)) (x ∷ in_order r) (after up) ∙ v.ahead;
    }

-- An AVL tree without the node between `l` and `r`.
pub record Removed (l r : Tree) (up : Ancestors) (t : Tree) : Type 0 where
  pub avl : IsAvl t
  pub order : in_order t ≡ before up ++ (in_order l ++ (in_order r ++ after up))

occurrences-here : (x : ℕ) (xs : List ℕ) → occurrences x (x ∷ xs) ≡ suc (occurrences x xs)
unfolding occurrences
occurrences-here x xs = ground arith

occurrences-tail : (x y : ℕ) (xs : List ℕ) → occurrences x xs ≤ occurrences x (y ∷ xs)
unfolding occurrences
occurrences-tail x y xs = omega arith

-- The successor `v` stands where `x` stood.
replaced_order :
    (x v : ℕ) (l r r' : Tree) (up way : Ancestors) (t : Tree)
    → occurrences x (before up ++ ((in_order l ++ x ∷ in_order r) ++ after up)) ≤ 1
    → before way ≡ before up ++ (in_order l ++ x ∷ [])
    → in_order r ++ after up ≡ v ∷ (in_order r' ++ after way)
    → in_order t ≡ before way ++ (in_order r' ++ after way)
    → in_order (replace x v t) ≡ before up ++ (in_order l ++ (in_order r ++ after up))
replaced_order x v l r r' up way t once behind ahead order =
    let rest = in_order r' ++ after way in
    let once_l = occurrences-append x (in_order l) (x ∷ in_order r) in
    let once_t = occurrences-append x (in_order l ++ x ∷ in_order r) (after up) in
    let once_whole =
      occurrences-append x (before up) ((in_order l ++ x ∷ in_order r) ++ after up) in
    let once_r = occurrences-append x (in_order r) (after up) in
    let once_rest = ap (occurrences x) ahead in
    let here = occurrences-here x (in_order r) in
    let there = occurrences-tail x v rest in
    in_order-replace x v t
    ∙ (ap (renamed x v) (order ∙ ap (λ (o : List ℕ). o ++ rest) behind)
        ∙ (renamed-once x v (before up) (in_order l) rest (omega arith) (omega arith) (omega arith)
            ∙ ap (λ (o : List ℕ). before up ++ (in_order l ++ o)) (sym ahead)))

lower : (h : ℕ) → Close h (suc (max h 0))
lower h = omega (arith, max_bounds h 0)

pub del_avl-Removed :
    (fuel d c : ℕ) (l : Tree) (x : ℕ) (r : Tree) (up : Ancestors)
    → size (node d c l x r) ≤ fuel
    → IsAvl (node d c l x r)
    → Fits (height (node d c l x r)) up
    → size (zip (node d c l x r) up) < u32_mod
    → Distinct (in_order (zip (node d c l x r) up))
    → Returns (del_avl fuel (node d c l x r) up) (Removed l r up)
unfolding del_avl size height before after in_order zip plug
del_avl-Removed zero d c l x r up enough g fits small distinct = absurd (omega arith)
del_avl-Removed (suc fuel) d c l x leaf [] enough g fits small distinct =
    (l, refl, record { avl = g.4; order = sym (append-nil (in_order l)) })
del_avl-Removed (suc fuel) d c l x leaf (f ∷ up) enough g fits small distinct =
    let (t, run, fixed) =
      fix_avl-plug f up (height (node d c l x leaf)) l g.4 (lower (height l)) fits
        (omega (arith, zip-size_le (f ∷ up) l (node d c l x leaf) (omega arith))) in
    (t, run, record { avl = fixed.avl; order = fixed.order ∙ in_order-zip (f ∷ up) l })
del_avl-Removed (suc fuel) d c l x (node d' c' a y b) up enough g fits small distinct =
    let v = leftmost-First d' c' a y b (from_right d c l x ∷ up) g.5 (g.4, g.3, g.2, fits) in
    let whole : Distinct (before up ++ (in_order (node d c l x (node d' c' a y b)) ++ after up)) =
      subst Distinct (in_order-zip up (node d c l x (node d' c' a y b))) distinct in
    let (t, run, removed) =
      del_avl-Removed fuel v.d v.c leaf v.x v.r v.way (omega (arith, v.smaller)) v.avl v.fits
        (subst (λ (t : Tree). size t < u32_mod) (sym v.same) small)
        (subst (λ (t : Tree). Distinct (in_order t)) (sym v.same) distinct) in
    (
      replace x v.x t,
      ap
            (λ (p : Tree × Ancestors).
              address p.0 >>= λ v. del_avl fuel p.0 p.1 >>= λ root. ok (replace x v root))
            v.found
          ∙ ap (λ (m : Run Tree). m >>= λ root. ok (replace x v.x root)) run,
      record {
        avl = replace-IsAvl x v.x t removed.avl;
        order =
            replaced_order x v.x l (node d' c' a y b) v.r up v.way t (whole x) v.behind v.ahead
              removed.order;
      },
    )
