-- ===== src/Zset/Delete.antt =====
-- A node that is found by its address, and taken out of the tree.
use coxx.Base.{
  ℕ, ◌<◌, ◌≡◌, refl, sym, ap, ◌∙◌, subst, false, Bool-cases, inl, inr, Option, none, some, List, [],
  ◌∷◌, ◌++◌, arith, ◌==◌,
}
use native.Mathlib.Decide.{dec_lt}
use coxx.Base.Bytes.{u32_mod}
use coxx.Base.Run.{need, ◌>>=◌, Returns}
use coxx.Avl.{Tree, leaf, node, from_left, from_right, Ancestors, plug, zip, count, del_avl}
use coxx.Avl.Shape.{in_order, size, IsAvl, IsAvl-count}
use coxx.Avl.Order.{occurrences, occurrences-append, Distinct}
use coxx.Avl.Edits.{IsAvl-zip, del_avl-in_order}
use coxx.Zset.{locate, delete}

-- The node at an address of the tree, with the way up from it in the same tree.
pub record Located (a : ℕ) (t : Tree) (up : Ancestors) : Type 0 where
  pub d : ℕ
  pub c : ℕ
  pub l : Tree
  pub r : Tree
  pub way : Ancestors
  pub found : locate a t up ≡ some (node d c l a r, way)
  pub same : zip (node d c l a r) way ≡ zip t up

locate-absent :
    (a : ℕ) (t : Tree) (up : Ancestors) → occurrences a (in_order t) ≡ 0 → locate a t up ≡ none
unfolding locate occurrences in_order
locate-absent a leaf up e = refl
locate-absent a (node d c l x r) up e =
    let sum = occurrences-append a (in_order l) (x ∷ in_order r) in
    let not_here : (x == a) ≡ false = ground (arith, sum, e) in
    rw
      (
        not_here,
        locate-absent a l (from_left d c x r ∷ up) (omega (arith, sum)),
        locate-absent a r (from_right d c l x ∷ up) (ground (arith, sum, e)),
      )
      refl

pub locate-Located :
    (a : ℕ) (t : Tree) (up : Ancestors) → 0 < occurrences a (in_order t) → Located a t up
unfolding locate occurrences in_order zip plug
locate-Located a leaf up h = absurd (omega arith)
locate-Located a (node d c l x r) up h =
    let sum = occurrences-append a (in_order l) (x ∷ in_order r) in
    elim (Bool-cases (x == a)) [
      | inl e ↦
          let same : x ≡ a = ground (arith, e) in
          record {
            d = d;
            c = c;
            l = l;
            r = r;
            way = up;
            found = rw e (ap (λ (y : ℕ). some (node d c l y r, up)) same);
            same = ap (λ (y : ℕ). zip (node d c l y r) up) (sym same);
          }
      | inr e ↦ elim (dec_lt 0 (occurrences a (in_order l))) [
        | yes left ↦
            let found = locate-Located a l (from_left d c x r ∷ up) left in
            record {
              d = found.d;
              c = found.c;
              l = found.l;
              r = found.r;
              way = found.way;
              found = rw (e, found.found) refl;
              same = found.same;
            }
        | no not_left ↦
            let found = locate-Located a r (from_right d c l x ∷ up) (ground (arith, sum, e)) in
            record {
              d = found.d;
              c = found.c;
              l = found.l;
              r = found.r;
              way = found.way;
              found =
                  rw (e, locate-absent a l (from_left d c x r ∷ up) (omega arith), found.found)
                    refl;
              same = found.same;
            }
      ]
    ]

-- The tree without the node.
pub record Deleted (a : ℕ) (t t' : Tree) : Type 0 where
  pub avl : IsAvl t'
  pub front : List ℕ
  pub back : List ℕ
  pub old : in_order t ≡ front ++ a ∷ back
  pub now : in_order t' ≡ front ++ back

pub delete-Deleted :
    (t : Tree) (a : ℕ)
    → IsAvl t
    → size t < u32_mod
    → Distinct (in_order t)
    → 0 < occurrences a (in_order t)
    → Returns (delete t a) (Deleted a t)
unfolding delete zip count
delete-Deleted t a g small distinct there =
    let v = locate-Located a t [] there in
    let whole = subst IsAvl (sym v.same) g in
    let here = (IsAvl-zip v.way (node v.d v.c v.l a v.r) whole).0 in
    let (t', run, (avl, xs, ys, old, now)) =
      del_avl-in_order v.d v.c v.l a v.r v.way whole
        (subst (λ (u : Tree). size u < u32_mod) (sym v.same) small)
        (subst (λ (u : Tree). Distinct (in_order u)) (sym v.same) distinct) in
    (
      t',
      ap
            (λ (o : Option (Tree × Ancestors)).
              need o >>= λ found. del_avl (count found.0) found.0 found.1)
            v.found
          ∙ (ap (λ (n : ℕ). del_avl n (node v.d v.c v.l a v.r) v.way)
                (IsAvl-count (node v.d v.c v.l a v.r) here)
              ∙ run),
      record { avl = avl; front = xs; back = ys; old = ap in_order (sym v.same) ∙ old; now = now },
    )
