-- ===== src/Avl/Order.antt =====
-- The nodes before and after a subtree, how often an address occurs, and the address that `delAVL`
-- puts in the place of another.
use coxx.Base.{
  append-nil, ℕ, ◌+◌, ◌≤◌, ◌≡◌, refl, sym, ap, ◌∙◌, List, [], ◌∷◌, ◌++◌, append_assoc, arith, ◌==◌,
  if◌then◌else◌,
}
use coxx.Avl.{Tree, leaf, node, from_left, from_right, Ancestors, plug, zip, replace}
use coxx.Avl.Shape.{in_order, height, size, IsAvl}

-- The addresses of the nodes that come before, and after, every node of the subtree.
unfoldable pub before : Ancestors → List ℕ
before [] = []
before (from_left d c x r ∷ up) = before up
before (from_right d c l x ∷ up) = before up ++ (in_order l ++ x ∷ [])

unfoldable pub after : Ancestors → List ℕ
after [] = []
after (from_left d c x r ∷ up) = x ∷ (in_order r ++ after up)
after (from_right d c l x ∷ up) = after up

pub in_order-zip :
    (up : Ancestors) (t : Tree) → in_order (zip t up) ≡ before up ++ (in_order t ++ after up)
unfolding zip before after plug in_order
in_order-zip [] t = sym (append-nil (in_order t))
in_order-zip (from_left d c x r ∷ up) t =
    in_order-zip up (node d c t x r)
    ∙ ap (λ (o : List ℕ). before up ++ o) (append_assoc (in_order t) (x ∷ in_order r) (after up))
in_order-zip (from_right d c l x ∷ up) t =
    in_order-zip up (node d c l x t)
    ∙ (ap (λ (o : List ℕ). before up ++ o) (append_assoc (in_order l) (x ∷ in_order t) (after up))
        ∙ sym (
            append_assoc (before up) (in_order l ++ x ∷ []) (in_order t ++ after up)
            ∙ ap (λ (o : List ℕ). before up ++ o)
                (append_assoc (in_order l) (x ∷ []) (in_order t ++ after up))))

-- How often an address occurs.
unfoldable pub occurrences : ℕ → List ℕ → ℕ
occurrences x [] = 0
occurrences x (y ∷ ys) = (if y == x then 1 else 0) + occurrences x ys

abbrev pub Distinct : List ℕ → Type 0
Distinct xs = (x : ℕ) → occurrences x xs ≤ 1

pub occurrences-append :
    (x : ℕ) (xs ys : List ℕ) → occurrences x (xs ++ ys) ≡ occurrences x xs + occurrences x ys
unfolding occurrences
occurrences-append x [] ys = omega arith
occurrences-append x (y ∷ xs) ys = omega (arith, occurrences-append x xs ys)

-- The addresses with `v` for `x`.
unfoldable pub renamed : ℕ → ℕ → List ℕ → List ℕ
renamed x v [] = []
renamed x v (y ∷ ys) = (if y == x then v else y) ∷ renamed x v ys

pub renamed-append :
    (x v : ℕ) (xs ys : List ℕ) → renamed x v (xs ++ ys) ≡ renamed x v xs ++ renamed x v ys
unfolding renamed
renamed-append x v [] ys = refl
renamed-append x v (y ∷ xs) ys =
    ap (λ (o : List ℕ). (if y == x then v else y) ∷ o) (renamed-append x v xs ys)

pub renamed-absent : (x v : ℕ) (xs : List ℕ) → occurrences x xs ≡ 0 → renamed x v xs ≡ xs
unfolding renamed occurrences
renamed-absent x v [] e = refl
renamed-absent x v (y ∷ xs) e =
    rw (renamed-absent x v xs (ground arith)) (ap (λ (a : ℕ). a ∷ xs) (ground arith))

pub in_order-replace : (x v : ℕ) (t : Tree) → in_order (replace x v t) ≡ renamed x v (in_order t)
unfolding in_order replace renamed
in_order-replace x v leaf = refl
in_order-replace x v (node d c l y r) =
    rw
      (
        in_order-replace x v l,
        in_order-replace x v r,
        renamed-append x v (in_order l) (y ∷ in_order r),
      )
      refl

pub height-replace : (x v : ℕ) (t : Tree) → height (replace x v t) ≡ height t
unfolding height replace
height-replace x v leaf = refl
height-replace x v (node d c l y r) = rw (height-replace x v l, height-replace x v r) refl

pub size-replace : (x v : ℕ) (t : Tree) → size (replace x v t) ≡ size t
unfolding size replace
size-replace x v leaf = refl
size-replace x v (node d c l y r) = rw (size-replace x v l, size-replace x v r) refl

pub replace-IsAvl : (x v : ℕ) (t : Tree) → IsAvl t → IsAvl (replace x v t)
unfolding replace
replace-IsAvl x v leaf g = g
replace-IsAvl x v (node d c l y r) (d_right, c_right, h, k, gl, gr) =
    rw (height-replace x v l, height-replace x v r, size-replace x v l, size-replace x v r)
      (d_right, c_right, h, k, replace-IsAvl x v l gl, replace-IsAvl x v r gr)

renamed_self : (x v : ℕ) → renamed x v (x ∷ []) ≡ v ∷ []
unfolding renamed
renamed_self x v = ap (λ (a : ℕ). a ∷ []) (ground arith)

-- One occurrence of `x`, with nothing like it around, becomes one of `v`.
pub renamed-once :
    (x v : ℕ) (xs ys zs : List ℕ)
    → occurrences x xs ≡ 0
    → occurrences x ys ≡ 0
    → occurrences x zs ≡ 0
    → renamed x v ((xs ++ (ys ++ x ∷ [])) ++ zs) ≡ xs ++ (ys ++ v ∷ zs)
renamed-once x v xs ys zs e f g =
    renamed-append x v (xs ++ (ys ++ x ∷ [])) zs
    ∙ rw (
      renamed-append x v xs (ys ++ x ∷ []),
      renamed-append x v ys (x ∷ []),
      renamed-absent x v xs e,
      renamed-absent x v ys f,
      renamed-absent x v zs g,
      renamed_self x v,
      append_assoc xs (ys ++ v ∷ []) zs,
      append_assoc ys (v ∷ []) zs,
    )
