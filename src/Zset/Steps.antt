-- ===== src/Zset/Steps.antt =====
-- `zset::offset` in terms of the order of a sorted set.
use coxx.Base.{
  ℕ, zero, suc, ◌+◌, ◌<◌, ◌≤◌, ◌≡◌, refl, sym, ap, ◌∙◌, subst, ◌⊎◌, inl, inr, Option, none, some,
  List, [], ◌∷◌, ◌++◌, arith, length, get_elem?, append_assoc,
}
use coxx.Base.Bytes.{u32_mod}
use coxx.Base.Int.{ℤ, diff}
use coxx.Base.Run.{Run, ok, need, ◌>>=◌, Returns}
use coxx.Avl.{Tree, node, Ancestors, zip, offset_avl, address}
use coxx.Avl.Shape.{in_order, size, IsAvl, length-in_order}
use coxx.Avl.Order.{before, after, in_order-zip, occurrences, Distinct}
use coxx.Avl.Cursor.{offset_avl-Moved}
use coxx.Zset.{ZSet, offset}
use coxx.Zset.Delete.{locate-Located}

get_elem?-middle :
    (xs ys : List ℕ) (x : ℕ) (zs : List ℕ) (k : ℕ)
    → k ≡ length xs + length ys
    → get_elem? (xs ++ (ys ++ x ∷ zs)) k ≡ some x
get_elem?-middle [] [] x zs zero e = refl
get_elem?-middle [] [] x zs (suc k) e = absurd (omega (arith, e))
get_elem?-middle [] (y ∷ ys) x zs zero e = absurd (omega (arith, e))
get_elem?-middle [] (y ∷ ys) x zs (suc k) e = get_elem?-middle [] ys x zs k (omega (arith, e))
get_elem?-middle (y ∷ xs) ys x zs zero e = absurd (omega (arith, e))
get_elem?-middle (y ∷ xs) ys x zs (suc k) e = get_elem?-middle xs ys x zs k (omega (arith, e))

pub get_elem?-occurs : (xs : List ℕ) (i a : ℕ) → get_elem? xs i ≡ some a → 0 < occurrences a xs
unfolding occurrences
get_elem?-occurs [] i a e = cc
get_elem?-occurs (x ∷ xs) zero a e = let same : x ≡ a = cc in ground (arith, same)
get_elem?-occurs (x ∷ xs) (suc i) a e = ground (arith, get_elem?-occurs xs i a e)

-- No address stands in two places.
get_elem?-unique :
    (xs : List ℕ) (i j a : ℕ)
    → occurrences a xs ≤ 1
    → get_elem? xs i ≡ some a
    → get_elem? xs j ≡ some a
    → i ≡ j
unfolding occurrences
get_elem?-unique [] i j a d e e' = cc
get_elem?-unique (x ∷ xs) zero zero a d e e' = refl
get_elem?-unique (x ∷ xs) zero (suc j) a d e e' =
    let same : x ≡ a = cc in absurd (ground (arith, same, d, get_elem?-occurs xs j a e'))
get_elem?-unique (x ∷ xs) (suc i) zero a d e e' =
    let same : x ≡ a = cc in absurd (ground (arith, same, d, get_elem?-occurs xs i a e))
get_elem?-unique (x ∷ xs) (suc i) (suc j) a d e e' =
    ap suc (get_elem?-unique xs i j a (ground (arith, d)) e e')

-- The node of a rank, in the order of the whole tree.
rank-get_elem? :
    (d c : ℕ) (l : Tree) (x : ℕ) (r : Tree) (up : Ancestors)
    → get_elem? (in_order (zip (node d c l x r) up)) (length (before up) + size l) ≡ some x
unfolding in_order
rank-get_elem? d c l x r up =
    ap (λ (xs : List ℕ). get_elem? xs (length (before up) + size l))
      (in_order-zip up (node d c l x r)
        ∙ ap (λ (xs : List ℕ). before up ++ xs)
            (append_assoc (in_order l) (x ∷ in_order r) (after up)))
    ∙ get_elem?-middle (before up) (in_order l) x (in_order r ++ after up)
        (length (before up) + size l) (omega (arith, length-in_order l))

-- The pair that is `off` places from the one of rank `i`, if there is one.
abbrev pub Stepped : List ℕ → ℕ → ℤ → Option ℕ → Type 0
Stepped xs i off result =
    ((target : ℕ) × (off ≡ diff target i) × (result ≡ get_elem? xs target) × (target < length xs))
    ⊎ (((target : ℕ) → off ≡ diff target i → length xs ≤ target) × (result ≡ none))

-- What `offset` does with the result of `avl::offset`.
abbrev stepped : Option (Tree × Ancestors) → Run (Option ℕ)
stepped none = ok none
stepped (some cursor) = address cursor.0 >>= λ b. ok (some b)

-- `offset` from the pair of rank `i` ends at the pair that is `off` places further, when there is one,
-- and with null otherwise.
pub offset-Stepped :
    (s : ZSet) (i p : ℕ) (off : ℤ)
    → IsAvl s.tree
    → size s.tree < u32_mod
    → Distinct (in_order s.tree)
    → get_elem? (in_order s.tree) i ≡ some p
    → Returns (offset s (some p) off) (Stepped (in_order s.tree) i off)
unfolding offset zip
offset-Stepped s i p off g small distinct at =
    let v = locate-Located p s.tree [] (get_elem?-occurs (in_order s.tree) i p at) in
    let whole : zip (node v.d v.c v.l p v.r) v.way ≡ s.tree = v.same in
    let rank : length (before v.way) + size v.l ≡ i =
      get_elem?-unique (in_order s.tree) (length (before v.way) + size v.l) i p (distinct p)
        (ap (λ (t : Tree). get_elem? (in_order t) (length (before v.way) + size v.l)) (sym whole)
          ∙ rank-get_elem? v.d v.c v.l p v.r v.way)
        at in
    let (to, run, moved) =
      offset_avl-Moved v.d v.c v.l p v.r v.way off (subst IsAvl (sym whole) g)
        (subst (λ (t : Tree). size t < u32_mod) (sym whole) small) in
    let found_at =
      ap
        (λ (o : Option (Tree × Ancestors)).
          need o >>= λ from. offset_avl from.0 from.1 off >>= stepped)
        v.found in
    elim moved [
      | inl (target, e, inside, f) ↦ (
        some f.x,
        found_at
            ∙ (ap (λ (o : Run (Option (Tree × Ancestors))). o >>= stepped) (run ∙ ap ok f.here)),
        inl (
          target,
          e ∙ ap (diff target) rank,
          sym (
              ap (λ (t : Tree). get_elem? (in_order t) target) (sym (f.same ∙ whole))
              ∙ (ap (λ (n : ℕ). get_elem? (in_order (zip (node f.d f.c f.l f.x f.r) f.way)) n)
                    (sym f.rank)
                  ∙ rank-get_elem? f.d f.c f.l f.x f.r f.way)),
          omega (arith, inside, ap (λ (t : Tree). size t) whole, length-in_order s.tree),
        ),
      )
      | inr (far, null) ↦ (
        none,
        found_at ∙ (ap (λ (o : Run (Option (Tree × Ancestors))). o >>= stepped) (run ∙ ap ok null)),
        inr (
          (λ target e. omega (
            arith,
            far target (e ∙ ap (diff target) (sym rank)),
            ap (λ (t : Tree). size t) whole,
            length-in_order s.tree,
          )),
          refl,
        ),
      )
    ]
