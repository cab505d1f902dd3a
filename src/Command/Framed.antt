-- ===== src/Command/Framed.antt =====
-- A sorted set whose pairs stay as they are while others change.
use std.Path.{fun_ext}
use coxx.Base.{
  ℕ, ◌+◌, ◌<◌, ◌≤◌, ◌≡◌, refl, ap, ◌∙◌, Bool, true, false, not, Bool-cases, inl, inr, List, [], ◌∷◌,
  arith, ◌==◌, All,
}
use coxx.Base.Bytes.{Bytes}
use coxx.Map.{Node}
use coxx.Map.Slots.{to_nat}
use coxx.Map.Moved.{bag}
use coxx.Avl.Shape.{in_order}
use coxx.Avl.Order.{occurrences}
use coxx.Zset.{ZNode, Pairs, ZSet, string_hash}
use coxx.Zset.Tally.{tally-agree, bag-cover, All-map}
use coxx.Zset.State.{is_named, score_in, scores, IsZSet, tally-cases}
use coxx.Zset.Change.{is_named-same, Sorted-same}

All-of : (P : ℕ → Type 0) (xs : List ℕ) → ((x : ℕ) → 0 < occurrences x xs → P x) → All P xs
unfolding occurrences
All-of P [] h = tt
All-of P (x ∷ xs) h = (h x (ground arith), All-of P xs λ y there. h y (ground (arith, there)))

-- Other pairs change and those of the set do not.
module _ (equals is_below : ℕ → ℕ → Bool) (pairs pairs' : Pairs) (s : ZSet)
    (grows : pairs.next ≤ pairs'.next)
    (same : (p : ℕ) → 0 < occurrences p (in_order s.tree) → pairs'.pair p ≡ pairs.pair p) where
  untouched_pairs : All (λ (p : ℕ). pairs'.pair p ≡ pairs.pair p) (in_order s.tree)
  untouched_pairs = All-of (λ (p : ℕ). pairs'.pair p ≡ pairs.pair p) (in_order s.tree) same

  names_agree :
      (n : Bytes)
      → All (λ (p : ℕ). is_named pairs'.pair n p ≡ is_named pairs.pair n p) (in_order s.tree)
  names_agree n =
      All-map (λ (p : ℕ). pairs'.pair p ≡ pairs.pair p)
        (λ (p : ℕ). is_named pairs'.pair n p ≡ is_named pairs.pair n p) (in_order s.tree)
        (λ p e.
          is_named-same pairs.pair pairs'.pair n p (ap (λ (z : ZNode). z.len) e)
            (ap (λ (z : ZNode). z.name) e))
        untouched_pairs

  score_in_same :
      (xs : List ℕ) (n : Bytes)
      → All (λ (p : ℕ). pairs'.pair p ≡ pairs.pair p) xs
      → score_in pairs'.pair xs n ≡ score_in pairs.pair xs n
  unfolding score_in
  score_in_same [] n h = refl
  score_in_same (x ∷ xs) n (e, h) =
      rw
        (
          is_named-same pairs.pair pairs'.pair n x (ap (λ (z : ZNode). z.len) e)
              (ap (λ (z : ZNode). z.name) e),
          e,
          score_in_same xs n h,
        )
        refl

  pub scores_same : scores pairs'.pair s ≡ scores pairs.pair s
  scores_same = fun_ext λ n. score_in_same (in_order s.tree) n untouched_pairs

  -- No address of the map is missing in the tree.
  none_missing :
      IsZSet equals is_below pairs.next pairs.pair s
      → bag s.map (λ (n : Node ℕ). occurrences n.item (in_order s.tree) == 0) ≡ 0
  none_missing g =
      g.shared (λ (x : ℕ). occurrences x (in_order s.tree) == 0)
      ∙ elim (tally-cases (λ (x : ℕ). occurrences x (in_order s.tree) == 0) (in_order s.tree)) [
        | inl e ↦ e
        | inr (a, there, e) ↦ absurd (clash (occurrences a (in_order s.tree)) there e)
      ]
    where
      clash : (n : ℕ) → 0 < n → (n == 0) ≡ true → ⊥
      clash n h e = ground (arith, h, e)

  framed_codes :
      IsZSet equals is_below pairs.next pairs.pair s
      → bag s.map (λ (n : Node ℕ). not (n.code == string_hash (pairs'.pair n.item).name)) ≡ 0
  framed_codes g = omega (
    arith,
    g.codes,
    none_missing g,
    bag-cover (λ (n : Node ℕ). not (n.code == string_hash (pairs'.pair n.item).name))
        (λ (n : Node ℕ). not (n.code == string_hash (pairs.pair n.item).name))
        (λ (n : Node ℕ). occurrences n.item (in_order s.tree) == 0) cover s.map,
  )
    where
      to_nat_le : (b : Bool) → to_nat b ≤ 1
      to_nat_le true = omega arith
      to_nat_le false = omega arith

      there : (n : ℕ) → (n == 0) ≡ false → 0 < n
      there n e = ground (arith, e)

      cover :
          (n : Node ℕ)
          → to_nat (not (n.code == string_hash (pairs'.pair n.item).name))
            ≤ to_nat (not (n.code == string_hash (pairs.pair n.item).name))
              + to_nat (occurrences n.item (in_order s.tree) == 0)
      cover n = elim (Bool-cases (occurrences n.item (in_order s.tree) == 0)) [
        | inl e ↦
            omega (
              arith,
              ap to_nat e,
              to_nat_le (not (n.code == string_hash (pairs'.pair n.item).name)),
            )
        | inr e ↦ omega (
          arith,
          ap (λ (z : ZNode). to_nat (not (n.code == string_hash z.name)))
              (same n.item (there (occurrences n.item (in_order s.tree)) e)),
        )
      ]

  pub framed-IsZSet :
      IsZSet equals is_below pairs.next pairs.pair s
      → IsZSet equals is_below pairs'.next pairs'.pair s
  framed-IsZSet g = record {
    avl = g.avl;
    map = g.map;
    shared = g.shared;
    codes = framed_codes g;
    unique = λ n. omega (
      arith,
      g.unique n,
      tally-agree (is_named pairs'.pair n) (is_named pairs.pair n) (in_order s.tree)
          (names_agree n),
    );
    owned =
        All-map (λ (p : ℕ). p < pairs.next) (λ (p : ℕ). p < pairs'.next) (in_order s.tree)
          (λ p h. omega (arith, h, grows)) g.owned;
    sorted =
        Sorted-same equals is_below pairs.pair pairs'.pair (in_order s.tree) untouched_pairs
          g.sorted;
  }
