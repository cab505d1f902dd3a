-- ===== src/Zset/Range.antt =====
-- `zset::query` and `zset::offset` on a sorted set in order.
use coxx.Base.{
  ℕ, ◌<◌, ◌≡◌, refl, sym, ◌∙◌, Bool, true, false, Bool-cases, inl, inr, none, List, [], ◌∷◌, arith,
  All, length,
}
use coxx.Base.Bytes.{Bytes}
use coxx.Avl.Shape.{in_order}
use coxx.Zset.{ZNode, set_pair, less, less_node, Pairs, ZSet, query}
use coxx.Zset.Lex.{IsComparison, ArePairs, less_node-cotrans}
use coxx.Zset.Place.{Sorted}
use coxx.Zset.State.{IsZSet}
use coxx.Zset.Change.{set_pair_same, set_pair_other, set_pair-ArePairs}
use coxx.Zset.Query.{first, Rising, is_lower, query-first}

module _ (number : ℕ → Bool) (equals is_below : ℕ → ℕ → Bool)
    (law : IsComparison number equals is_below) (pairs : Pairs) (are : ArePairs number pairs.pair)
    (name : Bytes) (score : ℕ) (numeric : number score ≡ true) where
  -- The argument as a pair of its own.
  abbrev with_argument : ℕ → ZNode
  with_argument =
      set_pair pairs.pair pairs.next (record { score = score; len = length name; name = name })

  argument_lem :
      (x : ℕ)
      → x < pairs.next
      → less_node equals is_below with_argument x pairs.next
        ≡ is_lower equals is_below pairs.pair score name (length name) x
  unfolding less
  argument_lem x h =
      let z : ZNode = record { score = score; len = length name; name = name } in
      rw
        (
          set_pair_same pairs.pair pairs.next z,
          set_pair_other pairs.pair pairs.next z x λ same. omega (arith, h, same),
        )
        refl

  nodes_lem :
      (x y : ℕ)
      → x < pairs.next
      → y < pairs.next
      → less_node equals is_below with_argument x y ≡ less_node equals is_below pairs.pair x y
  unfolding less
  nodes_lem x y h k =
      let z : ZNode = record { score = score; len = length name; name = name } in
      rw
        (
          set_pair_other pairs.pair pairs.next z x λ same. omega (arith, h, same),
          set_pair_other pairs.pair pairs.next z y λ same. omega (arith, k, same),
        )
        refl

  -- What comes behind a pair that is not less than the argument is not less either.
  behind :
      (x y : ℕ)
      → x < pairs.next
      → y < pairs.next
      → less_node equals is_below pairs.pair y x ≡ false
      → is_lower equals is_below pairs.pair score name (length name) x ≡ false
      → is_lower equals is_below pairs.pair score name (length name) y ≡ false
  behind x y h k not_before not_lower =
      elim (Bool-cases (is_lower equals is_below pairs.pair score name (length name) y)) [
        | inl e ↦
            elim (less_node-cotrans number equals is_below law with_argument
              (set_pair-ArePairs number pairs.pair pairs.next
                (record { score = score; len = length name; name = name }) are numeric refl)
              y x pairs.next (argument_lem y k ∙ e)) [
                | inl e' ↦ clash not_before (sym (nodes_lem y x k h) ∙ e')
                | inr e' ↦ clash not_lower (sym (argument_lem x h) ∙ e')
              ]
        | inr e ↦ e
      ]
    where
      clash : {b c : Bool} → b ≡ false → b ≡ true → c ≡ false
      clash f t = cc

  Sorted-Rising :
      (xs : List ℕ)
      → All (λ (x : ℕ). x < pairs.next) xs
      → Sorted (less_node equals is_below pairs.pair) xs
      → Rising (is_lower equals is_below pairs.pair score name (length name)) xs
  Sorted-Rising [] owned s = tt
  Sorted-Rising (x ∷ xs) (h, owned) (low, s) =
      (λ e. all_behind e xs owned low, Sorted-Rising xs owned s)
    where
      all_behind :
          is_lower equals is_below pairs.pair score name (length name) x ≡ false
          → (ys : List ℕ) → All (λ (y : ℕ). y < pairs.next) ys
          → All (λ (y : ℕ). less_node equals is_below pairs.pair y x ≡ false) ys
          → All
              (λ (y : ℕ). is_lower equals is_below pairs.pair score name (length name) y ≡ false)
              ys
      all_behind e [] owned low = tt
      all_behind e (y ∷ ys) (k, owned) (l, low) = (behind x y h k l e, all_behind e ys owned low)

  -- On a sorted set in order `query` finds the first pair, in order, that is not less than the score
  -- and the name, and null when there is none.
  pub query_lem :
      (set : ZSet)
      → IsZSet equals is_below pairs.next pairs.pair set
      → query equals is_below pairs.pair set.tree score name (length name)
        ≡ first
            (is_lower equals is_below pairs.pair score name (length name))
            (in_order set.tree)
            none
  query_lem set g =
      query-first equals is_below pairs.pair score name (length name) set.tree
        (Sorted-Rising (in_order set.tree) g.owned g.sorted)
