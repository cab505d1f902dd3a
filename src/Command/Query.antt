-- ===== src/Command/Query.antt =====
-- `zquery`
use coxx.Base.{
  ℕ, zero, suc, ◌+◌, ◌-◌, ◌%◌, ◌<◌, ◌≤◌, ◌≡◌, refl, sym, ap, ◌∙◌, Bool, true, false, inl, inr,
  Bool-cases, Option, Option-cases, none, some, List, [], ◌∷◌, arith, get_elem?, get_elem?-lt,
  length, drop, ltb, leb,
}
use coxx.Base.Bytes.{Bytes, u32_mod, u64_mod}
use coxx.Base.Int.{ℤ, pos, ltz, diff, plus, minus, plus-minus, diff-pos, diff_injective, diff_equal}
use coxx.Base.Run.{ok, ◌>>=◌, Returns}
use coxx.Avl.{count}
use coxx.Avl.Shape.{in_order, size, IsAvl, IsAvl-count, length-in_order}
use coxx.Avl.Order.{Distinct}
use coxx.Zset.{Pairs, ZSet, query, offset}
use coxx.Zset.Lex.{IsComparison, ArePairs}
use coxx.Zset.State.{IsZSet, IsZSet-Distinct}
use coxx.Zset.Query.{is_lower}
use coxx.Zset.Range.{query_lem}
use coxx.Zset.Steps.{offset-Stepped}
use coxx.Serialize
use coxx.Serialize.Value
use coxx.Serialize.Value.{Value, Values, empty, item, emit, emit_all, AreSized}
use coxx.Serialize.Arrays.{end_arr-begin_arr}
use coxx.Command.Dispatch.{list_pairs, zquery_set}
use coxx.Command.Ranges.{
  wanted, values, rank_of, listed, get_elem?-first, drop-some, drop_end, get_elem?-none,
}

module _ (pairs : Pairs) (s : ZSet) (g : IsAvl s.tree) (small : size s.tree < u32_mod)
    (distinct : Distinct (in_order s.tree)) where
  abbrev xs : List ℕ
  xs = in_order s.tree

  -- One place further is the next pair.
  next_lem :
      (i p : ℕ) → get_elem? xs i ≡ some p → offset s (some p) (pos 1) ≡ ok (get_elem? xs (suc i))
  next_lem i p at =
      let (to, run, stepped) = offset-Stepped s i p (pos 1) g small distinct at in
      let one : pos 1 ≡ diff 1 0 = sym (diff-pos 1 0 1 (omega arith)) in
      run ∙ elim stepped [
        | inl (target, e, here, inside) ↦
            let next : target ≡ suc i = omega (arith, diff_injective 1 0 target i (sym one ∙ e)) in
            ap ok (here ∙ ap (get_elem? xs) next)
        | inr (far, null) ↦
            let over = far (suc i) (one ∙ diff_equal 1 0 (suc i) i (omega arith)) in
            ap ok (null ∙ sym (drop_end xs (suc i) over).1)
      ]

  -- The loop writes the wanted pairs, with one unit of fuel more than there are pairs left.
  list_pairs_lem :
      (limit : ℤ) (fuel i n : ℕ) (out : Bytes)
      → 0 < fuel
      → length xs < i + fuel
      → n + (length xs + length xs) < u32_mod + (i + i)
      → list_pairs fuel pairs s (get_elem? xs i) limit out n
        ≡ ok (
          emit_all out (values pairs (wanted limit n (drop i xs))),
          n + Value.count (values pairs (wanted limit n (drop i xs))),
        )
  unfolding list_pairs wanted values emit_all emit
  list_pairs_lem limit zero i n out more enough narrow = absurd (omega arith)
  list_pairs_lem limit (suc fuel) i n out more enough narrow =
      elim (Option-cases (get_elem? xs i)) [
        | inl end ↦
            rw (end, (drop_end xs i (get_elem?-none xs i end)).0)
              (ap (λ (k : ℕ). ok (out, k)) (omega arith))
        | inr (p, at) ↦
            let inside : i < length xs = get_elem?-lt xs i at in
            let wrap : (n + 2) % u32_mod ≡ n + 2 = omega arith in
            let next : Bytes =
              Serialize.dbl (Serialize.str out (pairs.pair p).name) (pairs.pair p).score in
            let vs : Values = values pairs (wanted limit (n + 2) (drop (suc i) xs)) in
            let rest =
              list_pairs_lem limit fuel (suc i) (n + 2) next (omega arith) (omega arith)
                (omega arith) in
            let counts : (n + 2) + Value.count vs ≡ n + suc (suc (Value.count vs)) = omega arith in
            elim (Bool-cases (ltz (pos n) limit)) [
              | inl below ↦
                  rw (at, drop-some xs i p at, below, next_lem i p at, ◌>>=◌, wrap)
                    (rest ∙ ap (λ (k : ℕ). ok (emit_all next vs, k)) counts)
              | inr reached ↦
                  rw (at, drop-some xs i p at, reached) (ap (λ (k : ℕ). ok (out, k)) (omega arith))
            ]
      ]

  -- Where `offset` leads from the pair that `query` found.
  start_lem :
      (off : ℤ) (j : ℕ)
      → Returns
          (offset s (get_elem? xs j) off)
          λ to. (k : ℕ) × (to ≡ get_elem? xs k) × (listed xs j off ≡ drop k xs)
  unfolding offset listed
  start_lem off j = elim (Option-cases (get_elem? xs j)) [
    | inl end ↦
        let test : ltb j (length xs) ≡ false = outside (get_elem?-none xs j end) in
        (none, rw end refl, (length xs, sym (at_end xs).1, rw test (sym (at_end xs).0)))
    | inr (p, at) ↦
        let test : ltb j (length xs) ≡ true = within (get_elem?-lt xs j at) in
        let (to, run, stepped) = offset-Stepped s j p off g small distinct at in
        let moved = ap (λ (o : Option ℕ). offset s o off) at ∙ run in
        elim stepped [
          | inl (target, e, here, inside) ↦
              let place =
                diff_injective (plus off) (minus off) target j (sym (plus-minus off) ∙ e) in
              let reach : leb (minus off) (j + plus off) ≡ true = reached target place in
              (
                to,
                moved,
                (target, here, rw (test, reach) (ap (λ (n : ℕ). drop n xs) (omega (arith, place)))),
              )
          | inr (far, null) ↦ elim (Bool-cases (leb (minus off) (j + plus off))) [
            | inl reach ↦
                let k = j + plus off - minus off in
                let e : off ≡ diff k j =
                  plus-minus off
                  ∙ diff_equal (plus off) (minus off) k j (omega (arith, not_less reach)) in
                (to, moved, (k, null ∙ sym (drop_end xs k (far k e)).1, rw (test, reach) refl))
            | inr short ↦ (
              to,
              moved,
              (length xs, null ∙ sym (at_end xs).1, rw (test, short) (sym (at_end xs).0)),
            )
          ]
        ]
  ]
    where
      at_end : (ys : List ℕ) → (drop (length ys) ys ≡ []) × (get_elem? ys (length ys) ≡ none)
      at_end ys = drop_end ys (length ys) (omega arith)

      outside : {n : ℕ} → n ≤ j → ltb j n ≡ false
      outside h = ground (arith, h)

      within : {n : ℕ} → j < n → ltb j n ≡ true
      within h = ground (arith, h)

      reached :
          (target : ℕ) → plus off + j ≡ target + minus off → leb (minus off) (j + plus off) ≡ true
      reached target h = ground (arith, h)

      not_less : leb (minus off) (j + plus off) ≡ true → minus off ≤ j + plus off
      not_less h = ground (arith, h)

length-wanted : (limit : ℤ) (n : ℕ) (xs : List ℕ) → length (wanted limit n xs) ≤ length xs
unfolding wanted
length-wanted limit n [] = omega arith
length-wanted limit n (x ∷ xs) = elim (Bool-cases (ltz (pos n) limit)) [
  | inl e ↦ rw e (omega (arith, length-wanted limit (n + 2) xs))
  | inr e ↦ rw e (omega arith)
]

-- Names and scores fit their words.
abbrev pub AllSized : Pairs → Type 0
AllSized pairs = (p : ℕ) → (length (pairs.pair p).name < u32_mod) × ((pairs.pair p).score < u64_mod)

values-AreSized : (pairs : Pairs) → AllSized pairs → (ps : List ℕ) → AreSized (values pairs ps)
unfolding values
values-AreSized pairs sized [] = tt
values-AreSized pairs sized (p ∷ ps) = ((sized p).0, ((sized p).1, values-AreSized pairs sized ps))

module _ (equals is_below : ℕ → ℕ → Bool) (pairs : Pairs) (s : ZSet) where
  -- The reply to a range: the pairs from the one that is `off` places behind the first one that is not
  -- less, as long as the count of elements before it is below the limit.
  abbrev pub range_reply : ℕ → Bytes → ℤ → ℤ → Value
  range_reply score name off limit = Value.arr (
      values pairs (
        wanted limit 0 (
          listed (in_order s.tree)
            (rank_of (is_lower equals is_below pairs.pair score name (length name))
              (in_order s.tree))
            off)))

module _ (number : ℕ → Bool) (equals is_below : ℕ → ℕ → Bool)
    (law : IsComparison number equals is_below) (strtod : Bytes → ℕ × ℕ) (strtol : Bytes → ℤ × ℕ)
    (pairs : Pairs) (are : ArePairs number pairs.pair) (sized : AllSized pairs) (s : ZSet)
    (v : IsZSet equals is_below pairs.next pairs.pair s)
    (small : size s.tree + size s.tree < u32_mod) where
  pub zquery_set-range :
      (score : ℕ) (name : Bytes) (off limit : ℤ) (output : Bytes)
      → number score ≡ true
      → zquery_set strtod strtol number equals is_below pairs s score name off limit output
        ≡ ok (emit output (range_reply equals is_below pairs s score name off limit))
  unfolding zquery_set emit
  zquery_set-range score name off limit output numeric =
      let xs = in_order s.tree in
      let f = is_lower equals is_below pairs.pair score name (length name) in
      let distinct = IsZSet-Distinct equals is_below pairs.next pairs.pair are.lengths s v in
      let found : query equals is_below pairs.pair s.tree score name (length name)
          ≡ get_elem? xs (rank_of f xs) =
        query_lem number equals is_below law pairs are name score numeric s v
        ∙ get_elem?-first f xs in
      let (to, run, (k, at, rest)) =
        start_lem pairs s v.avl (omega arith) distinct off (rank_of f xs) in
      let enough : suc (count s.tree) ≡ suc (length xs) =
        omega (arith, IsAvl-count s.tree v.avl, length-in_order s.tree) in
      let looped =
        list_pairs_lem pairs s v.avl (omega arith) distinct limit (suc (length xs)) k 0
          (Serialize.begin_arr output).0 (omega arith) (omega arith)
          (omega (arith, length-in_order s.tree)) in
      let vs = values pairs (wanted limit 0 (drop k xs)) in
      let closed =
        end_arr-begin_arr output vs (0 + Value.count vs)
          (values-AreSized pairs sized (wanted limit 0 (drop k xs))) in
      let zero_plus : 0 + Value.count vs ≡ Value.count vs = omega arith in
      rw (found, run, ◌>>=◌, at, enough, looped, ◌>>=◌, closed)
        (ap (λ (n : ℕ). ok (emit_all (Serialize.arr output n) vs)) zero_plus
          ∙ ap (λ (zs : List ℕ). ok (emit output (Value.arr (values pairs (wanted limit 0 zs)))))
              (sym rest))
