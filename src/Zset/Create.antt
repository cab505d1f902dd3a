-- ===== src/Zset/Create.antt =====
-- `zset::add` of a pair that is not there: the pair that `create` makes, in the tree and in the map.
use coxx.Base.{
  ℕ, suc, ◌+◌, ◌<◌, ◌≤◌, ◌≡◌, refl, sym, ap, ◌∙◌, subst, Bool, true, false, not, Bool-cases, inl,
  inr, some, ◌∷◌, ◌++◌, arith, All, All-append, length, take-length, ◌==◌,
}
use coxx.Base.Bytes.{Bytes, u32_mod, slice, slice_lem}
use coxx.Base.Run.{ok, ◌>>=◌, Returns}
use coxx.Map.{Node, Map}
use coxx.Map.Slots.{to_nat}
use coxx.Map.Moved.{bag, IsMap}
use coxx.Map.Insert.{c_map_insert_lem}
use coxx.Avl.{Tree}
use coxx.Avl.Shape.{in_order, size, length-in_order}
use coxx.Avl.Order.{occurrences}
use coxx.Zset.{ZNode, string_hash, Pairs, set_pair, ZSet, create, less_node, add_new}
use coxx.Zset.Lex.{IsComparison, ArePairs, less_node-asym, less_node-cotrans}
use coxx.Zset.Place.{Sorted, Inserted, tree_add-Inserted}
use coxx.Zset.Tally.{
  tally, tally-agree, tally-occurrences, tally-any, bag-cover, All-split, All-map,
}
use coxx.Zset.State.{is_named, is_named_refl, is_named-other, IsZSet, IsZSet-size}
use coxx.Zset.Update.{Stored}
use coxx.Zset.Swap.{below-absent, tally-insert}
use coxx.Zset.Change.{
  set_pair_same, set_pair_other, set_pair-ArePairs, is_named-same, Sorted-same, Changed,
  score_of_changed, score_of_others,
}

equal_to_itself : (a : ℕ) → to_nat (not (a == a)) ≡ 0
equal_to_itself a = ground arith

to_nat_le : (b : Bool) → to_nat b ≤ 1
to_nat_le true = omega arith
to_nat_le false = omega arith

-- The pair that `create` writes at the next free address.
module _ (number : ℕ → Bool) (equals is_below : ℕ → ℕ → Bool)
    (law : IsComparison number equals is_below) (pairs : Pairs) (are : ArePairs number pairs.pair)
    (set : ZSet) (g : IsZSet equals is_below pairs.next pairs.pair set) (name : Bytes) (score : ℕ)
    (numeric : number score ≡ true) (room : suc (size set.tree) < u32_mod) where
  abbrev fresh : ZNode
  fresh = record { score = score; len = length name; name = name }

  abbrev created : ℕ → ZNode
  created = set_pair pairs.pair pairs.next fresh

  create_lem :
      create pairs name (length name) score
      ≡ ok (record { next = suc pairs.next; pair = created }, pairs.next)
  unfolding create
  create_lem =
      let copy : slice name 0 (length name) ≡ some name =
        slice_lem name 0 (length name) (omega arith) ∙ ap some (take-length name) in
      rw copy refl

  created-ArePairs : ArePairs number created
  created-ArePairs = set_pair-ArePairs number pairs.pair pairs.next fresh are numeric refl

  still_there : All (λ (x : ℕ). created x ≡ pairs.pair x) (in_order set.tree)
  still_there =
      All-map (λ (x : ℕ). x < pairs.next) (λ (x : ℕ). created x ≡ pairs.pair x) (in_order set.tree)
        (λ x h. set_pair_other pairs.pair pairs.next fresh x λ same. omega (arith, h, same)) g.owned

  created-Sorted : Sorted (less_node equals is_below created) (in_order set.tree)
  created-Sorted =
      Sorted-same equals is_below pairs.pair created (in_order set.tree) still_there g.sorted

  same_names :
      (n : Bytes)
      → All (λ (b : ℕ). is_named created n b ≡ is_named pairs.pair n b) (in_order set.tree)
  same_names n =
      All-map (λ (x : ℕ). created x ≡ pairs.pair x)
        (λ (b : ℕ). is_named created n b ≡ is_named pairs.pair n b) (in_order set.tree)
        (λ b e.
          is_named-same pairs.pair created n b (ap (λ (z : ZNode). z.len) e)
            (ap (λ (z : ZNode). z.name) e))
        still_there

  created_named : is_named created name pairs.next ≡ true
  created_named =
      ap (λ (n : Bytes). is_named created n pairs.next)
        (sym (ap (λ (z : ZNode). z.name) (set_pair_same pairs.pair pairs.next fresh)))
      ∙ is_named_refl created created-ArePairs.lengths pairs.next

  module _ (missed : tally (is_named pairs.pair name) (in_order set.tree) ≡ 0) (m : Map ℕ)
      (v : IsMap m)
      (more : (p : Node ℕ → Bool)
        → bag m p
          ≡ bag set.map p + to_nat (p (record { code = string_hash name; item = pairs.next })))
      (t' : Tree) (i : Inserted equals is_below created pairs.next set.tree t') where
    one_more :
        (q : ℕ → Bool) → tally q (in_order t') ≡ tally q (in_order set.tree) + to_nat (q pairs.next)
    one_more q =
        omega
          (arith, ap (tally q) i.old, ap (tally q) i.now, tally-insert q i.front pairs.next i.back)

    occurrences_now :
        (b : ℕ)
        → occurrences b (in_order t') ≡ occurrences b (in_order set.tree) + to_nat (pairs.next == b)
    occurrences_now b = omega (
      arith,
      one_more (λ (x : ℕ). x == b),
      tally-occurrences b (in_order t'),
      tally-occurrences b (in_order set.tree),
    )

    created_unique : (n : Bytes) → tally (is_named created n) (in_order t') ≤ 1
    created_unique n = elim (Bool-cases (is_named created n pairs.next)) [
      | inl e ↦
          let same =
            is_named-other created created-ArePairs.lengths n name pairs.next e created_named in
          omega (
            arith,
            one_more (is_named created n),
            ap to_nat e,
            tally-agree (is_named created n) (is_named pairs.pair n) (in_order set.tree)
                (same_names n),
            ap (λ (x : Bytes). tally (is_named pairs.pair x) (in_order set.tree)) same,
            missed,
          )
      | inr e ↦ omega (
        arith,
        one_more (is_named created n),
        ap to_nat e,
        tally-agree (is_named created n) (is_named pairs.pair n) (in_order set.tree) (same_names n),
        g.unique n,
      )
    ]

    self : (pairs.next == pairs.next) ≡ true
    self = ground arith

    occurs : occurrences pairs.next (in_order t') ≡ suc (occurrences pairs.next (in_order set.tree))
    occurs = omega (arith, occurrences_now pairs.next, ap to_nat self)

    created-Changed : Changed pairs.pair created pairs.next name (in_order set.tree) (in_order t')
    created-Changed = record {
      lengths = created-ArePairs.lengths;
      kept = λ b n. set_pair_other pairs.pair pairs.next fresh b n;
      agree = same_names;
      named = created_named;
      there = omega (arith, occurs);
      at_least = λ q. omega (arith, one_more q);
      at_most = λ q. omega (arith, one_more q);
      unique = created_unique;
    }

    created_codes : bag m (λ (n : Node ℕ). not (n.code == string_hash (created n.item).name)) ≡ 0
    created_codes = omega (
      arith,
      more (λ (n : Node ℕ). not (n.code == string_hash (created n.item).name)),
      new_code,
      bag-cover (λ (n : Node ℕ). not (n.code == string_hash (created n.item).name))
          (λ (n : Node ℕ). not (n.code == string_hash (pairs.pair n.item).name))
          (λ (n : Node ℕ). n.item == pairs.next) cover set.map,
      g.codes,
      g.shared (λ (x : ℕ). x == pairs.next),
      tally-occurrences pairs.next (in_order set.tree),
      below-absent pairs.next (in_order set.tree) g.owned,
    )
      where
        new_code : to_nat (not (string_hash name == string_hash (created pairs.next).name)) ≡ 0
        new_code =
            ap (λ (z : ZNode). to_nat (not (string_hash name == string_hash z.name)))
              (set_pair_same pairs.pair pairs.next fresh)
            ∙ equal_to_itself (string_hash name)

        cover :
            (n : Node ℕ)
            → to_nat (not (n.code == string_hash (created n.item).name))
              ≤ to_nat (not (n.code == string_hash (pairs.pair n.item).name))
                + to_nat (n.item == pairs.next)
        cover n = elim (Bool-cases (n.item == pairs.next)) [
          | inl e ↦
              omega
                (arith, ap to_nat e, to_nat_le (not (n.code == string_hash (created n.item).name)))
          | inr e ↦ omega (
            arith,
            ap (λ (z : ZNode). to_nat (not (n.code == string_hash z.name)))
                (set_pair_other pairs.pair pairs.next fresh n.item (ground (arith, e))),
          )
        ]

    other_address : {b : ℕ} → b < pairs.next → (pairs.next == b) ≡ false
    other_address h = ground (arith, h)

    owned_now :
        All (λ (x : ℕ). x < suc pairs.next) i.front × All (λ (x : ℕ). x < suc pairs.next) i.back
        → All (λ (x : ℕ). x < suc pairs.next) (i.front ++ pairs.next ∷ i.back)
    owned_now (low, high) =
        All-append (λ (x : ℕ). x < suc pairs.next) i.front (pairs.next ∷ i.back) low
          (omega arith, high)

    created-IsZSet : IsZSet equals is_below (suc pairs.next) created (record { tree = t'; map = m })
    created-IsZSet = record {
      avl = i.avl;
      map = v;
      shared = λ q. omega (arith, more (λ (n : Node ℕ). q n.item), g.shared q, one_more q);
      codes = created_codes;
      unique = created_unique;
      owned = subst (All (λ (x : ℕ). x < suc pairs.next)) (sym i.now) (
          owned_now (
            All-split (λ (x : ℕ). x < suc pairs.next) i.front i.back
              (subst (All (λ (x : ℕ). x < suc pairs.next)) i.old (
                All-map (λ (x : ℕ). x < pairs.next) (λ (x : ℕ). x < suc pairs.next)
                  (in_order set.tree) (λ x h. omega (arith, h)) g.owned))));
      sorted = i.sorted;
    }

    created-Stored :
        Stored number equals is_below pairs set name score
          (record { next = suc pairs.next; pair = created })
          (record { tree = t'; map = m })
    created-Stored = record {
      zset = created-IsZSet;
      are_pairs = created-ArePairs;
      stored = inl (
          score_of_changed pairs.pair created pairs.next name (in_order set.tree) (in_order t')
            created-Changed
          ∙ ap (λ (z : ZNode). some z.score) (set_pair_same pairs.pair pairs.next fresh));
      others =
          score_of_others pairs.pair created pairs.next name (in_order set.tree) (in_order t')
            created-Changed g.unique;
      grows = omega arith;
      framed =
          λ b h absent. set_pair_other pairs.pair pairs.next fresh b λ same. omega (arith, h, same);
      within = λ b h. omega (arith, occurrences_now b, ap to_nat (other_address h));
      room = omega (
        arith,
        one_more (λ x. true),
        tally-any (in_order t'),
        tally-any (in_order set.tree),
        length-in_order t',
        length-in_order set.tree,
      );
    }

  pub add_new-Stored :
      tally (is_named pairs.pair name) (in_order set.tree) ≡ 0
      → Returns
          (add_new equals is_below pairs set name (length name) score)
          λ r. Stored number equals is_below pairs set name score r.0 r.1
  unfolding add_new
  add_new-Stored missed =
      let (m, run, (v, more)) =
        c_map_insert_lem set.map g.map (record { code = string_hash name; item = pairs.next })
          (omega (arith, IsZSet-size equals is_below pairs.next pairs.pair are.lengths set g)) in
      let (t', run', i) =
        tree_add-Inserted equals is_below created
          (less_node-asym number equals is_below law created created-ArePairs)
          (less_node-cotrans number equals is_below law created created-ArePairs) pairs.next
          set.tree g.avl created-Sorted (omega arith) in
      (
        (record { next = suc pairs.next; pair = created }, record { tree = t'; map = m }),
        rw (create_lem, ◌>>=◌, run, ◌>>=◌, run', ◌>>=◌) refl,
        created-Stored missed m v more t' i,
      )
