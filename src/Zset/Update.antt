-- ===== src/Zset/Update.antt =====
-- `update` stores one score, and changes no other.
use coxx.Base.{
  ℕ, suc, ◌+◌, ◌<◌, ◌≤◌, ◌≡◌, ◌≢◌, refl, sym, ap, ◌∙◌, subst, Bool, true, false, not, Bool-cases,
  ◌⊎◌, inl, inr, some, List, ◌∷◌, if◌then◌else◌, arith, All, length, length-append, ◌==◌,
}
use coxx.Base.Bytes.{Bytes, u32_mod}
use coxx.Base.Run.{Returns}
use coxx.Map.{Node}
use coxx.Map.Slots.{to_nat}
use coxx.Avl.{Tree}
use coxx.Avl.Shape.{in_order, size, length-in_order}
use coxx.Avl.Order.{occurrences}
use coxx.Zset.{ZNode, string_hash, Pairs, set_pair, ZSet, less_node, update}
use coxx.Zset.Lex.{IsComparison, ArePairs, less_node-asym, less_node-cotrans}
use coxx.Zset.Place.{Sorted, Sorted-without, Inserted, tree_add-Inserted}
use coxx.Zset.Tally.{tally, tally-agree, tally-occurrences, tally-any, bag-cover, All-map}
use coxx.Zset.State.{is_named, IsZSet, IsZSet-Distinct, scores, score_in-some}
use coxx.Zset.Delete.{Deleted, delete-Deleted}
use coxx.Zset.Change.{
  set_pair_same, set_pair_other, set_pair-ArePairs, is_named-same, Sorted-same, Changed,
  score_of_changed, score_of_others,
}
use coxx.Zset.Swap.{All-swap, absent-All, tally-insert, occurrences-insert, everywhere-All}

-- The score is stored, or it was the same already; the other names keep theirs. Pairs that are not of
-- this set stay as they are, and the only new one is a newly allocated one.
pub record Stored (number : ℕ → Bool) (equals is_below : ℕ → ℕ → Bool) (pairs : Pairs) (set : ZSet)
    (name : Bytes) (score : ℕ) (pairs' : Pairs) (set' : ZSet) : Type 0 where
  pub zset : IsZSet equals is_below pairs'.next pairs'.pair set'
  pub are_pairs : ArePairs number pairs'.pair
  pub stored :
      (scores pairs'.pair set' name ≡ some score)
      ⊎ ((old : ℕ) × (scores pairs.pair set name ≡ some old)
          × (equals old score ≡ true)
          × (scores pairs'.pair set' name ≡ some old))
  pub others : (n : Bytes) → n ≢ name → scores pairs'.pair set' n ≡ scores pairs.pair set n
  pub grows : pairs.next ≤ pairs'.next
  pub framed :
      (b : ℕ)
      → b < pairs.next
      → occurrences b (in_order set.tree) ≡ 0
      → pairs'.pair b ≡ pairs.pair b
  pub within :
      (b : ℕ)
      → b < pairs.next
      → occurrences b (in_order set'.tree) ≡ occurrences b (in_order set.tree)
  pub room : size set'.tree ≤ suc (size set.tree)

-- A pair of the set with another score.
module _ (number : ℕ → Bool) (equals is_below : ℕ → ℕ → Bool)
    (law : IsComparison number equals is_below) (pairs : Pairs) (are : ArePairs number pairs.pair)
    (set : ZSet) (g : IsZSet equals is_below pairs.next pairs.pair set) (name : Bytes) (score : ℕ)
    (numeric : number score ≡ true) (room : suc (size set.tree) < u32_mod) (a : ℕ)
    (named : is_named pairs.pair name a ≡ true) (there : 0 < occurrences a (in_order set.tree))
    (t : Tree) (d : Deleted a set.tree t) where
  abbrev rescored : ℕ → ZNode
  rescored = set_pair pairs.pair a (record (pairs.pair a) { score = score })

  rescored-ArePairs : ArePairs number rescored
  rescored-ArePairs =
      set_pair-ArePairs number pairs.pair a (record (pairs.pair a) { score = score }) are numeric
        (are.lengths a)

  same_pair : (b : ℕ) → (b == a) ≡ false → rescored b ≡ pairs.pair b
  same_pair b e = rw e refl

  rescored_at : (b : ℕ) → (b == a) ≡ true → rescored b ≡ record (pairs.pair a) { score = score }
  rescored_at b e = rw e refl

  same_name : (b : ℕ) → (rescored b).name ≡ (pairs.pair b).name
  same_name b = elim (Bool-cases (b == a)) [
    | inl e ↦
        let same : b ≡ a = ground (arith, e) in
        ap (λ (z : ZNode). z.name) (rescored_at b e)
        ∙ ap (λ (x : ℕ). (pairs.pair x).name) (sym same)
    | inr e ↦ ap (λ (z : ZNode). z.name) (same_pair b e)
  ]

  same_len : (b : ℕ) → (rescored b).len ≡ (pairs.pair b).len
  same_len b =
      rescored-ArePairs.lengths b
      ∙ (ap (λ (x : Bytes). length x) (same_name b) ∙ sym (are.lengths b))

  rescored_named : (n : Bytes) (b : ℕ) → is_named rescored n b ≡ is_named pairs.pair n b
  rescored_named n b = is_named-same pairs.pair rescored n b (same_len b) (same_name b)

  same_self : ◌≡◌ {A = ℕ} (if a == a then 1 else 0) 1
  same_self = ground arith

  taken_out : All (λ (x : ℕ). x ≢ a) (in_order t)
  taken_out = absent-All a (in_order t) (
      omega (
        arith,
        IsZSet-Distinct equals is_below pairs.next pairs.pair are.lengths set g a,
        ap (occurrences a) d.old,
        ap (occurrences a) d.now,
        occurrences-insert a d.front a d.back,
        same_self,
      ))

  still-Sorted : Sorted (less_node equals is_below rescored) (in_order t)
  still-Sorted =
      Sorted-same equals is_below pairs.pair rescored (in_order t)
        (All-map (λ (x : ℕ). x ≢ a) (λ (x : ℕ). rescored x ≡ pairs.pair x) (in_order t)
          (λ x n. set_pair_other pairs.pair a (record (pairs.pair a) { score = score }) x n)
          taken_out)
        (subst (Sorted (less_node equals is_below pairs.pair)) (sym d.now) (
          Sorted-without (less_node equals is_below pairs.pair) d.front a d.back
            (subst (Sorted (less_node equals is_below pairs.pair)) d.old g.sorted)))

  smaller : suc (size t) ≡ size set.tree
  smaller = omega (
    arith,
    length-in_order t,
    length-in_order set.tree,
    ap (λ (xs : List ℕ). length xs) d.old,
    ap (λ (xs : List ℕ). length xs) d.now,
    length-append d.front (a ∷ d.back),
    length-append d.front d.back,
  )

  module _ (t' : Tree) (i : Inserted equals is_below rescored a t t') where
    -- The tree has the same addresses as before.
    same_tally : (q : ℕ → Bool) → tally q (in_order t') ≡ tally q (in_order set.tree)
    same_tally q = omega (
      arith,
      ap (tally q) d.old,
      ap (tally q) (sym d.now ∙ i.old),
      ap (tally q) i.now,
      tally-insert q d.front a d.back,
      tally-insert q i.front a i.back,
    )

    same_occurrences : (b : ℕ) → occurrences b (in_order t') ≡ occurrences b (in_order set.tree)
    same_occurrences b = omega (
      arith,
      same_tally (λ (x : ℕ). x == b),
      tally-occurrences b (in_order t'),
      tally-occurrences b (in_order set.tree),
    )

    rescored-Changed : Changed pairs.pair rescored a name (in_order set.tree) (in_order t')
    rescored-Changed = record {
      lengths = rescored-ArePairs.lengths;
      kept = λ b n. set_pair_other pairs.pair a (record (pairs.pair a) { score = score }) b n;
      agree = λ n. everywhere-All _ (rescored_named n) (in_order set.tree);
      named = rescored_named name a ∙ named;
      there = omega (arith, there, same_occurrences a);
      at_least = λ q. omega (arith, same_tally q);
      at_most = λ q. omega (arith, same_tally q);
      unique = λ n. omega (
        arith,
        g.unique n,
        same_tally (is_named pairs.pair n),
        tally-agree (is_named rescored n) (is_named pairs.pair n) (in_order t')
            (everywhere-All _ (rescored_named n) (in_order t')),
      );
    }

    same_codes :
        (n : Node ℕ)
        → to_nat (not (n.code == string_hash (rescored n.item).name))
          ≤ to_nat (not (n.code == string_hash (pairs.pair n.item).name))
            + to_nat (not (n.code == string_hash (pairs.pair n.item).name))
    same_codes n =
        omega (arith, ap (λ (x : Bytes). to_nat (not (n.code == string_hash x))) (same_name n.item))

    rescored-IsZSet : IsZSet equals is_below pairs.next rescored (record set { tree = t' })
    rescored-IsZSet = record {
      avl = i.avl;
      map = g.map;
      shared = λ q. g.shared q ∙ sym (same_tally q);
      codes = omega (
        arith,
        g.codes,
        bag-cover (λ (n : Node ℕ). not (n.code == string_hash (rescored n.item).name))
            (λ (n : Node ℕ). not (n.code == string_hash (pairs.pair n.item).name))
            (λ (n : Node ℕ). not (n.code == string_hash (pairs.pair n.item).name)) same_codes
            set.map,
      );
      unique = rescored-Changed.unique;
      owned = subst (All (λ (x : ℕ). x < pairs.next)) (sym i.now) (
          All-swap (λ (x : ℕ). x < pairs.next) d.front d.back i.front i.back a (sym d.now ∙ i.old)
            (subst (All (λ (x : ℕ). x < pairs.next)) d.old g.owned));
      sorted = i.sorted;
    }

    same_size : size t' ≡ size set.tree
    same_size = omega (
      arith,
      same_tally (λ x. true),
      tally-any (in_order t'),
      tally-any (in_order set.tree),
      length-in_order t',
      length-in_order set.tree,
    )

    rescored-Stored :
        Stored number equals is_below pairs set name score
          (record pairs { pair = rescored })
          (record set { tree = t' })
    rescored-Stored = record {
      zset = rescored-IsZSet;
      are_pairs = rescored-ArePairs;
      stored = inl (
          score_of_changed pairs.pair rescored a name (in_order set.tree) (in_order t')
            rescored-Changed
          ∙ ap (λ (z : ZNode). some z.score)
              (set_pair_same pairs.pair a (record (pairs.pair a) { score = score })));
      others =
          score_of_others pairs.pair rescored a name (in_order set.tree) (in_order t')
            rescored-Changed g.unique;
      grows = omega arith;
      framed = λ b h absent.
          set_pair_other pairs.pair a (record (pairs.pair a) { score = score }) b
            λ same.
              omega (arith, there, absent, ap (λ (x : ℕ). occurrences x (in_order set.tree)) same);
      within = λ b h. same_occurrences b;
      room = omega (arith, same_size);
    }

module _ (number : ℕ → Bool) (equals is_below : ℕ → ℕ → Bool)
    (law : IsComparison number equals is_below) (pairs : Pairs) (are : ArePairs number pairs.pair)
    (set : ZSet) (g : IsZSet equals is_below pairs.next pairs.pair set) (name : Bytes) (score : ℕ)
    (numeric : number score ≡ true) (room : suc (size set.tree) < u32_mod) where
  pub update-Stored :
      (a : ℕ)
      → is_named pairs.pair name a ≡ true
      → 0 < occurrences a (in_order set.tree)
      → Returns
          (update equals is_below pairs set a score)
          λ r. Stored number equals is_below pairs set name score r.0 r.1
  unfolding update
  update-Stored a named there = elim (Bool-cases (equals (pairs.pair a).score score)) [
    | inl same ↦
        let old = score_in-some pairs.pair (in_order set.tree) name a there named (g.unique name) in
        (
          (pairs, set),
          rw same refl,
          record {
            zset = g;
            are_pairs = are;
            stored = inr ((pairs.pair a).score, old, same, old);
            others = λ n h. refl;
            grows = omega arith;
            framed = λ b h h'. refl;
            within = λ b h. refl;
            room = omega arith;
          },
        )
    | inr differs ↦
        let (t, run, d) =
          delete-Deleted set.tree a g.avl (omega arith)
            (IsZSet-Distinct equals is_below pairs.next pairs.pair are.lengths set g) there in
        let pair' = set_pair pairs.pair a (record (pairs.pair a) { score = score }) in
        let are' =
          rescored-ArePairs number equals is_below law pairs are set g name score numeric room a
            named there t d in
        let (t', run', i) =
          tree_add-Inserted equals is_below pair'
            (less_node-asym number equals is_below law pair' are')
            (less_node-cotrans number equals is_below law pair' are') a t d.avl
            (still-Sorted number equals is_below law pairs are set g name score numeric room a named
              there t d)
            (omega (
              arith,
              smaller number equals is_below law pairs are set g name score numeric room a named
                  there t d,
            )) in
        (
          (record pairs { pair = pair' }, record set { tree = t' }),
          rw (differs, run, run') refl,
          rescored-Stored number equals is_below law pairs are set g name score numeric room a named
              there t d t' i,
        )
  ]
