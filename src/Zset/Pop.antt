-- ===== src/Zset/Pop.antt =====
-- `zset::pop` takes one pair out of a sorted set.
use coxx.Base.{
  ℕ, ◌+◌, ◌<◌, ◌≤◌, ◌≡◌, ◌≢◌, refl, sym, ap, subst, Bool, true, not, Bool-cases, inl, inr, Option,
  none, some, ◌∷◌, arith, All, All-append, length, ◌==◌,
}
use coxx.Base.Bytes.{Bytes, u32_mod}
use coxx.Base.Run.{Returns}
use coxx.Map.{Node, Map}
use coxx.Map.Slots.{to_nat}
use coxx.Map.Moved.{bag, IsMap}
use coxx.Avl.{Tree}
use coxx.Avl.Shape.{in_order, size}
use coxx.Avl.Order.{occurrences}
use coxx.Zset.{is_leaf, pop, popped, map_cmp, string_hash, Pairs, ZSet, less_node}
use coxx.Zset.Place.{Sorted, Sorted-without}
use coxx.Zset.Tally.{tally, tally-occurrences, All-split}
use coxx.Zset.State.{is_named, IsZSet, IsZSet-Distinct, scores, score_in-some, score_in-none}
use coxx.Zset.Delete.{Deleted, delete-Deleted}
use coxx.Zset.Look.{found-Answers, leaf-tally, by_code, remapped-IsZSet}
use coxx.Zset.Swap.{tally-insert, everywhere-All}
use coxx.Map.Methods.{Popped, c_map_pop_lem}
use coxx.Map.{matches}
use coxx.Zset.Change.{Changed, score_of_others}

-- The name has no score any more, and the other names keep theirs. What is returned is the pair that
-- had the name, which is not in the tree any more, and null when the name had no score.
pub record Taken (equals is_below : ℕ → ℕ → Bool) (pairs : Pairs) (set : ZSet) (name : Bytes)
    (set' : ZSet) (answer : Option ℕ) : Type 0 where
  pub zset : IsZSet equals is_below pairs.next pairs.pair set'
  pub gone : scores pairs.pair set' name ≡ none
  pub others : (n : Bytes) → n ≢ name → scores pairs.pair set' n ≡ scores pairs.pair set n
  pub fewer : (b : ℕ) → occurrences b (in_order set'.tree) ≤ occurrences b (in_order set.tree)
  pub missed : answer ≡ none → scores pairs.pair set name ≡ none
  pub found :
      (a : ℕ)
      → answer ≡ some a
      → (scores pairs.pair set name ≡ some (pairs.pair a).score)
        × ((b : ℕ)
            → occurrences b (in_order set.tree)
              ≡ occurrences b (in_order set'.tree) + to_nat (a == b))

module _ (equals is_below : ℕ → ℕ → Bool) (pairs : Pairs)
    (lengths : (a : ℕ) → (pairs.pair a).len ≡ length (pairs.pair a).name) (set : ZSet)
    (g : IsZSet equals is_below pairs.next pairs.pair set) (name : Bytes) where
  -- Nothing is taken when nobody has the name.
  none-Taken :
      (m : Map ℕ)
      → tally (is_named pairs.pair name) (in_order set.tree) ≡ 0
      → IsMap m
      → ((q : Node ℕ → Bool) → bag m q ≡ bag set.map q)
      → Taken equals is_below pairs set name (record set { map = m }) none
  none-Taken m nobody v keeps =
      let gone = score_in-none pairs.pair (in_order set.tree) name nobody in
      record {
        zset = remapped-IsZSet equals is_below pairs.next pairs.pair set m g v keeps;
        gone = gone;
        others = λ n h. refl;
        fewer = λ b. omega arith;
        missed = λ e. gone;
        found = λ a e. cc;
      }

  -- The node that the map gave away, in a tree that it was taken out of.
  module _ (n : Node ℕ) (m : Map ℕ) (v : IsMap m)
      (less : (q : Node ℕ → Bool) → bag m q + to_nat (q n) ≡ bag set.map q)
      (named : is_named pairs.pair name n.item ≡ true) (t : Tree)
      (d : Deleted n.item set.tree t) where
    one_less :
        (q : ℕ → Bool) → tally q (in_order set.tree) ≡ tally q (in_order t) + to_nat (q n.item)
    one_less q =
        omega (arith, ap (tally q) d.old, ap (tally q) d.now, tally-insert q d.front n.item d.back)

    occurrences_before :
        (b : ℕ)
        → occurrences b (in_order set.tree) ≡ occurrences b (in_order t) + to_nat (n.item == b)
    occurrences_before b = omega (
      arith,
      one_less (λ (x : ℕ). x == b),
      tally-occurrences b (in_order t),
      tally-occurrences b (in_order set.tree),
    )

    self : (n.item == n.item) ≡ true
    self = ground arith

    there : 0 < occurrences n.item (in_order set.tree)
    there = omega (arith, occurrences_before n.item, ap to_nat self)

    rest_unique : (k : Bytes) → tally (is_named pairs.pair k) (in_order t) ≤ 1
    rest_unique k = omega (arith, one_less (is_named pairs.pair k), g.unique k)

    before-Changed : Changed pairs.pair pairs.pair n.item name (in_order t) (in_order set.tree)
    before-Changed = record {
      lengths = lengths;
      kept = λ b h. refl;
      agree = λ k. everywhere-All _ (λ b. refl) (in_order t);
      named = named;
      there = there;
      at_least = λ q. omega (arith, one_less q);
      at_most = λ q. omega (arith, one_less q);
      unique = g.unique;
    }

    rest-IsZSet : IsZSet equals is_below pairs.next pairs.pair (record { map = m; tree = t })
    rest-IsZSet = record {
      avl = d.avl;
      map = v;
      shared = λ q. omega (arith, less (λ (k : Node ℕ). q k.item), g.shared q, one_less q);
      codes = omega (
        arith,
        less (λ (k : Node ℕ). not (k.code == string_hash (pairs.pair k.item).name)),
        g.codes,
      );
      unique = rest_unique;
      owned =
          let (low, high) =
            All-split (λ (x : ℕ). x < pairs.next) d.front (n.item ∷ d.back)
              (subst (All (λ (x : ℕ). x < pairs.next)) d.old g.owned) in
          subst (All (λ (x : ℕ). x < pairs.next)) (sym d.now)
            (All-append (λ (x : ℕ). x < pairs.next) d.front d.back low high.1);
      sorted = subst (Sorted (less_node equals is_below pairs.pair)) (sym d.now) (
          Sorted-without (less_node equals is_below pairs.pair) d.front n.item d.back
            (subst (Sorted (less_node equals is_below pairs.pair)) d.old g.sorted));
    }

    rest-Taken : Taken equals is_below pairs set name (record { map = m; tree = t }) (some n.item)
    rest-Taken = record {
      zset = rest-IsZSet;
      gone =
          score_in-none pairs.pair (in_order t) name
            (omega (arith, one_less (is_named pairs.pair name), g.unique name, ap to_nat named));
      others = λ k differs. sym (
          score_of_others pairs.pair pairs.pair n.item name (in_order t) (in_order set.tree)
            before-Changed rest_unique k differs);
      fewer = λ b. omega (arith, occurrences_before b);
      missed = λ e. cc;
      found = λ a e.
          subst
            (λ (a : ℕ).
              (scores pairs.pair set name ≡ some (pairs.pair a).score)
              × ((b : ℕ)
                  → occurrences b (in_order set.tree)
                    ≡ occurrences b (in_order t) + to_nat (a == b)))
            (inner e)
            (
              score_in-some pairs.pair (in_order set.tree) name n.item there named (g.unique name),
              occurrences_before,
            );
    }
      where
        inner : {a : ℕ} → some n.item ≡ some a → n.item ≡ a
        inner e = cc

  module _ (small : size set.tree < u32_mod) where
    popped-Taken :
        (m : Map ℕ) (answer : Option (Node ℕ))
        → Popped set.map
            (matches (string_hash name) (map_cmp pairs.pair name (length name)))
            (m, answer)
        → Returns (popped set m answer) λ r. Taken equals is_below pairs set name r.0 r.1
    unfolding popped
    popped-Taken m none p =
        let (missed, keeps) = p.missed refl in
        (
          (record set { map = m }, none),
          refl,
          none-Taken m
              (omega (
                arith,
                by_code equals is_below pairs.next pairs.pair lengths set g name,
                g.shared (is_named pairs.pair name),
                missed,
              ))
              p.map keeps,
        )
    popped-Taken m (some n) p =
        let (hit, less) = p.found n refl in
        let (named, there) =
          found-Answers pairs.pair set name (string_hash name) n g.shared hit
            λ q e. omega (arith, less q, ap to_nat e) in
        let (t, run, d) =
          delete-Deleted set.tree n.item g.avl small
            (IsZSet-Distinct equals is_below pairs.next pairs.pair lengths set g) there in
        (
          (record { map = m; tree = t }, some n.item),
          rw run refl,
          rest-Taken n m p.map less named t d,
        )

    pub pop-Taken :
        Returns
          (pop pairs.pair set name (length name))
          λ r. Taken equals is_below pairs set name r.0 r.1
    unfolding pop
    pop-Taken = elim (Bool-cases (is_leaf set.tree)) [
      | inl e ↦ (
        (set, none),
        rw e refl,
        none-Taken set.map (leaf-tally set.tree (is_named pairs.pair name) e) g.map λ q. refl,
      )
      | inr e ↦
          let (r, run, p) =
            c_map_pop_lem set.map g.map (string_hash name)
              (map_cmp pairs.pair name (length name)) in
          let (r', run', taken) = popped-Taken r.0 r.1 p in (r', rw (e, run) run', taken)
    ]
