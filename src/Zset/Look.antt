-- ===== src/Zset/Look.antt =====
-- `zset::lookup` finds the pair with a name.
use coxx.Base.{
  ℕ, ◌+◌, ◌<◌, ◌≤◌, ◌≡◌, refl, ap, ◌∙◌, subst, Bool, true, false, not, ◌&&◌, Bool-cases, inl, inr,
  Option, none, some, List, [], arith, length, ◌==◌,
}
use coxx.Base.Bytes.{Bytes}
use coxx.Base.Run.{Returns}
use coxx.Map.{Node, Map, matches}
use coxx.Map.Slots.{to_nat}
use coxx.Map.Moved.{bag, IsMap}
use coxx.Map.Methods.{c_map_look_up_lem}
use coxx.Avl.{Tree, leaf, node}
use coxx.Avl.Shape.{in_order}
use coxx.Avl.Order.{occurrences}
use coxx.Zset.{ZNode, map_cmp, string_hash, ZSet, is_leaf, item_of, lookup}
use coxx.Zset.Tally.{tally, tally-occurrences, bag-cover}
use coxx.Zset.State.{is_named, is_named-eq, IsZSet}

-- The same pairs in another map.
pub remapped-IsZSet :
    (equals is_below : ℕ → ℕ → Bool) (next : ℕ) (pair : ℕ → ZNode) (set : ZSet) (m : Map ℕ)
    → IsZSet equals is_below next pair set
    → IsMap m
    → ((q : Node ℕ → Bool) → bag m q ≡ bag set.map q)
    → IsZSet equals is_below next pair (record set { map = m })
remapped-IsZSet equals is_below next pair set m g v keeps = record {
  avl = g.avl;
  map = v;
  shared = λ q. keeps (λ (n : Node ℕ). q n.item) ∙ g.shared q;
  codes = keeps (λ (n : Node ℕ). not (n.code == string_hash (pair n.item).name)) ∙ g.codes;
  unique = g.unique;
  owned = g.owned;
  sorted = g.sorted;
}

-- What a search by name comes to.
pub record Answers (pair : ℕ → ZNode) (name : Bytes) (xs : List ℕ) (answer : Option ℕ)
    : Type 0 where
  pub missed : answer ≡ none → tally (is_named pair name) xs ≡ 0
  pub found : (a : ℕ) → answer ≡ some a → (is_named pair name a ≡ true) × (0 < occurrences a xs)

by_test : (b : Bool) → 1 ≤ to_nat (b && true) + to_nat (not b)
by_test true = omega arith
by_test false = omega arith

and_right : (a b : Bool) → (a && b) ≡ true → b ≡ true
and_right true b h = h
and_right false b h = cc

-- A node that a search by code found is the pair of an address that is there.
pub found-Answers :
    (pair : ℕ → ZNode) (set : ZSet) (name : Bytes) (code : ℕ) (n : Node ℕ)
    → ((q : ℕ → Bool) → bag set.map (λ (n : Node ℕ). q n.item) ≡ tally q (in_order set.tree))
    → matches code (map_cmp pair name (length name)) n ≡ true
    → ((q : Node ℕ → Bool) → q n ≡ true → 0 < bag set.map q)
    → (is_named pair name n.item ≡ true) × (0 < occurrences n.item (in_order set.tree))
found-Answers pair set name code n shared hit pos = (
  and_right (n.code == code) (is_named pair name n.item) hit,
  omega (
    arith,
    pos (λ (k : Node ℕ). k.item == n.item) (ground arith),
    shared (λ (x : ℕ). x == n.item),
    tally-occurrences n.item (in_order set.tree),
  ),
)

leaf-in_order : (t : Tree) → is_leaf t ≡ true → in_order t ≡ []
unfolding in_order
leaf-in_order leaf e = refl
leaf-in_order (node d c l x r) e = cc

pub leaf-tally : (t : Tree) (q : ℕ → Bool) → is_leaf t ≡ true → tally q (in_order t) ≡ 0
unfolding tally
leaf-tally t q e = ap (tally q) (leaf-in_order t e)

missed_of : (o : Option (Node ℕ)) → item_of o ≡ none → o ≡ none
missed_of none e = refl
missed_of (some n) e = cc

found_of :
    (o : Option (Node ℕ)) (a : ℕ) → item_of o ≡ some a → (n : Node ℕ) × (o ≡ some n) × (n.item ≡ a)
found_of none a e = cc
found_of (some n) a e = (n, refl, cc)

module _ (equals is_below : ℕ → ℕ → Bool) (next : ℕ) (pair : ℕ → ZNode)
    (lengths : (a : ℕ) → (pair a).len ≡ length (pair a).name) (set : ZSet)
    (g : IsZSet equals is_below next pair set) (name : Bytes) where
  -- A node with the name has the name's code.
  pub by_code :
      bag set.map (λ (n : Node ℕ). is_named pair name n.item)
      ≤ bag set.map (matches (string_hash name) (map_cmp pair name (length name)))
  by_code = omega (
    arith,
    g.codes,
    bag-cover (λ (n : Node ℕ). is_named pair name n.item)
        (matches (string_hash name) (map_cmp pair name (length name)))
        (λ (n : Node ℕ). not (n.code == string_hash (pair n.item).name)) cover set.map,
  )
    where
      cover :
          (n : Node ℕ)
          → to_nat (is_named pair name n.item)
            ≤ to_nat (matches (string_hash name) (map_cmp pair name (length name)) n)
              + to_nat (not (n.code == string_hash (pair n.item).name))
      cover n = elim (Bool-cases (is_named pair name n.item)) [
        | inl e ↦
            let same = is_named-eq pair lengths name n.item e in
            rw (same, e) (by_test (n.code == string_hash name))
        | inr e ↦ rw e (omega arith)
      ]

  -- `lookup` ends on a set in order with one of the same pairs, and answers with the pair of the name.
  pub lookup-Answers : Returns (lookup pair set name (length name)) λ r.
      IsZSet equals is_below next pair r.0
      × (r.0.tree ≡ set.tree)
      × Answers pair name (in_order set.tree) r.1
  unfolding lookup
  lookup-Answers = elim (Bool-cases (is_leaf set.tree)) [
    | inl e ↦ (
      (set, none),
      rw e refl,
      (
        g,
        refl,
        record { missed = λ e'. leaf-tally set.tree (is_named pair name) e; found = λ a e'. cc },
      ),
    )
    | inr e ↦
        let (r, run, looked) =
          c_map_look_up_lem set.map g.map (string_hash name) (map_cmp pair name (length name)) in
        (
          (record set { map = r.0 }, item_of r.1),
          rw (e, run) refl,
          (
            remapped-IsZSet equals is_below next pair set r.0 g looked.map looked.keeps,
            refl,
            record {
              missed = λ e'.
                  omega (
                    arith,
                    by_code,
                    g.shared (is_named pair name),
                    looked.missed (missed_of r.1 e'),
                  );
              found = λ a e'.
                  let (n, here, at) = found_of r.1 a e' in
                  let (hit, pos) = looked.found n here in
                  subst
                    (λ (b : ℕ).
                      (is_named pair name b ≡ true) × (0 < occurrences b (in_order set.tree)))
                    at (found-Answers pair set name (string_hash name) n g.shared hit pos);
            },
          ),
        )
  ]
