-- ===== src/Zset/State.antt =====
-- When a sorted set is in order, and the map from names to scores that it stands for.
use coxx.Base.{
  ℕ, zero, suc, ◌+◌, ◌<◌, ◌≤◌, ◌≡◌, refl, sym, ap, ◌∙◌, Bool, true, false, not, Bool-cases, ◌⊎◌,
  inl, inr, Option, none, some, List, [], ◌∷◌, if◌then◌else◌, arith, All, length, ◌==◌, ltb,
}
use coxx.Base.Bytes.{Bytes}
use coxx.Base.Int.{pos, negsuc, eqz}
use coxx.Map.{Node}
use coxx.Map.Slots.{to_nat, count_all}
use coxx.Map.Moved.{bag, IsMap}
use coxx.Map.Methods.{init_map-IsMap}
use coxx.Avl.Shape.{in_order, size, IsAvl, length-in_order}
use coxx.Avl.Order.{occurrences, Distinct}
use coxx.Zset.{ZNode, memcmp, map_cmp, string_hash, ZSet, new_set, less_node}
use coxx.Zset.Place.{Sorted}
use coxx.Zset.Tally.{tally, tally_pos, tally-le, tally-occurrences, tally-any}

-- The pair at an address has the name.
abbrev pub is_named : (ℕ → ZNode) → Bytes → ℕ → Bool
is_named pair name = map_cmp pair name (length name)

memcmp_refl : (xs : Bytes) (n : ℕ) → memcmp xs xs n ≡ pos 0
unfolding memcmp
memcmp_refl [] zero = refl
memcmp_refl [] (suc n) = refl
memcmp_refl (x ∷ xs) zero = refl
memcmp_refl (x ∷ xs) (suc n) =
    let test : ltb x x ≡ false = ground arith in rw test (memcmp_refl xs n)

memcmp-eq :
    (xs ys : Bytes)
    → length xs ≡ length ys
    → eqz (memcmp xs ys (length xs)) (pos 0) ≡ true
    → xs ≡ ys
unfolding memcmp eqz
memcmp-eq [] [] h e = refl
memcmp-eq [] (y ∷ ys) h e = absurd (omega arith)
memcmp-eq (x ∷ xs) [] h e = absurd (omega arith)
memcmp-eq (x ∷ xs) (y ∷ ys) h e =
    let (not_below, not_above, rest) = by_head (ltb x y) (ltb y x) e in
    let same : x ≡ y = ground (arith, not_below, not_above) in
    rw (same, memcmp-eq xs ys (omega arith) rest) refl
  where
    by_head :
        (below above : Bool)
        → eqz
            (if below then negsuc 0 else if above then pos 1 else memcmp xs ys (length xs))
            (pos 0)
          ≡ true
        → (below ≡ false) × (above ≡ false) × (eqz (memcmp xs ys (length xs)) (pos 0) ≡ true)
    by_head true above e = cc
    by_head false true e = cc
    by_head false false e = (refl, refl, e)

module _ (pair : ℕ → ZNode) (lengths : (a : ℕ) → (pair a).len ≡ length (pair a).name) where
  -- The test of the map on names is equality.
  pub is_named_refl : (a : ℕ) → is_named pair (pair a).name a ≡ true
  unfolding map_cmp eqz
  is_named_refl a =
      let test : ((pair a).len == length (pair a).name) ≡ true = ground (arith, lengths a) in
      rw (test, memcmp_refl (pair a).name (pair a).len) refl

  pub is_named-eq : (name : Bytes) (a : ℕ) → is_named pair name a ≡ true → (pair a).name ≡ name
  unfolding map_cmp
  is_named-eq name a e =
      let (same, equal) =
        both ((pair a).len == length name) (eqz (memcmp (pair a).name name (pair a).len) (pos 0))
          e in
      memcmp-eq (pair a).name name (ground (arith, lengths a, same))
        (ap (λ (n : ℕ). eqz (memcmp (pair a).name name n) (pos 0)) (sym (lengths a)) ∙ equal)
    where
      both : (b x : Bool) → (if not b then false else x) ≡ true → (b ≡ true) × (x ≡ true)
      both true x h = (refl, h)
      both false x h = cc

-- Another name does not match.
pub is_named-other :
    (pair : ℕ → ZNode) (lengths : (a : ℕ) → (pair a).len ≡ length (pair a).name)
    (name name' : Bytes) (a : ℕ)
    → is_named pair name a ≡ true
    → is_named pair name' a ≡ true
    → name ≡ name'
is_named-other pair lengths name name' a e e' =
    sym (is_named-eq pair lengths name a e) ∙ is_named-eq pair lengths name' a e'

-- The score that a list of addresses gives to a name.
unfoldable pub score_in : (ℕ → ZNode) → List ℕ → Bytes → Option ℕ
score_in pair [] name = none
score_in pair (a ∷ xs) name =
    if is_named pair name a then some (pair a).score else score_in pair xs name

-- The map from names to scores that a sorted set stands for.
abbrev pub scores : (ℕ → ZNode) → ZSet → Bytes → Option ℕ
scores pair set name = score_in pair (in_order set.tree) name

pub score_in-none :
    (pair : ℕ → ZNode) (xs : List ℕ) (name : Bytes)
    → tally (is_named pair name) xs ≡ 0
    → score_in pair xs name ≡ none
unfolding score_in tally
score_in-none pair [] name e = refl
score_in-none pair (a ∷ xs) name e =
    let test : is_named pair name a ≡ false = not_counted (is_named pair name a) (omega arith) in
    rw test (score_in-none pair xs name (omega arith))
  where
    not_counted : (b : Bool) → to_nat b ≡ 0 → b ≡ false
    not_counted true h = absurd (omega arith)
    not_counted false h = refl

contradiction : {b : Bool} → b ≡ false → b ≡ true → ⊥
contradiction f t = cc

-- The only address with a name gives its score.
pub score_in-some :
    (pair : ℕ → ZNode) (xs : List ℕ) (name : Bytes) (a : ℕ)
    → 0 < occurrences a xs
    → is_named pair name a ≡ true
    → tally (is_named pair name) xs ≤ 1
    → score_in pair xs name ≡ some (pair a).score
unfolding score_in tally occurrences
score_in-some pair [] name a h e few = absurd (omega arith)
score_in-some pair (x ∷ xs) name a h e few = elim (Bool-cases (is_named pair name x)) [
  | inl named ↦
      let hit : to_nat (is_named pair name x) ≡ 1 = ap to_nat named in
      rw named (ap (λ (b : ℕ). some (pair b).score) (same_address hit))
  | inr not_named ↦
      rw not_named (score_in-some pair xs name a (elsewhere not_named) e (omega arith))
]
  where
    same_address : to_nat (is_named pair name x) ≡ 1 → x ≡ a
    same_address hit = elim (Bool-cases (x == a)) [
      | inl e' ↦ ground (arith, e')
      | inr e' ↦ absurd (omega (arith, tally_pos (is_named pair name) a xs (ground (arith, e')) e))
    ]

    elsewhere : is_named pair name x ≡ false → 0 < occurrences a xs
    elsewhere not_named = elim (Bool-cases (x == a)) [
      | inl e' ↦
          let same : x ≡ a = ground (arith, e') in
          absurd (contradiction (sym (ap (is_named pair name) same) ∙ not_named) e)
      | inr e' ↦ ground (arith, e')
    ]

-- No address passes a test, or one does.
pub tally-cases :
    (q : ℕ → Bool) (xs : List ℕ)
    → (tally q xs ≡ 0) ⊎ ((a : ℕ) × (0 < occurrences a xs) × (q a ≡ true))
unfolding tally occurrences
tally-cases q [] = inl refl
tally-cases q (x ∷ xs) = elim (Bool-cases (q x)) [
  | inl e ↦ inr (x, ground arith, e)
  | inr e ↦ elim (tally-cases q xs) [
    | inl none_there ↦ inl (omega (arith, ap to_nat e))
    | inr (a, there, e') ↦ inr (a, omega arith, e')
  ]
]

-- A sorted set in order: an AVL tree of its pairs, sorted, and a map of the same pairs, each in the
-- slot of its name. No two pairs have the same name, and all of them are allocated.
pub record IsZSet (equals is_below : ℕ → ℕ → Bool) (next : ℕ) (pair : ℕ → ZNode) (set : ZSet)
    : Type 0 where
  pub avl : IsAvl set.tree
  pub map : IsMap set.map
  pub shared : (q : ℕ → Bool) → bag set.map (λ (n : Node ℕ). q n.item) ≡ tally q (in_order set.tree)
  pub codes : bag set.map (λ (n : Node ℕ). not (n.code == string_hash (pair n.item).name)) ≡ 0
  pub unique : (name : Bytes) → tally (is_named pair name) (in_order set.tree) ≤ 1
  pub owned : All (λ (a : ℕ). a < next) (in_order set.tree)
  pub sorted : Sorted (less_node equals is_below pair) (in_order set.tree)

pub new_set-IsZSet :
    (equals is_below : ℕ → ℕ → Bool) (next : ℕ) (pair : ℕ → ZNode)
    → IsZSet equals is_below next pair new_set
unfolding in_order tally count_all
new_set-IsZSet equals is_below next pair = record {
  avl = tt;
  map = init_map-IsMap ℕ;
  shared = λ q. refl;
  codes = refl;
  unique = λ name. omega arith;
  owned = tt;
  sorted = tt;
}

module _ (equals is_below : ℕ → ℕ → Bool) (next : ℕ) (pair : ℕ → ZNode)
    (lengths : (a : ℕ) → (pair a).len ≡ length (pair a).name) (set : ZSet)
    (g : IsZSet equals is_below next pair set) where
  -- No address is there twice.
  pub IsZSet-Distinct : Distinct (in_order set.tree)
  IsZSet-Distinct a = omega (
    arith,
    tally-occurrences a (in_order set.tree),
    g.unique (pair a).name,
    tally-le (λ (x : ℕ). x == a) (is_named pair (pair a).name) (in_order set.tree)
        λ x e.
          let same : x ≡ a = ground (arith, e) in
          ap (is_named pair (pair a).name) same ∙ is_named_refl pair lengths a,
  )

  -- The map has as many nodes as the tree.
  pub IsZSet-size : set.map.table1.size + set.map.table2.size ≡ size set.tree
  IsZSet-size = omega (
    arith,
    g.map.first.counted,
    g.map.second.counted,
    g.shared (λ x. true),
    tally-any (in_order set.tree),
    length-in_order set.tree,
  )
