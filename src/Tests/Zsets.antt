-- ===== src/Tests/Zsets.antt =====
-- zset/zset.cxx
use coxx.Base.{◌≤◌, ◌==◌, ltb, ℕ, ◌≡◌, refl, List, [], ◌∷◌, arith, none, Bool, true}
use coxx.Base.Bytes.{Bytes, slice}
use coxx.Base.Run.{ok, Run, Returns, ◌>>=◌}
use coxx.Base.Int.{ltz, eqz}
use coxx.Avl
use coxx.Map.{
  move_nodes, help_resizing, initialize, insert, look_up, node_at, detach, look_old, look_both,
  pop_old, pop_both, start_resizing, with_table, grow, c_map_look_up, c_map_insert, c_map_pop,
}
use coxx.Avl.{
  Tree, leaf, node, fix_avl, rebalance, fix_left, fix_right, rotate_left, rotate_right, plug, depth,
  count, max, del_avl, leftmost, replace,
}
use coxx.Avl.Shape.{in_order, size, height, IsAvl}
use coxx.Zset.{
  memcmp, less, hash_letters, map_cmp, locate, delete, popped, create, place, update, add_new,
  added, ZNode, Pairs, ZSet, new_set, add, pop, lookup, query, tree_add,
}
use coxx.Zset.Lex.{IsComparison, ArePairs}
use coxx.Zset.State.{IsZSet, new_set-IsZSet, scores}
use coxx.Zset.Look.{Answers, lookup-Answers}
use coxx.Zset.Update.{Stored}
use coxx.Zset.Add.{add-Stored, is_missing}
use coxx.Zset.Pop.{Taken, pop-Taken}
use coxx.Zset.Query.{first, is_lower}
use coxx.Avl.Order.{Distinct, occurrences}
use coxx.Zset.Range.{query_lem}

-- Scores that compare as numbers.
abbrev any_score : ℕ → Bool
any_score score = true

compare-IsComparison : IsComparison any_score ◌==◌ ltb
compare-IsComparison = record {
  asym = λ a b h k e. ground (arith, e);
  cotrans = λ a b c h k l e. ground (arith, e);
  equal = λ a b h k. ground arith;
}

abbrev fresh_pairs : Pairs
fresh_pairs = record { next = 5; pair = λ a. record { score = 0; len = 0; name = [] } }

fresh-ArePairs : ArePairs any_score fresh_pairs.pair
fresh-ArePairs = record { numbers = λ a. refl; lengths = λ a. refl }

abbrev ab : Bytes
ab = 97 ∷ 98 ∷ []

abbrev cd : Bytes
cd = 99 ∷ 100 ∷ []

all_of_sets : Unit {0}
unfolding memcmp less hash_letters map_cmp locate delete lookup popped pop create place tree_add
    update add_new added add slice move_nodes help_resizing initialize insert look_up node_at detach
    look_old look_both pop_old pop_both start_resizing with_table grow c_map_look_up c_map_insert
    c_map_pop fix_avl Avl.update rebalance fix_left fix_right rotate_left rotate_right plug depth
    count max del_avl leftmost replace in_order ltz eqz
all_of_sets = tt

empty_room : size new_set.tree ≡ 0
unfolding size
empty_room = refl

abbrev first_add : Returns (add ◌==◌ ltb fresh_pairs new_set ab 2 7) λ r.
    Stored any_score ◌==◌ ltb fresh_pairs new_set ab 7 r.0 r.1
    × (r.2 ≡ is_missing (scores fresh_pairs.pair new_set ab))
first_add =
    add-Stored any_score ◌==◌ ltb compare-IsComparison fresh_pairs fresh-ArePairs new_set
      (new_set-IsZSet ◌==◌ ltb 5 fresh_pairs.pair) ab 7 refl (omega (arith, empty_room))

-- The set of one pair, "ab" with 7.
abbrev one_pairs : Pairs
one_pairs = first_add.0.0

abbrev one_set : ZSet
one_set = first_add.0.1

one-Stored : Stored any_score ◌==◌ ltb fresh_pairs new_set ab 7 one_pairs one_set
one-Stored = first_add.2.0

one_room : size one_set.tree ≤ 1
one_room = omega (arith, one-Stored.room, empty_room)

abbrev in_order_of : Pairs × ZSet × Bool → Run (List ℕ)
in_order_of r = ok (in_order r.1.tree)

-- The order of the set of two pairs, with 7 and 3, is by score.
run_two :
    (add ◌==◌ ltb fresh_pairs new_set ab 2 7 >>= λ r. add ◌==◌ ltb r.0 r.1 cd 2 3 >>= in_order_of)
    ≡ ok (6 ∷ 5 ∷ [])
unfolding all_of_sets
run_two = refl

add-Stored_example : Returns (add ◌==◌ ltb one_pairs one_set cd 2 3) λ r.
    Stored any_score ◌==◌ ltb one_pairs one_set cd 3 r.0 r.1
    × (r.2 ≡ is_missing (scores one_pairs.pair one_set cd))
add-Stored_example =
    add-Stored any_score ◌==◌ ltb compare-IsComparison one_pairs one-Stored.are_pairs one_set
      one-Stored.zset cd 3 refl (omega (arith, one_room))

pop-Taken_example :
    Returns (pop one_pairs.pair one_set ab 2) λ r. Taken ◌==◌ ltb one_pairs one_set ab r.0 r.1
pop-Taken_example =
    pop-Taken ◌==◌ ltb one_pairs one-Stored.are_pairs.lengths one_set one-Stored.zset ab
      (omega (arith, one_room))

lookup-Answers_example : Returns (lookup one_pairs.pair one_set ab 2) λ r.
    IsZSet ◌==◌ ltb one_pairs.next one_pairs.pair r.0
    × (r.0.tree ≡ one_set.tree)
    × Answers one_pairs.pair ab (in_order one_set.tree) r.1
lookup-Answers_example =
    lookup-Answers ◌==◌ ltb one_pairs.next one_pairs.pair one-Stored.are_pairs.lengths one_set
      one-Stored.zset ab

query_lem_example :
    query ◌==◌ ltb one_pairs.pair one_set.tree 5 cd 2
    ≡ first (is_lower ◌==◌ ltb one_pairs.pair 5 cd 2) (in_order one_set.tree) none
query_lem_example =
    query_lem any_score ◌==◌ ltb compare-IsComparison one_pairs one-Stored.are_pairs cd 5 refl
      one_set one-Stored.zset

abbrev numbered : ℕ → ZNode
numbered a = record { score = a; len = 0; name = [] }

numbered-ArePairs : ArePairs any_score numbered
numbered-ArePairs = record { numbers = λ a. refl; lengths = λ a. refl }

abbrev ten : Tree
ten = node 1 1 leaf 10 leaf

ten-IsAvl : IsAvl ten
unfolding height size max
ten-IsAvl = (ground arith, ground arith, omega arith, omega arith, tt, tt)

ten_order : in_order ten ≡ 10 ∷ []
unfolding in_order
ten_order = refl

ten_size : size ten ≡ 1
unfolding size
ten_size = refl

ten-Distinct : Distinct (in_order ten)
unfolding in_order occurrences
ten-Distinct a = ground arith
