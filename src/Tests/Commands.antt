-- ===== src/Tests/Commands.antt =====
-- common/req.cxx
use coxx.Base.{◌==◌, ltb, ℕ, ◌≡◌, refl, List, [], ◌∷◌, arith, none, some, Option, Bool, true}
use coxx.Base.Bytes.{Bytes, slice}
use coxx.Base.Int.{ℤ, pos, ltz, eqz}
use coxx.Base.Run.{ok, Run, Returns, ◌>>=◌}
use coxx.Map.{
  init_table, move_nodes, help_resizing, initialize, insert, look_up, node_at, detach, look_old,
  look_both, pop_old, pop_both, start_resizing, with_table, grow, c_map_look_up, c_map_insert,
  c_map_pop,
}
use coxx.Map.Slots.{count_all, count}
use coxx.Map.Tables.{any}
use coxx.Map.Moved.{bag}
use coxx.Avl
use coxx.Avl.{
  Tree, leaf, node, fix_avl, rebalance, fix_left, fix_right, rotate_left, rotate_right, plug, depth,
  max,
}
use coxx.Avl.Shape.{size}
use coxx.Zset.{
  memcmp, less, map_cmp, locate, delete, lookup, popped, pop, create, place, tree_add, update,
  add_new, added, add, set_pair, new_set, ZSet, hash_letters,
}
use coxx.Entry.{Entry, same_text}
use coxx.Serialize
use coxx.Serialize.{nil, str, num, err, dbl}
use coxx.Command.{
  Database, set_entry, find_entry, new_entry, got, get, set_value, set, del, is_found,
}
use coxx.Command.Dispatch.{
  zadd, zadd_scored, zadd_entry, zadd_to, str_to_double, c_str, lower, is_call, run,
}
use coxx.Command.State.{view, IsDatabase, Rewritten, new_database, new_database-IsDatabase}
use coxx.Command.Drop.{del-Rewritten}
use coxx.Command.Find.{Kept, text_reply, get-reply}
use coxx.Command.Texts.{with_text, set-Rewritten}

-- Scores that compare as numbers, and a word of three characters that reads as 7.
abbrev pub any_score : ℕ → Bool
any_score score = true

abbrev pub seven : Bytes → ℕ × ℕ
seven s = (7, 3)

abbrev pub five : Bytes → ℤ × ℕ
five s = (pos 5, 1)

abbrev pub empty : Database
empty =
    new_database (λ a. record { key = []; type = 0; val = []; set = none })
      (record { next = 0; pair = λ a. record { score = 0; len = 0; name = [] } })

pub empty-IsDatabase : IsDatabase any_score ◌==◌ ltb empty
empty-IsDatabase =
    new_database-IsDatabase any_score ◌==◌ ltb empty.entry empty.pairs
      (record { numbers = λ a. refl; lengths = λ a. refl })

pub no_entries : bag empty.db any ≡ 0
unfolding count_all
no_entries = refl

-- "k", "v", "get" and so on
abbrev pub k : Bytes
k = 107 ∷ []

abbrev pub v : Bytes
v = 118 ∷ 118 ∷ []

abbrev set_k : List Bytes
set_k = (115 ∷ 69 ∷ 116 ∷ []) ∷ k ∷ v ∷ []

abbrev get_k : List Bytes
get_k = (103 ∷ 101 ∷ 116 ∷ []) ∷ k ∷ []

all_of_texts : Unit {0}
unfolding run is_call same_text lower c_str set get set_value find_entry new_entry got hash_letters
    move_nodes help_resizing initialize insert look_up node_at detach look_old look_both pop_old
    pop_both start_resizing with_table grow c_map_look_up c_map_insert c_map_pop nil str
all_of_texts = tt

abbrev replied : Database × Bytes → Run Bytes
replied r = ok r.1

-- What was set is what a get replies; the name of a command is read in any case.
set_then_get :
    (run seven five any_score ◌==◌ ltb empty set_k [] >>= λ r.
    run seven five any_score ◌==◌ ltb r.0 get_k [] >>= replied)
    ≡ ok (2 ∷ 2 ∷ 0 ∷ 0 ∷ 0 ∷ v)
unfolding all_of_texts
set_then_get = refl

set-Rewritten_example : Returns (set empty set_k []) λ r.
    Rewritten any_score ◌==◌ ltb empty k (some (with_text v (view empty k))) r.0
    × (r.1 ≡ Serialize.nil [])
set-Rewritten_example =
    set-Rewritten any_score ◌==◌ ltb empty empty-IsDatabase k v (omega (arith, no_entries)) set_k []
      refl refl

-- The data after the first command.
abbrev pub first_set : Returns (set empty set_k []) λ r.
    Rewritten any_score ◌==◌ ltb empty k (some (with_text v (view empty k))) r.0
    × (r.1 ≡ Serialize.nil [])
first_set =
    set-Rewritten any_score ◌==◌ ltb empty empty-IsDatabase k v (omega (arith, no_entries)) set_k []
      refl refl

abbrev pub one : Database
one = first_set.0.0

pub one-IsDatabase : IsDatabase any_score ◌==◌ ltb one
one-IsDatabase = first_set.2.0.database

get-reply_example :
    Returns
      (get one get_k [])
      λ r. Kept any_score ◌==◌ ltb one r.0 × (r.1 ≡ text_reply [] (view one k))
get-reply_example = get-reply any_score ◌==◌ ltb one one-IsDatabase k get_k [] refl

del-Rewritten_example : Returns (del one get_k []) λ r.
    Rewritten any_score ◌==◌ ltb one k none r.0 × (r.1 ≡ Serialize.num [] (is_found (view one k)))
del-Rewritten_example = del-Rewritten any_score ◌==◌ ltb one one-IsDatabase k get_k [] refl

abbrev tree_of : Option ZSet → Tree
tree_of none = leaf
tree_of (some s) = s.tree

-- "zadd", "k", "1.5", "v" and "zrem", "k", "v"
abbrev zadd_k : List Bytes
zadd_k = (122 ∷ 97 ∷ 100 ∷ 100 ∷ []) ∷ k ∷ (49 ∷ 46 ∷ 53 ∷ []) ∷ v ∷ []

abbrev zrem_k : List Bytes
zrem_k = (122 ∷ 114 ∷ 101 ∷ 109 ∷ []) ∷ k ∷ v ∷ []

all_of_sets : Unit {0}
unfolding all_of_texts zadd zadd_scored zadd_entry zadd_to str_to_double memcmp less map_cmp locate
    delete lookup popped pop create place tree_add update add_new added add slice fix_avl rebalance
    fix_left fix_right rotate_left rotate_right plug depth Avl.count Avl.update max ltz eqz num
all_of_sets = tt

-- The data after "zadd", computed.
abbrev sorted_entry : Entry
sorted_entry = record {
  key = k;
  type = 1;
  val = [];
  set = some (record {
    tree = node 1 1 leaf 0 leaf;
    map = record {
      table1 = record {
        slots = [] ∷ (record { code = 211533301; item = 0 } ∷ []) ∷ [] ∷ [] ∷ [];
        mask = 3;
        size = 1;
      };
      table2 = init_table;
      resizing_position = 0;
    };
  });
}

abbrev scored : Database
scored = record {
  db = record {
    table1 = record {
      slots = (record { code = 1879901584; item = 0 } ∷ []) ∷ [] ∷ [] ∷ [] ∷ [];
      mask = 3;
      size = 1;
    };
    table2 = init_table;
    resizing_position = 0;
  };
  next = 1;
  entry =
      set_entry
        (set_entry empty.entry 0 (record { key = k; type = 1; val = []; set = some new_set })) 0
        sorted_entry;
  pairs = record {
    next = 1;
    pair = set_pair empty.pairs.pair 0 (record { score = 7; len = 2; name = v });
  };
}

-- "zquery", "k", "1.5", "", "5", "5"
abbrev zquery_k : List Bytes
zquery_k =
    (122 ∷ 113 ∷ 117 ∷ 101 ∷ 114 ∷ 121 ∷ [])
    ∷ k
    ∷ (49 ∷ 46 ∷ 53 ∷ [])
    ∷ []
    ∷ (53 ∷ [])
    ∷ (53 ∷ [])
    ∷ []
