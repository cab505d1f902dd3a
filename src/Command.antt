-- ===== src/Command.antt =====
-- common/req.hxx and common/req.cxx: the commands. An entry is its address: the map
-- holds addresses, and the memory of entries gives the entry at each. A string that is swapped away is
-- not read again, so that the command list stays as it is here.
pub mod Dispatch
pub mod Keyed
pub mod State
pub mod Find
pub mod Drop
pub mod Insert
pub mod Framed
pub mod Replace
pub mod Texts
pub mod Sets
pub mod Remove
pub mod Store
pub mod Ranges
pub mod Query
pub mod Range
pub mod Total
use coxx.Base.{
  ℕ, zero, suc, ◌+◌, ◌*◌, ◌%◌, Bool, true, false, not, ◌&&◌, Option, none, some, List, [], ◌∷◌,
  if◌then◌else◌, ltb, leb, ◌==◌, length, get_elem?,
}
use coxx.Base.Bytes.{Bytes, u32_mod}
use coxx.Base.Int.{ℤ, pos, ltz}
use coxx.Base.Run.{Run, ok, fault, out_of_fuel, need, ◌>>=◌}
use coxx.Map.{Node, Map, c_map_look_up, c_map_insert, c_map_pop}
use coxx.Avl.{count}
use coxx.Zset.{ZNode, string_hash, Pairs, ZSet, new_set, item_of, lookup, pop, query, offset, add}
use coxx.Entry.{Entry, str_type, zset_type, same_text, entry_equality, keys}
use coxx.Serialize.{nil, str, num, dbl, err, arr, begin_arr, end_arr, nil_tag}

-- `Error`
abbrev pub unknown : ℕ
unknown = 1

abbrev pub type_error : ℕ
type_error = 3

abbrev pub arg_error : ℕ
arg_error = 4

-- "expect zset", "expect fp number", "expect int" and "Unknown cmd"
abbrev pub expect_zset_text : Bytes
expect_zset_text = 101 ∷ 120 ∷ 112 ∷ 101 ∷ 99 ∷ 116 ∷ 32 ∷ 122 ∷ 115 ∷ 101 ∷ 116 ∷ []

abbrev pub expect_fp_text : Bytes
expect_fp_text =
    101 ∷ 120 ∷ 112 ∷ 101 ∷ 99 ∷ 116 ∷ 32 ∷ 102 ∷ 112 ∷ 32 ∷ 110 ∷ 117 ∷ 109 ∷ 98 ∷ 101 ∷ 114 ∷ []

abbrev pub expect_int_text : Bytes
expect_int_text = 101 ∷ 120 ∷ 112 ∷ 101 ∷ 99 ∷ 116 ∷ 32 ∷ 105 ∷ 110 ∷ 116 ∷ []

abbrev pub unknown_text : Bytes
unknown_text = 85 ∷ 110 ∷ 107 ∷ 110 ∷ 111 ∷ 119 ∷ 110 ∷ 32 ∷ 99 ∷ 109 ∷ 100 ∷ []

-- `CommandMap`, with the memory of entries, the next of their addresses that is free, and the memory of
-- pairs.
pub record Database : Type 0 where
  pub db : Map ℕ
  pub next : ℕ
  pub entry : ℕ → Entry
  pub pairs : Pairs

abbrev pub set_entry : (ℕ → Entry) → ℕ → Entry → ℕ → Entry
set_entry entry a e b = if b == a then e else entry b

-- The lookup that most commands begin with, and `containerOf` of its result.
unfoldable pub find_entry : Database → Bytes → Run (Database × Option ℕ)
find_entry state key =
    c_map_look_up state.db (string_hash key) (entry_equality state.entry key) >>= λ r.
    ok (record state { db = r.0 }, item_of r.1)

-- `new Entry()`, filled in, and its insertion.
unfoldable pub new_entry : Database → Entry → Run (Database × ℕ)
new_entry state e =
    c_map_insert state.db (record { code = string_hash e.key; item = state.next }) >>= λ m. ok (
      record state { db = m; next = suc state.next; entry = set_entry state.entry state.next e },
      state.next,
    )

-- A set of the memory in its entry.
abbrev pub put_set : Database → ℕ → ZSet → Database
put_set state a s = record state {
  entry = set_entry state.entry a (record (state.entry a) { set = some s });
}

-- `expectZSet`, from the answer of the map on: no entry after a reply.
unfoldable pub expected : Database → Bytes → Option ℕ → Run (Database × Bytes × Option ℕ)
expected state output none = ok (state, nil output, none)
expected state output (some a) =
    if not ((state.entry a).type == zset_type)
    then ok (state, err output type_error expect_zset_text, none)
    else ok (state, output, some a)

unfoldable pub expect_zset : Database → Bytes → Bytes → Run (Database × Bytes × Option ℕ)
expect_zset state output key = find_entry state key >>= λ r. expected r.0 output r.1

-- `get`, from the answer of the map on.
unfoldable pub got : Database → Bytes → Option ℕ → Bytes
got state output none = nil output
got state output (some a) = str output (state.entry a).val

unfoldable pub get : Database → List Bytes → Bytes → Run (Database × Bytes)
get state commands output = do
  key ← need (get_elem? commands 1)
  r ← find_entry state key
  ok (r.0, got r.0 output r.1)

-- `set`, from the answer of the map on.
unfoldable pub set_value : Database → Bytes → Bytes → Option ℕ → Run Database
set_value state key val (some a) =
    ok (record state { entry = set_entry state.entry a (record (state.entry a) { val = val }) })
set_value state key val none =
    new_entry state (record { key = key; type = str_type; val = val; set = none }) >>= λ r. ok r.0

unfoldable pub set : Database → List Bytes → Bytes → Run (Database × Bytes)
set state commands output = do
  key ← need (get_elem? commands 1)
  r ← find_entry state key
  val ← need (get_elem? commands 2)
  after ← set_value r.0 key val r.1
  ok (after, nil output)

-- `node ? 1 : 0`
abbrev pub is_found {ℓ} : {A : Type ℓ} → Option A → ℕ
is_found none = 0
is_found (some a) = 1

unfoldable pub del : Database → List Bytes → Bytes → Run (Database × Bytes)
del state commands output = do
  key ← need (get_elem? commands 1)
  r ← c_map_pop state.db (string_hash key) (entry_equality state.entry key)
  ok (record state { db = r.0 }, num output (is_found r.1))

-- `zrem`, from the answer of `expectZSet` on.
unfoldable pub zrem_from : Database → Bytes → Option ℕ → Bytes → Run (Database × Bytes)
zrem_from state output none name = ok (state, output)
zrem_from state output (some a) name = do
  s ← need (state.entry a).set
  r ← pop state.pairs.pair s name (length name)
  ok (put_set state a r.0, num output (is_found r.1))

unfoldable pub zrem : Database → List Bytes → Bytes → Run (Database × Bytes)
zrem state commands output = do
  key ← need (get_elem? commands 1)
  r ← expect_zset state output key
  name ← need (get_elem? commands 2)
  zrem_from r.0 r.1 r.2 name

-- `node ? out::dbl(output, node->score) : out::nil(output)`
unfoldable pub score_reply : Pairs → Bytes → Option ℕ → Bytes
score_reply pairs output none = nil output
score_reply pairs output (some p) = dbl output (pairs.pair p).score

-- `zscore`, from the answer of `expectZSet` on.
unfoldable pub zscore_in : Database → Bytes → Option ℕ → Bytes → Run (Database × Bytes)
zscore_in state output none name = ok (state, output)
zscore_in state output (some a) name = do
  s ← need (state.entry a).set
  r ← lookup state.pairs.pair s name (length name)
  ok (put_set state a r.0, score_reply state.pairs output r.1)

unfoldable pub zscore : Database → List Bytes → Bytes → Run (Database × Bytes)
zscore state commands output = do
  key ← need (get_elem? commands 1)
  r ← expect_zset state output key
  name ← need (get_elem? commands 2)
  zscore_in r.0 r.1 r.2 name
