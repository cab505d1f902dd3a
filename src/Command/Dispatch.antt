-- ===== src/Command/Dispatch.antt =====
-- common/req.cxx: the commands whose arguments are numbers, and the dispatch.
use coxx.Base.{
  ℕ, zero, suc, ◌+◌, ◌%◌, Bool, false, not, ◌&&◌, Option, none, some, List, [], ◌∷◌, if◌then◌else◌,
  leb, ◌==◌, length, get_elem?,
}
use coxx.Base.Bytes.{Bytes, u32_mod}
use coxx.Base.Int.{ℤ, pos, ltz}
use coxx.Base.Run.{Run, ok, out_of_fuel, need, ◌>>=◌}
use coxx.Avl.{count}
use coxx.Zset.{Pairs, ZSet, new_set, query, offset, add}
use coxx.Entry.{zset_type, same_text, keys}
use coxx.Serialize.{str, num, dbl, err, arr, begin_arr, end_arr, nil_tag}
use coxx.Command.{
  Database, find_entry, new_entry, put_set, expect_zset, get, set, del, zrem, zscore, type_error,
  arg_error, unknown, expect_zset_text, expect_fp_text, expect_int_text, unknown_text,
}

-- The names of the commands
abbrev pub keys_name : Bytes
keys_name = 107 ∷ 101 ∷ 121 ∷ 115 ∷ []

abbrev pub get_name : Bytes
get_name = 103 ∷ 101 ∷ 116 ∷ []

abbrev pub set_name : Bytes
set_name = 115 ∷ 101 ∷ 116 ∷ []

abbrev pub del_name : Bytes
del_name = 100 ∷ 101 ∷ 108 ∷ []

abbrev pub zadd_name : Bytes
zadd_name = 122 ∷ 97 ∷ 100 ∷ 100 ∷ []

abbrev pub zrem_name : Bytes
zrem_name = 122 ∷ 114 ∷ 101 ∷ 109 ∷ []

abbrev pub zscore_name : Bytes
zscore_name = 122 ∷ 115 ∷ 99 ∷ 111 ∷ 114 ∷ 101 ∷ []

abbrev pub zquery_name : Bytes
zquery_name = 122 ∷ 113 ∷ 117 ∷ 101 ∷ 114 ∷ 121 ∷ []

-- `word.c_str()`, up to the first null character.
unfoldable pub c_str : Bytes → Bytes
c_str [] = []
c_str (a ∷ xs) = let rest = c_str xs in if a == 0 then [] else a ∷ rest

-- `strcasecmp` in the "C" locale compares the texts in lower case.
unfoldable pub lower : Bytes → Bytes
lower [] = []
lower (a ∷ xs) = (if leb 65 a && leb a 90 then a + 32 else a) ∷ lower xs

-- `isCommand`
abbrev pub is_command : Bytes → Bytes → Bool
is_command word text = same_text (lower (c_str word)) (lower text)

-- `commandList.size() == n && isCommand(commandList[0], text)`
unfoldable pub is_call : List Bytes → ℕ → Bytes → Bool
is_call [] n text = false
is_call (word ∷ rest) n text = suc (length rest) == n && is_command word text

-- The loop of `zquery`: the output and the count.
unfoldable pub list_pairs : ℕ → Pairs → ZSet → Option ℕ → ℤ → Bytes → ℕ → Run (Bytes × ℕ)
list_pairs zero pairs s from limit output n = out_of_fuel
list_pairs (suc fuel) pairs s none limit output n = ok (output, n)
list_pairs (suc fuel) pairs s (some p) limit output n =
    let rest = offset s (some p) (pos 1) >>= λ next.
    list_pairs fuel pairs s next limit (dbl (str output (pairs.pair p).name) (pairs.pair p).score)
      ((n + 2) % u32_mod) in
    if ltz (pos n) limit then rest else ok (output, n)

-- What `zquery` does after `expectZSet` wrote a reply: nil is made an empty array.
unfoldable pub no_set : Bytes → Run Bytes
no_set output = do
  tag ← need (get_elem? output 0)
  if tag == nil_tag then ok (arr [] 0) else ok output

-- `strtod` gives the double and how many characters it read, and `strtol` a number and the same.
module _ (strtod : Bytes → ℕ × ℕ) (strtol : Bytes → ℤ × ℕ) (number : ℕ → Bool)
    (equals is_below : ℕ → ℕ → Bool) where
  -- `strToDouble`
  unfoldable pub str_to_double : Bytes → Option ℕ
  str_to_double s =
      let (value, used) = strtod (c_str s) in
      if used == length s && number value then some value else none

  -- `strToInt`
  unfoldable pub str_to_int : Bytes → Option ℤ
  str_to_int s =
      let (value, used) = strtol (c_str s) in if used == length s then some value else none

  -- `zset::add` to the set of an entry, and the reply.
  unfoldable pub zadd_to : Database → ℕ → Bytes → ℕ → Bytes → Run (Database × Bytes)
  zadd_to state a name score output = do
    s ← need (state.entry a).set
    r ← add equals is_below state.pairs s name (length name) score
    ok (put_set (record state { pairs = r.0 }) a r.1, num output (if r.2 then 1 else 0))

  -- `zadd`, from the answer of the map on.
  unfoldable pub zadd_entry :
      Database → Bytes → Bytes → ℕ → Bytes → Option ℕ → Run (Database × Bytes)
  zadd_entry state key name score output none =
      new_entry state (record { key = key; type = zset_type; val = []; set = some new_set })
      >>= λ r. zadd_to r.0 r.1 name score output
  zadd_entry state key name score output (some a) =
      if not ((state.entry a).type == zset_type)
      then ok (state, err output type_error expect_zset_text)
      else zadd_to state a name score output

  unfoldable pub zadd_scored : Database → List Bytes → Bytes → Option ℕ → Run (Database × Bytes)
  zadd_scored state commands output none = ok (state, err output arg_error expect_fp_text)
  zadd_scored state commands output (some score) = do
    key ← need (get_elem? commands 1)
    r ← find_entry state key
    name ← need (get_elem? commands 3)
    zadd_entry r.0 key name score output r.1

  unfoldable pub zadd : Database → List Bytes → Bytes → Run (Database × Bytes)
  zadd state commands output = do
    text ← need (get_elem? commands 2)
    zadd_scored state commands output (str_to_double text)

  -- `zquery` on a set.
  unfoldable pub zquery_set : Pairs → ZSet → ℕ → Bytes → ℤ → ℤ → Bytes → Run Bytes
  zquery_set pairs s score name off limit output =
      let (opened, ctx) = begin_arr output in
      offset s (query equals is_below pairs.pair s.tree score name (length name)) off >>= λ node.
      list_pairs (suc (count s.tree)) pairs s node limit opened 0 >>= λ r.
      need (end_arr r.0 ctx r.1)

  unfoldable pub zquery_in :
      Database → Bytes → Option ℕ → ℕ → Bytes → ℤ → ℤ → Run (Database × Bytes)
  zquery_in state output none score name off limit = do reply ← no_set output; ok (state, reply)
  zquery_in state output (some a) score name off limit =
      let listed = do
        s ← need (state.entry a).set
        reply ← zquery_set state.pairs s score name off limit output
        ok (state, reply)
      in if not (ltz (pos 0) limit) then ok (state, arr output 0) else listed

  unfoldable pub zquery_range :
      Database → List Bytes → Bytes → ℕ → Bytes → Option ℤ → Option ℤ → Run (Database × Bytes)
  zquery_range state commands output score name none limit =
      ok (state, err output arg_error expect_int_text)
  zquery_range state commands output score name (some off) none =
      ok (state, err output arg_error expect_int_text)
  zquery_range state commands output score name (some off) (some limit) = do
    key ← need (get_elem? commands 1)
    r ← expect_zset state output key
    zquery_in r.0 r.1 r.2 score name off limit

  unfoldable pub zquery_scored : Database → List Bytes → Bytes → Option ℕ → Run (Database × Bytes)
  zquery_scored state commands output none = ok (state, err output arg_error expect_fp_text)
  zquery_scored state commands output (some score) = do
    name ← need (get_elem? commands 3)
    off ← need (get_elem? commands 4)
    limit ← need (get_elem? commands 5)
    zquery_range state commands output score name (str_to_int off) (str_to_int limit)

  unfoldable pub zquery : Database → List Bytes → Bytes → Run (Database × Bytes)
  zquery state commands output = do
    text ← need (get_elem? commands 2)
    zquery_scored state commands output (str_to_double text)

  -- `Request::operator()`
  unfoldable pub run : Database → List Bytes → Bytes → Run (Database × Bytes)
  run state commands output =
      if is_call commands 1 keys_name
      then (keys (λ (a : ℕ). (state.entry a).key) state.db output >>= λ reply. ok (state, reply))
      else if is_call commands 2 get_name
      then get state commands output
      else if is_call commands 3 set_name
      then set state commands output
      else if is_call commands 2 del_name
      then del state commands output
      else if is_call commands 4 zadd_name
      then zadd state commands output
      else if is_call commands 3 zrem_name
      then zrem state commands output
      else if is_call commands 3 zscore_name
      then zscore state commands output
      else if is_call commands 6 zquery_name
      then zquery state commands output
      else ok (state, err output unknown unknown_text)
