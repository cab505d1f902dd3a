-- ===== src/Zset.antt =====
-- zset/zset.hxx and zset/zset.cxx: sorted sets. A pair is its address: the tree and the map hold
-- addresses, and the memory of pairs gives the pair at each. Doubles are bit patterns, and their
-- comparisons are parameters.
pub mod Query
pub mod Lex
pub mod Place
pub mod Tally
pub mod State
pub mod Delete
pub mod Look
pub mod Change
pub mod Swap
pub mod Update
pub mod Create
pub mod Add
pub mod Pop
pub mod Range
pub mod Steps
use coxx.Base.{
  ℕ, zero, suc, ◌+◌, ◌-◌, ◌*◌, ◌%◌, ◌^◌, Bool, true, false, not, Option, none, some, List, [], ◌∷◌,
  if◌then◌else◌, ltb, ◌==◌,
}
use coxx.Base.Bytes.{Bytes, u32_mod, slice}
use coxx.Base.Int.{ℤ, pos, negsuc, ltz, eqz}
use coxx.Base.Run.{Run, ok, fault, need, ◌>>=◌}
use coxx.Map.{Node, Map, init_map, c_map_look_up, c_map_insert, c_map_pop, c_map_destroy}
use coxx.Avl.{
  Tree, leaf, node, single, Ancestors, from_left, from_right, count, fix_avl, del_avl, offset_avl,
  address,
}

-- `ZNode` without the links, which the tree and the map have.
pub record ZNode : Type 0 where
  pub score : ℕ
  pub len : ℕ
  pub name : Bytes

-- `std::memcmp` of so many bytes
unfoldable pub memcmp : Bytes → Bytes → ℕ → ℤ
memcmp (a ∷ xs) (b ∷ ys) (suc n) =
    if ltb a b then negsuc 0 else if ltb b a then pos 1 else memcmp xs ys n
memcmp xs ys n = pos 0

abbrev pub min : ℕ → ℕ → ℕ
min a b = if ltb b a then b else a

module _ (equals : ℕ → ℕ → Bool) (is_below : ℕ → ℕ → Bool) (pair : ℕ → ZNode) where
  -- `less`: the node at an address against a pair.
  unfoldable pub less : ℕ → ℕ → Bytes → ℕ → Bool
  less lhs score name len =
      let zl = pair lhs in
      let order = memcmp zl.name name (min zl.len len) in
      if not (equals zl.score score)
      then is_below zl.score score
      else if not (eqz order (pos 0))
      then ltz order (pos 0)
      else ltb zl.len len

  -- The loop of `zset::query`, with the candidate.
  unfoldable pub search : Tree → Option ℕ → ℕ → Bytes → ℕ → Option ℕ
  search leaf found score name len = found
  search (node d c l x r) found score name len =
      if less x score name len
      then search r found score name len
      else search l (some x) score name len

  unfoldable pub query : Tree → ℕ → Bytes → ℕ → Option ℕ
  query tree score name len = search tree none score name len

-- `stringHash`: a `char` is signed, and the sums and products are those of `uint32_t`.
abbrev pub widen : ℕ → ℕ
widen letter = if ltb letter 128 then letter else letter + u32_mod - 256

unfoldable pub hash_letters : ℕ → Bytes → ℕ
hash_letters hash [] = hash
hash_letters hash (letter ∷ rest) =
    hash_letters ((hash + widen letter) % u32_mod * 0x01000193 % u32_mod) rest

abbrev pub string_hash : Bytes → ℕ
string_hash text = hash_letters 0x811C9DC5 text

-- The memory of pairs: the next free address, and the pair at each address.
pub record Pairs : Type 0 where
  pub next : ℕ
  pub pair : ℕ → ZNode

abbrev pub set_pair : (ℕ → ZNode) → ℕ → ZNode → ℕ → ZNode
set_pair pair a z b = if b == a then z else pair b

-- `ZSet`
pub record ZSet : Type 0 where
  pub tree : Tree
  pub map : Map ℕ

abbrev pub new_set : ZSet
new_set = record { tree = leaf; map = init_map }

abbrev pub is_leaf : Tree → Bool
is_leaf leaf = true
is_leaf (node d c l x r) = false

-- `mapCmp`, at the key.
unfoldable pub map_cmp : (ℕ → ZNode) → Bytes → ℕ → ℕ → Bool
map_cmp pair name len a =
    let znode = pair a in
    if not (znode.len == len) then false else eqz (memcmp znode.name name znode.len) (pos 0)

-- Where the pointer to a node leads: the node with the way up from it.
unfoldable pub locate : ℕ → Tree → Ancestors → Option (Tree × Ancestors)
locate a leaf up = none
locate a (node d c l x r) up =
    let on_left = locate a l (from_left d c x r ∷ up) in
    let on_right = locate a r (from_right d c l x ∷ up) in
    if x == a
    then some (node d c l x r, up)
    else elim on_left [ none ↦ on_right | some found ↦ some found ]

-- `avl::del` of the node at an address.
unfoldable pub delete : Tree → ℕ → Run Tree
delete tree a = need (locate a tree []) >>= λ found. del_avl (count found.0) found.0 found.1

-- `found ? containerOf(found, ZNode, map) : nullptr`
abbrev pub item_of : Option (Node ℕ) → Option ℕ
item_of none = none
item_of (some n) = some n.item

-- `zset::lookup`; the map may move nodes on the way.
unfoldable pub lookup : (ℕ → ZNode) → ZSet → Bytes → ℕ → Run (ZSet × Option ℕ)
lookup pair set name len =
    if is_leaf set.tree
    then ok (set, none)
    else (c_map_look_up set.map (string_hash name) (map_cmp pair name len) >>= λ r.
        ok (record set { map = r.0 }, item_of r.1))

-- `zset::pop` from the map's answer on.
unfoldable pub popped : ZSet → Map ℕ → Option (Node ℕ) → Run (ZSet × Option ℕ)
popped set map none = ok (record set { map = map }, none)
popped set map (some n) =
    delete set.tree n.item >>= λ tree. ok (record { map = map; tree = tree }, some n.item)

-- `zset::pop`
unfoldable pub pop : (ℕ → ZNode) → ZSet → Bytes → ℕ → Run (ZSet × Option ℕ)
pop pair set name len =
    if is_leaf set.tree
    then ok (set, none)
    else (c_map_pop set.map (string_hash name) (map_cmp pair name len) >>= λ r. popped set r.0 r.1)

-- `create`
unfoldable pub create : Pairs → Bytes → ℕ → ℕ → Run (Pairs × ℕ)
create pairs name len score = need (slice name 0 len) >>= λ copy. ok (
  record {
    next = suc pairs.next;
    pair = set_pair pairs.pair pairs.next (record { score = score; len = len; name = copy });
  },
  pairs.next,
)

-- `zset::offset`
unfoldable pub offset : ZSet → Option ℕ → ℤ → Run (Option ℕ)
offset set none off = ok none
offset set (some a) off = need (locate a set.tree []) >>= λ from.
    offset_avl from.0 from.1 off >>= λ to. elim to [
      | none ↦ ok none
      | some cursor ↦ address cursor.0 >>= λ b. ok (some b)
    ]

-- `zset::dispose`
unfoldable pub dispose : ZSet → ZSet
dispose set = record set { map = c_map_destroy set.map }

module _ (equals : ℕ → ℕ → Bool) (is_below : ℕ → ℕ → Bool) where
  -- `less` of two nodes
  abbrev pub less_node : (ℕ → ZNode) → ℕ → ℕ → Bool
  less_node pair lhs rhs =
      less equals is_below pair lhs (pair rhs).score (pair rhs).name (pair rhs).len

  -- The loop of `treeAdd`, down to the null pointer where the new node is attached.
  unfoldable pub place : (ℕ → ZNode) → ℕ → Tree → Ancestors → Ancestors
  place pair new leaf up = up
  place pair new (node d c l x r) up =
      if less_node pair new x
      then place pair new l (from_left d c x r ∷ up)
      else place pair new r (from_right d c l x ∷ up)

  -- `treeAdd`
  unfoldable pub tree_add : (ℕ → ZNode) → Tree → ℕ → Run Tree
  tree_add pair tree new = fix_avl (single new) (place pair new tree [])

  -- `update`
  unfoldable pub update : Pairs → ZSet → ℕ → ℕ → Run (Pairs × ZSet)
  update pairs set a score =
      let scored = set_pair pairs.pair a (record (pairs.pair a) { score = score }) in
      if equals (pairs.pair a).score score
      then ok (pairs, set)
      else (delete set.tree a >>= λ tree. tree_add scored tree a >>= λ tree.
          ok (record pairs { pair = scored }, record set { tree = tree }))

  -- `zset::add` of a pair that is not there.
  unfoldable pub add_new : Pairs → ZSet → Bytes → ℕ → ℕ → Run (Pairs × ZSet)
  add_new pairs set name len score = create pairs name len score >>= λ new.
      c_map_insert set.map (record { code = string_hash name; item = new.1 }) >>= λ map.
      tree_add new.0.pair set.tree new.1 >>= λ tree. ok (new.0, record { tree = tree; map = map })

  -- `zset::add` from the answer of `lookup` on: whether a pair was added.
  unfoldable pub added : Pairs → ZSet → Bytes → ℕ → ℕ → Option ℕ → Run (Pairs × ZSet × Bool)
  added pairs set name len score none =
      add_new pairs set name len score >>= λ r. ok (r.0, r.1, true)
  added pairs set name len score (some a) = update pairs set a score >>= λ r. ok (r.0, r.1, false)

  unfoldable pub add : Pairs → ZSet → Bytes → ℕ → ℕ → Run (Pairs × ZSet × Bool)
  add pairs set name len score =
      lookup pairs.pair set name len >>= λ r. added pairs r.0 name len score r.1
