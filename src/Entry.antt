-- ===== src/Entry.antt =====
-- common/entry.hxx and common/entry.cxx, and the command that is built on `scan`: `Request::keys` of
-- common/req.cxx.
pub mod Keys
use coxx.Base.{
  ℕ, zero, suc, ◌+◌, ◌%◌, Bool, true, false, Option, none, some, List, [], ◌∷◌, if◌then◌else◌, ◌==◌,
  get_elem?,
}
use coxx.Base.Bytes.{Bytes, u32_mod}
use coxx.Base.Run.{Run, ok, need, ◌>>=◌}
use coxx.Zset.{ZSet, dispose}
use coxx.Map.{Node, Chain, Table, Map, c_map_size}
use coxx.Serialize.{arr, str}

-- `enum class KeyType`
abbrev pub str_type : ℕ
str_type = 0

abbrev pub zset_type : ℕ
zset_type = 1

-- `Entry` without the node, which the map has.
pub record Entry : Type 0 where
  pub key : Bytes
  pub type : ℕ
  pub val : Bytes
  pub set : Option ZSet

-- `==` of two `std::string`s
unfoldable pub same_text : Bytes → Bytes → Bool
same_text [] [] = true
same_text (a ∷ xs) (b ∷ ys) = if a == b then same_text xs ys else false
same_text xs ys = false

-- `entryEquality`, at the key.
abbrev pub entry_equality : (ℕ → Entry) → Bytes → ℕ → Bool
entry_equality entry key a = same_text (entry a).key key

-- `entryDelete`
unfoldable pub entry_delete : Entry → Run Entry
entry_delete e =
    if e.type % 256 == zset_type
    then (need e.set >>= λ s. ok (record e { set = some (dispose s) }))
    else ok e

module _ {A S : Type 0} where
  -- `while (node)`
  unfoldable pub scan_chain : (Node A → S → S) → Chain A → S → S
  scan_chain fn [] s = s
  scan_chain fn (node ∷ chain) s = scan_chain fn chain (fn node s)

  -- The loop over the slots, `n` of them from `i` on.
  unfoldable pub scan_slots : (Node A → S → S) → List (Chain A) → ℕ → ℕ → S → Run S
  scan_slots fn slots zero i s = ok s
  scan_slots fn slots (suc n) i s = do
    chain ← need (get_elem? slots i)
    scan_slots fn slots n (suc i) (scan_chain fn chain s)

  -- `fn` is the callback, which works on what `arg` points to.
  unfoldable pub scan : Table A → (Node A → S → S) → S → Run S
  scan t fn s = if t.size == 0 then ok s else scan_slots fn t.slots (t.mask + 1) 0 s

-- `key` is `containerOf(node, Entry, node)->key`.
module _ {A : Type 0} (key : A → Bytes) where
  -- `keyScan`
  unfoldable pub key_scan : Node A → Bytes → Bytes
  key_scan node output = str output (key node.item)

  -- `Request::keys`
  unfoldable pub keys : Map A → Bytes → Run Bytes
  keys m output = do
    first ← scan m.table1 key_scan (arr output (c_map_size m % u32_mod))
    scan m.table2 key_scan first
