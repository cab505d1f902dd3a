-- ===== src/CxxMap/Moves.antt =====
-- `lookUp` of map/cxx/map.cxx takes the node that it finds out of the table, with those behind it.
use coxx.Base.{ℕ, ◌+◌, ◌≡◌, Bool, some, get_elem?}
use coxx.Map.{Node, Chain, Table}
use coxx.Map.Slots.{count, count_all}

-- What a lookup takes out of the table: the nodes that it returns, those of the slot from the first
-- match on; none that the key matches stays in the slot, and the size is as before.
pub record Lost {A : Type 0} (t : Table A) (slot : ℕ) (p : Node A → Bool) (r : Table A × Chain A)
    : Type 0 where
  pub moved : (q : Node A → Bool) → count_all q r.0.slots + count q r.1 ≡ count_all q t.slots
  pub left : Chain A
  pub there : get_elem? r.0.slots slot ≡ some left
  pub misses : count p left ≡ 0
  pub size : r.0.size ≡ t.size
