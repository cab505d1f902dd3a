-- ===== src/Map.antt =====
-- map/c/map.h and map/c/map.c: a hash map of chained nodes that grows by moving a few nodes from
-- its old table to its new one with each call.
pub mod Slots
pub mod Tables
pub mod Moved
pub mod Resize
pub mod Insert
pub mod Methods
pub mod RoundTrip
use coxx.Base.{
  ℕ, zero, suc, ◌+◌, ◌-◌, ◌*◌, ◌/◌, ◌%◌, ◌^◌, Bool, true, false, not, ◌&&◌, Option, none, some,
  List, [], ◌∷◌, ◌++◌, ltb, leb, ◌==◌, if◌then◌else◌, length, get_elem?, set, replicate, bit_and,
}
use coxx.Base.Bytes.{add64, u64_mod}
use coxx.Base.Run.{Run, ok, fault, out_of_fuel, ◌>>=◌, need, check}

abbrev pub resizing_work : ℕ
resizing_work = 128

abbrev pub max_load_factor : ℕ
max_load_factor = 8

-- `CNode`: the hash code, and the record that the node is embedded in.
pub record Node {ℓ} (A : Type ℓ) : Type ℓ where
  pub code : ℕ
  pub item : A

abbrev pub Chain {ℓ} : Type ℓ → Type ℓ
Chain A = List (Node A)

-- `CTable`: the array of chains is empty where the code has a null pointer.
pub record Table {ℓ} (A : Type ℓ) : Type ℓ where
  pub slots : List (Chain A)
  pub mask : ℕ
  pub size : ℕ

-- `CMap`
pub record Map {ℓ} (A : Type ℓ) : Type ℓ where
  pub table1 : Table A
  pub table2 : Table A
  pub resizing_position : ℕ

abbrev pub is_null {ℓ} : {A : Type ℓ} → List A → Bool
is_null [] = true
is_null (x ∷ xs) = false

-- `from`, the address of the pointer to a node: a slot, and how many nodes stand before it.
abbrev pub Cursor : Type 0
Cursor = ℕ × ℕ

module _ {ℓ} {A : Type ℓ} where
  -- `initTable`
  abbrev pub init_table : Table A
  init_table = record { slots = []; mask = 0; size = 0 }

  -- `initMap`
  abbrev pub init_map : Map A
  init_map = record { table1 = init_table; table2 = init_table; resizing_position = 0 }

  -- The assertion is `n > 0 && ((n - 1) & n) == 0`.
  unfoldable pub initialize : ℕ → Run (Table A)
  initialize n =
      check (ltb 0 n && bit_and (n - 1) n == 0)
        (ok (record { slots = replicate n []; mask = n - 1; size = 0 }))

  unfoldable pub insert : Table A → Node A → Run (Table A)
  insert t node = do
    let position = bit_and node.code t.mask
    chain ← need (get_elem? t.slots position)
    ok (record t { slots = set t.slots position (node ∷ chain); size = add64 t.size 1 })

  -- `curr->code == key->code && eq(curr, key)`; `eq` is the callback at the key.
  abbrev pub matches : ℕ → (A → Bool) → Node A → Bool
  matches code eq node = node.code == code && eq node.item

  -- The loop of `lookUp`, from the node behind the first `i` of its chain.
  unfoldable pub find : (Node A → Bool) → ℕ → Chain A → Option ℕ
  find p i [] = none
  find p i (node ∷ chain) = if p node then some i else find p (i + 1) chain

  unfoldable pub look_up : Table A → ℕ → (A → Bool) → Run (Option Cursor)
  unfolding find
  look_up t code eq = if is_null t.slots then ok none else do
    let position = bit_and code t.mask
    chain ← need (get_elem? t.slots position)
    ok (elim (find (matches code eq) 0 chain) [ none ↦ none | some i ↦ some (position, i) ])

  unfoldable pub remove_at : ℕ → Chain A → Chain A
  remove_at i [] = []
  remove_at zero (node ∷ chain) = chain
  remove_at (suc i) (node ∷ chain) = node ∷ remove_at i chain

  -- `*from`
  unfoldable pub node_at : Table A → Cursor → Run (Node A)
  node_at t (position, i) = do chain ← need (get_elem? t.slots position); need (get_elem? chain i)

  unfoldable pub detach : Table A → Cursor → Run (Node A × Table A)
  unfolding remove_at node_at
  detach t (position, i) = do
    chain ← need (get_elem? t.slots position)
    node ← need (get_elem? chain i)
    ok (
      node,
      record t {
        slots = set t.slots position (remove_at i chain);
        size = (t.size + u64_mod - 1) % u64_mod;
      },
    )

  -- The body of the loop of `helpResizing`, at a slot whose first node is to be moved.
  unfoldable pub move_node : Map A → Run (Map A)
  unfolding detach insert
  move_node m = do
    (node, old) ← detach m.table2 (m.resizing_position, 0)
    new ← insert m.table1 node
    ok (record m { table1 = new; table2 = old })

  -- `while (work < RESIZING_WORK && map->table2.size > 0)`
  unfoldable pub move_nodes : ℕ → ℕ → Map A → Run (Map A)
  unfolding move_node
  move_nodes zero work m = out_of_fuel
  move_nodes (suc fuel) work m =
      let skip =
        move_nodes fuel work (record m { resizing_position = add64 m.resizing_position 1 }) in
      let move = move_node m >>= move_nodes fuel (work + 1) in
      let round = do
        chain ← need (get_elem? m.table2.slots m.resizing_position)
        if is_null chain then skip else move
      in if ltb work resizing_work && ltb 0 m.table2.size then round else ok m

  -- Each round moves a node or passes a slot.
  abbrev pub enough_fuel : Map A → ℕ
  enough_fuel m = suc (resizing_work + length m.table2.slots)

  unfoldable pub help_resizing : Map A → Run (Map A)
  unfolding move_nodes
  help_resizing m = do
    moved ← move_nodes (enough_fuel m) 0 m
    ok (
        if moved.table2.size == 0 && not (is_null moved.table2.slots)
        then record moved { table2 = init_table }
        else moved)

  unfoldable pub start_resizing : Map A → Run (Map A)
  start_resizing m = check (is_null m.table2.slots) do
    fresh ← initialize ((m.table1.mask + 1) * 2 % u64_mod)
    ok (record { table1 = fresh; table2 = m.table1; resizing_position = 0 })

  -- The second search of `CMapLookUp`, in the old table.
  unfoldable pub look_old : Map A → ℕ → (A → Bool) → Run (Map A × Option (Node A))
  look_old m code eq = do
    second ← look_up m.table2 code eq
    elim second [
      | some from ↦ do node ← node_at m.table2 from; ok (m, some node)
      | none ↦ ok (m, none)
    ]

  -- `CMapLookUp` behind `helpResizing`.
  unfoldable pub look_both : Map A → ℕ → (A → Bool) → Run (Map A × Option (Node A))
  look_both m code eq = do
    first ← look_up m.table1 code eq
    elim first [
      | some from ↦ do node ← node_at m.table1 from; ok (m, some node)
      | none ↦ look_old m code eq
    ]

  -- `CMapLookUp`
  unfoldable pub c_map_look_up : Map A → ℕ → (A → Bool) → Run (Map A × Option (Node A))
  c_map_look_up m code eq = do m ← help_resizing m; look_both m code eq

  -- The first lines of `CMapInsert`.
  unfoldable pub with_table : Map A → Run (Map A)
  with_table m =
      if is_null m.table1.slots then (do t ← initialize 4; ok (record m { table1 = t })) else ok m

  -- The test of the load factor in `CMapInsert`.
  unfoldable pub grow : Map A → Run (Map A)
  grow m =
      if is_null m.table2.slots && leb max_load_factor (m.table1.size / (m.table1.mask + 1))
      then start_resizing m
      else ok m

  -- `CMapInsert`
  unfoldable pub c_map_insert : Map A → Node A → Run (Map A)
  c_map_insert m node = do
    m ← with_table m
    t ← insert m.table1 node
    m ← grow (record m { table1 = t })
    help_resizing m

  -- The second search of `CMapPop`, in the old table.
  unfoldable pub pop_old : Map A → ℕ → (A → Bool) → Run (Map A × Option (Node A))
  pop_old m code eq = do
    second ← look_up m.table2 code eq
    elim second [
      | some from ↦ do (node, t) ← detach m.table2 from; ok (record m { table2 = t }, some node)
      | none ↦ ok (m, none)
    ]

  -- `CMapPop` behind `helpResizing`.
  unfoldable pub pop_both : Map A → ℕ → (A → Bool) → Run (Map A × Option (Node A))
  pop_both m code eq = do
    first ← look_up m.table1 code eq
    elim first [
      | some from ↦ do (node, t) ← detach m.table1 from; ok (record m { table1 = t }, some node)
      | none ↦ pop_old m code eq
    ]

  -- `CMapPop`
  unfoldable pub c_map_pop : Map A → ℕ → (A → Bool) → Run (Map A × Option (Node A))
  c_map_pop m code eq = do m ← help_resizing m; pop_both m code eq

  -- `CMapSize`
  unfoldable pub c_map_size : Map A → ℕ
  c_map_size m = add64 m.table1.size m.table2.size

  -- `CMapDestroy`
  unfoldable pub c_map_destroy : Map A → Map A
  c_map_destroy m = init_map
