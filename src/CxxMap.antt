-- ===== src/CxxMap.antt =====
-- map/cxx/map.hxx and map/cxx/map.cxx: the hash map over `std::unique_ptr`. The structures are those of
-- Map, with a chain in place of the pointer that owns it; a pointer that was moved from owns no chain.
pub mod Moves
use coxx.Base.{
  ℕ, zero, suc, ◌+◌, ◌-◌, ◌*◌, ◌/◌, ◌%◌, Bool, true, false, not, ◌&&◌, Option, none, some, List, [],
  ◌∷◌, ltb, leb, ◌==◌, if◌then◌else◌, length, get_elem?, set, replicate, bit_and,
}
use coxx.Base.Bytes.{add64, u64_mod}
use coxx.Base.Run.{Run, ok, out_of_fuel, ◌>>=◌, need, check}
use coxx.Map.{
  Node, Chain, Table, Map, init_table, init_map, is_null, matches, enough_fuel, resizing_work,
  max_load_factor,
}

module _ {A : Type 0} where
  unfoldable pub initialize : ℕ → Run (Table A)
  initialize n =
      check (ltb 0 n && bit_and (n - 1) n == 0)
        (ok (record { slots = replicate n []; mask = n - 1; size = 0 }))

  unfoldable pub insert : Table A → Node A → Run (Table A)
  insert t node = do
    let position = bit_and node.code t.mask
    chain ← need (get_elem? t.slots position)
    ok (record t { slots = set t.slots position (node ∷ chain); size = add64 t.size 1 })

  -- The loop of `lookUp`: what stays of the chain, and what the pointer to the node found owned, the node
  -- and all behind it, which is moved out.
  unfoldable pub move_out : (Node A → Bool) → Chain A → Chain A × Chain A
  move_out p [] = ([], [])
  move_out p (node ∷ chain) =
      let rest = move_out p chain in if p node then ([], node ∷ chain) else (node ∷ rest.0, rest.1)

  -- `lookUp`: the pointer that it returns owns a chain, none for null.
  unfoldable pub look_up : Table A → ℕ → (A → Bool) → Run (Table A × Chain A)
  look_up t code eq =
      if is_null t.slots
      then ok (t, [])
      else (need (get_elem? t.slots (bit_and code t.mask)) >>= λ chain.
          let moved = move_out (matches code eq) chain in
          ok (record t { slots = set t.slots (bit_and code t.mask) moved.0 }, moved.1))

  -- `detach` of what a pointer owns: the node, what the pointer owns then, and the table.
  unfoldable pub detach : Table A → Chain A → Table A × Option (Node A) × Chain A
  detach t [] = (t, none, [])
  detach t (node ∷ chain) = (record t { size = (t.size + u64_mod - 1) % u64_mod }, some node, chain)

  -- A round of `helpResizing` at a slot that is not empty.
  unfoldable pub move_node : Map A → Node A → Chain A → Run (Map A)
  move_node m node chain =
      let (old, detached, rest) = detach m.table2 (node ∷ chain) in
      insert m.table1 node >>= λ new. ok (record m {
        table1 = new;
        table2 = record old { slots = set old.slots m.resizing_position rest };
      })

  -- `while (work < RESIZING_WORK && map.table2.size > 0)`
  unfoldable pub move_nodes : ℕ → ℕ → Map A → Run (Map A)
  move_nodes zero work m = out_of_fuel
  move_nodes (suc fuel) work m =
      let skip =
        move_nodes fuel work (record m { resizing_position = add64 m.resizing_position 1 }) in
      let round = need (get_elem? m.table2.slots m.resizing_position) >>= λ chain. elim chain [
        | [] ↦ skip
        | node ∷ rest ↦ move_node m node rest >>= λ m. move_nodes fuel (work + 1) m
      ] in
      if ltb work resizing_work && ltb 0 m.table2.size then round else ok m

  unfoldable pub help_resizing : Map A → Run (Map A)
  help_resizing m = move_nodes (enough_fuel m) 0 m >>= λ moved. ok (
      if moved.table2.size == 0 && not (is_null moved.table2.slots)
      then record moved { table2 = init_table }
      else moved)

  unfoldable pub start_resizing : Map A → Run (Map A)
  start_resizing m = check (is_null m.table2.slots) (
      initialize ((m.table1.mask + 1) * 2 % u64_mod) >>= λ fresh.
      ok (record { table1 = fresh; table2 = m.table1; resizing_position = 0 }))

  -- `mapLookUp`, which hands over what the found pointer owns.
  unfoldable pub map_look_up : Map A → ℕ → (A → Bool) → Run (Map A × Chain A)
  map_look_up m code eq = help_resizing m >>= λ m. look_up m.table1 code eq >>= λ first.
      elim first.1 [
        | [] ↦ look_up m.table2 code eq >>= λ second.
            ok (record m { table1 = first.0; table2 = second.0 }, second.1)
        | node ∷ chain ↦ ok (record m { table1 = first.0 }, node ∷ chain)
      ]

  unfoldable pub map_insert : Map A → Node A → Run (Map A)
  map_insert m node =
      (if is_null m.table1.slots
        then (initialize 4 >>= λ t. ok (record m { table1 = t }))
        else ok m)
      >>= λ m. insert m.table1 node >>= λ t.
          (if is_null m.table2.slots && leb max_load_factor (t.size / (t.mask + 1))
            then start_resizing (record m { table1 = t })
            else ok (record m { table1 = t }))
          >>= λ m. help_resizing m

  -- `mapPop`: what stands behind the node in its chain is lost with the local pointer.
  unfoldable pub map_pop : Map A → ℕ → (A → Bool) → Run (Map A × Option (Node A))
  map_pop m code eq = help_resizing m >>= λ m. look_up m.table1 code eq >>= λ first. elim first.1 [
    | [] ↦ look_up m.table2 code eq >>= λ second.
        let (t, node, rest) = detach second.0 second.1 in
        ok (record m { table1 = first.0; table2 = t }, node)
    | node ∷ chain ↦
        let (t, found, rest) = detach first.0 (node ∷ chain) in ok (record m { table1 = t }, found)
  ]

  unfoldable pub map_size : Map A → ℕ
  map_size m = add64 m.table1.size m.table2.size

  unfoldable pub map_destroy : Map A → Map A
  map_destroy m = init_map
