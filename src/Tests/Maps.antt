-- ===== src/Tests/Maps.antt =====
-- map/c/map.c, and `keys` of common/req.cxx
use coxx.Base.{
  ◌<◌, ◌++◌, All, [], ◌∷◌, ℕ, zero, suc, ◌+◌, ◌*◌, ◌≡◌, refl, Bool, arith, ◌==◌, length,
}
use coxx.Base.Run.{Run, ok, ◌>>=◌, Returns}
use coxx.Map.{
  Node, Map, init_table, init_map, matches, move_nodes, help_resizing, initialize, insert, look_up,
  node_at, detach, look_old, look_both, pop_old, pop_both, start_resizing, with_table, grow,
  c_map_look_up, c_map_insert, c_map_pop, c_map_size,
}
use coxx.Map.Slots.{to_nat, count, count_all}
use coxx.Map.Tables.{any, init_table-IsTable}
use coxx.Map.Resize.{Helped, help_resizing_lem}
use coxx.Map.Moved.{bag, IsMap}
use coxx.Map.Insert.{c_map_insert_lem}
use coxx.Map.Methods.{Looked, Popped, init_map-IsMap, c_map_look_up_lem, c_map_pop_lem}
use coxx.Base.Bits.{zero-IsMask, double-IsMask}
use coxx.Base.Bytes.{Bytes, u32_mod}
use coxx.Serialize
use coxx.Serialize.Value
use coxx.Serialize.Value.{encode}
use coxx.Entry.{keys, key_scan, scan, scan_slots, scan_chain}
use coxx.Entry.Keys.{nodes, texts, all_nodes, keys-encode}

all_of_map : Unit {0}
unfolding move_nodes help_resizing initialize insert look_up node_at detach look_old look_both
    pop_old pop_both start_resizing with_table grow c_map_look_up c_map_insert c_map_pop c_map_size
all_of_map = tt

abbrev entry : ℕ → Node ℕ
entry k = record { code = k; item = k * 10 }

abbrev is_item : ℕ → ℕ → Bool
is_item k x = x == k * 10

abbrev fill : ℕ → Map ℕ → Run (Map ℕ)
fill zero m = ok m
fill (suc n) m = c_map_insert m (entry n) >>= fill n

abbrev shape : Map ℕ → Run (ℕ × ℕ × ℕ)
shape m = ok (length m.table1.slots, length m.table2.slots, m.table1.size)

-- The table of four slots is doubled by the 32nd node, and all the nodes move.
fill_32 : fill 32 init_map >>= shape ≡ ok (8, 0, 32)
unfolding all_of_map
fill_32 = refl

abbrev empty : Map ℕ
empty = init_map

abbrev one : Map ℕ
one = (c_map_insert_lem empty (init_map-IsMap ℕ) (entry 7) (omega arith)).0

one-IsMap : IsMap one
one-IsMap = (c_map_insert_lem empty (init_map-IsMap ℕ) (entry 7) (omega arith)).2.0

c_map_insert_example :
    Returns
      (c_map_insert empty (entry 7))
      λ m'. IsMap m' × ((p : Node ℕ → Bool) → bag m' p ≡ bag empty p + to_nat (p (entry 7)))
c_map_insert_example = c_map_insert_lem empty (init_map-IsMap ℕ) (entry 7) (omega arith)

c_map_look_up_example :
    Returns (c_map_look_up one 7 (is_item 7)) (Looked one (matches 7 (is_item 7)))
c_map_look_up_example = c_map_look_up_lem one one-IsMap 7 (is_item 7)

c_map_pop_example : Returns (c_map_pop one 7 (is_item 7)) (Popped one (matches 7 (is_item 7)))
c_map_pop_example = c_map_pop_lem one one-IsMap 7 (is_item 7)

help_resizing_example : Returns (help_resizing one) (Helped one)
help_resizing_example = help_resizing_lem one one-IsMap

-- Three entries in four slots, and no old table.
abbrev three : Map ℕ
three = record {
  table1 = record {
    slots = [] ∷ (entry 5 ∷ []) ∷ [] ∷ (entry 7 ∷ entry 3 ∷ []) ∷ [];
    mask = 3;
    size = 3;
  };
  table2 = init_table;
  resizing_position = 0;
}

three-IsMap : IsMap three
unfolding count_all count
three-IsMap = record {
  first = record {
    width = λ h. refl;
    power = double-IsMask 1 (double-IsMask 0 zero-IsMask);
    counted = refl;
    placed = (tt, ((refl, tt), (tt, ((refl, (refl, tt)), tt))));
  };
  second = init_table-IsTable;
  emptied = tt;
  small = omega arith;
  narrow1 = omega arith;
  narrow2 = omega arith;
  behind = λ h. omega arith;
}

-- The key of an entry is the one byte of its number.
abbrev key : ℕ → Bytes
key k = k ∷ []

written_texts :
    keys key three []
    ≡ ok (
        6 ∷ 3 ∷ 0 ∷ 0 ∷ 0 ∷ 2 ∷ 1 ∷ 0 ∷ 0 ∷ 0 ∷ 50 ∷ 2 ∷ 1 ∷ 0 ∷ 0 ∷ 0 ∷ 70 ∷ 2 ∷ 1 ∷ 0 ∷ 0 ∷ 0 ∷ 30
        ∷ [])
unfolding keys key_scan scan scan_slots scan_chain c_map_size Serialize.arr Serialize.str
written_texts = refl

three_few : bag three any < u32_mod
unfolding count_all count
three_few = omega arith

three_short : All (λ (n : Node ℕ). length (key n.item) < u32_mod) (all_nodes key three)
unfolding nodes
three_short = (omega arith, (omega arith, (omega arith, tt)))

keys-encode_example :
    keys key three [] ≡ ok ([] ++ encode (Value.arr (texts key (all_nodes key three))))
keys-encode_example = keys-encode key three [] three-IsMap three_few three_short
