-- ===== src/Map/Insert.antt =====
-- `CMapInsert`: the first table is made, filled, and doubled when it is full.
use coxx.Base.{
  ℕ, suc, ◌+◌, ◌-◌, ◌*◌, ◌/◌, ◌%◌, ◌<◌, ◌≤◌, ◌≡◌, refl, ap, ◌∙◌, Bool, true, ◌&&◌, Bool-cases, inl,
  inr, length, arith, leb,
}
use coxx.Base.Bits.{zero-IsMask, double-IsMask, IsMask}
use coxx.Base.Bytes.{u64_mod}
use coxx.Base.Run.{ok, ◌>>=◌, Returns}
use coxx.Map.{Node, Table, Map, is_null, initialize, start_resizing, with_table, grow, c_map_insert}
use coxx.Map.Slots.{to_nat, count_all-null}
use native.Mathlib.Nat.{div-add-mod}
use coxx.Map.Tables.{any, Added, insert-Added, initialize-IsTable, null→eq, not_null→pos}
use coxx.Map.Resize.{help_resizing_lem}
use coxx.Map.Moved.{bag, max_nodes, IsMap}

quotient_bound : (a b : ℕ) → 8 ≤ a / b → 8 * b ≤ a
quotient_bound a b h = grind (arith, div-add-mod a b)

-- The masks of the first table, and of one with twice the slots.
three-IsMask : IsMask 3
three-IsMask = double-IsMask 1 (double-IsMask 0 zero-IsMask)

doubled-IsMask : (mask : ℕ) → IsMask mask → IsMask ((mask + 1) * 2 - 1)
doubled-IsMask mask m =
    let odd : (mask + 1) * 2 - 1 ≡ suc (2 * mask) = omega arith in rw odd (double-IsMask mask m)

module _ {ℓ} {A : Type ℓ} where
  -- The same nodes, in a well-formed map with a first table.
  record Ready (m m' : Map A) : Type ℓ where
    map : IsMap m'
    keeps : (p : Node A → Bool) → bag m' p ≡ bag m p
    sizes : m'.table1.size + m'.table2.size ≡ m.table1.size + m.table2.size
    wide : 0 < length m'.table1.slots

  with_table-Ready : (m : Map A) → IsMap m → Returns (with_table m) (Ready m)
  unfolding with_table
  with_table-Ready m v = elim (Bool-cases (is_null m.table1.slots)) [
    | inr wide ↦ (
      m,
      rw wide,
      record { map = v; keeps = λ p. refl; sizes = refl; wide = not_null→pos m.table1.slots wide },
    )
    | inl null ↦
        let empty = null→eq m.table1.slots null in
        let (t, run, (table, zero_count, width, mask)) =
          initialize-IsTable {A = A} 4 (omega arith) three-IsMask in
        let gone = λ (p : Node A → Bool). count_all-null p m.table1.slots empty in
        (
          record m { table1 = t },
          rw (null, run, ◌>>=◌),
          record {
            map = record {
              first = table;
              second = v.second;
              emptied = v.emptied;
              small = omega (arith, zero_count any, table.counted, v.small);
              narrow1 = omega arith;
              narrow2 = v.narrow2;
              behind = λ _. omega arith;
            };
            keeps = λ p. omega (arith, zero_count p, gone p);
            sizes = omega (arith, zero_count any, table.counted, gone any, v.first.counted);
            wide = omega arith;
          },
        )
  ]

  -- A first table with eight nodes to a slot becomes the old table of one twice as large.
  start-Ready :
      (m : Map A)
      → IsMap m
      → 0 < length m.table1.slots
      → is_null m.table2.slots ≡ true
      → 8 * (m.table1.mask + 1) ≤ m.table1.size
      → Returns (start_resizing m) (Ready m)
  unfolding start_resizing
  start-Ready m v wide null full =
      let n = (m.table1.mask + 1) * 2 in
      let exact : n % u64_mod ≡ n = omega (arith, v.small) in
      let (t, run, (table, zero_count, width, mask)) =
        initialize-IsTable {A = A} n (omega arith) (doubled-IsMask m.table1.mask v.first.power) in
      let fresh : initialize (n % u64_mod) ≡ ok t = ap (λ k. initialize {A = A} k) exact ∙ run in
      let gone =
        λ (p : Node A → Bool). count_all-null p m.table2.slots (null→eq m.table2.slots null) in
      (
        record { table1 = t; table2 = m.table1; resizing_position = 0 },
        rw (null, fresh, ◌>>=◌),
        record {
          map = record {
            first = table;
            second = v.first;
            emptied = tt;
            small =
                omega (arith, zero_count any, table.counted, gone any, v.second.counted, v.small);
            narrow1 = omega (arith, v.small);
            narrow2 = v.narrow1;
            behind = λ _. omega arith;
          };
          keeps = λ p. omega (arith, zero_count p, gone p);
          sizes = omega (arith, zero_count any, table.counted, gone any, v.second.counted);
          wide = omega arith;
        },
      )

  grow-Ready : (m : Map A) → IsMap m → 0 < length m.table1.slots → Returns (grow m) (Ready m)
  unfolding grow
  grow-Ready m v wide =
      elim (Bool-cases (is_null m.table2.slots && leb 8 (m.table1.size / (m.table1.mask + 1)))) [
        | inr rests ↦
            (m, rw rests, record { map = v; keeps = λ p. refl; sizes = refl; wide = wide })
        | inl grows ↦
            let (m', run, ready) =
              start-Ready m v wide (ground arith)
                (quotient_bound m.table1.size (m.table1.mask + 1) (ground arith)) in
            (m', rw grows run, ready)
      ]

module _ {ℓ} {A : Type ℓ} (m : Map A) (v : IsMap m) where
  with_node :
      (m₁ : Map A)
      → Ready m m₁
      → (node : Node A) → m.table1.size + m.table2.size + 1 < max_nodes
      → (t : Table A) → Added m₁.table1 node t
      → IsMap (record m₁ { table1 = t })
  with_node m₁ r node room t added = record {
    first = added.table;
    second = r.map.second;
    emptied = r.map.emptied;
    small = omega (arith, added.counts any, added.table.counted, r.map.first.counted, r.sizes);
    narrow1 = omega (arith, added.wide, r.map.narrow1);
    narrow2 = r.map.narrow2;
    behind = λ h. omega (arith, added.wide, r.map.behind h);
  }

  -- `CMapInsert` ends on a well-formed map with room for one node more. It adds the node to the
  -- multiset, changes nothing else of it, and leaves a well-formed map.
  pub c_map_insert_lem :
      (node : Node A)
      → m.table1.size + m.table2.size + 1 < max_nodes
      → Returns
          (c_map_insert m node)
          λ m'. IsMap m' × ((p : Node A → Bool) → bag m' p ≡ bag m p + to_nat (p node))
  unfolding c_map_insert
  c_map_insert_lem node room =
      let (m₁, e₁, r₁) = with_table-Ready m v in
      let (t, e₂, added) =
        insert-Added m₁.table1 r₁.map.first node r₁.wide (omega (arith, r₁.sizes)) in
      let (m₃, e₃, r₃) =
        grow-Ready (record m₁ { table1 = t }) (with_node m₁ r₁ node room t added)
          (omega (arith, added.wide, r₁.wide)) in
      let (m₄, e₄, helped) = help_resizing_lem m₃ r₃.map in
      (
        m₄,
        rw (e₁, ◌>>=◌, e₂, ◌>>=◌, e₃, ◌>>=◌) e₄,
        (helped.map, λ p. omega (arith, helped.keeps p, r₃.keeps p, added.counts p, r₁.keeps p)),
      )
