-- ===== src/Map/Moved.antt =====
-- A map while its nodes move from the old table to the new one.
use coxx.Base.{
  ℕ, suc, ◌+◌, ◌-◌, ◌^◌, ◌<◌, ◌≤◌, ◌≡◌, refl, ◌∙◌, Bool, some, [], ◌∷◌, length, get_elem?, arith,
  get_elem?-lt,
}
use coxx.Base.Bytes.{add64}
use coxx.Base.Run.{◌>>=◌, Returns}
use coxx.Map.{Node, Chain, Map, move_node}
use coxx.Map.Slots.{count_all, Emptied, Emptied-step}
use coxx.Map.Tables.{any, IsTable, At, insert-Added, detach-Removed}

abbrev pub max_nodes : ℕ
max_nodes = 2 ^ 62

module _ {ℓ} {A : Type ℓ} where
  -- How many nodes of the map pass a test. With all tests together this is the map's multiset of
  -- nodes, whatever table and slot they stand in.
  abbrev pub bag : Map A → (Node A → Bool) → ℕ
  bag m p = count_all p m.table1.slots + count_all p m.table2.slots

  -- `narrow1`, `narrow2` and `small` keep the sums of the machine words exact.
  pub record IsMap (m : Map A) : Type ℓ where
    pub first : IsTable m.table1
    pub second : IsTable m.table2
    pub emptied : Emptied m.resizing_position m.table2.slots
    pub small : m.table1.size + m.table2.size < max_nodes
    pub narrow1 : length m.table1.slots ≤ max_nodes
    pub narrow2 : length m.table2.slots ≤ max_nodes
    pub behind : 0 < length m.table2.slots → 0 < length m.table1.slots

  -- `m'` is the map `m` after at most `work` nodes were moved.
  pub record Moved (work : ℕ) (m m' : Map A) : Type ℓ where
    pub map : IsMap m'
    pub keeps : (p : Node A → Bool) → bag m' p ≡ bag m p
    pub left : m'.table2.size ≡ m.table2.size - work
    pub wide1 : length m'.table1.slots ≡ length m.table1.slots
    pub wide2 : length m'.table2.slots ≡ length m.table2.slots

  pub Moved-zero : (m : Map A) → IsMap m → Moved 0 m m
  Moved-zero m v = record {
    map = v;
    keeps = λ p. refl;
    left = omega arith;
    wide1 = refl;
    wide2 = refl;
  }

  pub Moved-none : (work : ℕ) (m : Map A) → IsMap m → m.table2.size ≡ 0 → Moved work m m
  Moved-none work m v e = record {
    map = v;
    keeps = λ p. refl;
    left = omega arith;
    wide1 = refl;
    wide2 = refl;
  }

  pub Moved-trans :
      (j k : ℕ) {m m' m'' : Map A} → Moved j m m' → Moved k m' m'' → Moved (j + k) m m''
  Moved-trans j k u v = record {
    map = v.map;
    keeps = λ p. v.keeps p ∙ u.keeps p;
    left = omega (arith, u.left, v.left);
    wide1 = v.wide1 ∙ u.wide1;
    wide2 = v.wide2 ∙ u.wide2;
  }

module _ {ℓ} {A : Type ℓ} (m : Map A) (v : IsMap m) where
  -- One node is moved.
  pub move_node-Moved :
      (node : Node A) (rest : Chain A)
      → get_elem? m.table2.slots m.resizing_position ≡ some (node ∷ rest)
      → Returns (move_node m) λ m'. Moved 1 m m' × (m'.resizing_position ≡ m.resizing_position)
  unfolding move_node
  move_node-Moved node rest e =
      let at : At m.table2 (m.resizing_position, 0) node = record {
        chain = node ∷ rest;
        slot = e;
        node = refl;
      } in
      let ((r, old), e₂, (same, removed)) =
        detach-Removed m.table2 v.second (m.resizing_position, 0) node at
          (omega (arith, v.small)) in
      let (new, e₃, added) =
        insert-Added m.table1 v.first node
          (v.behind (omega (arith, get_elem?-lt m.table2.slots m.resizing_position e)))
          (omega (arith, v.small)) in
      let less = removed.counts any in
      let more = added.counts any in
      let sizes : (new.size ≡ m.table1.size + 1) × (old.size + 1 ≡ m.table2.size) = omega (
        arith, less, more, v.first.counted, v.second.counted, added.table.counted,
        removed.table.counted,
      ) in
      (
        record m { table1 = new; table2 = old },
        rw (e₂, ◌>>=◌, same, e₃, ◌>>=◌),
        (
          record {
            map = record {
              first = added.table;
              second = removed.table;
              emptied = removed.emptied m.resizing_position v.emptied;
              small = omega (arith, v.small);
              narrow1 = omega (arith, added.wide, v.narrow1);
              narrow2 = omega (arith, removed.wide, v.narrow2);
              behind = λ h. omega (arith, added.wide, v.behind (omega (arith, removed.wide)));
            };
            keeps = λ p. omega (arith, removed.counts p, added.counts p);
            left = omega arith;
            wide1 = added.wide;
            wide2 = removed.wide;
          },
          refl,
        ),
      )

  pub pass_slot :
      get_elem? m.table2.slots m.resizing_position ≡ some []
      → m.resizing_position < length m.table2.slots
      → Moved 0 m (record m { resizing_position = add64 m.resizing_position 1 })
  pass_slot e h =
      let next : add64 m.resizing_position 1 ≡ suc m.resizing_position = omega (arith, v.narrow2) in
      record {
        map = record {
          first = v.first;
          second = v.second;
          emptied = rw next (Emptied-step m.resizing_position m.table2.slots v.emptied e);
          small = v.small;
          narrow1 = v.narrow1;
          narrow2 = v.narrow2;
          behind = v.behind;
        };
        keeps = λ p. refl;
        left = omega arith;
        wide1 = refl;
        wide2 = refl;
      }
