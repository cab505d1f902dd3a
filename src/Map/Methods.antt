-- ===== src/Map/Methods.antt =====
-- `CMapLookUp`, `CMapPop`, `CMapSize` and `CMapDestroy` on the multiset of nodes.
use coxx.Base.{ℕ, ◌+◌, ◌<◌, ◌≡◌, refl, sym, ◌∙◌, Bool, true, subst, Option, none, some, arith}
use coxx.Base.Run.{ok, ◌>>=◌, Returns}
use coxx.Map.{
  Node, Table, Map, Cursor, init_map, matches, look_up, look_old, look_both, pop_old, pop_both,
  c_map_look_up, c_map_pop, c_map_size,
}
use coxx.Map.Slots.{to_nat, count_all, count_all_pos}
use coxx.Map.Tables.{
  any, At, Removed, LookedUp, look_up-LookedUp, node_at-At, detach-Removed, init_table-IsTable,
}
use coxx.Map.Resize.{help_resizing_lem}
use coxx.Map.Moved.{bag, IsMap}

-- Looking up gives a node that passes the test, or there is none.
pub record Looked {ℓ} {A : Type ℓ} (m : Map A) (p : Node A → Bool) (r : Map A × Option (Node A))
    : Type ℓ where
  pub map : IsMap r.0
  pub keeps : (q : Node A → Bool) → bag r.0 q ≡ bag m q
  pub missed : r.1 ≡ none → bag m p ≡ 0
  pub found :
      (n : Node A) → r.1 ≡ some n → (p n ≡ true) × ((q : Node A → Bool) → q n ≡ true → 0 < bag m q)

-- Popping takes away the node that it returns, or there is none to take.
pub record Popped {ℓ} {A : Type ℓ} (m : Map A) (p : Node A → Bool) (r : Map A × Option (Node A))
    : Type ℓ where
  pub map : IsMap r.0
  pub missed : r.1 ≡ none → (bag m p ≡ 0) × ((q : Node A → Bool) → bag r.0 q ≡ bag m q)
  pub found :
      (n : Node A)
      → r.1 ≡ some n
      → (p n ≡ true) × ((q : Node A → Bool) → bag r.0 q + to_nat (q n) ≡ bag m q)

-- What a cursor points to, in the multiset.
At-pos {ℓ} :
    {A : Type ℓ} (t : Table A) (from : Cursor) (n : Node A)
    → At t from n
    → (q : Node A → Bool) → q n ≡ true
    → 0 < count_all q t.slots
At-pos t (i, k) n at q h = count_all_pos q t.slots i k at.slot at.node h

-- A map whose old table is replaced by one with a node less, or whose new table is.
module _ {ℓ} {A : Type ℓ} (m : Map A) (v : IsMap m) (n : Node A) (t : Table A) where
  pop_first-IsMap : Removed m.table1 n t → IsMap (record m { table1 = t })
  pop_first-IsMap r = record {
    first = r.table;
    second = v.second;
    emptied = v.emptied;
    small = omega (arith, r.counts any, r.table.counted, v.first.counted, v.small);
    narrow1 = omega (arith, r.wide, v.narrow1);
    narrow2 = v.narrow2;
    behind = λ h. omega (arith, r.wide, v.behind h);
  }

  pop_second-IsMap : Removed m.table2 n t → IsMap (record m { table2 = t })
  pop_second-IsMap r = record {
    first = v.first;
    second = r.table;
    emptied = r.emptied m.resizing_position v.emptied;
    small = omega (arith, r.counts any, r.table.counted, v.second.counted, v.small);
    narrow1 = v.narrow1;
    narrow2 = omega (arith, r.wide, v.narrow2);
    behind = λ h. v.behind (omega (arith, r.wide));
  }

module _ {ℓ} {A : Type ℓ} (m : Map A) (v : IsMap m) (code : ℕ) (eq : A → Bool) where
  hit-Looked :
      (n : Node A)
      → matches code eq n ≡ true
      → ((q : Node A → Bool) → q n ≡ true → 0 < bag m q)
      → Looked m (matches code eq) (m, some n)
  hit-Looked n h pos = record {
    map = v;
    keeps = λ q. refl;
    missed = λ e. cc;
    found = λ x e.
        let same : n ≡ x = cc in
        subst
          (λ (y : Node A).
            (matches code eq y ≡ true) × ((q : Node A → Bool) → q y ≡ true → 0 < bag m q))
          same (h, pos);
  }

  look_old-Looked :
      count_all (matches code eq) m.table1.slots ≡ 0
      → (second : Option Cursor) → look_up m.table2 code eq ≡ ok second
      → LookedUp m.table2 (matches code eq) second
      → Returns (look_old m code eq) (Looked m (matches code eq))
  unfolding look_old
  look_old-Looked gone none e (_, rest) = (
    (m, none),
    rw e,
    record { map = v; keeps = λ q. refl; missed = λ _. omega arith; found = λ n x. cc },
  )
  look_old-Looked gone (some from) e (n, at, h) = (
    (m, some n),
    rw (e, ◌>>=◌, node_at-At m.table2 v.second from n at),
    hit-Looked n h (λ q x. omega (arith, At-pos m.table2 from n at q x)),
  )

  look_both-Looked :
      (first : Option Cursor)
      → look_up m.table1 code eq ≡ ok first
      → LookedUp m.table1 (matches code eq) first
      → Returns (look_both m code eq) (Looked m (matches code eq))
  unfolding look_both
  look_both-Looked none e (_, gone) =
      let (second, e', r) = look_up-LookedUp m.table2 v.second code eq in
      let (r, run, looked) = look_old-Looked gone second e' r in (r, rw e run, looked)
  look_both-Looked (some from) e (n, at, h) = (
    (m, some n),
    rw (e, ◌>>=◌, node_at-At m.table1 v.first from n at),
    hit-Looked n h (λ q x. omega (arith, At-pos m.table1 from n at q x)),
  )

  hit-Popped :
      (m' : Map A) (n : Node A)
      → IsMap m'
      → matches code eq n ≡ true
      → ((q : Node A → Bool) → bag m' q + to_nat (q n) ≡ bag m q)
      → Popped m (matches code eq) (m', some n)
  hit-Popped m' n v' h less = record {
    map = v';
    missed = λ e. cc;
    found = λ x e.
        let same : n ≡ x = cc in
        subst
          (λ (y : Node A).
            (matches code eq y ≡ true) × ((q : Node A → Bool) → bag m' q + to_nat (q y) ≡ bag m q))
          same (h, less);
  }

  pop_old-Popped :
      count_all (matches code eq) m.table1.slots ≡ 0
      → (second : Option Cursor) → look_up m.table2 code eq ≡ ok second
      → LookedUp m.table2 (matches code eq) second
      → Returns (pop_old m code eq) (Popped m (matches code eq))
  unfolding pop_old
  pop_old-Popped gone none e (_, rest) = (
    (m, none),
    rw e,
    record { map = v; missed = λ _. (omega arith, λ q. refl); found = λ n x. cc },
  )
  pop_old-Popped gone (some from) e (n, at, h) =
      let ((x, t), e', (same, less)) =
        detach-Removed m.table2 v.second from n at (omega (arith, v.small)) in
      (
        (record m { table2 = t }, some n),
        rw (e, ◌>>=◌, e', ◌>>=◌, same),
        hit-Popped (record m { table2 = t }) n (pop_second-IsMap m v n t less) h
            (λ q. omega (arith, less.counts q)),
      )

  pop_both-Popped :
      (first : Option Cursor)
      → look_up m.table1 code eq ≡ ok first
      → LookedUp m.table1 (matches code eq) first
      → Returns (pop_both m code eq) (Popped m (matches code eq))
  unfolding pop_both
  pop_both-Popped none e (_, gone) =
      let (second, e', r) = look_up-LookedUp m.table2 v.second code eq in
      let (r, run, popped) = pop_old-Popped gone second e' r in (r, rw e run, popped)
  pop_both-Popped (some from) e (n, at, h) =
      let ((x, t), e', (same, less)) =
        detach-Removed m.table1 v.first from n at (omega (arith, v.small)) in
      (
        (record m { table1 = t }, some n),
        rw (e, ◌>>=◌, e', ◌>>=◌, same),
        hit-Popped (record m { table1 = t }) n (pop_first-IsMap m v n t less) h
            (λ q. omega (arith, less.counts q)),
      )

-- An empty map, as `initMap` makes it.
pub init_map-IsMap {ℓ} : (A : Type ℓ) → IsMap {A = A} init_map
init_map-IsMap A = record {
  first = init_table-IsTable;
  second = init_table-IsTable;
  emptied = tt;
  small = omega arith;
  narrow1 = omega arith;
  narrow2 = omega arith;
  behind = λ h. absurd (omega arith);
}

module _ {ℓ} {A : Type ℓ} (m : Map A) (v : IsMap m) where
  -- `CMapLookUp` ends on a well-formed map, which stays well formed and keeps its nodes. It returns
  -- a node of the map with the key's code that the callback accepts, or there is none.
  pub c_map_look_up_lem :
      (code : ℕ) (eq : A → Bool) → Returns (c_map_look_up m code eq) (Looked m (matches code eq))
  unfolding c_map_look_up
  c_map_look_up_lem code eq =
      let (m₁, e₁, helped) = help_resizing_lem m v in
      let (first, e₂, r₂) = look_up-LookedUp m₁.table1 helped.map.first code eq in
      let (r, run, looked) = look_both-Looked m₁ helped.map code eq first e₂ r₂ in
      (
        r,
        rw e₁ run,
        record {
          map = looked.map;
          keeps = λ q. looked.keeps q ∙ helped.keeps q;
          missed = λ e. sym (helped.keeps (matches code eq)) ∙ looked.missed e;
          found = λ n e.
              let (h, pos) = looked.found n e in (h, λ q x. omega (arith, pos q x, helped.keeps q));
        },
      )

  -- `CMapPop` ends on a well-formed map, which stays well formed. It takes one node with the key's
  -- code that the callback accepts out of the multiset and returns it; if there is none it returns
  -- none and the multiset is the same.
  pub c_map_pop_lem :
      (code : ℕ) (eq : A → Bool) → Returns (c_map_pop m code eq) (Popped m (matches code eq))
  unfolding c_map_pop
  c_map_pop_lem code eq =
      let (m₁, e₁, helped) = help_resizing_lem m v in
      let (first, e₂, r₂) = look_up-LookedUp m₁.table1 helped.map.first code eq in
      let (r, run, popped) = pop_both-Popped m₁ helped.map code eq first e₂ r₂ in
      (
        r,
        rw e₁ run,
        record {
          map = popped.map;
          missed = λ e.
              let (gone, same) = popped.missed e in
              (sym (helped.keeps (matches code eq)) ∙ gone, λ q. same q ∙ helped.keeps q);
          found = λ n e. let (h, less) = popped.found n e in (h, λ q. less q ∙ helped.keeps q);
        },
      )

  -- `CMapSize` counts the nodes of a well-formed map.
  pub c_map_size_lem : c_map_size m ≡ bag m any
  unfolding c_map_size
  c_map_size_lem = omega (arith, v.first.counted, v.second.counted, v.small)
