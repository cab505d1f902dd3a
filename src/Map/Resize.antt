-- ===== src/Map/Resize.antt =====
-- `helpResizing`: the map stays well formed and keeps its nodes while they move.
use coxx.Base.{
  ℕ, zero, suc, ◌+◌, ◌-◌, ◌<◌, ◌≤◌, ◌≡◌, refl, ◌∙◌, Bool, true, false, not, ◌&&◌, Bool-cases, subst,
  ◌⊎◌, some, inl, inr, List, [], ◌∷◌, length, get_elem?, arith, if◌then◌else◌, ltb, ◌==◌,
}
use native.Mathlib.Decide.{dec_lt}
use coxx.Base.Bytes.{add64}
use coxx.Base.Run.{ok, ◌>>=◌, Returns}
use coxx.Map.{
  Node, Chain, Map, is_null, init_table, move_node, move_nodes, enough_fuel, help_resizing,
  resizing_work,
}
use coxx.Map.Slots.{count_all, Emptied, Emptied-lt, count_all-le-any}
use coxx.Map.Tables.{any, init_table-IsTable, null→eq}
use coxx.Map.Moved.{
  bag, IsMap, Moved, Moved-zero, Moved-none, Moved-trans, move_node-Moved, pass_slot,
}

lt→ltb : {a b : ℕ} → a < b → ltb a b ≡ true
lt→ltb h = ground arith

-- The test of the loop, decided.
ends {ℓ} :
    {A : Type ℓ} (work : ℕ) (m : Map A)
    → work ≤ resizing_work
    → ((work ≡ resizing_work) ⊎ (m.table2.size ≡ 0))
      ⊎ ((work < resizing_work) × (0 < m.table2.size))
ends work m w = elim (dec_lt work resizing_work) [
  | no done ↦ inl (inl (omega arith))
  | yes more ↦ elim (dec_lt 0 m.table2.size) [
    | no empty ↦ inl (inr (omega arith))
    | yes filled ↦ inr (more, filled)
  ]
]

slot-cases {ℓ} :
    {A : Type ℓ} (slots : List (Chain A)) (i : ℕ)
    → i < length slots
    → (get_elem? slots i ≡ some [])
      ⊎ ((n : Node A) × (rest : Chain A) × (get_elem? slots i ≡ some (n ∷ rest)))
slot-cases [] i h = absurd (omega arith)
slot-cases ([] ∷ slots) zero h = inl refl
slot-cases ((n ∷ c) ∷ slots) zero h = inr (n, c, refl)
slot-cases (c ∷ slots) (suc i) h = slot-cases slots i (omega arith)

module _ {ℓ} {A : Type ℓ} (fuel work : ℕ) (m : Map A) where
  loop_stops : (work ≡ resizing_work) ⊎ (m.table2.size ≡ 0) → move_nodes (suc fuel) work m ≡ ok m
  unfolding move_nodes
  loop_stops (inl e) = rw e
  loop_stops (inr e) = ground (arith, e)

  module _ (more : work < resizing_work) (filled : 0 < m.table2.size) where
    loop_passes :
        get_elem? m.table2.slots m.resizing_position ≡ some []
        → move_nodes (suc fuel) work m
          ≡ move_nodes fuel work (record m { resizing_position = add64 m.resizing_position 1 })
    unfolding move_nodes
    loop_passes e = rw (lt→ltb more, lt→ltb filled, e)

    loop_moves :
        (node : Node A) (rest : Chain A)
        → get_elem? m.table2.slots m.resizing_position ≡ some (node ∷ rest)
        → move_nodes (suc fuel) work m ≡ (move_node m >>= move_nodes fuel (work + 1))
    unfolding move_nodes
    loop_moves node rest e = rw (lt→ltb more, lt→ltb filled, e)

Moved-congr {ℓ} : {A : Type ℓ} {j k : ℕ} {m m' : Map A} → j ≡ k → Moved j m m' → Moved k m m'
Moved-congr {m} {m'} e u = subst (λ i. Moved i m m') e u

-- The loop ends by its test, within its fuel and inside the array: it has moved the nodes that it
-- may move, or all that are left.
move_nodes-Moved {ℓ} :
    {A : Type ℓ} (fuel work : ℕ) (m : Map A)
    → IsMap m
    → work ≤ resizing_work
    → (resizing_work - work) + (length m.table2.slots - m.resizing_position) < fuel
    → Returns (move_nodes fuel work m) (Moved (resizing_work - work) m)
move_nodes-Moved zero work m v w h = absurd (omega arith)
move_nodes-Moved (suc fuel) work m v w h = elim (ends work m w) [
  | inl (inl e) ↦ (m, loop_stops fuel work m (inl e), Moved-congr (omega arith) (Moved-zero m v))
  | inl (inr e) ↦ (m, loop_stops fuel work m (inr e), Moved-none (resizing_work - work) m v e)
  | inr (more, filled) ↦
      let inside = Emptied-lt any m.resizing_position m.table2.slots v.emptied (omega arith) in
      elim (slot-cases m.table2.slots m.resizing_position inside) [
        | inl e ↦
            let next = record m { resizing_position = add64 m.resizing_position 1 } in
            let passed = pass_slot m v e inside in
            let (m', run, moved) = move_nodes-Moved fuel work next passed.map w (omega arith) in
            (
              m',
              loop_passes fuel work m more filled e ∙ run,
              Moved-congr (omega arith) (Moved-trans 0 (resizing_work - work) passed moved),
            )
        | inr (node, rest, e) ↦
            let (m₁, step, (one, stay)) = move_node-Moved m v node rest e in
            let (m', run, moved) =
              move_nodes-Moved fuel (work + 1) m₁ one.map (omega arith)
                (omega (arith, one.wide2)) in
            (
              m',
              loop_moves fuel work m more filled node rest e ∙ rw step run,
              Moved-congr (omega arith) (Moved-trans 1 (resizing_work - (work + 1)) one moved),
            )
      ]
]

-- A map after a call of `helpResizing`.
pub record Helped {ℓ} {A : Type ℓ} (m m' : Map A) : Type ℓ where
  pub map : IsMap m'
  pub keeps : (p : Node A → Bool) → bag m' p ≡ bag m p
  pub left : m'.table2.size ≡ m.table2.size - resizing_work
  pub dropped : m'.table2.size ≡ 0 → m'.table2.slots ≡ []
  pub wide : length m'.table1.slots ≡ length m.table1.slots

-- The end of `helpResizing`.
drop_old {ℓ} : {A : Type ℓ} → Map A → Map A
drop_old m =
    if m.table2.size == 0 && not (is_null m.table2.slots)
    then record m { table2 = init_table }
    else m

module _ {ℓ} {A : Type ℓ} (m moved : Map A) (u : Moved resizing_work m moved) where
  drop_table : moved.table2.size ≡ 0 → Helped m (record moved { table2 = init_table })
  drop_table e = record {
    map = record {
      first = u.map.first;
      second = init_table-IsTable;
      emptied = none_kept moved.resizing_position;
      small = omega (arith, u.map.small);
      narrow1 = u.map.narrow1;
      narrow2 = omega arith;
      behind = λ h. absurd (omega arith);
    };
    keeps = λ p.
        unfold count_all in
        omega (arith, u.keeps p, count_all-le-any p moved.table2.slots, u.map.second.counted);
    left = omega (arith, u.left);
    dropped = λ _. refl;
    wide = u.wide1;
  }
    where
      none_kept : (n : ℕ) → Emptied {A = A} n []
      none_kept zero = tt
      none_kept (suc n) = tt

  keep_table : (moved.table2.size == 0 && not (is_null moved.table2.slots)) ≡ false → Helped m moved
  keep_table e = record {
    map = u.map;
    keeps = u.keeps;
    left = u.left;
    dropped = λ z. null→eq moved.table2.slots (ground arith);
    wide = u.wide1;
  }

  drop_old-Helped : Helped m (drop_old moved)
  unfolding drop_old
  drop_old-Helped = elim (Bool-cases (moved.table2.size == 0 && not (is_null moved.table2.slots))) [
    | inl e ↦ rw e (drop_table (ground arith))
    | inr e ↦ rw e (keep_table e)
  ]

-- `helpResizing` ends on a well-formed map. It keeps the nodes, moves 128 of them or all that are
-- left in the old table, and drops the old table when it is empty.
pub help_resizing_lem {ℓ} :
    {A : Type ℓ} (m : Map A) → IsMap m → Returns (help_resizing m) (Helped m)
unfolding help_resizing drop_old
help_resizing_lem m v =
    let (moved, run, u) = move_nodes-Moved (enough_fuel m) 0 m v (omega arith) (omega arith) in
    (drop_old moved, rw run, drop_old-Helped m moved u)
