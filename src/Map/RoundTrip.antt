-- ===== src/Map/RoundTrip.antt =====
-- One operation of the map seen through the next.
use coxx.Base.{
  ℕ, ◌+◌, ◌<◌, ◌≤◌, ◌≡◌, refl, sym, ◌∙◌, Bool, true, false, not, ◌&&◌, Bool-cases, Option,
  Option-cases, none, some, inl, inr, arith,
}
use coxx.Base.Run.{◌>>=◌, Returns}
use coxx.Map.{Node, Map, matches, c_map_look_up, c_map_insert, c_map_pop}
use coxx.Map.Slots.{to_nat, count_all-and_le}
use coxx.Map.Moved.{bag, max_nodes, IsMap}
use coxx.Map.Insert.{c_map_insert_lem}
use coxx.Map.Methods.{Looked, Popped, c_map_look_up_lem, c_map_pop_lem}

module _ {ℓ} {A : Type ℓ} (m : Map A) (v : IsMap m) (code : ℕ) (eq : A → Bool) where
  -- With no match in `m`, only the node that is added can pass the key's test and another.
  only_added :
      (m' : Map A) (node n : Node A)
      → bag m (matches code eq) ≡ 0
      → ((p : Node A → Bool) → bag m' p ≡ bag m p + to_nat (p node))
      → matches code eq n ≡ true
      → ((q : Node A → Bool) → q n ≡ true → 0 < bag m' q)
      → (q : Node A → Bool) → q n ≡ true
      → q node ≡ true
  only_added m' node n gone added h pos q e =
      let p = matches code eq in
      let both : Node A → Bool = λ x. p x && q x in
      let passes : both n ≡ true = rw (h, e) in
      let few : bag m both ≡ 0 =
        omega (arith, count_all-and_le p q m.table1.slots, count_all-and_le p q m.table2.slots) in
      and_right (p node) (q node) (counted (both node) (omega (arith, pos both passes, added both)))
    where
      counted : (b : Bool) → 0 < to_nat b → b ≡ true
      counted true h = refl
      counted false h = absurd (omega arith)

      and_right : (a b : Bool) → (a && b) ≡ true → b ≡ true
      and_right true b h = h
      and_right false b h = cc

  -- A lookup after the insertion of a node that the key matches, into a map where nothing else
  -- does, returns that node: no test tells the two apart. Both calls end.
  pub look_up-insert :
      (node : Node A)
      → m.table1.size + m.table2.size + 1 < max_nodes
      → matches code eq node ≡ true
      → bag m (matches code eq) ≡ 0
      → Returns
          (c_map_insert m node >>= λ m'. c_map_look_up m' code eq)
          λ r. (n : Node A) × (r.1 ≡ some n) × ((q : Node A → Bool) → q n ≡ q node)
  look_up-insert node room h gone =
      let (m', e, (v', added)) = c_map_insert_lem m v node room in
      let (r, e', looked) = c_map_look_up_lem m' v' code eq in
      elim (Option-cases r.1) [
        | inl lost ↦ absurd (omega (arith, looked.missed lost, added (matches code eq), rise h))
        | inr (n, found) ↦
            let (hit, pos) = looked.found n found in
            let up = only_added m' node n gone added hit pos in
            (r, rw (e, ◌>>=◌) e', (n, found, λ q. same q n node up))
      ]
    where
      rise : {b : Bool} → b ≡ true → to_nat b ≡ 1
      rise e = rw e

      same :
          (q : Node A → Bool) (x y : Node A)
          → ((q : Node A → Bool) → q x ≡ true → q y ≡ true)
          → q x ≡ q y
      same q x y up = elim (Bool-cases (q x)) [
        | inl e ↦ e ∙ sym (up q e)
        | inr e ↦ ground (arith, e, up (λ z. not (q z)))
      ]

  -- After a pop, a lookup by the same key finds nothing, if at most one node matched it. Both calls
  -- end.
  pub look_up-pop :
      bag m (matches code eq) ≤ 1
      → Returns (c_map_pop m code eq >>= λ p. c_map_look_up p.0 code eq) (λ r. r.1 ≡ none)
  look_up-pop few =
      let (p, e, popped) = c_map_pop_lem m v code eq in
      let (r, e', looked) = c_map_look_up_lem p.0 popped.map code eq in
      (r, rw (e, ◌>>=◌) e', gone p r popped looked)
    where
      rise : {b : Bool} → b ≡ true → to_nat b ≡ 1
      rise e = rw e

      gone :
          (p r : Map A × Option (Node A))
          → Popped m (matches code eq) p
          → Looked p.0 (matches code eq) r
          → r.1 ≡ none
      gone p r popped looked = elim (Option-cases r.1) [
        | inl none_found ↦ none_found
        | inr (n, found) ↦
            let (hit, pos) = looked.found n found in
            let there = pos (matches code eq) hit in
            elim (Option-cases p.1) [
              | inl kept ↦
                  let (zero_match, same) = popped.missed kept in
                  absurd (omega (arith, same (matches code eq)))
              | inr (x, taken) ↦
                  let (hit_x, less) = popped.found x taken in
                  absurd (omega (arith, less (matches code eq), rise hit_x))
            ]
      ]
